-- ===== src/Signals/Reconcile.antt =====
-- `reconcile_signals` of src/postrule/core.py. A run of its loop goes by fuel, of which `none` means
-- that there was too little.
use text.Mathlib.Text.{◌==◌ as str_eq}
use Prim.Native.String.{String}
use postrule.Prelude.{
  ℕ, zero, suc, Bool, true, false, ◌&&◌, ◌||◌, not, Option, none, some, List, [], ◌∷◌, ltb, any,
  if◌then◌else◌, select,
}
use postrule.Phase.{Phase, prev_phase}
use postrule.Record.{ClassificationRecord}
use postrule.Gate.Decision.{GateDecision}
use postrule.Switch.Result.{
  Attempt, answered, failed, exits, storage_error, Error, Outcome, returned, raised,
}
use postrule.Switch.State.{Storage}
use postrule.Switch.Lifecycle.{demote}
use postrule.Signals.Ident.{Idents, cons, string}
use postrule.Signals.Signature.{
  GateInfo, SignalSignature, Component, judge, gate, strategy, labels, opt_text_eq, same_core,
  changed_components,
}
use postrule.Signals.Managed.{
  Env, head_key, Defaults, Managed, adopt, advisory, held, pin, swap, quarantine, demoted,
  Justification, SwapAction, flag_action, demote_action, default_mark, resolve_gate, min_paired_of,
  signal_signature, phase_of, append_ledger, note, load_signature, save_signature_as,
  head_is_present, recency_window, save_signature,
}

-- What one turn of a loop does.
pub data Turn (M : Type 0) : Type 0 where
  stop again : M → Turn M
  fail : Error → M → Turn M

module _ {M : Type 0} where
  unfoldable pub take_turn :
      (M → Option (Outcome (Unit {0}) × M)) → Turn M → Option (Outcome (Unit {0}) × M)
  take_turn rest (stop m) = some (returned tt, m)
  take_turn rest (fail e m) = some (raised e, m)
  take_turn rest (again m) = rest m

  -- `while`: turns until one stops or raises
  unfoldable pub turns : (M → Turn M) → ℕ → M → Option (Outcome (Unit {0}) × M)
  unfolding take_turn
  turns turn zero m = none
  turns turn (suc fuel) m = take_turn (turns turn fuel) (turn m)

-- The text that the demotions give for their reason; the names of the components that changed,
-- which the code puts behind it, are in the ledger.
abbrev pub swap_reason : String
swap_reason = "signal-swap re-justification failed"

-- `changed == ["gate"]`
unfoldable pub gate_only : List Component → Bool
gate_only (gate ∷ []) = true
gate_only _ = false

-- `c in quarantine_triggers`
unfoldable pub is_trigger : Component → Bool
is_trigger judge = true
is_trigger strategy = true
is_trigger labels = true
is_trigger _ = false

-- `gate_id and gate_id[0] == "__default__"`
unfoldable pub is_default_id : Idents → Bool
is_default_id (cons (string s) rest) = str_eq s default_mark
is_default_id _ = false

-- `gate_id[1]`, of a default gate's identity
unfoldable pub pinned_version : Idents → Option String
pinned_version (cons mark (cons (string v) rest)) = some v
pinned_version _ = none

-- `a is not None and b is not None and a != b`
unfoldable pub both_differ : Option String → Option String → Bool
both_differ (some a) (some b) = not (str_eq a b)
both_differ _ _ = false

-- `rule_drifted`
unfoldable pub rule_drifted : SignalSignature → SignalSignature → Bool
unfolding both_differ
rule_drifted prev cur = both_differ prev.rule_drift_digest cur.rule_drift_digest

module _ {S : Type 0} where
  -- The branch without a swap.
  unfoldable pub refresh_stamps :
      Env → SignalSignature → SignalSignature → Justification → Managed S → Managed S
  unfolding rule_drifted note save_signature_as
  refresh_stamps env prev cur j m =
      let noted = (if rule_drifted prev cur then note env advisory (some prev) cur m else m) in
      if rule_drifted prev cur || not (opt_text_eq prev.ml_head_version cur.ml_head_version)
      then save_signature_as env cur j noted
      else noted

  -- The branch that pins the default gate's version.
  unfoldable pub pin_gate : Defaults → Option String → Managed S → Managed S
  unfolding resolve_gate
  pin_gate defaults v m = record m { gate = resolve_gate defaults v; default_set_version = v }

  -- Is the only change the version of the library's default gate?
  unfoldable pub is_default_drift :
      SignalSignature → SignalSignature → List Component → Managed S → Bool
  unfolding gate_only is_default_id
  is_default_drift prev cur changed m =
      gate_only changed
      && (m.gate_is_default && (is_default_id prev.gate_id && is_default_id cur.gate_id))

  -- The demotion of one turn, with its event.
  unfoldable pub demote_unjustified :
      Env
      → SignalSignature
      → SignalSignature
      → List Component
      → GateDecision
      → Managed S
      → Managed S
  unfolding demote append_ledger
  demote_unjustified env prev cur changed d m =
      let lower = record m { switch = (demote swap_reason true (some d) m.switch).1 } in
      append_ledger env
        (record {
          at = env.now;
          event = demoted changed d;
          sig_before = some prev;
          sig_after = cur;
          phase_before = phase_of m;
          phase_after = phase_of lower;
        })
        lower

  -- A turn once the gate was asked.
  unfoldable pub judge_turn :
      Env
      → SignalSignature
      → SignalSignature
      → List Component
      → Managed S
      → Attempt GateDecision
      → Turn (Managed S)
  unfolding demote_unjustified note min_paired_of
  judge_turn env prev cur changed m (failed e) = stop m
  judge_turn env prev cur changed m exits = stop m
  judge_turn env prev cur changed m (answered d) =
      if d.target_better
      then stop m
      else if ltb d.paired_sample_size (min_paired_of m.gate)
      then stop (note env held (some prev) cur m)
      else again (demote_unjustified env prev cur changed d m)

  unfoldable pub ask_turn :
      Env
      → SignalSignature
      → SignalSignature
      → List Component
      → Phase
      → Managed S
      → Option GateInfo
      → Option (List ClassificationRecord)
      → Turn (Managed S)
  unfolding judge_turn
  ask_turn env prev cur changed pred m g none = fail storage_error m
  ask_turn env prev cur changed pred m none (some rows) = stop m
  ask_turn env prev cur changed pred m (some g) (some rows) =
      judge_turn env prev cur changed m (g.evaluate rows pred (phase_of m))

  -- The head is left for a new fit: its stored state goes, and the instance if a strategy picks one.
  unfoldable pub drop_head : Env → Managed S → Managed S
  drop_head env m = record m {
    stored_head = if env.writes head_key then false else m.stored_head;
    ml_head = elim (m.head_strategy) [ none ↦ m.ml_head | some s ↦ none ];
  }

  unfoldable pub quarantine_head :
      Env → SignalSignature → SignalSignature → List Component → Managed S → Managed S
  unfolding is_trigger any drop_head note head_is_present select
  quarantine_head env prev cur changed m =
      if any is_trigger changed && head_is_present env m
      then note env (quarantine (select is_trigger changed)) (some prev) cur (drop_head env m)
      else m

  module _ (storage : Storage S) where
    -- A turn of the loop at a phase with this one below it.
    unfoldable pub turn_above :
        Env
        → SignalSignature
        → SignalSignature
        → List Component
        → Managed S
        → Option Phase
        → Turn (Managed S)
    unfolding ask_turn recency_window
    turn_above env prev cur changed m none = stop m
    turn_above env prev cur changed m (some pred) =
        ask_turn env prev cur changed pred m m.gate (recency_window storage env m)

    -- One turn of the loop, its test included: RULE alone has no phase below.
    unfoldable pub rejustify_turn :
        Env → SignalSignature → SignalSignature → List Component → Managed S → Turn (Managed S)
    unfolding turn_above
    rejustify_turn env prev cur changed m =
        turn_above env prev cur changed m (prev_phase (phase_of m))

    -- The end of the method, after the loop.
    unfoldable pub close_swap :
        Env
        → SignalSignature
        → SignalSignature
        → List Component
        → Outcome (Unit {0}) × Managed S
        → Outcome (Unit {0}) × Managed S
    unfolding quarantine_head save_signature signal_signature
    close_swap env prev cur changed (raised e, m) = (raised e, m)
    close_swap env prev cur changed (returned u, m) =
        let clean = quarantine_head env prev cur changed m in
        (returned u, save_signature storage env (signal_signature clean) clean)

    unfoldable pub close_run :
        Env
        → SignalSignature
        → SignalSignature
        → List Component
        → Option (Outcome (Unit {0}) × Managed S)
        → Option (Outcome (Unit {0}) × Managed S)
    unfolding close_swap
    close_run env prev cur changed none = none
    close_run env prev cur changed (some r) = some (close_swap env prev cur changed r)

    -- `if action != "flag"`, with the loop
    unfoldable pub swap_turns :
        ℕ
        → Env
        → SignalSignature
        → SignalSignature
        → List Component
        → Managed S
        → SwapAction
        → Option (Outcome (Unit {0}) × Managed S)
    unfolding turns rejustify_turn
    swap_turns fuel env prev cur changed m flag_action = some (returned tt, m)
    swap_turns fuel env prev cur changed m demote_action =
        turns (rejustify_turn env prev cur changed) fuel m

    -- The branch of a swap.
    unfoldable pub handle_swap :
        ℕ
        → Env
        → SignalSignature
        → SignalSignature
        → List Component
        → Managed S
        → Option (Outcome (Unit {0}) × Managed S)
    unfolding close_run swap_turns note
    handle_swap fuel env prev cur changed m =
        let noted = note env (swap changed) (some prev) cur m in
        close_run env prev cur changed
          (swap_turns fuel env prev cur changed noted m.signal_swap_action)

    unfoldable pub adopt_signature : Env → Managed S → Managed S
    unfolding save_signature note signal_signature
    adopt_signature env m =
        let cur = signal_signature m in note env adopt none cur (save_signature storage env cur m)

    unfoldable pub pin_default :
        Env → Defaults → SignalSignature → SignalSignature → Managed S → Managed S
    unfolding pin_gate pinned_version note save_signature signal_signature
    pin_default env defaults prev cur m =
        let v = pinned_version prev.gate_id in
        let noted = note env (pin v) (some cur) prev (pin_gate defaults v m) in
        save_signature storage env (signal_signature noted) noted

    unfoldable pub compare_signatures :
        ℕ
        → Env
        → Defaults
        → SignalSignature
        → Managed S
        → Option (SignalSignature × Justification)
        → Option (Outcome (Unit {0}) × Managed S)
    unfolding adopt_signature refresh_stamps pin_default handle_swap is_default_drift same_core
        changed_components
    compare_signatures fuel env defaults cur m none = some (returned tt, adopt_signature env m)
    compare_signatures fuel env defaults cur m (some (prev, j)) =
        let changed = changed_components cur prev in
        if same_core prev cur
        then some (returned tt, refresh_stamps env prev cur j m)
        else if is_default_drift prev cur changed m
        then some (returned tt, pin_default env defaults prev cur m)
        else handle_swap fuel env prev cur changed m

    -- `reconcile_signals`
    unfoldable pub reconcile_signals :
        ℕ → Env → Defaults → Managed S → Option (Outcome (Unit {0}) × Managed S)
    unfolding compare_signatures load_signature signal_signature
    reconcile_signals fuel env defaults m =
        compare_signatures fuel env defaults (signal_signature m) m (load_signature env m)
