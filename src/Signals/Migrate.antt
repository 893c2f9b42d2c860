-- ===== src/Signals/Migrate.antt =====
-- `migrate_defaults` of src/postrule/core.py. A run of its loop goes by fuel, of which `none` means
-- that there was too little.
use postrule.Prelude.{ℕ, Bool, true, false, Option, none, some, String, List, ltb, if◌then◌else◌}
use postrule.Phase.{Phase, prev_phase}
use postrule.Record.{ClassificationRecord}
use postrule.Switch.Result.{
  Attempt, answered, failed, exits, attribute_error, storage_error, system_exit, raised_by_caller,
  Outcome, returned, raised,
}
use postrule.Gate.Decision.{GateDecision}
use postrule.Switch.State.{Storage}
use postrule.Switch.Lifecycle.{demote}
use postrule.Signals.Signature.{GateInfo, SignalSignature, opt_text_eq}
use postrule.Signals.Managed.{
  Env, Defaults, Managed, migrated, migrate_reset, migrate_rejected, resolve_gate, min_paired_of,
  signal_signature, phase_of, append_ledger, note, recency_window, save_signature,
}
use postrule.Signals.Reconcile.{Turn, stop, again, turns}

-- The text that the demotions give for their reason; the version, which the code puts behind it, is
-- in the ledger.
abbrev pub reset_reason : String
reset_reason = "accept_reset migration to default-set"

-- `ok`, once the new gate was asked
unfoldable pub approves : ℕ → Attempt GateDecision → Outcome Bool
approves least (failed e) = raised (raised_by_caller e)
approves least exits = raised system_exit
approves least (answered d) =
    returned (if ltb d.paired_sample_size least then false else d.target_better)

unfoldable pub ask_new :
    Phase → Phase → Option GateInfo → Option (List ClassificationRecord) → Outcome Bool
unfolding approves min_paired_of
ask_new pred current g none = raised storage_error
ask_new pred current none (some rows) = raised attribute_error
ask_new pred current (some g) (some rows) =
    approves (min_paired_of (some g)) (g.evaluate rows pred current)

-- `ok`: RULE always migrates
unfoldable pub still_earned :
    Phase → Option GateInfo → Option (List ClassificationRecord) → Option Phase → Outcome Bool
unfolding ask_new
still_earned current g rows none = returned true
still_earned current g rows (some pred) = ask_new pred current g rows

module _ {S : Type 0} where
  unfoldable pub adopt_gate : String → Option GateInfo → Managed S → Managed S
  adopt_gate v g m = record m { gate = g; default_set_version = some v }

  unfoldable pub step_to_floor : Managed S → Managed S
  unfolding demote
  step_to_floor m = record m { switch = (demote reset_reason true none m.switch).1 }

  unfoldable pub floor_turn : Managed S → Option Phase → Turn (Managed S)
  unfolding step_to_floor
  floor_turn m none = stop m
  floor_turn m (some pred) = again (step_to_floor m)

  -- One turn of `while self.phase() is not Phase.RULE`: RULE alone has no phase below.
  unfoldable pub reset_turn : Managed S → Turn (Managed S)
  unfolding floor_turn
  reset_turn m = floor_turn m (prev_phase (phase_of m))

  module _ (storage : Storage S) where
    unfoldable pub keep_phase :
        Env → String → Option GateInfo → SignalSignature → Managed S → Managed S
    unfolding adopt_gate save_signature note signal_signature
    keep_phase env v g before m =
        let new = adopt_gate v g m in
        let after = signal_signature new in
        note env (migrated v) (some before) after (save_signature storage env after new)

    unfoldable pub close_reset :
        Env
        → String
        → Phase
        → SignalSignature
        → Option (Outcome (Unit {0}) × Managed S)
        → Option (Outcome Bool × Managed S)
    unfolding append_ledger save_signature signal_signature
    close_reset env v current before none = none
    close_reset env v current before (some (raised e, m)) = some (raised e, m)
    close_reset env v current before (some (returned u, m)) =
        let after = signal_signature m in
        some (
          returned true,
          append_ledger env
              (record {
                at = env.now;
                event = migrate_reset v;
                sig_before = some before;
                sig_after = after;
                phase_before = current;
                phase_after = phase_of m;
              })
              (save_signature storage env after m),
        )

    -- `migrate_defaults` once the phase was judged
    unfoldable pub migrate_judged :
        ℕ
        → Env
        → String
        → Bool
        → Option GateInfo
        → SignalSignature
        → Managed S
        → Outcome Bool
        → Option (Outcome Bool × Managed S)
    unfolding keep_phase close_reset turns reset_turn adopt_gate note
    migrate_judged fuel env v accept_reset g before m (raised e) = some (raised e, m)
    migrate_judged fuel env v accept_reset g before m (returned true) =
        some (returned true, keep_phase env v g before m)
    migrate_judged fuel env v true g before m (returned false) =
        close_reset env v (phase_of m) before (turns reset_turn fuel (adopt_gate v g m))
    migrate_judged fuel env v false g before m (returned false) =
        some (returned false, note env (migrate_rejected v) (some before) before m)

    -- `migrate_defaults`
    unfoldable pub migrate_defaults :
        ℕ → Env → Defaults → String → Bool → Managed S → Option (Outcome Bool × Managed S)
    unfolding migrate_judged still_earned recency_window opt_text_eq resolve_gate signal_signature
    migrate_defaults fuel env defaults v accept_reset m =
        let g = resolve_gate defaults (some v) in
        let judged =
          still_earned (phase_of m) g (recency_window storage env m) (prev_phase (phase_of m)) in
        let done = migrate_judged fuel env v accept_reset g (signal_signature m) m judged in
        if m.gate_is_default
        then if opt_text_eq (some v) m.default_set_version then some (returned true, m) else done
        else some (returned false, m)
