-- ===== src/Signals/Swaps.antt =====
-- What a run of `reconcile_signals` (src/postrule/core.py) does to the phase.
use postrule.Prelude.{ℕ, ◌≤◌, ◌<◌, ◌≡◌, refl, ap, ◌∙◌, ◌&&◌, Option, some, List, any, arith, if-P}
use postrule.Phase.{Phase, order}
use postrule.Switch.Result.{Outcome, returned, raised}
use postrule.Switch.State.{Storage, Switch}
use postrule.Signals.Signature.{SignalSignature, Component}
use postrule.Signals.Managed.{
  Env, signature_key, Managed, Happening, swap, Justification, SwapAction, demote_action,
  flag_action, signal_signature, phase_of, note, put_signature, head_is_present, recency_window,
  save_signature,
}
use postrule.Signals.Reconcile.{
  is_trigger, drop_head, quarantine_head, close_swap, close_run, swap_turns, handle_swap,
}
use postrule.Signals.Descent.{
  Refuted, Rests, at_floor, no_gate, holds, Lowered, Lowered-note, Ended, rejustify_lem,
}

module _ {S : Type 0} (storage : Storage S) (env : Env) where
  -- The switch and what the loop reads are the same.
  pub record Kept (m n : Managed S) : Type 0 where
    pub same_switch : n.switch ≡ m.switch
    pub same_gate : n.gate ≡ m.gate
    pub same_window : recency_window storage env n ≡ recency_window storage env m

  pub put_signature-Kept :
      (j : Justification) (m n : Managed S) → Kept m n → Kept m (put_signature env j n)
  unfolding put_signature recency_window
  put_signature-Kept j m n k =
      if-P (Kept m) (env.writes signature_key) _ n
        (record {
          same_switch = k.same_switch;
          same_gate = k.same_gate;
          same_window = k.same_window;
        })
        k

  pub save_signature-Kept :
      (sig : SignalSignature) (m n : Managed S)
      → Kept m n
      → Kept m (save_signature storage env sig n)
  unfolding save_signature
  save_signature-Kept sig m n k = put_signature-Kept _ m n k

  pub Kept-refl : (m : Managed S) → Kept m m
  Kept-refl m = record { same_switch = refl; same_gate = refl; same_window = refl }

  pub note-Kept :
      (h : Happening) (before : Option SignalSignature) (after : SignalSignature) (m n : Managed S)
      → Kept m n
      → Kept m (note env h before after n)
  unfolding note recency_window
  note-Kept h before after m n k = record {
    same_switch = k.same_switch;
    same_gate = k.same_gate;
    same_window = k.same_window;
  }

  quarantine_head-Kept :
      (prev cur : SignalSignature) (changed : List Component) (m n : Managed S)
      → Kept m n
      → Kept m (quarantine_head env prev cur changed n)
  unfolding quarantine_head drop_head note recency_window
  quarantine_head-Kept prev cur changed m n k =
      if-P (Kept m) (any is_trigger changed && head_is_present env n) _ n
        (record {
          same_switch = k.same_switch;
          same_gate = k.same_gate;
          same_window = k.same_window;
        })
        k

  Rests-Kept : (n k : Managed S) → Kept n k → Rests storage env n → Rests storage env k
  Rests-Kept n k same (at_floor e) =
      at_floor (ap (λ (sw : Switch S). sw.config.starting_phase) same.same_switch ∙ e)
  Rests-Kept n k same (no_gate e) = no_gate (same.same_gate ∙ e)
  Rests-Kept n k same (holds rows pred g w p hg h) =
      let at : phase_of k ≡ phase_of n =
        ap (λ (sw : Switch S). sw.config.starting_phase) same.same_switch in
      let gates : k.gate ≡ n.gate = same.same_gate in
      holds rows pred g (same.same_window ∙ w) (rw at p) (gates ∙ hg) (rw (at, gates) h)

  -- The phase did not rise, the log is the same, and each phase that was given up was refuted.
  pub record Reconciled (m n : Managed S) : Type 0 where
    pub descends : order (phase_of n) ≤ order (phase_of m)
    pub same_log : n.switch.log ≡ m.switch.log
    pub gave_up :
        (q : Phase)
        → order (phase_of n) < order q
        → order q ≤ order (phase_of m)
        → Refuted storage env m q

  pub Lowered-Reconciled : (m n k : Managed S) → Lowered storage env m n → Kept n k → Reconciled m k
  Lowered-Reconciled m n k l same =
      let at : order (phase_of k) ≡ order (phase_of n) =
        ap (λ (sw : Switch S). order (sw.config.starting_phase)) same.same_switch in
      record {
        descends = omega (arith, l.descends);
        same_log = ap (λ (sw : Switch S). sw.log) same.same_switch ∙ l.same_log;
        gave_up = λ q lo hi. l.gave_up q (omega (arith, lo)) hi;
      }

  pub Lowered-refl : (m : Managed S) → Lowered storage env m m
  Lowered-refl m = record {
    descends = omega arith;
    same_log = refl;
    same_gate = refl;
    same_window = refl;
    same_signals = refl;
    gave_up = λ q lo hi. absurd (omega (arith, lo, hi));
  }

  -- How a swap ends: at a normal end also the reason to rest.
  abbrev pub Swapped : Managed S → Outcome (Unit {0}) × Managed S → Type 0
  Swapped m (returned u, k) = Reconciled m k × Rests storage env k
  Swapped m (raised e, k) = Reconciled m k

  module _ (prev cur : SignalSignature) (changed : List Component) where
    close_swap-Swapped :
        (m : Managed S) (r : Outcome (Unit {0}) × Managed S)
        → Ended storage env prev cur changed m r
        → Swapped m (close_swap storage env prev cur changed r)
    unfolding close_swap
    close_swap-Swapped m (raised e, n) l = Lowered-Reconciled m n n l (Kept-refl n)
    close_swap-Swapped m (returned u, n) (l, rests) =
        let k = quarantine_head env prev cur changed n in
        let same =
          save_signature-Kept (signal_signature k) n k
            (quarantine_head-Kept prev cur changed n n (Kept-refl n)) in
        (Lowered-Reconciled m n _ l same, Rests-Kept n _ same rests)

    pub handle_swap-demotes :
        (fuel : ℕ) (m : Managed S)
        → 5 < fuel
        → m.signal_swap_action ≡ demote_action
        → (r : Outcome (Unit {0}) × Managed S) × (handle_swap storage fuel env prev cur changed m
            ≡ some r)
          × Swapped m r
    unfolding handle_swap swap_turns close_run
    handle_swap-demotes fuel m h e =
        let noted = note env (swap changed) (some prev) cur m in
        let (r, runs, ended) =
          rejustify_lem storage env prev cur changed fuel m noted h
            (Lowered-note storage env (swap changed) (some prev) cur m m (Lowered-refl m)) in
        (
          close_swap storage env prev cur changed r,
          ap
                (λ (a : SwapAction).
                  close_run storage env prev cur changed
                    (swap_turns storage fuel env prev cur changed noted a))
                e
              ∙ ap (close_run storage env prev cur changed) runs,
          close_swap-Swapped m r ended,
        )

    pub handle_swap-flags :
        (fuel : ℕ) (m : Managed S)
        → m.signal_swap_action ≡ flag_action
        → (k : Managed S) × (handle_swap storage fuel env prev cur changed m
            ≡ some (returned tt, k))
          × (k.switch ≡ m.switch)
    unfolding handle_swap close_run close_swap
    handle_swap-flags fuel m e =
        let noted = note env (swap changed) (some prev) cur m in
        let clean = quarantine_head env prev cur changed noted in
        let same : Kept m clean =
          quarantine_head-Kept prev cur changed m noted
            (note-Kept (swap changed) (some prev) cur m m (Kept-refl m)) in
        (
          save_signature storage env (signal_signature clean) clean,
          ap
              (λ (a : SwapAction).
                close_run storage env prev cur changed
                  (swap_turns storage fuel env prev cur changed noted a))
              e,
          (save_signature-Kept (signal_signature clean) m clean same).same_switch,
        )
