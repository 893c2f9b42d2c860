-- ===== src/Switch/Cycle.antt =====
-- Lemmas on one automatic evaluation at the end of `record_verdict` (src/postrule/core.py).
use postrule.Prelude.{
  if-P, ◌≡◌, ◌⊎◌, inl, inr, refl, Bool, true, false, ◌&&◌, not, Option, none, some, String, List,
}
use postrule.Phase.{Phase, is_phase, prev_phase}
use postrule.Record.{ClassificationRecord, strip, is_empty}
use postrule.Gate.Decision.{GateDecision}
use postrule.Switch.Result.{
  Attempt, answered, failed, exits, Outcome, returned, raised, system_exit,
}
use postrule.Switch.State.{Storage, GateCall, Switch}
use postrule.Switch.Lifecycle.{
  step_down, demote, demoted, drift_settle, drift_ask, maybe_auto_demote, auto_reason,
}
use postrule.Switch.Verdicts.{
  absorb, absorbed, done, drift_check, try_advance, then_advance, check_gates,
}
use postrule.Switch.Moves.{phase_of, SteppedUp, SteppedDown, advance_moves}

pub absorb-P {ℓ κ} :
    {A : Type 0} {B : Type ℓ} (P : B → Type κ) (f : A → B) (failure exit : B) (o : Outcome A)
    → ((a : A) → P (f a))
    → P failure
    → P exit
    → P (absorb f failure exit o)
unfolding absorb
absorb-P P f failure exit (returned a) h k l = h a
absorb-P P f failure exit (raised system_exit) h k l = l
absorb-P P f failure exit (raised _) h k l = k

module _ {S : Type 0} where
  -- A drift check stepped down and says so, or changed nothing.
  abbrev DriftResult : Switch S → Outcome Bool × Switch S → Type 0
  DriftResult sw (o, sx) = (sx ≡ sw) ⊎ ((o ≡ returned true) × SteppedDown sw sx)

  demoted-DriftResult :
      (reason : String) (auto : Bool) (given : Option GateDecision) (sw : Switch S)
      (q : Option Phase)
      → prev_phase (phase_of sw) ≡ q
      → DriftResult sw (demoted (step_down (phase_of sw) reason auto given sw q))
  unfolding demoted step_down
  demoted-DriftResult reason auto given sw none n = inl refl
  demoted-DriftResult reason auto given sw (some target) n =
      inr (refl, record { is_prev = n; cooled = refl; same_log = refl })

  auto_demote-DriftResult :
      (d : GateDecision) (sw : Switch S)
      → DriftResult sw (demoted (demote auto_reason true (some d) sw))
  unfolding demote strip is_empty
  auto_demote-DriftResult d sw = demoted-DriftResult auto_reason true (some d) sw _ refl

  drift_settle-DriftResult :
      (sw : Switch S) (a : Attempt GateDecision) → DriftResult sw (drift_settle sw a)
  unfolding drift_settle
  drift_settle-DriftResult sw (failed e) = inl refl
  drift_settle-DriftResult sw exits = inl refl
  drift_settle-DriftResult sw (answered d) =
      if-P (DriftResult sw) d.target_better _ _ (auto_demote-DriftResult d sw) (inl refl)

  drift_ask-DriftResult :
      (g : GateCall) (sw : Switch S) (rows : Option (List ClassificationRecord))
      → DriftResult sw (drift_ask g sw rows)
  unfolding drift_ask
  drift_ask-DriftResult g sw none = inl refl
  drift_ask-DriftResult g sw (some rows) = drift_settle-DriftResult sw _

  maybe_auto_demote-DriftResult :
      (storage : Storage S) (g : GateCall) (sw : Switch S)
      → DriftResult sw (maybe_auto_demote storage g sw)
  unfolding maybe_auto_demote
  maybe_auto_demote-DriftResult storage g sw =
      if-P (DriftResult sw) (is_phase (phase_of sw) Phase.rule) _ _ (inl refl)
        (drift_ask-DriftResult g sw _)

  module _ (storage : Storage S) (gate : GateCall) where
    drift_check-DriftResult :
        (drift_gate : Option GateCall) (sw : Switch S)
        → DriftResult sw (drift_check storage gate drift_gate sw)
    unfolding drift_check
    drift_check-DriftResult none sw = inl refl
    drift_check-DriftResult (some g) sw =
        if-P (DriftResult sw) (sw.config.auto_demote) _ _
          (maybe_auto_demote-DriftResult storage g sw) (inl refl)

    -- Nothing changed, or the switch stepped up, or it stepped down.
    abbrev pub Cycle : Switch S → Switch S → Type 0
    Cycle sw sx = (sx ≡ sw) ⊎ (SteppedUp storage gate sw sx ⊎ SteppedDown sw sx)

    done-Cycle :
        {A : Type 0} (sw : Switch S) (o : Outcome A × Switch S) → Cycle sw o.1 → Cycle sw (done o).1
    unfolding done
    done-Cycle sw (returned a, sx) h = h
    done-Cycle sw (raised e, sx) h = h

    try_advance-Cycle :
        (drift_gate : Option GateCall) (sw : Switch S)
        → Cycle sw (try_advance storage gate drift_gate sw).1
    unfolding try_advance absorbed
    try_advance-Cycle drift_gate sw = elim (advance_moves storage gate true sw) [
      | inl e ↦ inl e
      | inr u ↦ inr (inl u)
    ]

    then_advance-Cycle :
        (drift_gate : Option GateCall) (b : Bool) (sw : Switch S)
        → Cycle sw (then_advance storage gate drift_gate b sw).1
    unfolding then_advance
    then_advance-Cycle drift_gate b sw =
        if-P (λ (r : Outcome (Unit {0}) × Switch S). Cycle sw r.1) (not b && sw.config.auto_advance)
          _ _
          (done-Cycle sw (try_advance storage gate drift_gate sw) (try_advance-Cycle drift_gate sw))
          (inl refl)

    pub check_gates-Cycle :
        (drift_gate : Option GateCall) (sw : Switch S)
        → Cycle sw (check_gates storage gate drift_gate sw).1
    unfolding check_gates
    check_gates-Cycle drift_gate sw =
        let next = drift_check storage gate drift_gate sw in
        elim (drift_check-DriftResult drift_gate sw) [
          | inl e ↦
              absorb-P (λ (r : Outcome (Unit {0}) × Switch S). Cycle sw r.1) _ _ _ next.0
                (λ b. rw e (then_advance-Cycle drift_gate b sw))
                (rw e (then_advance-Cycle drift_gate false sw)) (inl e)
          | inr (o, d) ↦ rw (o, absorb) (unfold then_advance in inr (inr d))
        ]
