-- ===== src/Switch/Moves.antt =====
-- Lemmas on the phase changes of `advance` and `demote` (src/postrule/core.py).
use postrule.Prelude.{
  ◌≤◌, ◌≡◌, ◌⊎◌, inl, inr, refl, Bool, true, false, ◌&&◌, ◌||◌, Option, none, some, String, List,
  ltb, arith, Bool-cases,
}
use postrule.Phase.{Phase, order, is_phase, next_phase, prev_phase}
use postrule.Record.{ClassificationRecord, codes, strip, is_empty}
use postrule.Gate.Decision.{GateDecision}
use postrule.Switch.Result.{Attempt, answered, failed, exits, value_error, raised}
use postrule.Switch.State.{Storage, GateCall, Switch}
use postrule.Switch.Lifecycle.{settle, step_down, demote, ask, step_up, advance}

-- The gate answered `d` for the step from one phase to another on these rows, and holds the target
-- better.
pub record Justified (gate : GateCall) (rows : List ClassificationRecord) (p q : Phase)
    : Type 0 where
  pub decision : GateDecision
  pub answers : gate rows p q ≡ answered decision
  pub better : decision.target_better ≡ true

module _ {S : Type 0} where
  abbrev pub phase_of : Switch S → Phase
  phase_of sw = sw.config.starting_phase

  -- The switch stepped up to its next phase, within its ceiling, justified by the rows of its log.
  pub record SteppedUp (storage : Storage S) (gate : GateCall) (sw sx : Switch S) : Type 0 where
    pub rows : List ClassificationRecord
    pub loads : storage.load_records sw.log ≡ some rows
    pub is_next : next_phase (phase_of sw) ≡ some (phase_of sx)
    pub in_limit : order (phase_of sx) ≤ order (sw.config.phase_limit)
    pub justified : Justified gate rows (phase_of sw) (phase_of sx)
    pub cooled : sx.since_change ≡ 0
    pub same_log : sx.log ≡ sw.log

  settle-moves :
      (storage : Storage S) (gate : GateCall) (target : Phase) (auto : Bool) (sw : Switch S)
      (rows : List ClassificationRecord) (a : Attempt GateDecision)
      → gate rows (phase_of sw) target ≡ a
      → storage.load_records sw.log ≡ some rows
      → next_phase (phase_of sw) ≡ some target
      → order target ≤ order (sw.config.phase_limit)
      → let sx = (settle (phase_of sw) target auto sw a).1 in
        (sx ≡ sw) ⊎ SteppedUp storage gate sw sx
  unfolding settle
  settle-moves storage gate target auto sw rows (failed e) eq l n k = inl refl
  settle-moves storage gate target auto sw rows exits eq l n k = inl refl
  settle-moves storage gate target auto sw rows (answered d) eq l n k =
      elim (Bool-cases d.target_better) [
        | inl b ↦ rw b (
            inr (record {
              rows = rows;
              loads = l;
              is_next = n;
              in_limit = k;
              justified = record { decision = d; answers = eq; better = b };
              cooled = refl;
              same_log = refl;
            }))
        | inr b ↦ rw b (inl refl)
      ]

  ask-moves :
      (storage : Storage S) (gate : GateCall) (target : Phase) (auto : Bool) (sw : Switch S)
      (rows : Option (List ClassificationRecord))
      → storage.load_records sw.log ≡ rows
      → next_phase (phase_of sw) ≡ some target
      → order target ≤ order (sw.config.phase_limit)
      → let sx = (ask storage gate (phase_of sw) target auto sw rows).1 in
        (sx ≡ sw) ⊎ SteppedUp storage gate sw sx
  unfolding ask
  ask-moves storage gate target auto sw none l n k = inl refl
  ask-moves storage gate target auto sw (some rows) l n k =
      settle-moves storage gate target auto sw rows (gate rows (phase_of sw) target) refl l n k

  step_up-moves :
      (storage : Storage S) (gate : GateCall) (auto : Bool) (sw : Switch S) (q : Option Phase)
      → next_phase (phase_of sw) ≡ q
      → let sx = (step_up storage gate (phase_of sw) auto sw q).1 in
        (sx ≡ sw) ⊎ SteppedUp storage gate sw sx
  unfolding step_up
  step_up-moves storage gate auto sw none n = inl refl
  step_up-moves storage gate auto sw (some target) n =
      elim (Bool-cases (ltb (order (sw.config.phase_limit)) (order target))) [
        | inl e ↦ rw e (inl refl)
        | inr e ↦
            elim (Bool-cases (sw.config.safety_critical && is_phase target Phase.ml_primary)) [
              | inl c ↦ rw (e, c) (inl refl)
              | inr c ↦ rw (e, c) (ask-moves storage gate target auto sw _ refl n (ground arith))
            ]
      ]

  -- `advance` leaves the whole switch as it was, or it stepped up: to the next phase, at or below the
  -- ceiling, with the gate's answer on the rows of the log that this phase is better, and with the
  -- cooldown started.
  pub advance_moves :
      (storage : Storage S) (gate : GateCall) (auto : Bool) (sw : Switch S)
      → let sx = (advance storage gate auto sw).1 in (sx ≡ sw) ⊎ SteppedUp storage gate sw sx
  unfolding advance
  advance_moves storage gate auto sw = step_up-moves storage gate auto sw _ refl

  -- The switch stepped down to its previous phase.
  pub record SteppedDown (sw sx : Switch S) : Type 0 where
    pub is_prev : prev_phase (phase_of sw) ≡ some (phase_of sx)
    pub cooled : sx.since_change ≡ 0
    pub same_log : sx.log ≡ sw.log

  step_down-moves :
      (reason : String) (auto : Bool) (given : Option GateDecision) (sw : Switch S)
      (q : Option Phase)
      → prev_phase (phase_of sw) ≡ q
      → let r = step_down (phase_of sw) reason auto given sw q in
        ((r.1 ≡ sw) × (q ≡ none)) ⊎ SteppedDown sw r.1
  unfolding step_down
  step_down-moves reason auto given sw none n = inl (refl, refl)
  step_down-moves reason auto given sw (some target) n =
      inr (record { is_prev = n; cooled = refl; same_log = refl })

  -- `demote` with a blank reason raises a ValueError and leaves the whole switch as it was. With any
  -- other reason it steps down one phase, at any phase but RULE; at RULE it leaves the whole switch as
  -- it was.
  pub demote_moves :
      (reason : String) (auto : Bool) (given : Option GateDecision) (sw : Switch S)
      → let r = demote reason auto given sw in
        let blank = is_empty (codes reason) || is_empty (strip (codes reason)) in
        ((blank ≡ true) × (r ≡ (raised value_error, sw)))
        ⊎ ((blank ≡ false)
            × (((r.1 ≡ sw) × (prev_phase (phase_of sw) ≡ none)) ⊎ SteppedDown sw r.1))
  unfolding demote
  demote_moves reason auto given sw =
      elim (Bool-cases (is_empty (codes reason) || is_empty (strip (codes reason)))) [
        | inl b ↦ rw b (inl (refl, refl))
        | inr b ↦ rw b (inr (refl, step_down-moves reason auto given sw _ refl))
      ]
