-- ===== src/Switch/Lifecycle.antt =====
-- The phase changes of a switch: `advance`, `demote` and `_maybe_auto_demote` of
-- src/postrule/core.py.
use postrule.Prelude.{
  Bool, true, false, ◌&&◌, ◌||◌, Option, none, some, String, List, ltb, if◌then◌else◌,
}
use postrule.Phase.{Phase, order, is_phase, next_phase, prev_phase}
use postrule.Record.{ClassificationRecord, codes, strip, is_empty}
use postrule.Gate.Decision.{GateDecision, Rationale}
use postrule.Gate.Kinds.{bare_decision}
use postrule.Switch.Result.{
  Attempt, answered, failed, exits, value_error, storage_error, system_exit, raised_by_caller,
  Outcome, returned, raised,
}
use postrule.Switch.State.{Storage, GateCall, Switch, in_phase, emit, advance_event, demote_event}

-- The decision of a demotion: the gate's, with the reason, or a manual one.
unfoldable pub demote_decision : Phase → Phase → String → Option GateDecision → GateDecision
unfolding bare_decision
demote_decision current target reason none =
    bare_decision true (Rationale.manual_demote current target reason)
demote_decision current target reason (some d) = record d {
  target_better = true;
  rationale = Rationale.with_reason d.rationale reason;
}

-- The text that the drift gate's demotion gives for its reason.
abbrev pub auto_reason : String
auto_reason = "auto-demote: drift gate reports rule reliably better on accumulated evidence"

module _ {S : Type 0} where
  -- The phase moves, and the cooldown starts.
  unfoldable pub move_to : Phase → Switch S → Switch S
  unfolding in_phase
  move_to p sw = in_phase p (record sw { since_change = 0 })

  -- The end of `advance`, once the gate was asked.
  unfoldable pub settle :
      Phase → Phase → Bool → Switch S → Attempt GateDecision → Outcome GateDecision × Switch S
  unfolding move_to emit
  settle current target auto sw (failed e) = (raised (raised_by_caller e), sw)
  settle current target auto sw exits = (raised system_exit, sw)
  settle current target auto sw (answered d) =
      if d.target_better
      then (returned d, emit (advance_event current target d auto) (move_to target sw))
      else (returned d, sw)

  -- `demote` once there is a phase below.
  unfoldable pub step_down :
      Phase
      → String
      → Bool
      → Option GateDecision
      → Switch S
      → Option Phase
      → Outcome GateDecision × Switch S
  unfolding move_to emit
  step_down current reason auto given sw none =
      (returned (bare_decision false (Rationale.at_floor current)), sw)
  step_down current reason auto given sw (some target) =
      let d = demote_decision current target reason given in
      (returned d, emit (demote_event current target d reason auto) (move_to target sw))

  -- `demote`
  unfoldable pub demote :
      String → Bool → Option GateDecision → Switch S → Outcome GateDecision × Switch S
  unfolding step_down
  demote reason auto given sw =
      if is_empty (codes reason) || is_empty (strip (codes reason))
      then (raised value_error, sw)
      else let current = sw.config.starting_phase in
        step_down current reason auto given sw (prev_phase current)

  -- The result of `demote` in `_maybe_auto_demote`, which returns `True` after it.
  unfoldable pub demoted : Outcome GateDecision × Switch S → Outcome Bool × Switch S
  demoted (returned d, sw) = (returned true, sw)
  demoted (raised e, sw) = (raised e, sw)

  unfoldable pub drift_settle : Switch S → Attempt GateDecision → Outcome Bool × Switch S
  unfolding demoted
  drift_settle sw (failed e) = (raised (raised_by_caller e), sw)
  drift_settle sw exits = (raised system_exit, sw)
  drift_settle sw (answered d) =
      if d.target_better
      then demoted (demote auto_reason true (some d) sw)
      else (returned false, sw)

  unfoldable pub drift_ask :
      GateCall → Switch S → Option (List ClassificationRecord) → Outcome Bool × Switch S
  unfolding drift_settle
  drift_ask drift_gate sw none = (raised storage_error, sw)
  drift_ask drift_gate sw (some rows) =
      drift_settle sw (drift_gate rows sw.config.starting_phase Phase.rule)

  module _ (storage : Storage S) where
    unfoldable pub ask :
        GateCall
        → Phase
        → Phase
        → Bool
        → Switch S
        → Option (List ClassificationRecord)
        → Outcome GateDecision × Switch S
    unfolding settle
    ask gate current target auto sw none = (raised storage_error, sw)
    ask gate current target auto sw (some rows) =
        settle current target auto sw (gate rows current target)

    -- `advance` once there is a next phase.
    unfoldable pub step_up :
        GateCall → Phase → Bool → Switch S → Option Phase → Outcome GateDecision × Switch S
    unfolding ask
    step_up gate current auto sw none =
        (returned (bare_decision false (Rationale.at_terminal current)), sw)
    step_up gate current auto sw (some target) =
        if ltb (order sw.config.phase_limit) (order target)
        then (
          returned (bare_decision false (Rationale.exceeds_limit target sw.config.phase_limit)),
          sw,
        )
        else if sw.config.safety_critical && is_phase target Phase.ml_primary
        then (returned (bare_decision false Rationale.refuses_ml_primary), sw)
        else ask gate current target auto sw (storage.load_records sw.log)

    -- `advance`
    unfoldable pub advance : GateCall → Bool → Switch S → Outcome GateDecision × Switch S
    unfolding step_up
    advance gate auto sw =
        let current = sw.config.starting_phase in step_up gate current auto sw (next_phase current)

    -- `_maybe_auto_demote`
    unfoldable pub maybe_auto_demote : GateCall → Switch S → Outcome Bool × Switch S
    unfolding drift_ask
    maybe_auto_demote drift_gate sw =
        if is_phase sw.config.starting_phase Phase.rule
        then (returned false, sw)
        else drift_ask drift_gate sw (storage.load_records sw.log)
