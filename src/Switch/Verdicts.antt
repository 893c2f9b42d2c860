-- ===== src/Switch/Verdicts.antt =====
-- `record_verdict` of src/postrule/core.py and the automatic checks at its end.
use postrule.Prelude.{
  ◌+◌, Bool, true, false, ◌&&◌, ◌||◌, not, Option, none, some, leb, if◌then◌else◌,
}
use postrule.Record.{Verdict, parse_verdict, ClassificationRecord}
use postrule.Gate.Decision.{GateDecision}
use postrule.Switch.Result.{
  Attempt, exits, value_error, storage_error, system_exit, Outcome, returned, raised,
}
use postrule.Switch.State.{Storage, GateCall, Verifier, Switch, emit}
use postrule.Switch.Lifecycle.{advance, maybe_auto_demote}
use postrule.Switch.Rows.{VerdictCall, verdict_row, adjudicate, outcome_of}

-- An exception of the operation is absorbed, an exit is passed on.
unfoldable pub absorb {ℓ} : {A : Type 0} {B : Type ℓ} → (A → B) → B → B → Outcome A → B
absorb ok failure exit (returned a) = ok a
absorb ok failure exit (raised system_exit) = exit
absorb ok failure exit (raised _) = failure

-- A state operation whose exceptions are absorbed.
unfoldable pub absorbed {ℓ} : {A : Type 0} {S : Type ℓ} → Outcome A × S → Outcome (Option A) × S
unfolding absorb
absorbed (o, s) = (absorb (λ a. returned (some a)) (returned none) (raised system_exit) o, s)

-- The result of an operation is not used.
unfoldable pub done {ℓ} : {A : Type 0} {S : Type ℓ} → Outcome A × S → Outcome (Unit {0}) × S
done (returned _, s) = (returned tt, s)
done (raised e, s) = (raised e, s)

module _ {S : Type 0} where
  -- Both counters go up by one.
  unfoldable pub count_record : Switch S → Switch S
  count_record sw = record sw {
    since_check = sw.since_check + 1;
    since_change = sw.since_change + 1;
  }

  unfoldable pub is_due : Switch S → Bool
  is_due sw =
      leb sw.config.auto_advance_interval sw.since_check
      && leb sw.config.phase_cooldown_records sw.since_change

module _ {S : Type 0} (storage : Storage S) (gate : GateCall) (drift_gate : Option GateCall) where
  -- The drift check of one cycle: did the switch step down?
  unfoldable pub drift_check : Switch S → Outcome Bool × Switch S
  drift_check sw = elim drift_gate [
    | none ↦ (returned false, sw)
    | some g ↦
        if sw.config.auto_demote then maybe_auto_demote storage g sw else (returned false, sw)
  ]

  -- An advance whose exceptions are absorbed.
  unfoldable pub try_advance : Switch S → Outcome (Option GateDecision) × Switch S
  unfolding absorbed
  try_advance sw = absorbed (advance storage gate true sw)

  unfoldable pub then_advance : Bool → Switch S → Outcome (Unit {0}) × Switch S
  unfolding try_advance done
  then_advance demoted sw =
      if not demoted && sw.config.auto_advance then done (try_advance sw) else (returned tt, sw)

  -- The two gates, the drift gate first.
  unfoldable pub check_gates : Switch S → Outcome (Unit {0}) × Switch S
  unfolding drift_check then_advance absorb
  check_gates sw =
      let (o, sw') = drift_check sw in
      absorb (λ demoted. then_advance demoted sw') (then_advance false sw')
        (raised system_exit, sw') o

  unfoldable pub check_if_due : Switch S → Outcome (Unit {0}) × Switch S
  unfolding is_due check_gates
  check_if_due sw =
      if is_due sw then check_gates (record sw { since_check = 0 }) else (returned tt, sw)

  -- The automatic evaluation at the end of `record_verdict`.
  unfoldable pub auto_evaluate : Switch S → Outcome (Unit {0}) × Switch S
  unfolding check_if_due count_record
  auto_evaluate sw =
      if sw.config.auto_advance || sw.config.auto_demote
      then check_if_due (count_record sw)
      else (returned tt, sw)

  -- `verifier` is `config.verifier`, `on_verdict` what the hook answers for a row, if there is one.
  module _ (verifier : Option Verifier)
      (on_verdict : ClassificationRecord → Attempt (Unit {0})) where
    unfoldable pub after_hook :
        ClassificationRecord → Switch S → Attempt (Unit {0}) → Outcome (Unit {0}) × Switch S
    unfolding auto_evaluate emit outcome_of
    after_hook row sw exits = (raised system_exit, sw)
    after_hook row sw _ = auto_evaluate (emit (outcome_of row sw.config.starting_phase) sw)

    unfoldable pub append_row :
        ClassificationRecord → Switch S → Option S → Outcome (Unit {0}) × Switch S
    unfolding after_hook
    append_row row sw none = (raised storage_error, sw)
    append_row row sw (some log) = after_hook row (record sw { log = log }) (on_verdict row)

    unfoldable pub record_row :
        Switch S → Option ClassificationRecord → Outcome (Unit {0}) × Switch S
    unfolding append_row
    record_row sw none = (raised system_exit, sw)
    record_row sw (some row) = append_row row sw (storage.append_record row sw.log)

    unfoldable pub record_parsed :
        VerdictCall → Switch S → Option Verdict → Outcome (Unit {0}) × Switch S
    unfolding record_row
    record_parsed v sw none = (raised value_error, sw)
    record_parsed v sw (some outcome) =
        record_row sw (adjudicate sw.config verifier (verdict_row v outcome))

    -- `record_verdict`
    unfoldable pub record_verdict : VerdictCall → Switch S → Outcome (Unit {0}) × Switch S
    unfolding record_parsed
    record_verdict v sw = record_parsed v sw (parse_verdict v.outcome)
