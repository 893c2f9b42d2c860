-- ===== src/Switch/Pace.antt =====
-- Lemmas on phase changes by `record_verdict` (src/postrule/core.py), and on verdicts that it refuses.
use postrule.Prelude.{
  if-P, if-P_eq, ◌+◌, ◌≤◌, ◌≡◌, ◌⊎◌, inl, inr, refl, ap, true, ◌||◌, Option, none, some, arith,
}
use postrule.Phase.{next_phase, prev_phase}
use postrule.Record.{Verdict, ClassificationRecord, parse_verdict}
use postrule.Switch.Result.{
  Attempt, answered, failed, exits, Outcome, raised, Error, system_exit, value_error, storage_error,
}
use postrule.Switch.State.{Storage, GateCall, Verifier, Switch, emit}
use postrule.Switch.Rows.{VerdictCall, outcome_of}
use postrule.Switch.Verdicts.{
  count_record, is_due, auto_evaluate, after_hook, append_row, record_row, record_parsed,
  record_verdict,
}
use postrule.Switch.Moves.{phase_of}
use postrule.Switch.Cycle.{Cycle, check_gates-Cycle}

module _ {S : Type 0} where
  module _ (storage : Storage S) (gate : GateCall) where
    -- The phase stays, or the interval and the cooldown had passed and it moved by one.
    abbrev pub MovesByOne : Switch S → Switch S → Type 0
    MovesByOne sw sx =
        (phase_of sx ≡ phase_of sw)
        ⊎ ((sw.config.auto_advance_interval ≤ sw.since_check + 1)
            × (sw.config.phase_cooldown_records ≤ sw.since_change + 1)
            × ((next_phase (phase_of sw) ≡ some (phase_of sx))
                ⊎ (prev_phase (phase_of sw) ≡ some (phase_of sx))))

    is_due-reached :
        (sw : Switch S)
        → is_due (count_record sw) ≡ true
        → (sw.config.auto_advance_interval ≤ sw.since_check + 1)
          × (sw.config.phase_cooldown_records ≤ sw.since_change + 1)
    unfolding is_due count_record
    is_due-reached sw h = ground arith

    Cycle-MovesByOne :
        (sw sx : Switch S)
        → is_due (count_record sw) ≡ true
        → Cycle storage gate (record (count_record sw) { since_check = 0 }) sx
        → MovesByOne sw sx
    unfolding count_record
    Cycle-MovesByOne sw sx due (inl e) = inl (ap phase_of e)
    Cycle-MovesByOne sw sx due (inr (inl up)) =
        let (i, c) = is_due-reached sw due in inr (i, c, inl up.is_next)
    Cycle-MovesByOne sw sx due (inr (inr down)) =
        let (i, c) = is_due-reached sw due in inr (i, c, inr down.is_prev)

    auto_evaluate-MovesByOne :
        (drift_gate : Option GateCall) (sw : Switch S)
        → MovesByOne sw (auto_evaluate storage gate drift_gate sw).1
    unfolding auto_evaluate
    auto_evaluate-MovesByOne drift_gate sw =
        let P = λ (r : Outcome (Unit {0}) × Switch S). MovesByOne sw r.1 in
        if-P P (sw.config.auto_advance || sw.config.auto_demote) _ _
          (if-P_eq P (is_due (count_record sw)) _ _
            (λ due. Cycle-MovesByOne sw _ due (check_gates-Cycle storage gate drift_gate _))
            (λ _. inl refl))
          (inl refl)

    module _ (drift_gate : Option GateCall) (verifier : Option Verifier)
        (hook : ClassificationRecord → Attempt (Unit {0})) where
      after_hook-MovesByOne :
          (row : ClassificationRecord) (sw : Switch S) (a : Attempt (Unit {0}))
          → MovesByOne sw (after_hook storage gate drift_gate verifier hook row sw a).1
      unfolding after_hook
      after_hook-MovesByOne row sw exits = inl refl
      after_hook-MovesByOne row sw (answered _) =
          auto_evaluate-MovesByOne drift_gate (emit (outcome_of row (phase_of sw)) sw)
      after_hook-MovesByOne row sw (failed _) =
          auto_evaluate-MovesByOne drift_gate (emit (outcome_of row (phase_of sw)) sw)

      append_row-MovesByOne :
          (row : ClassificationRecord) (sw : Switch S) (log : Option S)
          → MovesByOne sw (append_row storage gate drift_gate verifier hook row sw log).1
      unfolding append_row
      append_row-MovesByOne row sw none = inl refl
      append_row-MovesByOne row sw (some log) =
          after_hook-MovesByOne row (record sw { log = log }) (hook row)

      record_row-MovesByOne :
          (sw : Switch S) (row : Option ClassificationRecord)
          → MovesByOne sw (record_row storage gate drift_gate verifier hook sw row).1
      unfolding record_row
      record_row-MovesByOne sw none = inl refl
      record_row-MovesByOne sw (some row) = append_row-MovesByOne row sw _

      record_parsed-MovesByOne :
          (v : VerdictCall) (sw : Switch S) (o : Option Verdict)
          → MovesByOne sw (record_parsed storage gate drift_gate verifier hook v sw o).1
      unfolding record_parsed
      record_parsed-MovesByOne v sw none = inl refl
      record_parsed-MovesByOne v sw (some o) = record_row-MovesByOne sw _

      -- A verdict moves the phase by one at most, up or down, and only once the interval since the
      -- last check and the cooldown since the last phase change have passed, this record counted.
      pub record_verdict_moves :
          (v : VerdictCall) (sw : Switch S)
          → MovesByOne sw (record_verdict storage gate drift_gate verifier hook v sw).1
      unfolding record_verdict
      record_verdict_moves v sw = record_parsed-MovesByOne v sw (parse_verdict v.outcome)

      refused_row :
          (sw : Switch S) (row : Option ClassificationRecord)
          → ((r : ClassificationRecord) → storage.append_record r sw.log ≡ none)
          → (e : Error) × (record_row storage gate drift_gate verifier hook sw row ≡ (raised e, sw))
      unfolding record_row append_row
      refused_row sw none full = (system_exit, refl)
      refused_row sw (some row) full = (storage_error, rw (full row))

      refused :
          (v : VerdictCall) (sw : Switch S) (o : Option Verdict)
          → ((r : ClassificationRecord) → storage.append_record r sw.log ≡ none)
          → (e : Error) × (record_parsed storage gate drift_gate verifier hook v sw o
              ≡ (raised e, sw))
      unfolding record_parsed
      refused v sw none full = (value_error, refl)
      refused v sw (some o) full = refused_row sw _ full

      -- A verdict whose outcome is no `Verdict` value, or that comes while the storage refuses every
      -- row, raises and leaves the whole switch as it was: counters, phase, log and telemetry.
      pub record_verdict_refused :
          (v : VerdictCall) (sw : Switch S)
          → ((parse_verdict v.outcome ≡ none)
              ⊎ ((row : ClassificationRecord) → storage.append_record row sw.log ≡ none))
          → (e : Error) × (record_verdict storage gate drift_gate verifier hook v sw
              ≡ (raised e, sw))
      unfolding record_verdict
      record_verdict_refused v sw (inl bad) = (value_error, rw bad)
      record_verdict_refused v sw (inr full) = refused v sw (parse_verdict v.outcome) full
