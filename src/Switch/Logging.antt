-- ===== src/Switch/Logging.antt =====
-- Lemmas on the log after `record_verdict` (src/postrule/core.py), and the bounded backend of
-- src/postrule/storage.py as one switch uses it.
use postrule.Prelude.{
  if-P, ℕ, ◌+◌, ◌-◌, ◌≤◌, ◌≡◌, arith, inl, inr, refl, ap, ◌||◌, Option, some, String, List, [], ◌∷◌,
  ◌++◌, drop, length,
}
use text.Mathlib.TextPositions.{eq_refl}
use postrule.Record.{Verdict, ClassificationRecord, parse_verdict}
use postrule.Storage.Memory.{Logs, load_records, append_bounded, push_bounded}
use postrule.Storage.Window.{drop-append, load-append_bounded}
use postrule.Switch.Result.{Attempt, answered, failed, exits, Outcome}
use postrule.Switch.State.{Storage, IsLog, GateCall, Verifier, Switch, emit}
use postrule.Switch.Rows.{VerdictCall, adjudicate, verdict_row, outcome_of}
use postrule.Switch.Verdicts.{
  count_record, is_due, auto_evaluate, after_hook, append_row, record_row, record_parsed,
  record_verdict,
}
use postrule.Switch.Moves.{phase_of}
use postrule.Switch.Cycle.{Cycle, check_gates-Cycle}

-- The bounded backend as one switch uses it.
unfoldable pub bounded_storage : ℕ → String → Storage (Logs ClassificationRecord)
bounded_storage cap name = record {
  append_record = λ r logs. some (append_bounded cap name r logs);
  load_records = λ logs. some (load_records name logs);
}

pub bounded_storage-IsLog : (cap : ℕ) (name : String) → 1 ≤ cap → IsLog (bounded_storage cap name)
unfolding bounded_storage push_bounded
bounded_storage-IsLog cap name some_room = record {
  load-append = λ r s t rows appended loaded.
      let t_is : append_bounded cap name r s ≡ t = cc in
      let rows_are : load_records name s ≡ rows = cc in
      (
        length rows + 1 - cap,
        rw (← t_is, load-append_bounded cap name name r s, eq_refl name, rows_are)
            (ap some (drop-append (length rows + 1 - cap) rows (r ∷ []) (omega arith))),
      );
}

module _ {S : Type 0} (storage : Storage S) (gate : GateCall) (drift_gate : Option GateCall) where
  Cycle-log : (sw sx : Switch S) → Cycle storage gate sw sx → sx.log ≡ sw.log
  Cycle-log sw sx (inl e) = ap (λ (s : Switch S). s.log) e
  Cycle-log sw sx (inr (inl up)) = up.same_log
  Cycle-log sw sx (inr (inr down)) = down.same_log

  auto_evaluate-log : (sw : Switch S) → (auto_evaluate storage gate drift_gate sw).1.log ≡ sw.log
  unfolding auto_evaluate count_record
  auto_evaluate-log sw =
      let P = λ (r : Outcome (Unit {0}) × Switch S). r.1.log ≡ sw.log in
      if-P P (sw.config.auto_advance || sw.config.auto_demote) _ _
        (if-P P (is_due (count_record sw)) _ _
          (Cycle-log (record (count_record sw) { since_check = 0 }) _
            (check_gates-Cycle storage gate drift_gate _))
          refl)
        refl

  module _ (verifier : Option Verifier) (hook : ClassificationRecord → Attempt (Unit {0})) where
    pub after_hook-log :
        (row : ClassificationRecord) (sw : Switch S) (a : Attempt (Unit {0}))
        → (after_hook storage gate drift_gate verifier hook row sw a).1.log ≡ sw.log
    unfolding after_hook
    after_hook-log row sw exits = refl
    after_hook-log row sw (answered _) = auto_evaluate-log (emit (outcome_of row (phase_of sw)) sw)
    after_hook-log row sw (failed _) = auto_evaluate-log (emit (outcome_of row (phase_of sw)) sw)

    -- A verdict that is valid and whose row the storage takes leaves a log that loads the rows of
    -- before, less rows that aged out at the front, and this row at the end, whatever the hook, the
    -- gates and the telemetry did afterwards.
    pub record_verdict_logs :
        (v : VerdictCall) (sw : Switch S) {outcome : Verdict} {row : ClassificationRecord} {log : S}
        {rows : List ClassificationRecord}
        → IsLog storage
        → storage.load_records sw.log ≡ some rows
        → parse_verdict v.outcome ≡ some outcome
        → adjudicate (sw.config) verifier (verdict_row v outcome) ≡ some row
        → storage.append_record row sw.log ≡ some log
        → (aged : ℕ) × (storage.load_records
              (record_verdict storage gate drift_gate verifier hook v sw).1.log
            ≡ some (drop aged rows ++ row ∷ []))
    unfolding record_verdict record_parsed record_row append_row
    record_verdict_logs v sw {outcome} {row} {log} {rows} kept loads parsed judged appended =
        let (aged, e) = kept.load-append row sw.log log rows appended loads in
        (
          aged,
          rw (parsed, judged, appended)
              (rw (after_hook-log row (record sw { log = log }) (hook row)) e),
        )
