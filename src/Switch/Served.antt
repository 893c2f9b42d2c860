-- ===== src/Switch/Served.antt =====
-- Lemmas on the verifier and the log within `classify` and `dispatch` (src/postrule/core.py).
use postrule.Prelude.{
  ◌∙◌, ℕ, ◌≡◌, refl, Bool, true, false, ◌&&◌, not, Option, none, some, List, [], ◌∷◌, ◌++◌, drop,
  arith, if-P_eq, Bool-cases, inl, inr, if◌then◌else◌,
}
use postrule.Num.{Real, one_real, lt_real}
use postrule.Record.{Verdict, Source, ClassificationRecord}
use postrule.Switch.Result.{
  Attempt, answered, failed, exits, system_exit, raised_by_caller, storage_error, value_error,
  runtime_error, type_error, key_error, attribute_error, Outcome, returned, raised,
  ClassificationResult,
}
use postrule.Switch.State.{Storage, IsLog, GateCall, Verifier, Switch, Event, emit}
use postrule.Switch.Rows.{verdict_row}
use postrule.Switch.Verdicts.{record_verdict, record_parsed, record_row, append_row}
use postrule.Switch.Logging.{after_hook-log}
use postrule.Switch.Exits.{OnlyExits, after_hook-OnlyExits}
use postrule.Switch.Serve.{
  Call, log_row, verifier_call, keep_log, verified, auto_log, judged, run_sampled,
  maybe_run_verifier, log_and_emit,
}
use postrule.Switch.RowsOf.{IsRowOf, parse-text, SameRows, adjudicate-SameRows, verdict_row-IsRowOf}

module _ {S : Type 0} (storage : Storage S) where
  -- The rows of before, less rows that aged out at the front, and the row of the call.
  pub record LogsRow (name : Source) (rows : List ClassificationRecord) (c : Call)
      (r : ClassificationResult) (given : Option Verdict) (log : S) : Type 0 where
    pub row : ClassificationRecord
    pub is_row : IsRowOf name c r given row
    pub aged : ℕ
    pub loads : storage.load_records log ≡ some (drop aged rows ++ row ∷ [])

  -- The storage takes any row at this state of the log.
  abbrev pub Takes : S → Type 0
  Takes s = (row : ClassificationRecord) → (t : S) × (storage.append_record row s ≡ some t)

-- Sampling leaves this call out.
abbrev pub skips : Real → Call → Bool
skips rate c = lt_real rate one_real && not (lt_real c.draw rate)

abbrev pub answer_of : Attempt Verdict → Option Verdict
answer_of (answered v) = some v
answer_of (failed e) = none
answer_of exits = none

-- The verdict that the verifier gives on a call: none where there is no verifier, where sampling leaves
-- the call out, and where the verifier raises.
abbrev pub given_by : Option Verifier → Real → Call → ClassificationResult → Option Verdict
given_by none rate c r = none
given_by (some judge) rate c r = if skips rate c then none else answer_of (judge c.input r.label)

module _ {S : Type 0} (storage : Storage S) (gate : GateCall) (drift_gate : Option GateCall)
    (verifier : Option Verifier) (hook : ClassificationRecord → Attempt (Unit {0})) (name : Source)
    (kept : IsLog storage) where
  -- What a verdict of the verifier leaves: nothing at all and an exit, or the row.
  abbrev Verdicted :
      List ClassificationRecord
      → Call
      → ClassificationResult
      → Verdict
      → Outcome (Unit {0}) × Switch S
      → Type 0
  Verdicted rows c r v o =
      OnlyExits o.0 × ((o.0 ≡ returned tt) → LogsRow storage name rows c r (some v) o.1.log)

  append_row-Verdicted :
      (rows : List ClassificationRecord) (c : Call) (r : ClassificationResult) (v : Verdict)
      (row : ClassificationRecord) (sw : Switch S) (log : S)
      → IsRowOf name c r (some v) row
      → storage.load_records sw.log ≡ some rows
      → storage.append_record row sw.log ≡ some log
      → Verdicted rows c r v (append_row storage gate drift_gate verifier hook row sw (some log))
  unfolding append_row
  append_row-Verdicted rows c r v row sw log is_row loaded appended =
      let (aged, loads) = kept.load-append row sw.log log rows appended loaded in
      (
        after_hook-OnlyExits storage gate drift_gate verifier hook row (record sw { log = log })
            (hook row),
        λ _. record {
          row = row;
          is_row = is_row;
          aged = aged;
          loads =
              rw
                (after_hook-log storage gate drift_gate verifier hook row (record sw { log = log })
                  (hook row))
                loads;
        },
      )

  record_row-Verdicted :
      (rows : List ClassificationRecord) (c : Call) (r : ClassificationResult) (v : Verdict)
      (row : ClassificationRecord) (sw : Switch S) (judged_row : Option ClassificationRecord)
      → IsRowOf name c r (some v) row
      → SameRows row judged_row
      → storage.load_records sw.log ≡ some rows
      → Takes storage sw.log
      → Verdicted rows c r v (record_row storage gate drift_gate verifier hook sw judged_row)
  unfolding record_row
  record_row-Verdicted rows c r v row sw none is_row same loaded takes =
      (tt, λ e. absurd (ground arith))
  record_row-Verdicted rows c r v row sw (some judged_row) is_row same loaded takes =
      let (log, appended) = takes judged_row in
      rw appended (
        append_row-Verdicted rows c r v judged_row sw log
          (record {
            same_time = same.same_time ∙ is_row.same_time;
            same_input = same.same_input ∙ is_row.same_input;
            same_label = same.same_label ∙ is_row.same_label;
            same_outcome = same.same_outcome ∙ is_row.same_outcome;
            same_source = same.same_source ∙ is_row.same_source;
            same_confidence = same.same_confidence ∙ is_row.same_confidence;
            same_rule = same.same_rule ∙ is_row.same_rule;
            same_model = same.same_model ∙ is_row.same_model;
            same_model_confidence = same.same_model_confidence ∙ is_row.same_model_confidence;
            same_head = same.same_head ∙ is_row.same_head;
            same_head_confidence = same.same_head_confidence ∙ is_row.same_head_confidence;
            same_result = same.same_result ∙ is_row.same_result;
            same_action = same.same_action ∙ is_row.same_action;
            same_elapsed = same.same_elapsed ∙ is_row.same_elapsed;
          })
          loaded appended)

  record_verdict-Verdicted :
      (rows : List ClassificationRecord) (c : Call) (r : ClassificationResult) (v : Verdict)
      (sw : Switch S)
      → storage.load_records sw.log ≡ some rows
      → Takes storage sw.log
      → Verdicted rows c r v
          (record_verdict storage gate drift_gate verifier hook (verifier_call name c r v) sw)
  unfolding record_verdict record_parsed verifier_call
  record_verdict-Verdicted rows c r v sw loaded takes =
      let call = verifier_call name c r v in
      rw (parse-text v) (
        record_row-Verdicted rows c r v (verdict_row call v) sw _ (verdict_row-IsRowOf name c r v)
          (adjudicate-SameRows sw.config verifier (verdict_row call v)) loaded takes)

  -- What the verifier leaves of a call: the row with its verdict, or the switch as it was where it has
  -- none to give, or an exit.
  abbrev pub Judged :
      List ClassificationRecord
      → Call
      → ClassificationResult
      → Switch S
      → Option Verdict
      → Outcome Bool × Switch S
      → Type 0
  Judged rows c r sw given (returned true, sx) = LogsRow storage name rows c r given sx.log
  Judged rows c r sw given (returned false, sx) = (sx ≡ sw) × (given ≡ none)
  Judged rows c r sw given (raised e, sx) = Unit

  verified-Judged :
      (rows : List ClassificationRecord) (c : Call) (r : ClassificationResult) (sw : Switch S)
      (v : Verdict) (o : Outcome (Unit {0}) × Switch S)
      → Verdicted rows c r v o
      → Judged rows c r sw (some v) (verified o)
  unfolding verified
  verified-Judged rows c r sw v (returned _, sx) (h, row) = row refl
  verified-Judged rows c r sw v (raised system_exit, sx) (h, row) = tt
  verified-Judged rows c r sw v (raised value_error, sx) (h, row) = absurd h
  verified-Judged rows c r sw v (raised runtime_error, sx) (h, row) = absurd h
  verified-Judged rows c r sw v (raised key_error, sx) (h, row) = absurd h
  verified-Judged rows c r sw v (raised type_error, sx) (h, row) = absurd h
  verified-Judged rows c r sw v (raised attribute_error, sx) (h, row) = absurd h
  verified-Judged rows c r sw v (raised storage_error, sx) (h, row) = absurd h
  verified-Judged rows c r sw v (raised (raised_by_caller e), sx) (h, row) = absurd h

  judged-Judged :
      (rows : List ClassificationRecord) (c : Call) (r : ClassificationResult) (sw : Switch S)
      (a : Attempt Verdict)
      → storage.load_records sw.log ≡ some rows
      → Takes storage sw.log
      → Judged rows c r sw
          (answer_of a)
          (judged storage gate drift_gate verifier hook name c r sw a)
  unfolding judged
  judged-Judged rows c r sw (failed e) loaded takes = (refl, refl)
  judged-Judged rows c r sw exits loaded takes = tt
  judged-Judged rows c r sw (answered v) loaded takes =
      verified-Judged rows c r sw v _ (record_verdict-Verdicted rows c r v sw loaded takes)

  pub maybe_run_verifier-Judged :
      (rows : List ClassificationRecord) (c : Call) (r : ClassificationResult) (sw : Switch S)
      (judge : Option Verifier)
      → storage.load_records sw.log ≡ some rows
      → Takes storage sw.log
      → Judged rows c r sw
          (given_by judge sw.config.verifier_sample_rate c r)
          (maybe_run_verifier storage gate drift_gate verifier hook name c r sw judge)
  unfolding maybe_run_verifier run_sampled
  maybe_run_verifier-Judged rows c r sw none loaded takes = (refl, refl)
  maybe_run_verifier-Judged rows c r sw (some judge) loaded takes =
      elim (Bool-cases (skips sw.config.verifier_sample_rate c)) [
        | inl e ↦ rw e (refl, refl)
        | inr e ↦ rw e (judged-Judged rows c r sw (judge c.input r.label) loaded takes)
      ]

  -- The result of a call that returned, and its row.
  abbrev pub Served :
      List ClassificationRecord
      → Call
      → (ClassificationResult → Option Verdict)
      → Outcome ClassificationResult × Switch S
      → Type 0
  Served rows c given (returned r, sx) = LogsRow storage name rows c r (given r) sx.log
  Served rows c given (raised e, sx) = Unit

  auto_log-LogsRow :
      (rows : List ClassificationRecord) (c : Call) (r : ClassificationResult) (sw : Switch S)
      → storage.load_records sw.log ≡ some rows
      → Takes storage sw.log
      → LogsRow storage name rows c r none
          (auto_log storage gate drift_gate verifier hook name c r sw).log
  unfolding auto_log keep_log log_row
  auto_log-LogsRow rows c r sw loaded takes =
      let (log, appended) = takes (log_row c.input c.now r) in
      let (aged, loads) =
        kept.load-append (log_row c.input c.now r) sw.log log rows appended loaded in
      rw appended (record {
        row = log_row c.input c.now r;
        is_row = record {
          same_time = refl;
          same_input = refl;
          same_label = refl;
          same_outcome = refl;
          same_source = refl;
          same_confidence = refl;
          same_rule = refl;
          same_model = refl;
          same_model_confidence = refl;
          same_head = refl;
          same_head_confidence = refl;
          same_result = refl;
          same_action = refl;
          same_elapsed = refl;
        };
        aged = aged;
        loads = loads;
      })

  pub log_and_emit-Served :
      (rows : List ClassificationRecord) (c : Call) (event : Bool → Event)
      (given : ClassificationResult → Option Verdict) (r : ClassificationResult) (sw : Switch S)
      (o : Outcome Bool × Switch S)
      → Judged rows c r sw (given r) o
      → storage.load_records sw.log ≡ some rows
      → Takes storage sw.log
      → sw.config.auto_record ≡ true
      → Served rows c given (log_and_emit storage gate drift_gate verifier hook name c event r o)
  unfolding log_and_emit emit
  log_and_emit-Served rows c event given r sw (raised e, sx) h loaded takes on = tt
  log_and_emit-Served rows c event given r sw (returned true, sx) h loaded takes on = h
  log_and_emit-Served rows c event given r sw (returned false, sx) h loaded takes on =
      rw (h.0, h.1)
        (if-P_eq (λ (t : Switch S). LogsRow storage name rows c r none t.log)
          (not false && sw.config.auto_record) _ _ (λ _. auto_log-LogsRow rows c r sw loaded takes)
          (λ off. absurd (ground arith)))
