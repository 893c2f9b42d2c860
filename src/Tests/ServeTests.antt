-- ===== src/Tests/ServeTests.antt =====
-- Tests of `classify` and `dispatch` (src/postrule/core.py).
use postrule.Switch.Classify.{classify_impl}
use postrule.Switch.Lifecycle.{advance}
use postrule.Switch.Rows.{adjudicate}
use postrule.Switch.Verdicts.{record_verdict}
use postrule.Prelude.{arith, ◌≡◌, refl, false, none, some, List, [], ◌∷◌}
use postrule.Num.{clamp_or_zero, lt_real, ratio, one_float}
use postrule.Phase.{next_phase, Phase}
use postrule.Record.{
  verdict_text, parse_verdict, str, correct, rule_source, verifier_source, ClassificationRecord,
}
use postrule.Storage.Memory.{find_log, load_records, Logs}
use postrule.Switch.Result.{Attempt, answered, failed, returned, ClassificationResult}
use postrule.Switch.State.{Storage, GateCall, Verifier, Switch}
use postrule.Switch.Serve.{find_label, action_of, Label, Call, classify, dispatch}
use postrule.Switch.Served.{LogsRow, Takes}
use postrule.Switch.Calls.{after_failure, classify-LogsRow, dispatch_failed}
use postrule.Switch.Logging.{bounded_storage, bounded_storage-IsLog}
use postrule.Gate.Kinds.{bare_decision}
use postrule.Gate.Decision.{Rationale}
use postrule.Tests.Data.{
  bug, config_at, switch_with, triage_log, eight_wins, confident, answers_with,
}

abbrev no_gate : GateCall
no_gate rows p q = answered (bare_decision false (Rationale.operator_required p))

abbrev silent : ClassificationRecord → Attempt (Unit {0})
silent row = answered tt

abbrev approving : Verifier
approving input label = answered correct

abbrev kept_log : Storage (Logs ClassificationRecord)
kept_log = bounded_storage 100 "triage"

abbrev ruled : Switch (Logs ClassificationRecord)
ruled = switch_with (config_at Phase.rule) triage_log

abbrev call : Call
call = record { input = str "crash"; now = 9; draw = ratio 1 2; elapsed = 3 }

abbrev rule_result : ClassificationResult
rule_result = record {
  label = bug;
  source = rule_source;
  confidence = one_float;
  phase = Phase.rule;
  rule_output = bug;
  model_output = none;
  model_confidence = none;
  ml_output = none;
  ml_confidence = none;
  action_result = none;
  action_raised = none;
  action_elapsed = none;
}

ruled-Takes : Takes kept_log triage_log
unfolding bounded_storage
ruled-Takes row = (_, refl)

abbrev after_classify : Switch (Logs ClassificationRecord)
after_classify =
    (classify kept_log no_gate none (some approving) silent verifier_source call
      (answers_with (failed (str "down")) (answered confident)) ruled).1

ruled-classify :
    classify kept_log no_gate none
      (some approving)
      silent
      verifier_source
      call
      (answers_with (failed (str "down")) (answered confident))
      ruled
    ≡ (returned rule_result, after_classify)
unfolding classify lt_real record_verdict parse_verdict verdict_text adjudicate bounded_storage
    advance next_phase bare_decision clamp_or_zero
ruled-classify = refl

classify-LogsRow_example :
    LogsRow kept_log verifier_source eight_wins call rule_result (some correct) after_classify.log
unfolding bounded_storage load_records find_log lt_real
classify-LogsRow_example =
    classify-LogsRow kept_log no_gate none silent verifier_source
      (bounded_storage-IsLog 100 "triage" (omega arith)) (some approving) eight_wins call
      (answers_with (failed (str "down")) (answered confident)) ruled refl ruled-Takes refl
      ruled-classify

abbrev ticket_labels : List Label
ticket_labels =
    record { name = "bug"; on = some (λ input. failed (str "IOError: disk full")) }
    ∷ record { name = "question"; on = none }
    ∷ []

dispatch_failed_example :
    let d =
      dispatch kept_log no_gate none none silent verifier_source ticket_labels call
        (answers_with (failed (str "down")) (answered confident))
        ruled in
    LogsRow kept_log verifier_source eight_wins call
      (after_failure call rule_result (str "IOError: disk full"))
      none
      d.1.log
    × (d.0 ≡ returned (after_failure call rule_result (str "IOError: disk full")))
unfolding bounded_storage load_records find_log classify_impl action_of find_label clamp_or_zero
dispatch_failed_example =
    dispatch_failed kept_log no_gate none silent verifier_source
      (bounded_storage-IsLog 100 "triage" (omega arith)) eight_wins ticket_labels call
      (answers_with (failed (str "down")) (answered confident)) ruled refl ruled-Takes refl refl
      refl refl
