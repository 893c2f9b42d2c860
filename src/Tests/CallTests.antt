-- ===== src/Tests/CallTests.antt =====
-- Tests of `_classify_impl` (src/postrule/core.py).
use postrule.Prelude.{◌≡◌, refl, true, false, none, some}
use postrule.Num.{lt_float, real, nan, ratio, zero_float}
use postrule.Phase.{Phase, is_phase}
use postrule.Record.{str, model_source, is_real_label}
use postrule.Switch.Result.{Attempt, answered, failed, returned, Prediction, ClassificationResult}
use postrule.Switch.Classify.{classify_impl, is_decision}
use postrule.Switch.Floor.{Origin, classify-Origin}
use postrule.Switch.Service.{Returns, classify-Returns, classify-breaker}
use postrule.Switch.Confidence.{InUnit, in_phase, classify_nan, classify-confidence}
use postrule.Tests.Data.{bug, question, config_at, confident, answers_with}

abbrev broken : Attempt Prediction
broken = failed (str "timeout")

abbrev no_number : Attempt Prediction
no_number = answered (record { label = question; confidence = nan })

-- The head is broken, so the model answers.
abbrev served : ClassificationResult
served = record {
  label = question;
  source = model_source;
  confidence = real (ratio 9 10);
  phase = Phase.ml_with_fallback;
  rule_output = bug;
  model_output = question;
  model_confidence = some (real (ratio 9 10));
  ml_output = none;
  ml_confidence = none;
  action_result = none;
  action_raised = none;
  action_elapsed = none;
}

cascade :
    (classify_impl
      (config_at Phase.ml_with_fallback)
      (answers_with (answered confident) broken)
      false).0
    ≡ returned served
unfolding classify_impl is_decision is_real_label lt_float
cascade = refl

classify-Origin_example : Origin bug (some (answered confident)) (some broken) model_source question
classify-Origin_example =
    classify-Origin (config_at Phase.ml_with_fallback) (answers_with (answered confident) broken)
      false refl cascade

classify-Returns_example :
    Returns (classify_impl (config_at Phase.ml_primary) (answers_with broken broken) false).0
classify-Returns_example =
    classify-Returns (config_at Phase.ml_primary) (answers_with broken broken) false refl refl refl
      refl tt tt

classify-breaker_example :
    (classify_impl (config_at Phase.ml_primary) (answers_with broken broken) false).1 ≡ true
unfolding is_phase
classify-breaker_example =
    classify-breaker (config_at Phase.ml_primary) (answers_with broken broken) false refl refl

classify_nan_example :
    (r : ClassificationResult) × ((classify_impl
        (config_at Phase.model_primary)
        (answers_with no_number broken)
        false).0
      ≡ returned r)
    × (r.label ≡ question)
    × (r.source ≡ model_source)
    × (r.confidence ≡ zero_float)
unfolding is_real_label
classify_nan_example =
    classify_nan (config_at Phase.model_primary) (answers_with no_number broken) false refl refl
      refl refl

abbrev boastful : Prediction
boastful = record { label = question; confidence = real (ratio 3 1) }

classify-confidence_example :
    (r s : ClassificationResult) × ((classify_impl
        (in_phase (config_at Phase.rule) Phase.model_primary)
        (answers_with (answered boastful) (answered confident))
        false).0
      ≡ returned r)
    × ((classify_impl
          (in_phase (config_at Phase.rule) Phase.ml_shadow)
          (answers_with (answered boastful) (answered confident))
          false).0
        ≡ returned s)
    × (r.label ≡ s.label)
    × InUnit r.confidence
    × (s.confidence ≡ real (ratio 3 1))
unfolding is_decision is_real_label lt_float
classify-confidence_example =
    classify-confidence (config_at Phase.rule)
      (answers_with (answered boastful) (answered confident)) false refl refl refl refl
