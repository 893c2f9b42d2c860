-- ===== src/Switch/Classify.antt =====
-- The routing of a call: `_phase_primary_decision` and `_classify_impl` of src/postrule/core.py.
use postrule.Prelude.{Bool, true, false, ◌&&◌, not, Option, none, some, if◌then◌else◌}
use postrule.Num.{Real, Float, real, one_float, lt_float, clamp_conf, clamp_or_zero}
use postrule.Phase.{Phase, is_phase}
use postrule.Record.{
  Value, Source, rule_source, rule_fallback, model_source, ml_source, is_real_label,
}
use postrule.Switch.Config.{Config}
use postrule.Switch.Result.{
  Attempt, answered, failed, exits, value_error, runtime_error, system_exit, raised_by_caller,
  Outcome, returned, raised, Prediction, ClassificationResult, Answers,
}

-- A result with no action, built with the observations given.
unfoldable pub plain_result :
    Phase → Option Value → Option Value → Source → Float → ClassificationResult
plain_result phase rule_output label source confidence = record {
  label = label;
  source = source;
  confidence = confidence;
  phase = phase;
  rule_output = rule_output;
  model_output = none;
  model_confidence = none;
  ml_output = none;
  ml_confidence = none;
  action_result = none;
  action_raised = none;
  action_elapsed = none;
}

-- The local `_result` of `_classify_impl`, which clamps its confidences.
unfoldable pub clamped_result :
    Phase → Option Value → Option Value → Source → Float → ClassificationResult
unfolding plain_result
clamped_result phase rule_output label source confidence =
    plain_result phase rule_output label source (clamp_or_zero confidence)

unfoldable pub with_model :
    Prediction → (Option Float → Option Float) → ClassificationResult → ClassificationResult
with_model pred clamp r = record r {
  model_output = pred.label;
  model_confidence = clamp (some pred.confidence);
}

unfoldable pub with_head :
    Prediction → (Option Float → Option Float) → ClassificationResult → ClassificationResult
with_head pred clamp r = record r {
  ml_output = pred.label;
  ml_confidence = clamp (some pred.confidence);
}

abbrev pub as_given : Option Float → Option Float
as_given c = c

-- A prediction is no decision if its label is empty or its confidence is below the threshold.
unfoldable pub is_decision : Real → Prediction → Bool
is_decision threshold pred =
    is_real_label pred.label && not (lt_float pred.confidence (real threshold))

-- The answer of the model, when a model is configured (`MODEL_PRIMARY` semantics).
unfoldable pub model_or_rule :
    (Source → Float → Option Value → ClassificationResult)
    → (Option Float → Option Float)
    → Real
    → Option Value
    → Attempt Prediction
    → Outcome ClassificationResult
unfolding with_model
model_or_rule make clamp threshold rule_output (failed _) =
    returned (make rule_fallback one_float rule_output)
model_or_rule make clamp threshold rule_output exits = raised system_exit
model_or_rule make clamp threshold rule_output (answered pred) =
    if is_decision threshold pred
    then returned (with_model pred clamp (make model_source pred.confidence pred.label))
    else returned (with_model pred clamp (make rule_fallback one_float rule_output))

-- `_phase_primary_decision`: its results keep the model's confidence as given.
unfoldable pub phase_primary_decision :
    Phase → Real → Option Value → Option (Attempt Prediction) → Outcome ClassificationResult
unfolding plain_result model_or_rule
phase_primary_decision phase threshold rule_output none =
    returned (plain_result phase rule_output rule_output rule_source one_float)
phase_primary_decision phase threshold rule_output (some answer) =
    model_or_rule (λ source conf label. plain_result phase rule_output label source conf) as_given
      threshold rule_output answer

-- MODEL_SHADOW: the model is only observed.
unfoldable pub model_shadow :
    Phase → Option Value → Option (Attempt Prediction) → Outcome ClassificationResult
unfolding clamped_result with_model
model_shadow phase rule_output none = raised value_error
model_shadow phase rule_output (some exits) = raised system_exit
model_shadow phase rule_output (some (failed _)) =
    returned (clamped_result phase rule_output rule_output rule_source one_float)
model_shadow phase rule_output (some (answered pred)) = returned (
    with_model pred clamp_conf (clamped_result phase rule_output rule_output rule_source one_float))

unfoldable pub model_primary :
    Phase → Real → Option Value → Option (Attempt Prediction) → Outcome ClassificationResult
unfolding clamped_result model_or_rule
model_primary phase threshold rule_output none = raised value_error
model_primary phase threshold rule_output (some answer) =
    model_or_rule (λ source conf label. clamped_result phase rule_output label source conf)
      clamp_conf threshold rule_output answer

-- The head's observation is put on the result as given.
unfoldable pub observe_head :
    Attempt Prediction → Outcome ClassificationResult → Outcome ClassificationResult
unfolding with_head
observe_head head (raised e) = raised e
observe_head exits (returned r) = raised system_exit
observe_head (failed _) (returned r) = returned r
observe_head (answered pred) (returned r) = returned (with_head pred as_given r)

unfoldable pub ml_shadow :
    Phase
    → Real
    → Option Value
    → Option (Attempt Prediction)
    → Option (Attempt Prediction)
    → Outcome ClassificationResult
unfolding phase_primary_decision observe_head
ml_shadow phase threshold rule_output model none = raised value_error
ml_shadow phase threshold rule_output model (some head) =
    observe_head head (phase_primary_decision phase threshold rule_output model)

-- `if cascaded.source == "rule"`, on that source
unfoldable pub mark_from : Source → ClassificationResult → ClassificationResult
unfolding plain_result
mark_from rule_source r =
    record (plain_result r.phase r.rule_output r.label rule_fallback r.confidence) {
      ml_output = r.ml_output;
      ml_confidence = r.ml_confidence;
    }
mark_from _ r = r

-- A cascade that ends at the rule with no model is marked as a fallback.
unfoldable pub mark_fallback : ClassificationResult → ClassificationResult
unfolding mark_from
mark_fallback r = mark_from r.source r

unfoldable pub marked : Outcome ClassificationResult → Outcome ClassificationResult
unfolding mark_fallback
marked (returned r) = returned (mark_fallback r)
marked (raised e) = raised e

unfoldable pub ml_with_fallback :
    Phase
    → Real
    → Option Value
    → Option (Attempt Prediction)
    → Option (Attempt Prediction)
    → Outcome ClassificationResult
unfolding phase_primary_decision observe_head marked clamped_result with_head
ml_with_fallback phase threshold rule_output model none = raised value_error
ml_with_fallback phase threshold rule_output model (some exits) = raised system_exit
ml_with_fallback phase threshold rule_output model (some (failed e)) =
    marked (observe_head (failed e) (phase_primary_decision phase threshold rule_output model))
ml_with_fallback phase threshold rule_output model (some (answered pred)) =
    if is_decision threshold pred
    then returned (
        with_head pred clamp_conf
          (clamped_result phase rule_output pred.label ml_source pred.confidence))
    else marked
        (observe_head (answered pred) (phase_primary_decision phase threshold rule_output model))

-- ML_PRIMARY behind the circuit breaker: the outcome, and the breaker afterwards.
unfoldable pub ml_primary :
    Phase → Option Value → Option (Attempt Prediction) → Bool → Outcome ClassificationResult × Bool
unfolding clamped_result with_head
ml_primary phase rule_output none tripped = (raised value_error, tripped)
ml_primary phase rule_output (some head) true =
    (returned (clamped_result phase rule_output rule_output rule_fallback one_float), true)
ml_primary phase rule_output (some exits) false = (raised system_exit, false)
ml_primary phase rule_output (some (failed _)) false =
    (returned (clamped_result phase rule_output rule_output rule_fallback one_float), true)
ml_primary phase rule_output (some (answered pred)) false =
    if is_real_label pred.label
    then (
      returned (
          with_head pred clamp_conf
            (clamped_result phase rule_output pred.label ml_source pred.confidence)),
      false,
    )
    else (
      returned (
          with_head pred clamp_conf
            (clamped_result phase rule_output rule_output rule_fallback one_float)),
      false,
    )

-- The tests on `phase`, once the rule has answered.
unfoldable pub route :
    Phase
    → Real
    → Option Value
    → Option (Attempt Prediction)
    → Option (Attempt Prediction)
    → Bool
    → Outcome ClassificationResult × Bool
unfolding clamped_result model_shadow model_primary ml_shadow ml_with_fallback ml_primary
route Phase.rule threshold out model head tripped =
    (returned (clamped_result Phase.rule out out rule_source one_float), tripped)
route Phase.model_shadow threshold out model head tripped =
    (model_shadow Phase.model_shadow out model, tripped)
route Phase.model_primary threshold out model head tripped =
    (model_primary Phase.model_primary threshold out model, tripped)
route Phase.ml_shadow threshold out model head tripped =
    (ml_shadow Phase.ml_shadow threshold out model head, tripped)
route Phase.ml_with_fallback threshold out model head tripped =
    (ml_with_fallback Phase.ml_with_fallback threshold out model head, tripped)
route Phase.ml_primary threshold out model head tripped =
    ml_primary Phase.ml_primary out head tripped

unfoldable pub after_rule :
    Config → Answers → Bool → Attempt (Option Value) → Outcome ClassificationResult × Bool
unfolding route
after_rule c a tripped (failed e) = (raised (raised_by_caller e), tripped)
after_rule c a tripped exits = (raised system_exit, tripped)
after_rule c a tripped (answered out) =
    route c.starting_phase c.confidence_threshold out a.model a.head tripped

-- `_classify_impl`: the outcome, and the breaker afterwards
unfoldable pub classify_impl : Config → Answers → Bool → Outcome ClassificationResult × Bool
unfolding after_rule
classify_impl c a tripped =
    if c.safety_critical && is_phase c.starting_phase Phase.ml_primary
    then (raised runtime_error, tripped)
    else after_rule c a tripped a.rule
