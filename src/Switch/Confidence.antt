-- ===== src/Switch/Confidence.antt =====
-- Confidences and shadow layers in `_classify_impl` (src/postrule/core.py).
use postrule.Prelude.{◌≡◌, refl, sym, ◌∙◌, Bool, true, false, Option, none, some, arith}
use postrule.Num.{
  Real, Float, real, nan, zero_real, one_real, lt_real, le_real, lt_float, clamp_or_zero,
  clamp_conf, zero_float,
}
use postrule.Phase.{Phase, is_phase}
use postrule.Record.{Value, model_source, is_real_label}
use postrule.Switch.Config.{Config}
use postrule.Switch.Result.{
  Attempt, answered, failed, exits, Outcome, returned, raised, Prediction, ClassificationResult,
  Answers,
}
use postrule.Switch.Classify.{
  phase_primary_decision, is_decision, plain_result, clamped_result, with_model, with_head,
  as_given, classify_impl, route, model_primary, ml_shadow, observe_head,
}
use postrule.Switch.Service.{is_breached, classify-route, Stays}

-- Clamping is into [0, 1].
abbrev pub InUnit : Float → Type 0
InUnit nan = ⊥
InUnit (real r) = (le_real zero_real r ≡ true) × (le_real r one_real ≡ true)

pub clamp_or_zero-InUnit : (f : Float) → InUnit (clamp_or_zero f)
unfolding clamp_or_zero le_real lt_real
clamp_or_zero-InUnit nan = ground arith
clamp_or_zero-InUnit (real r) = ground arith

-- The same answers, with another answer of the head.
abbrev pub with_answer : Answers → Attempt Prediction → Answers
with_answer a h = record a { head = some h }

is_decision-nan :
    (threshold : Real) (label : Option Value)
    → is_real_label label ≡ true
    → is_decision threshold (record { label = label; confidence = nan }) ≡ true
unfolding is_decision lt_float
is_decision-nan threshold label h = rw h

model_primary-decides :
    (c : Config) (a : Answers) (tripped : Bool) {out : Option Value} {pred : Prediction}
    → c.starting_phase ≡ Phase.model_primary
    → a.rule ≡ answered out
    → a.model ≡ some (answered pred)
    → is_decision c.confidence_threshold pred ≡ true
    → (classify_impl c a tripped).0
      ≡ returned (
          with_model pred clamp_conf
            (clamped_result Phase.model_primary out pred.label model_source pred.confidence))
unfolding route is_phase
model_primary-decides c a tripped p e em d =
    let b : is_breached c ≡ false = rw p (ground arith) in
    rw (classify-route c a tripped b e, p, em) (unfold model_primary in rw d)

ml_shadow-decides :
    (c : Config) (a : Answers) (tripped : Bool) {out : Option Value} {pred head : Prediction}
    → c.starting_phase ≡ Phase.ml_shadow
    → a.rule ≡ answered out
    → a.model ≡ some (answered pred)
    → a.head ≡ some (answered head)
    → is_decision c.confidence_threshold pred ≡ true
    → (classify_impl c a tripped).0
      ≡ returned (
          with_head head as_given (
            with_model pred as_given
              (plain_result Phase.ml_shadow out pred.label model_source pred.confidence)))
unfolding route is_phase
ml_shadow-decides c a tripped p e em eh d =
    let b : is_breached c ≡ false = rw p (ground arith) in
    rw (classify-route c a tripped b e, p, em, eh)
      (unfold ml_shadow phase_primary_decision observe_head in rw d)

-- In MODEL_PRIMARY a real label whose confidence is NaN passes every threshold: the call returns
-- it as the model's decision, with confidence 0.
pub classify_nan :
    (c : Config) (a : Answers) (tripped : Bool) {out label : Option Value}
    → c.starting_phase ≡ Phase.model_primary
    → a.rule ≡ answered out
    → a.model ≡ some (answered (record { label = label; confidence = nan }))
    → is_real_label label ≡ true
    → (r : ClassificationResult) × ((classify_impl c a tripped).0 ≡ returned r)
      × (r.label ≡ label)
      × (r.source ≡ model_source)
      × (r.confidence ≡ zero_float)
unfolding with_model clamped_result clamp_or_zero
classify_nan c a tripped p e em real_label = (
  _,
  model_primary-decides c a tripped p e em (is_decision-nan c.confidence_threshold _ real_label),
  refl,
  refl,
  refl,
)

-- The same switch in another phase.
abbrev pub in_phase : Config → Phase → Config
in_phase c p = record c { starting_phase = p }

-- MODEL_PRIMARY and ML_SHADOW take the same decision from a confident model. MODEL_PRIMARY clamps
-- its confidence into [0, 1]; ML_SHADOW returns it as the model gave it.
pub classify-confidence :
    (c : Config) (a : Answers) (tripped : Bool) {out : Option Value} {pred head : Prediction}
    → a.rule ≡ answered out
    → a.model ≡ some (answered pred)
    → a.head ≡ some (answered head)
    → is_decision c.confidence_threshold pred ≡ true
    → (r s : ClassificationResult) × ((classify_impl (in_phase c Phase.model_primary) a tripped).0
        ≡ returned r)
      × ((classify_impl (in_phase c Phase.ml_shadow) a tripped).0 ≡ returned s)
      × (r.label ≡ s.label)
      × InUnit r.confidence
      × (s.confidence ≡ pred.confidence)
unfolding with_model with_head clamped_result plain_result
classify-confidence c a tripped {out} {pred} {head} e em eh d = (
  with_model pred clamp_conf
      (clamped_result Phase.model_primary out pred.label model_source pred.confidence),
  with_head head as_given (
      with_model pred as_given
        (plain_result Phase.ml_shadow out pred.label model_source pred.confidence)),
  model_primary-decides (in_phase c Phase.model_primary) a tripped refl e em d,
  ml_shadow-decides (in_phase c Phase.ml_shadow) a tripped refl e em eh d,
  refl,
  clamp_or_zero-InUnit pred.confidence,
  refl,
)

-- A result without what the head was observed to say.
abbrev pub unobserved : ClassificationResult → ClassificationResult
unobserved r = record r { ml_output = none; ml_confidence = none }

abbrev pub decision_of : Outcome ClassificationResult → Outcome ClassificationResult
decision_of (returned r) = returned (unobserved r)
decision_of (raised e) = raised e

observe_head-decision :
    (h : Attempt Prediction) (o : Outcome ClassificationResult)
    → Stays h
    → decision_of (observe_head h o) ≡ decision_of o
unfolding observe_head with_head
observe_head-decision (answered p) (returned r) s = refl
observe_head-decision (failed e) (returned r) s = refl
observe_head-decision exits (returned r) s = absurd s
observe_head-decision h (raised e) s = refl

-- In ML_SHADOW the head is a shadow: two heads that do not exit the process, whatever they answer
-- and also if they raise, leave the same decision, apart from the head's own observation.
pub ml_shadow_unmoved :
    (c : Config) (a : Answers) (tripped : Bool) (h k : Attempt Prediction) {out : Option Value}
    → c.starting_phase ≡ Phase.ml_shadow
    → a.rule ≡ answered out
    → Stays h
    → Stays k
    → decision_of (classify_impl c (with_answer a h) tripped).0
      ≡ decision_of (classify_impl c (with_answer a k) tripped).0
unfolding route ml_shadow is_phase
ml_shadow_unmoved c a tripped h k {out} p e sh sk =
    let b : is_breached c ≡ false = rw p (ground arith) in
    let primary = phase_primary_decision Phase.ml_shadow c.confidence_threshold out a.model in
    rw
      (
        classify-route c (with_answer a h) tripped b e,
        classify-route c (with_answer a k) tripped b e,
        p,
      )
      (observe_head-decision h primary sh ∙ sym (observe_head-decision k primary sk))
