-- ===== src/Switch/Floor.antt =====
-- Lemmas on where the label of a call of `_classify_impl` (src/postrule/core.py) comes from.
use postrule.Prelude.{
  ◌≡◌, refl, Bool, true, false, ◌&&◌, Option, none, some, arith, Bool-cases, inl, inr,
}
use postrule.Num.{Real}
use postrule.Phase.{Phase, is_phase}
use postrule.Record.{
  Value, Source, rule_source, rule_fallback, model_source, ml_source, is_real_label,
}
use postrule.Switch.Config.{Config}
use postrule.Switch.Result.{
  Attempt, answered, failed, exits, Outcome, returned, raised, Prediction, ClassificationResult,
  Answers,
}
use postrule.Switch.Classify.{
  phase_primary_decision, mark_from, is_decision, classify_impl, route, model_shadow, model_primary,
  ml_shadow, ml_with_fallback, ml_primary, observe_head, marked,
}

-- The label is a real label that the collaborator answered.
abbrev pub AnswersWith : Option (Attempt Prediction) → Option Value → Type 0
AnswersWith (some (answered pred)) label = (pred.label ≡ label) × (is_real_label label ≡ true)
AnswersWith _ label = ⊥

-- Where the label of a result of that source comes from: the rule, the model or the head.
abbrev pub Origin :
    Option Value
    → Option (Attempt Prediction)
    → Option (Attempt Prediction)
    → Source
    → Option Value
    → Type 0
Origin out model head rule_source label = label ≡ out
Origin out model head rule_fallback label = label ≡ out
Origin out model head model_source label = AnswersWith model label
Origin out model head ml_source label = AnswersWith head label
Origin out model head _ label = ⊥

abbrev HasOrigin :
    Option Value
    → Option (Attempt Prediction)
    → Option (Attempt Prediction)
    → Outcome ClassificationResult
    → Type 0
HasOrigin out model head (raised e) = Unit
HasOrigin out model head (returned r) = Origin out model head r.source r.label

is_decision-real :
    (threshold : Real) (pred : Prediction)
    → is_decision threshold pred ≡ true
    → is_real_label pred.label ≡ true
unfolding is_decision
is_decision-real threshold pred h = ground arith

module _ (threshold : Real) (out : Option Value) (head : Option (Attempt Prediction)) where
  primary-HasOrigin :
      (phase : Phase) (model : Option (Attempt Prediction))
      → HasOrigin out model head (phase_primary_decision phase threshold out model)
  unfolding phase_primary_decision
  primary-HasOrigin phase none = refl
  primary-HasOrigin phase (some (failed e)) = refl
  primary-HasOrigin phase (some exits) = tt
  primary-HasOrigin phase (some (answered pred)) = elim (Bool-cases (is_decision threshold pred)) [
    | inl d ↦ rw d (refl, is_decision-real threshold pred d)
    | inr d ↦ rw d
  ]

  model_primary-HasOrigin :
      (phase : Phase) (model : Option (Attempt Prediction))
      → HasOrigin out model head (model_primary phase threshold out model)
  unfolding model_primary
  model_primary-HasOrigin phase none = tt
  model_primary-HasOrigin phase (some (failed e)) = refl
  model_primary-HasOrigin phase (some exits) = tt
  model_primary-HasOrigin phase (some (answered pred)) =
      elim (Bool-cases (is_decision threshold pred)) [
        | inl d ↦ rw d (refl, is_decision-real threshold pred d)
        | inr d ↦ rw d
      ]

  model_shadow-HasOrigin :
      (phase : Phase) (model : Option (Attempt Prediction))
      → HasOrigin out model head (model_shadow phase out model)
  unfolding model_shadow
  model_shadow-HasOrigin phase none = tt
  model_shadow-HasOrigin phase (some (failed e)) = refl
  model_shadow-HasOrigin phase (some exits) = tt
  model_shadow-HasOrigin phase (some (answered pred)) = refl

module _ (threshold : Real) (out : Option Value) (model : Option (Attempt Prediction)) where
  observe_head-HasOrigin :
      (h : Attempt Prediction) (head : Option (Attempt Prediction))
      (o : Outcome ClassificationResult)
      → HasOrigin out model head o
      → HasOrigin out model head (observe_head h o)
  unfolding observe_head
  observe_head-HasOrigin (answered pred) head (raised e) k = tt
  observe_head-HasOrigin (failed e') head (raised e) k = tt
  observe_head-HasOrigin exits head (raised e) k = tt
  observe_head-HasOrigin (answered pred) head (returned r) k = k
  observe_head-HasOrigin (failed e) head (returned r) k = k
  observe_head-HasOrigin exits head (returned r) k = tt

  mark_from-Origin :
      (head : Option (Attempt Prediction)) (s : Source) (r : ClassificationResult)
      → r.source ≡ s
      → Origin out model head r.source r.label
      → Origin out model head (mark_from s r).source (mark_from s r).label
  unfolding mark_from
  mark_from-Origin head rule_source r e k = rw e at k
  mark_from-Origin head _ r e k = k

  marked-HasOrigin :
      (head : Option (Attempt Prediction)) (o : Outcome ClassificationResult)
      → HasOrigin out model head o
      → HasOrigin out model head (marked o)
  unfolding marked
  marked-HasOrigin head (raised e) k = tt
  marked-HasOrigin head (returned r) k = mark_from-Origin head r.source r refl k

  ml_shadow-HasOrigin :
      (phase : Phase) (head : Option (Attempt Prediction))
      → HasOrigin out model head (ml_shadow phase threshold out model head)
  unfolding ml_shadow
  ml_shadow-HasOrigin phase none = tt
  ml_shadow-HasOrigin phase (some h) =
      observe_head-HasOrigin h (some h) _ (primary-HasOrigin threshold out (some h) phase model)

  ml_with_fallback-HasOrigin :
      (phase : Phase) (head : Option (Attempt Prediction))
      → HasOrigin out model head (ml_with_fallback phase threshold out model head)
  unfolding ml_with_fallback
  ml_with_fallback-HasOrigin phase none = tt
  ml_with_fallback-HasOrigin phase (some exits) = tt
  ml_with_fallback-HasOrigin phase (some (failed e)) = marked-HasOrigin (some (failed e)) _ (
      observe_head-HasOrigin (failed e) (some (failed e)) _
        (primary-HasOrigin threshold out (some (failed e)) phase model))
  ml_with_fallback-HasOrigin phase (some (answered pred)) =
      elim (Bool-cases (is_decision threshold pred)) [
        | inl d ↦ rw d (refl, is_decision-real threshold pred d)
        | inr d ↦ rw d (
            marked-HasOrigin (some (answered pred)) _ (
              observe_head-HasOrigin (answered pred) (some (answered pred)) _
                (primary-HasOrigin threshold out (some (answered pred)) phase model)))
      ]

  ml_primary-HasOrigin :
      (phase : Phase) (head : Option (Attempt Prediction)) (tripped : Bool)
      → HasOrigin out model head (ml_primary phase out head tripped).0
  unfolding ml_primary
  ml_primary-HasOrigin phase none tripped = tt
  ml_primary-HasOrigin phase (some h) true = refl
  ml_primary-HasOrigin phase (some exits) false = tt
  ml_primary-HasOrigin phase (some (failed e)) false = refl
  ml_primary-HasOrigin phase (some (answered pred)) false =
      elim (Bool-cases (is_real_label pred.label)) [ inl d ↦ rw d (refl, d) | inr d ↦ rw d ]

route-HasOrigin :
    (threshold : Real) (out : Option Value) (phase : Phase)
    (model head : Option (Attempt Prediction)) (tripped : Bool)
    → HasOrigin out model head (route phase threshold out model head tripped).0
unfolding route
route-HasOrigin threshold out Phase.rule model head tripped = refl
route-HasOrigin threshold out Phase.model_shadow model head tripped =
    model_shadow-HasOrigin threshold out head Phase.model_shadow model
route-HasOrigin threshold out Phase.model_primary model head tripped =
    model_primary-HasOrigin threshold out head Phase.model_primary model
route-HasOrigin threshold out Phase.ml_shadow model head tripped =
    ml_shadow-HasOrigin threshold out model Phase.ml_shadow head
route-HasOrigin threshold out Phase.ml_with_fallback model head tripped =
    ml_with_fallback-HasOrigin threshold out model Phase.ml_with_fallback head
route-HasOrigin threshold out Phase.ml_primary model head tripped =
    ml_primary-HasOrigin threshold out model Phase.ml_primary head tripped

-- Whatever the phase and the breaker, a call that returns has a label with an origin: the rule's
-- answer if its source is "rule" or "rule_fallback", else a label that is neither `None` nor blank
-- and that the model (source "model") or the head (source "ml") answered in this very call.
pub classify-Origin :
    (c : Config) (a : Answers) (tripped : Bool) {out : Option Value} {r : ClassificationResult}
    → a.rule ≡ answered out
    → (classify_impl c a tripped).0 ≡ returned r
    → Origin out a.model a.head r.source r.label
unfolding classify_impl
classify-Origin c a tripped {out} {r} e h =
    elim (Bool-cases (c.safety_critical && is_phase c.starting_phase Phase.ml_primary)) [
      | inl d ↦ absurd (let g = rw d at h in cc)
      | inr d ↦
          let g = rw (d, e) at h in
          let k =
            route-HasOrigin c.confidence_threshold out c.starting_phase a.model a.head tripped in
          rw g at k
    ]
