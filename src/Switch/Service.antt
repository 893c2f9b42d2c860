-- ===== src/Switch/Service.antt =====
-- Lemmas on failures of collaborators in `_classify_impl` (src/postrule/core.py), and on the circuit
-- breaker.
use postrule.Prelude.{
  ◌≡◌, refl, Bool, true, false, ◌&&◌, ◌||◌, if◌then◌else◌, Option, none, some, Bool-cases, inl, inr,
}
use postrule.Num.{Real, one_float}
use postrule.Phase.{Phase, is_phase}
use postrule.Record.{Value, rule_fallback, is_real_label}
use postrule.Switch.Config.{Config}
use postrule.Switch.Result.{
  Attempt, answered, failed, exits, Outcome, returned, raised, Prediction, ClassificationResult,
  Answers,
}
use postrule.Switch.Classify.{
  phase_primary_decision, is_decision, clamped_result, classify_impl, route, model_shadow,
  model_primary, ml_shadow, ml_with_fallback, ml_primary, observe_head, marked,
}

-- The switch is marked safety critical and yet stands in ML_PRIMARY.
abbrev pub is_breached : Config → Bool
is_breached c = c.safety_critical && is_phase c.starting_phase Phase.ml_primary

pub classify-route :
    (c : Config) (a : Answers) (tripped : Bool) {out : Option Value}
    → is_breached c ≡ false
    → a.rule ≡ answered out
    → classify_impl c a tripped
      ≡ route c.starting_phase c.confidence_threshold out a.model a.head tripped
unfolding classify_impl
classify-route c a tripped b e = rw (b, e)

-- The call returns a result, and raises nothing.
abbrev pub Returns : Outcome ClassificationResult → Type 0
Returns (returned r) = Unit
Returns (raised e) = ⊥

-- The collaborator does not leave by `KeyboardInterrupt` or `SystemExit`.
abbrev pub Stays : {A : Type 0} → Attempt A → Type 0
Stays exits = ⊥
Stays _ = Unit

Returns-if :
    (b : Bool) (x y : ClassificationResult) → Returns (if b then returned x else returned y)
Returns-if true x y = tt
Returns-if false x y = tt

module _ (threshold : Real) (out : Option Value) where
  primary-Returns :
      (phase : Phase) (m : Attempt Prediction)
      → Stays m
      → Returns (phase_primary_decision phase threshold out (some m))
  unfolding phase_primary_decision
  primary-Returns phase (failed e) s = tt
  primary-Returns phase exits s = absurd s
  primary-Returns phase (answered pred) s = Returns-if (is_decision threshold pred) _ _

  observe_head-Returns :
      (h : Attempt Prediction) (o : Outcome ClassificationResult)
      → Stays h
      → Returns o
      → Returns (observe_head h o)
  unfolding observe_head
  observe_head-Returns (answered pred) (returned r) s k = tt
  observe_head-Returns (failed e) (returned r) s k = tt
  observe_head-Returns exits (returned r) s k = absurd s
  observe_head-Returns h (raised e) s k = absurd k

  marked-Returns : (o : Outcome ClassificationResult) → Returns o → Returns (marked o)
  unfolding marked
  marked-Returns (returned r) k = tt
  marked-Returns (raised e) k = k

  ml_with_fallback-Returns :
      (phase : Phase) (m h : Attempt Prediction)
      → Stays m
      → Stays h
      → Returns (ml_with_fallback phase threshold out (some m) (some h))
  unfolding ml_with_fallback
  ml_with_fallback-Returns phase m exits sm sh = sh
  ml_with_fallback-Returns phase m (failed e) sm sh =
      marked-Returns _ (observe_head-Returns (failed e) _ tt (primary-Returns phase m sm))
  ml_with_fallback-Returns phase m (answered pred) sm sh =
      elim (Bool-cases (is_decision threshold pred)) [
        | inl d ↦ rw d tt
        | inr d ↦ rw d (
            marked-Returns _
              (observe_head-Returns (answered pred) _ tt (primary-Returns phase m sm)))
      ]

  model_shadow-Returns :
      (phase : Phase) (m : Attempt Prediction) → Stays m → Returns (model_shadow phase out (some m))
  unfolding model_shadow
  model_shadow-Returns phase (answered pred) s = tt
  model_shadow-Returns phase (failed e) s = tt
  model_shadow-Returns phase exits s = s

  model_primary-Returns :
      (phase : Phase) (m : Attempt Prediction)
      → Stays m
      → Returns (model_primary phase threshold out (some m))
  unfolding model_primary
  model_primary-Returns phase (answered pred) s = Returns-if (is_decision threshold pred) _ _
  model_primary-Returns phase (failed e) s = tt
  model_primary-Returns phase exits s = s

  ml_primary-Returns :
      (phase : Phase) (h : Attempt Prediction) (tripped : Bool)
      → Stays h
      → Returns (ml_primary phase out (some h) tripped).0
  unfolding ml_primary
  ml_primary-Returns phase h true s = tt
  ml_primary-Returns phase (failed e) false s = tt
  ml_primary-Returns phase exits false s = s
  ml_primary-Returns phase (answered pred) false s = elim (Bool-cases (is_real_label pred.label)) [
    | inl d ↦ rw d tt
    | inr d ↦ rw d tt
  ]

  route-Returns :
      (phase : Phase) (m h : Attempt Prediction) (tripped : Bool)
      → Stays m
      → Stays h
      → Returns (route phase threshold out (some m) (some h) tripped).0
  unfolding route
  route-Returns Phase.rule m h tripped sm sh = tt
  route-Returns Phase.model_shadow m h tripped sm sh = model_shadow-Returns Phase.model_shadow m sm
  route-Returns Phase.model_primary m h tripped sm sh =
      model_primary-Returns Phase.model_primary m sm
  route-Returns Phase.ml_shadow m h tripped sm sh =
      unfold ml_shadow in observe_head-Returns h _ sh (primary-Returns Phase.ml_shadow m sm)
  route-Returns Phase.ml_with_fallback m h tripped sm sh =
      ml_with_fallback-Returns Phase.ml_with_fallback m h sm sh
  route-Returns Phase.ml_primary m h tripped sm sh =
      ml_primary-Returns Phase.ml_primary h tripped sh

-- Where a model and a head are configured and none of them exits the process, a call whose rule
-- answers returns a result in every phase and for both states of the breaker, also if the model
-- and the head raise, unless a safety-critical switch stands in ML_PRIMARY.
pub classify-Returns :
    (c : Config) (a : Answers) (tripped : Bool) {out : Option Value} {m h : Attempt Prediction}
    → is_breached c ≡ false
    → a.rule ≡ answered out
    → a.model ≡ some m
    → a.head ≡ some h
    → Stays m
    → Stays h
    → Returns (classify_impl c a tripped).0
classify-Returns c a tripped {out} {m} {h} b e em eh sm sh =
    rw (classify-route c a tripped b e, em, eh)
      (route-Returns c.confidence_threshold out c.starting_phase m h tripped sm sh)

-- The head raised an exception.
abbrev pub has_failed : Option (Attempt Prediction) → Bool
has_failed (some (failed e)) = true
has_failed _ = false

ml_primary-breaker :
    (phase : Phase) (out : Option Value) (head : Option (Attempt Prediction)) (tripped : Bool)
    → (ml_primary phase out head tripped).1 ≡ (tripped || has_failed head)
unfolding ml_primary
ml_primary-breaker phase out none true = refl
ml_primary-breaker phase out none false = refl
ml_primary-breaker phase out (some h) true = refl
ml_primary-breaker phase out (some exits) false = refl
ml_primary-breaker phase out (some (failed e)) false = refl
ml_primary-breaker phase out (some (answered pred)) false =
    elim (Bool-cases (is_real_label pred.label)) [ inl d ↦ rw d | inr d ↦ rw d ]

route-breaker :
    (phase : Phase) (threshold : Real) (out : Option Value)
    (model head : Option (Attempt Prediction)) (tripped : Bool)
    → (route phase threshold out model head tripped).1
      ≡ (tripped || is_phase phase Phase.ml_primary && has_failed head)
unfolding route is_phase
route-breaker Phase.ml_primary t out model head tripped =
    ml_primary-breaker Phase.ml_primary out head tripped
route-breaker Phase.rule t out model head true = refl
route-breaker Phase.rule t out model head false = refl
route-breaker phase t out model head true = refl
route-breaker phase t out model head false = refl

-- A served call leaves the breaker tripped exactly when it was tripped before, or the phase is
-- ML_PRIMARY and the head raised: no call resets the breaker, and no other failure trips it.
pub classify-breaker :
    (c : Config) (a : Answers) (tripped : Bool) {out : Option Value}
    → is_breached c ≡ false
    → a.rule ≡ answered out
    → (classify_impl c a tripped).1
      ≡ (tripped || is_phase c.starting_phase Phase.ml_primary && has_failed a.head)
classify-breaker c a tripped {out} b e =
    rw (classify-route c a tripped b e)
      (route-breaker c.starting_phase c.confidence_threshold out a.model a.head tripped)

-- In ML_PRIMARY with a tripped breaker and a head, a call returns the rule's answer as a fallback
-- with full confidence, whatever the head would answer, and the breaker stays tripped.
pub classify_tripped :
    (c : Config) (a : Answers) {out : Option Value} {h : Attempt Prediction}
    → c.safety_critical ≡ false
    → c.starting_phase ≡ Phase.ml_primary
    → a.rule ≡ answered out
    → a.head ≡ some h
    → classify_impl c a true
      ≡ (returned (clamped_result Phase.ml_primary out out rule_fallback one_float), true)
unfolding classify_impl
classify_tripped c a s p e eh = rw (s, p, e) (unfold route ml_primary in rw eh)
