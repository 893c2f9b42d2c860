-- ===== src/Gate/Rivals.antt =====
-- Lemmas on `ShadowUnderperformanceGate` beside the gates that promote (src/postrule/gates.py).
use postrule.Prelude.{
  ℕ, ◌+◌, ◌*◌, ◌≤◌, ◌<◌, ◌≡◌, ◌↔◌, ◌⊎◌, refl, Bool, true, false, Option, none, some, String, List,
  [], ◌∷◌, length, All, arith, Bool-cases, Option-cases, inl, inr,
}
use postrule.Num.{Real, ratio, le_real, sub_real}
use postrule.Phase.{Phase}
use postrule.Record.{Value, Verdict, correct, incorrect, unknown, ClassificationRecord}
use postrule.Gate.Pairing.{
  SourceField, rule_output, model_output, source_value, source_correct_for, correct_by_outcome,
  add_row, paired_correctness, count_true, count_only_first, count_only_second,
}
use postrule.Gate.Mcnemar.{mcnemar_p}
use postrule.Gate.Kinds.{mcnemar_gate}
use postrule.Gate.Evaluate.{evaluate}
use postrule.Gate.Soundness.{IsBelow, mcnemar-better_iff}
use postrule.Gate.Shadow.{
  add_pair, shadow_pairs, assess_p, assess_pairs, assess, is_below, is_edited, rule_rows,
  judge_drift, no_drift_basis, restart_unedited, should_restart,
}

-- The row was judged by its decision alone, and its decision was not incorrect.
abbrev pub IsPlain : ClassificationRecord → Type 0
IsPlain r =
    ((r.outcome ≡ correct) ⊎ (r.outcome ≡ unknown))
    × (r.model_outcome ≡ none)
    × (r.ml_outcome ≡ none)

fields-row :
    (o : Verdict) (label ru sh : Option Value) (rest : List Bool × List Bool)
    → (o ≡ correct) ⊎ (o ≡ unknown)
    → add_pair o label ru sh rest
      ≡ add_row (correct_by_outcome o label ru) (correct_by_outcome o label sh) rest
unfolding add_pair add_row correct_by_outcome
fields-row correct label none none rest h = refl
fields-row correct label none (some sh) rest h = refl
fields-row correct label (some ru) none rest h = refl
fields-row correct label (some ru) (some sh) (rs, ss) h = refl
fields-row unknown label none none rest h = refl
fields-row unknown label none (some sh) rest h = refl
fields-row unknown label (some ru) none rest h = refl
fields-row unknown label (some ru) (some sh) rest h = refl
fields-row incorrect label ru sh rest h = absurd (ground arith)

unjudged-model :
    (r : ClassificationRecord)
    → r.model_outcome ≡ none
    → source_correct_for r model_output ≡ correct_by_outcome r.outcome r.label r.model_output
unfolding source_correct_for
unjudged-model r m = rw m

plain-row :
    (r : ClassificationRecord) (rest : List Bool × List Bool)
    → IsPlain r
    → add_pair r.outcome r.label r.rule_output (source_value model_output r) rest
      ≡ add_row (source_correct_for r rule_output) (source_correct_for r model_output) rest
unfolding source_correct_for
plain-row r rest (outcome, m, h) =
    rw (unjudged-model r m) (fields-row r.outcome r.label r.rule_output r.model_output rest outcome)

-- On plain rows both gates look at the same pairs.
plain-pairs :
    (rs : List ClassificationRecord)
    → All IsPlain rs
    → shadow_pairs model_output rs ≡ paired_correctness rs Phase.rule Phase.model_primary
unfolding shadow_pairs paired_correctness
plain-pairs [] h = refl
plain-pairs (r ∷ rs) (h, hs) = rw (plain-pairs rs hs) (plain-row r _ h)

module _ (normal_tail : ℕ → ℕ → Real) where
  assess_pairs-wins :
      (alpha : Real) (m : ℕ) (cost : Option Real) (rs ss : List Bool)
      → (assess_pairs normal_tail alpha m cost (rs, ss)).recommend_disable ≡ true
      → (m ≤ length rs)
        × (count_only_second rs ss < count_only_first rs ss)
        × IsBelow alpha (mcnemar_p normal_tail rs ss)
  unfolding assess_pairs assess_p is_below
  assess_pairs-wins alpha m cost rs ss h = elim (Option-cases (mcnemar_p normal_tail rs ss)) [
    | inl e ↦ ground arith
    | inr (p, e) ↦ ground arith
  ]

  assess_pairs_of :
      (alpha : Real) (m : ℕ) (cost : Option Real) (rs ss : List Bool)
      → m ≤ length rs
      → count_only_second rs ss < count_only_first rs ss
      → IsBelow alpha (mcnemar_p normal_tail rs ss)
      → (assess_pairs normal_tail alpha m cost (rs, ss)).recommend_disable ≡ true
  unfolding assess_pairs assess_p is_below
  assess_pairs_of alpha m cost rs ss h d s = elim (Option-cases (mcnemar_p normal_tail rs ss)) [
    | inl e ↦ ground arith
    | inr (p, e) ↦ ground arith
  ]

  pub assess-disable_iff :
      (alpha : Real) (m : ℕ) (field : SourceField) (records : List ClassificationRecord)
      (cost : Option Real)
      → let (rs, ss) = shadow_pairs field records in
        ((assess normal_tail alpha m field records cost).recommend_disable ≡ true) ↔ (
          (m ≤ length rs)
          × (count_only_second rs ss < count_only_first rs ss)
          × IsBelow alpha (mcnemar_p normal_tail rs ss))
  unfolding assess
  assess-disable_iff alpha m field records cost =
      let (rs, ss) = shadow_pairs field records in
      (assess_pairs-wins alpha m cost rs ss, λ h. assess_pairs_of alpha m cost rs ss h.0 h.1 h.2)

  -- On rows that were judged by the decision alone, none of them incorrect: when the check
  -- recommends to switch the model's shadow off, no McNemar gate, of any level and size, promotes
  -- the model over the rule.
  pub assess-no_promotion :
      (alpha beta : Real) (m k : ℕ) (records : List ClassificationRecord) (cost : Option Real)
      → All IsPlain records
      → (assess normal_tail alpha m model_output records cost).recommend_disable ≡ true
      → (evaluate normal_tail
          (mcnemar_gate beta k)
          records
          Phase.rule
          Phase.model_primary).target_better
        ≡ false
  assess-no_promotion alpha beta m k records cost plain off =
      let wins = ((assess-disable_iff alpha m model_output records cost).0 off).1 in
      let same = rw (plain-pairs records plain) at wins in
      elim (Bool-cases
        (evaluate normal_tail (mcnemar_gate beta k) records Phase.rule
          Phase.model_primary).target_better) [
            | inr e ↦ e
            | inl e ↦ absurd (
                omega (
                  arith,
                  same,
                  ((mcnemar-better_iff normal_tail beta k records Phase.rule Phase.model_primary).0
                      e).1,
                ))
          ]

drift_iff :
    (a b c d : ℕ) (rules : List Bool)
    → ((judge_drift (ratio c d) (ratio a b) rules).recommend_restart ≡ true)
      ↔ (c * b * length rules + count_true rules * b * d ≤ a * length rules * d)
unfolding judge_drift le_real sub_real
drift_iff a b c d rules = grind arith

-- With a baseline accuracy of a / b and a tolerated drop of c / d, the shadow is to come back exactly
-- when the rule was edited, or there are enough recent rows with a correct decision and the rule's
-- accuracy on them is at least c / d below the baseline.
pub should_restart_iff :
    (m a b c d : ℕ) (records : List ClassificationRecord) (before now : Option String)
    → let rules = rule_rows records in
      ((should_restart m records before now (some (ratio a b)) (ratio c d)).recommend_restart
        ≡ true)
      ↔ ((is_edited before now ≡ true)
          ⊎ ((m ≤ length rules)
              × (c * b * length rules + count_true rules * b * d ≤ a * length rules * d)))
unfolding should_restart restart_unedited no_drift_basis
should_restart_iff m a b c d records before now =
    ground (arith, drift_iff a b c d (rule_rows records))
