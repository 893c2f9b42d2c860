-- ===== src/Gate/Soundness.antt =====
-- Lemmas on `McNemarGate.evaluate` of src/postrule/gates.py: its answer against the discordant pairs
-- and the accuracies.
use postrule.Prelude.{
  ℕ, ◌+◌, ◌*◌, ◌≤◌, ◌<◌, ◌≡◌, ◌↔◌, Bool, true, false, Option, none, refl, some, List, [], ◌∷◌,
  length, arith, Option-cases, Bool-cases, ◌^◌, inl, inr,
}
use postrule.Num.{Real, lt_real, ratio}
use postrule.Phase.{Phase}
use postrule.Record.{ClassificationRecord}
use postrule.Gate.Pairing.{
  SourceField, paired_rows, paired_fields, paired_correctness, phase_source_field, count_true,
  count_only_first, count_only_second,
}
use postrule.Gate.Mcnemar.{mcnemar_p}
use postrule.Gate.Significance.{discordant_p-needs}
use postrule.Gate.Kinds.{mcnemar_gate}
use postrule.Gate.Evaluate.{mcnemar_decide, evaluate}

paired_rows-length :
    (fc ft : SourceField) (rs : List ClassificationRecord)
    → length (paired_rows fc ft rs).0 ≡ length (paired_rows fc ft rs).1
unfolding paired_rows
paired_rows-length fc ft [] = omega arith
paired_rows-length fc ft (r ∷ rs) = ground (arith, paired_rows-length fc ft rs)

paired_fields-length :
    (fc ft : Option SourceField) (rs : List ClassificationRecord)
    → length (paired_fields fc ft rs).0 ≡ length (paired_fields fc ft rs).1
unfolding paired_fields
paired_fields-length (some fc) (some ft) rs = paired_rows-length fc ft rs
paired_fields-length none ft rs = refl
paired_fields-length (some fc) none rs = refl

pub paired-length :
    (rs : List ClassificationRecord) (current target : Phase)
    → length (paired_correctness rs current target).0
      ≡ length (paired_correctness rs current target).1
unfolding paired_correctness
paired-length rs current target =
    paired_fields-length (phase_source_field current) (phase_source_field target) rs

abbrev swap : List Bool × List Bool → List Bool × List Bool
swap (xs, ys) = (ys, xs)

paired_rows-swap :
    (fc ft : SourceField) (rs : List ClassificationRecord)
    → paired_rows ft fc rs ≡ swap (paired_rows fc ft rs)
unfolding paired_rows
paired_rows-swap fc ft [] = refl
paired_rows-swap fc ft (r ∷ rs) = ground (arith, paired_rows-swap fc ft rs)

paired_fields-swap :
    (fc ft : Option SourceField) (rs : List ClassificationRecord)
    → paired_fields ft fc rs ≡ swap (paired_fields fc ft rs)
unfolding paired_fields
paired_fields-swap (some fc) (some ft) rs = paired_rows-swap fc ft rs
paired_fields-swap none none rs = refl
paired_fields-swap none (some ft) rs = refl
paired_fields-swap (some fc) none rs = refl

paired_swap :
    (rs : List ClassificationRecord) (current target : Phase)
    → paired_correctness rs target current ≡ swap (paired_correctness rs current target)
unfolding paired_correctness
paired_swap rs current target =
    paired_fields-swap (phase_source_field current) (phase_source_field target) rs

-- The discordant pairs account for the difference of the two counts.
pub count_balance :
    (cs ts : List Bool)
    → length cs ≡ length ts
    → count_true ts + count_only_first cs ts ≡ count_true cs + count_only_second cs ts
unfolding count_true count_only_first count_only_second
count_balance [] [] h = omega arith
count_balance [] (t ∷ ts) h = absurd (omega arith)
count_balance (c ∷ cs) [] h = absurd (omega arith)
count_balance (c ∷ cs) (t ∷ ts) h = ground (arith, count_balance cs ts)

-- The p-value exists and is below the level.
abbrev pub IsBelow : Real → Option Real → Type 0
IsBelow alpha none = ⊥
IsBelow alpha (some p) = lt_real p alpha ≡ true

-- The lists of current and of target correctness show that the target is right more often.
abbrev pub IsMoreCorrect : List Bool × List Bool → Type 0
IsMoreCorrect (cs, ts) = count_true cs < count_true ts

module _ (normal_tail : ℕ → ℕ → Real) where
  pub mcnemar_decide-better :
      (alpha : Real) (m : ℕ) (cs ts : List Bool)
      → (mcnemar_decide normal_tail alpha m (cs, ts)).target_better ≡ true
      → (m ≤ length cs)
        × (count_only_first cs ts < count_only_second cs ts)
        × IsBelow alpha (mcnemar_p normal_tail cs ts)
  unfolding mcnemar_decide
  mcnemar_decide-better alpha m cs ts h = elim (Option-cases (mcnemar_p normal_tail cs ts)) [
    | inl e ↦ ground arith
    | inr (p, e) ↦ ground arith
  ]

  pub mcnemar_decide_of :
      (alpha : Real) (m : ℕ) (cs ts : List Bool)
      → m ≤ length cs
      → count_only_first cs ts < count_only_second cs ts
      → IsBelow alpha (mcnemar_p normal_tail cs ts)
      → (mcnemar_decide normal_tail alpha m (cs, ts)).target_better ≡ true
  unfolding mcnemar_decide
  mcnemar_decide_of alpha m cs ts h d s = elim (Option-cases (mcnemar_p normal_tail cs ts)) [
    | inl e ↦ ground arith
    | inr (p, e) ↦ ground arith
  ]

  -- The McNemar gate answers that the target is better exactly when there are `min_paired` pairs,
  -- the target wins more disagreements than the current source, and the p-value exists and is
  -- below alpha.
  pub mcnemar-better_iff :
      (alpha : Real) (m : ℕ) (rs : List ClassificationRecord) (current target : Phase)
      → let (cs, ts) = paired_correctness rs current target in
        ((evaluate normal_tail (mcnemar_gate alpha m) rs current target).target_better ≡ true) ↔ (
          (m ≤ length cs)
          × (count_only_first cs ts < count_only_second cs ts)
          × IsBelow alpha (mcnemar_p normal_tail cs ts))
  unfolding evaluate
  mcnemar-better_iff alpha m rs current target =
      let (cs, ts) = paired_correctness rs current target in
      (mcnemar_decide-better alpha m cs ts, λ h. mcnemar_decide_of alpha m cs ts h.0 h.1 h.2)

  -- A McNemar gate never sends a switch to a source that is not right on more of the pairs.
  pub mcnemar-IsMoreCorrect :
      (alpha : Real) (m : ℕ) (rs : List ClassificationRecord) (current target : Phase)
      → (evaluate normal_tail (mcnemar_gate alpha m) rs current target).target_better ≡ true
      → IsMoreCorrect (paired_correctness rs current target)
  mcnemar-IsMoreCorrect alpha m rs current target h =
      let (cs, ts) = paired_correctness rs current target in
      omega (
        arith,
        (mcnemar-better_iff alpha m rs current target).0 h,
        count_balance cs ts (paired-length rs current target),
      )

  below-needs :
      (a d : ℕ) (cs ts : List Bool)
      → let discordant = count_only_second cs ts + count_only_first cs ts in
        a ≤ d
        → discordant ≤ 50
        → IsBelow (ratio a d) (mcnemar_p normal_tail cs ts)
        → 2 * d < a * 2 ^ discordant
  unfolding mcnemar_p
  below-needs a d cs ts level small h = ground (
    arith,
    discordant_p-needs normal_tail (count_only_second cs ts) (count_only_first cs ts) a d level
        small,
  )

  -- With at most 50 disagreements, a McNemar gate at level a / d, at most 1, advances only if
  -- 2 * d < a * 2 ^ (the number of disagreements). At the default level 1 / 100 that is 8.
  pub mcnemar-needs_disagreements :
      (a d m : ℕ) (rs : List ClassificationRecord) (current target : Phase)
      → let (cs, ts) = paired_correctness rs current target in
        let discordant = count_only_second cs ts + count_only_first cs ts in
        a ≤ d
        → discordant ≤ 50
        → (evaluate normal_tail (mcnemar_gate (ratio a d) m) rs current target).target_better ≡ true
        → 2 * d < a * 2 ^ discordant
  mcnemar-needs_disagreements a d m rs current target level small h =
      let (cs, ts) = paired_correctness rs current target in
      below-needs a d cs ts level small ((mcnemar-better_iff (ratio a d) m rs current target).0 h).2

  -- Two McNemar gates never hold each of two phases better than the other on the same records,
  -- whatever their levels: a switch does not go up and down on one log.
  pub mcnemar-no_flip :
      (alpha beta : Real) (m k : ℕ) (rs : List ClassificationRecord) (current target : Phase)
      → (evaluate normal_tail (mcnemar_gate alpha m) rs current target).target_better ≡ true
      → (evaluate normal_tail (mcnemar_gate beta k) rs target current).target_better ≡ false
  mcnemar-no_flip alpha beta m k rs current target h =
      elim (Bool-cases
        (evaluate normal_tail (mcnemar_gate beta k) rs target current).target_better) [
          | inr e ↦ e
          | inl e ↦ absurd (
              omega (
                arith,
                mcnemar-IsMoreCorrect alpha m rs current target h,
                rw (paired_swap rs current target) at
                    (mcnemar-IsMoreCorrect beta k rs target current e),
              ))
        ]
