-- ===== src/Autoresearch/Evidence.antt =====
-- Lemmas on the reports of src/postrule/autoresearch.py and their relation to `McNemarGate` of
-- src/postrule/gates.py.
use postrule.Prelude.{
  ℕ, ◌+◌, ◌*◌, ◌≤◌, ◌<◌, ◌≡◌, ◌↔◌, Bool, true, false, refl, List, [], ◌∷◌, map, length, arith, some,
  and_iff,
}
use postrule.Num.{Real, lt_real}
use postrule.Gate.Pairing.{count_true, count_only_first, count_only_second}
use postrule.Gate.Mcnemar.{discordant_p, mcnemar_p}
use postrule.Gate.Soundness.{IsBelow, count_balance, mcnemar_decide-better, mcnemar_decide_of}
use postrule.Gate.Evaluate.{mcnemar_decide}
use postrule.Autoresearch.{
  Observation, count_obs, gains, losses, accuracy, mcnemar_p_value, report_on,
}

-- The two lists that the gate would compare.
abbrev pub prods : List Observation → List Bool
prods obs = map (λ (o : Observation). o.prod_correct) obs

abbrev pub cands : List Observation → List Bool
cands obs = map (λ (o : Observation). o.candidate_correct) obs

-- A report's counts are those of the gate's two lists.
abbrev HasCounts : List Observation → Type 0
HasCounts obs =
    (count_obs (λ (o : Observation). o.prod_correct) obs ≡ count_true (prods obs))
    × (count_obs (λ (o : Observation). o.candidate_correct) obs ≡ count_true (cands obs))
    × (count_obs gains obs ≡ count_only_second (prods obs) (cands obs))
    × (count_obs losses obs ≡ count_only_first (prods obs) (cands obs))
    × (length (prods obs) ≡ length obs)
    × (length (cands obs) ≡ length obs)

counts_agree : (obs : List Observation) → HasCounts obs
unfolding count_obs gains losses count_true count_only_first count_only_second
counts_agree [] = (refl, refl, refl, refl, refl, refl)
counts_agree (o ∷ os) = let h = counts_agree os in ground arith

lt-mul_cancel : (a b n : ℕ) → a * n < b * n → a < b
lt-mul_cancel a b n h = grind arith

lt-mul_mono : (a b n : ℕ) → 0 < n → a < b → a * n < b * n
lt-mul_mono a b n p h = grind arith

pub accuracy_iff : (x y n : ℕ) → 1 ≤ n → (lt_real (accuracy x n) (accuracy y n) ≡ true) ↔ (x < y)
unfolding lt_real accuracy
accuracy_iff x y n p =
    (λ h. lt-mul_cancel x y n (ground arith), λ h. let g = lt-mul_mono x y n p h in ground arith)

-- Without observations the two accuracies are equal.
pub accuracy_needs : (x y n : ℕ) → lt_real (accuracy x n) (accuracy y n) ≡ true → 1 ≤ n
unfolding lt_real accuracy
accuracy_needs x y n h = ground arith

recommend_parts :
    (alpha : Real) (obs : List Observation)
    → ((report_on alpha obs).recommend_promote ≡ true) ↔ (
        (lt_real (mcnemar_p_value (count_obs gains obs) (count_obs losses obs)) alpha ≡ true)
        × (lt_real
              (accuracy (count_obs (λ (o : Observation). o.prod_correct) obs) (length obs))
              (accuracy (count_obs (λ (o : Observation). o.candidate_correct) obs) (length obs))
            ≡ true))
unfolding report_on
recommend_parts alpha obs = and_iff _ _

le-count_true : (xs : List Bool) → count_true xs ≤ length xs
unfolding count_true
le-count_true [] = omega arith
le-count_true (true ∷ xs) = omega (arith, le-count_true xs)
le-count_true (false ∷ xs) = omega (arith, le-count_true xs)

only_second-le : (xs ys : List Bool) → count_only_second xs ys ≤ length xs
unfolding count_only_second
only_second-le [] ys = omega arith
only_second-le (x ∷ xs) [] = ground arith
only_second-le (x ∷ xs) (y ∷ ys) = ground (arith, only_second-le xs ys)

-- What a report recommends, in terms of the gate's two lists.
pub recommend_iff :
    (alpha : Real) (obs : List Observation)
    → let cs = prods obs in
      let ts = cands obs in
      ((report_on alpha obs).recommend_promote ≡ true) ↔ (
        (lt_real (mcnemar_p_value (count_only_second cs ts) (count_only_first cs ts)) alpha ≡ true)
        × (count_true cs < count_true ts))
recommend_iff alpha obs =
    let h = counts_agree obs in
    let k = recommend_parts alpha obs in
    (
      λ r. (
        let s = (k.0 r).0 in rw (h.2, h.3) at s,
        let x = (accuracy_iff _ _ _ (accuracy_needs _ _ _ (k.0 r).1)).0 (k.0 r).1 in omega arith,
      ),
      λ s. k.1 (
        rw (h.2, h.3) s.0,
        (accuracy_iff _ _ _ (omega (arith, le-count_true (cands obs)))).1 (omega arith),
      ),
    )

module _ (normal_tail : ℕ → ℕ → Real) where
  p_value-agrees : (b c : ℕ) → b + c ≤ 50 → discordant_p normal_tail b c ≡ mcnemar_p_value b c
  unfolding discordant_p mcnemar_p_value
  p_value-agrees b c h = ground arith

  gate_p-agrees :
      (cs ts : List Bool)
      → 1 ≤ length cs
      → length cs ≡ length ts
      → count_only_second cs ts + count_only_first cs ts ≤ 50
      → mcnemar_p normal_tail cs ts
        ≡ some (mcnemar_p_value (count_only_second cs ts) (count_only_first cs ts))
  unfolding mcnemar_p
  gate_p-agrees cs ts p e h =
      ground (arith, p_value-agrees (count_only_second cs ts) (count_only_first cs ts) h)

  IsBelow-iff :
      (alpha : Real) (cs ts : List Bool)
      → 1 ≤ length cs
      → length cs ≡ length ts
      → count_only_second cs ts + count_only_first cs ts ≤ 50
      → IsBelow alpha (mcnemar_p normal_tail cs ts) ↔ (
          lt_real (mcnemar_p_value (count_only_second cs ts) (count_only_first cs ts)) alpha ≡ true)
  IsBelow-iff alpha cs ts p e h = rw (gate_p-agrees cs ts p e h) (λ q. q, λ q. q)

  -- With at most 50 disagreements and at least the gate's minimum of observations, the harness
  -- recommends a candidate exactly when McNemarGate, at the same level and on the same answers, holds
  -- the candidate better than the switch.
  pub report-agrees :
      (alpha : Real) (m : ℕ) (obs : List Observation)
      → m ≤ length obs
      → count_obs gains obs + count_obs losses obs ≤ 50
      → ((report_on alpha obs).recommend_promote ≡ true)
        ↔ ((mcnemar_decide normal_tail alpha m (prods obs, cands obs)).target_better ≡ true)
  report-agrees alpha m obs enough small =
      let h = counts_agree obs in
      let cs = prods obs in
      let ts = cands obs in
      let r = recommend_iff alpha obs in
      let e : length cs ≡ length ts = omega arith in
      let balance = count_balance cs ts e in
      let few : count_only_second cs ts + count_only_first cs ts ≤ 50 = omega arith in
      (
        λ q.
            let x = r.0 q in
            let full : 1 ≤ length cs = omega (arith, le-count_true ts) in
            mcnemar_decide_of normal_tail alpha m cs ts (omega arith) (omega arith)
              ((IsBelow-iff alpha cs ts full e few).1 x.0),
        λ q.
            let x = mcnemar_decide-better normal_tail alpha m cs ts q in
            let full : 1 ≤ length cs = omega (arith, only_second-le cs ts) in
            r.1 ((IsBelow-iff alpha cs ts full e few).0 x.2, omega arith),
      )
