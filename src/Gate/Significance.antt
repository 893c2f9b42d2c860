-- ===== src/Gate/Significance.antt =====
-- Lemmas on the p-value of src/postrule/viz.py and the binomial tail.
use native.Mathlib.Nat.{add_comm, add-zero, zero-add, suc-add, pow-suc}
use postrule.Prelude.{
  ℕ, zero, suc, ◌+◌, ◌-◌, ◌*◌, ◌^◌, ◌≤◌, ◌<◌, ◌≡◌, ◌↔◌, refl, Bool, true, false, List, [], ◌∷◌,
  min_of, leb, ◌==◌, arith,
}
use postrule.Num.{Real, ratio, one_real, lt_real, min_real}
use postrule.Gate.Pairing.{count_only_first, count_only_second}
use postrule.Gate.Mcnemar.{comb, tail_sum, corrected_diff, exact_p, discordant_p, mcnemar_p}

count_swap : (xs ys : List Bool) → count_only_first xs ys ≡ count_only_second ys xs
unfolding count_only_first count_only_second
count_swap [] [] = refl
count_swap [] (y ∷ ys) = ground arith
count_swap (x ∷ xs) [] = ground arith
count_swap (x ∷ xs) (y ∷ ys) = ground (arith, count_swap xs ys)

min_of_comm : (a b : ℕ) → min_of a b ≡ min_of b a
min_of_comm a b = ground arith

corrected_diff_comm : (b c : ℕ) → corrected_diff b c ≡ corrected_diff c b
unfolding corrected_diff
corrected_diff_comm b c = rw (add_comm (b - c) (c - b))

exact_p_comm : (b c : ℕ) → exact_p b c ≡ exact_p c b
unfolding exact_p
exact_p_comm b c = rw (add_comm b c, min_of_comm b c)

discordant_p_comm :
    (normal_tail : ℕ → ℕ → Real) (b c : ℕ)
    → discordant_p normal_tail b c ≡ discordant_p normal_tail c b
unfolding discordant_p
discordant_p_comm normal_tail b c =
    ground (arith, exact_p_comm b c, corrected_diff_comm b c, add_comm b c)

-- Exchanging the two classifiers leaves the p-value as it is.
pub mcnemar_p_comm :
    (normal_tail : ℕ → ℕ → Real) (xs ys : List Bool)
    → mcnemar_p normal_tail xs ys ≡ mcnemar_p normal_tail ys xs
unfolding mcnemar_p
mcnemar_p_comm normal_tail xs ys = ground (
  arith,
  count_swap xs ys,
  count_swap ys xs,
  discordant_p_comm normal_tail (count_only_second xs ys) (count_only_first xs ys),
)

tail_sum-pos : (n k : ℕ) → 1 ≤ tail_sum n k
unfolding tail_sum
tail_sum-pos zero zero = omega arith
tail_sum-pos (suc n) zero = omega arith
tail_sum-pos n (suc k) = omega (arith, tail_sum-pos n k)

-- A p-value below a / d is not the cap of 1, so it is the doubled tail.
lt-min_one :
    (k w a d : ℕ)
    → a ≤ d
    → lt_real (min_real one_real (ratio k w)) (ratio a d) ≡ true
    → k * d < a * w
unfolding lt_real min_real
lt-min_one k w a d h p = ground arith

lt-min_one_of :
    (k w a d : ℕ)
    → k < w
    → k * d < a * w
    → lt_real (min_real one_real (ratio k w)) (ratio a d) ≡ true
unfolding lt_real min_real
lt-min_one_of k w a d s p = ground arith

le-mul_of_pos : (t d : ℕ) → 1 ≤ t → 2 * d ≤ 2 * t * d
le-mul_of_pos t d h = grind arith

not-one-lt : (a d : ℕ) → a ≤ d → lt_real one_real (ratio a d) ≡ false
unfolding lt_real
not-one-lt a d h = ground arith

exact_p-needs :
    (b c a d : ℕ) → a ≤ d → lt_real (exact_p b c) (ratio a d) ≡ true → 2 * d < a * 2 ^ (b + c)
unfolding exact_p
exact_p-needs b c a d h p =
    let t = tail_sum (b + c) (min_of b c) in
    omega (
      arith,
      lt-min_one (2 * t) (2 ^ (b + c)) a d h p,
      le-mul_of_pos t d (tail_sum-pos (b + c) (min_of b c)),
    )

-- On at most 50 disagreements a p-value below a / d, a level of at most 1, takes enough of them:
-- 2 * d < a * 2 ^ (b + c).
pub discordant_p-needs :
    (normal_tail : ℕ → ℕ → Real) (b c a d : ℕ)
    → a ≤ d
    → b + c ≤ 50
    → lt_real (discordant_p normal_tail b c) (ratio a d) ≡ true
    → 2 * d < a * 2 ^ (b + c)
unfolding discordant_p
discordant_p-needs normal_tail b c a d h small p =
    ground (arith, not-one-lt a d h, exact_p-needs b c a d h)

tail_sum-zero : (n : ℕ) → tail_sum n 0 ≡ 1
unfolding tail_sum
tail_sum-zero zero = refl
tail_sum-zero (suc n) = refl

tail_sum-suc : (n k : ℕ) → tail_sum (suc n) (suc k) ≡ tail_sum n (suc k) + tail_sum n k
unfolding tail_sum
tail_sum-suc zero zero = refl
tail_sum-suc (suc n) zero = omega arith
tail_sum-suc n (suc k) = omega (arith, tail_sum-suc n k)

comb-above : (n k : ℕ) → n < k → comb n k ≡ 0
unfolding comb
comb-above n zero h = absurd (omega arith)
comb-above zero (suc k) h = refl
comb-above (suc n) (suc k) h = omega (arith, comb-above n k, comb-above n (suc k))

tail_sum_above : (n : ℕ) → tail_sum n (suc n) ≡ tail_sum n n
unfolding tail_sum
tail_sum_above n = omega (arith, comb-above n (suc n) (omega arith))

tail_sum-all : (n : ℕ) → tail_sum n n ≡ 2 ^ n
tail_sum-all zero = tail_sum-zero 0
tail_sum-all (suc n) =
    omega (arith, tail_sum-suc n n, tail_sum-all n, tail_sum_above n, pow-suc 2 n)

tail_sum_mono : (n k j : ℕ) → tail_sum n k ≤ tail_sum n (j + k)
unfolding tail_sum
tail_sum_mono n k zero = rw zero-add (omega arith)
tail_sum_mono n k (suc j) = rw suc-add (omega (arith, tail_sum_mono n k j))

-- The one-sided tail `tail / 2 ** n` that `mcnemar_p` doubles is a probability: it is positive, at
-- most 1, and 1 when all the n + 1 binomial terms are summed.
pub tail_IsProbability :
    (n k : ℕ) → k ≤ n → (1 ≤ tail_sum n k) × (tail_sum n k ≤ 2 ^ n) × (tail_sum n n ≡ 2 ^ n)
tail_IsProbability n k h =
    let e : (n - k) + k ≡ n = omega arith in
    let up : tail_sum n k ≤ tail_sum n n = rw e at (tail_sum_mono n k (n - k)) in
    (tail_sum-pos n k, omega (arith, tail_sum-all n), tail_sum-all n)

sweep_p :
    (normal_tail : ℕ → ℕ → Real) (b : ℕ)
    → 1 ≤ b
    → b ≤ 50
    → discordant_p normal_tail b 0 ≡ min_real one_real (ratio 2 (2 ^ b))
unfolding discordant_p exact_p
sweep_p normal_tail b pos small =
    let e : min_of b 0 ≡ 0 = ground arith in
    let z : ((b + 0) == 0) ≡ false = ground arith in
    let l : leb (b + 0) 50 ≡ true = ground arith in rw (z, l, e, tail_sum-zero (b + 0), add-zero b)

above_two : (a d w : ℕ) → a ≤ d → 2 * d < a * w → 2 < w
above_two a d w h p = grind arith

-- A sweep: the target wins each of b disagreements, 1 ≤ b ≤ 50. Its p-value is below a / d, a level
-- of at most 1, exactly when 2 * d < a * 2 ^ b.
pub sweep_iff :
    (normal_tail : ℕ → ℕ → Real) (b a d : ℕ)
    → 1 ≤ b
    → b ≤ 50
    → a ≤ d
    → (lt_real (discordant_p normal_tail b 0) (ratio a d) ≡ true) ↔ (2 * d < a * 2 ^ b)
sweep_iff normal_tail b a d pos small h =
    rw (sweep_p normal_tail b pos small)
      (lt-min_one 2 (2 ^ b) a d h, λ p. lt-min_one_of 2 (2 ^ b) a d (above_two a d (2 ^ b) h p) p)
