-- ===== src/Gate/Mcnemar.antt =====
-- `mcnemar_p` of src/postrule/viz.py. Its exact branch is computed with fractions. Beyond 50
-- disagreements it calls `math.erfc` on floats: `normal_tail cc n` stands for
-- `erfc(cc / sqrt(n) / sqrt(2))`, a parameter.
use postrule.Prelude.{
  ℕ, zero, suc, ◌+◌, ◌-◌, ◌*◌, ◌^◌, Bool, not, ◌||◌, Option, none, some, List, length, leb, min_of,
  ◌==◌, if◌then◌else◌,
}
use postrule.Num.{Real, ratio, one_real, min_real}
use postrule.Gate.Pairing.{count_only_first, count_only_second}

-- `math.comb`
unfoldable pub comb : ℕ → ℕ → ℕ
comb n zero = 1
comb zero (suc k) = 0
comb (suc n) (suc k) = comb n k + comb n (suc k)

-- `sum(comb(n, i) for i in range(k + 1))`
unfoldable pub tail_sum : ℕ → ℕ → ℕ
unfolding comb
tail_sum n zero = comb n 0
tail_sum n (suc k) = tail_sum n k + comb n (suc k)

-- `|b - c|` less one, toward zero
unfoldable pub corrected_diff : ℕ → ℕ → ℕ
corrected_diff b c = let d = (b - c) + (c - b) in if leb 1 d then d - 1 else 0

unfoldable pub exact_p : ℕ → ℕ → Real
unfolding tail_sum min_real
exact_p b c = min_real one_real (ratio (2 * tail_sum (b + c) (min_of b c)) (2 ^ (b + c)))

-- The p-value of `b` and `c` discordant pairs.
unfoldable pub discordant_p : (ℕ → ℕ → Real) → ℕ → ℕ → Real
unfolding exact_p corrected_diff min_real
discordant_p normal_tail b c =
    if (b + c) == 0
    then one_real
    else if leb (b + c) 50
    then exact_p b c
    else min_real one_real (normal_tail (corrected_diff b c) (b + c))

-- `mcnemar_p`
unfoldable pub mcnemar_p : (ℕ → ℕ → Real) → List Bool → List Bool → Option Real
unfolding discordant_p count_only_first count_only_second
mcnemar_p normal_tail rs ms =
    if length rs == 0 || length ms == 0 || not (length rs == length ms)
    then none
    else some (discordant_p normal_tail (count_only_second rs ms) (count_only_first rs ms))
