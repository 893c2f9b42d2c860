-- ===== src/Num.antt =====
-- The numbers that the code keeps in Python floats. A `Real` is the exact value
-- (plus - minus) / scale; comparisons cross-multiply, as exact arithmetic on fractions does. Where
-- rounding decides, `round_real` gives the nearest double.
-- A `Float` is a real or NaN. Models `_clamp_conf` of src/postrule/core.py.
use postrule.Prelude.{
  ℕ, zero, suc, ◌+◌, ◌-◌, ◌*◌, ◌/◌, ◌%◌, ◌^◌, Bool, true, false, ◌||◌, ◌&&◌, ◌==◌, Option, none,
  some, ltb, leb, if◌then◌else◌,
}

pub record Real : Type 0 where
  pub plus : ℕ
  pub minus : ℕ
  pub scale : ℕ

-- k / n
abbrev pub ratio : ℕ → ℕ → Real
ratio k n = record { plus = k; minus = 0; scale = n }

abbrev pub zero_real : Real
zero_real = ratio 0 1

abbrev pub one_real : Real
one_real = ratio 1 1

unfoldable pub neg_real : Real → Real
neg_real a = record { plus = a.minus; minus = a.plus; scale = a.scale }

unfoldable pub sub_real : Real → Real → Real
sub_real a b = record {
  plus = a.plus * b.scale + b.minus * a.scale;
  minus = a.minus * b.scale + b.plus * a.scale;
  scale = a.scale * b.scale;
}

-- Doubled until it has 53 binary digits, with the number of doublings. A float below 1 needs no more
-- than 1126.
unfoldable pub normalize : ℕ → ℕ → ℕ → ℕ → ℕ × ℕ
normalize zero k n s = (k, s)
normalize (suc fuel) k n s = elim (leb (n * 2 ^ 52) k) [
  | true ↦ (k, s)
  | false ↦ normalize fuel (2 * k) n (s + 1)
]

-- k / n to the nearest integer, a tie to the even one
unfoldable pub round_even : ℕ → ℕ → ℕ
round_even k n =
    let q = k / n in
    let r = k % n in if ltb n (2 * r) || (2 * r == n && q % 2 == 1) then q + 1 else q

-- The double that is nearest to k / n, for k up to n.
unfoldable pub round_ratio : ℕ → ℕ → Real
unfolding normalize round_even
round_ratio k n =
    if k == 0
    then zero_real
    else let (m, s) = normalize 1126 k n 0 in ratio (round_even m n) (2 ^ s)

-- The double that is nearest to a number between -1 and 1.
unfoldable pub round_real : Real → Real
unfolding round_ratio neg_real
round_real a =
    if ltb a.plus a.minus
    then neg_real (round_ratio (a.minus - a.plus) a.scale)
    else round_ratio (a.plus - a.minus) a.scale

unfoldable pub lt_real : Real → Real → Bool
lt_real a b = ltb (a.plus * b.scale + b.minus * a.scale) (b.plus * a.scale + a.minus * b.scale)

unfoldable pub le_real : Real → Real → Bool
le_real a b = leb (a.plus * b.scale + b.minus * a.scale) (b.plus * a.scale + a.minus * b.scale)

-- `min(a, b)` and `max(a, b)` keep the first argument on a tie.
unfoldable pub min_real : Real → Real → Real
unfolding lt_real
min_real a b = if lt_real b a then b else a

unfoldable pub max_real : Real → Real → Real
unfolding lt_real
max_real a b = if lt_real a b then b else a

pub data Float : Type 0 where
  nan : Float
  real : Real → Float

abbrev pub zero_float : Float
zero_float = real zero_real

abbrev pub one_float : Float
one_float = real one_real

-- A comparison with NaN is false.
unfoldable pub lt_float : Float → Float → Bool
unfolding lt_real
lt_float (real a) (real b) = lt_real a b
lt_float _ _ = false

-- `_clamp_conf`
unfoldable pub clamp_conf : Option Float → Option Float
unfolding min_real max_real
clamp_conf none = none
clamp_conf (some nan) = none
clamp_conf (some (real r)) = some (real (max_real zero_real (min_real one_real r)))

-- `_clamp_conf(v) or 0.0`: `None` becomes 0.0, and 0.0, which is falsy, stays 0.0.
unfoldable pub clamp_or_zero : Float → Float
unfolding clamp_conf
clamp_or_zero v = elim (clamp_conf (some v)) [ none ↦ zero_float | some c ↦ c ]
