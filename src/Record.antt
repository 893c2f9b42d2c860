-- ===== src/Record.antt =====
-- Values, verdicts and the rows of the outcome log (src/postrule/core.py).
use text.Mathlib.Text.{◌==◌ as str_eq}
use text.Mathlib.TextEquality.{eq_iff}
use Prim.Native.Char.{code}
use mathlib.Core.List.{reverse}
use postrule.Prelude.{
  ℕ, String, ◌≡◌, ◌↔◌, Bool, true, false, not, ◌||◌, ◌&&◌, Option, none, some, List, [], ◌∷◌, leb,
  ◌==◌, if◌then◌else◌, arith,
}
use postrule.Num.{Float}

-- A Python value that is not `None`: a text, or an object of another type, known by its identity.
-- `None` is `none` of `Option Value`.
pub data Value : Type 0 where
  str : String → Value
  object : ℕ → Value

unfoldable pub value_eq : Value → Value → Bool
value_eq (str s) (str t) = str_eq s t
value_eq (object a) (object b) = a == b
value_eq _ _ = false

pub value_eq_iff : (a b : Value) → (value_eq a b ≡ true) ↔ (a ≡ b)
unfolding value_eq
value_eq_iff (str s) (str t) = ground (arith, eq_iff s t)
value_eq_iff (object a) (object b) = ground arith
value_eq_iff (str s) (object b) = ground arith
value_eq_iff (object a) (str t) = ground arith

-- `a == b`, where either may be `None`
unfoldable pub label_eq : Option Value → Option Value → Bool
unfolding value_eq
label_eq none none = true
label_eq (some a) (some b) = value_eq a b
label_eq _ _ = false

pub label_eq_iff : (a b : Option Value) → (label_eq a b ≡ true) ↔ (a ≡ b)
unfolding label_eq
label_eq_iff none none = ground arith
label_eq_iff none (some b) = ground arith
label_eq_iff (some a) none = ground arith
label_eq_iff (some a) (some b) = ground (arith, value_eq_iff a b)

pub data Verdict : Type 0 where
  correct incorrect unknown : Verdict

-- `outcome in _VERDICT_VALUES`, with the verdict of that value
unfoldable pub parse_verdict : String → Option Verdict
parse_verdict s =
    if str_eq s "correct"
    then some correct
    else if str_eq s "incorrect"
    then some incorrect
    else if str_eq s "unknown"
    then some unknown
    else none

-- `_VERDICT_VALUES`: the value of each member
unfoldable pub verdict_text : Verdict → String
verdict_text correct = "correct"
verdict_text incorrect = "incorrect"
verdict_text unknown = "unknown"

-- Which path produced a label. `named` is a caller's own text.
pub data Source : Type 0 where
  rule_source rule_fallback model_source ml_source verifier_source bulk : Source
  named : String → Source

-- `source == "rule"`
unfoldable pub is_rule_source : Source → Bool
is_rule_source rule_source = true
is_rule_source (named s) = str_eq s "rule"
is_rule_source _ = false

-- `ClassificationRecord`. A timestamp is a number of ticks.
pub record ClassificationRecord : Type 0 where
  pub timestamp : ℕ
  pub input : Value
  pub label : Option Value
  pub outcome : Verdict
  pub source : Source
  pub confidence : Float
  pub rule_output : Option Value
  pub model_output : Option Value
  pub model_confidence : Option Float
  pub ml_output : Option Value
  pub ml_confidence : Option Float
  pub model_outcome : Option Verdict
  pub ml_outcome : Option Verdict
  pub action_result : Option Value
  pub action_raised : Option Value
  pub action_elapsed : Option ℕ

abbrev pub codes : String → List ℕ
codes String.[] = []
codes (String.◌∷◌ c s) = code c ∷ codes s

-- The code points that `str.strip` removes.
unfoldable pub is_space : ℕ → Bool
is_space c =
    leb 9 c && leb c 13
    || leb 28 c && leb c 32
    || c == 133
    || c == 160
    || c == 5760
    || leb 8192 c && leb c 8202
    || c == 8232
    || c == 8233
    || c == 8239
    || c == 8287
    || c == 12288

unfoldable pub lstrip : List ℕ → List ℕ
unfolding is_space
lstrip [] = []
lstrip (c ∷ cs) = let rest = lstrip cs in if is_space c then rest else c ∷ cs

unfoldable pub strip : List ℕ → List ℕ
unfolding lstrip
strip cs = reverse (lstrip (reverse (lstrip cs)))

unfoldable pub is_empty : List ℕ → Bool
is_empty [] = true
is_empty (_ ∷ _) = false

-- `_is_real_label`
unfoldable pub is_real_label : Option Value → Bool
unfolding strip is_empty
is_real_label none = false
is_real_label (some (str s)) = not (is_empty (strip (codes s)))
is_real_label (some (object _)) = true
