-- ===== src/Phase.antt =====
-- The six lifecycle phases: `Phase` and `_PHASE_ORDER` of src/postrule/core.py, and `next_phase`
-- and `prev_phase` of src/postrule/gates.py.
pub mod Walk
use postrule.Prelude.{
  ℕ, zero, suc, ◌+◌, ◌≡◌, ◌↔◌, Bool, true, Option, none, some, List, [], ◌∷◌, ◌==◌, if◌then◌else◌,
  arith,
}

pub data Phase : Type 0 where
  rule model_shadow model_primary ml_shadow ml_with_fallback ml_primary : Phase

pub Phase-discrete : Discrete Phase
Phase-discrete = hlevel

-- `_PHASE_ORDER`
unfoldable pub order : Phase → ℕ
order rule = 0
order model_shadow = 1
order model_primary = 2
order ml_shadow = 3
order ml_with_fallback = 4
order ml_primary = 5

-- `_PHASE_ORDER.items()`, in the order of insertion
abbrev phases : List Phase
phases = rule ∷ model_shadow ∷ model_primary ∷ ml_shadow ∷ ml_with_fallback ∷ ml_primary ∷ []

-- `for phase, idx in _PHASE_ORDER.items(): if idx == k: return phase`
find_order : ℕ → List Phase → Option Phase
unfolding order
find_order k [] = none
find_order k (p ∷ ps) = let rest = find_order k ps in if order p == k then some p else rest

unfoldable pub next_phase : Phase → Option Phase
unfolding find_order
next_phase p = find_order (order p + 1) phases

-- `idx == order - 1`: at order 0 the code looks for -1, which no phase has.
unfoldable pub prev_phase : Phase → Option Phase
unfolding find_order
prev_phase p = elim (order p) [ zero ↦ none | suc k ↦ find_order k phases ]

-- `a is b` on the members of the enum
unfoldable pub is_phase : Phase → Phase → Bool
unfolding order
is_phase a b = order a == order b

pub is_phase_iff : (a b : Phase) → (is_phase a b ≡ true) ↔ (a ≡ b)
unfolding is_phase
is_phase_iff a b = ground arith
