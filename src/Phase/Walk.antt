-- ===== src/Phase/Walk.antt =====
-- Lemmas on `next_phase` and `prev_phase` of src/postrule/gates.py.
use postrule.Prelude.{◌+◌, ◌≡◌, ◌↔◌, none, some, arith}
use postrule.Phase.{Phase, order, next_phase, prev_phase}

pub next_phase-order : (p q : Phase) → next_phase p ≡ some q → order q ≡ order p + 1
unfolding next_phase
next_phase-order p q h = ground arith

pub prev_phase-order : (p q : Phase) → prev_phase p ≡ some q → order p ≡ order q + 1
unfolding prev_phase
prev_phase-order p q h = ground arith

-- Going up to a phase and going down from it are inverse: q is the next phase of p exactly when p
-- is the previous phase of q.
pub next-prev_iff : (p q : Phase) → (next_phase p ≡ some q) ↔ (prev_phase q ≡ some p)
unfolding next_phase prev_phase
next-prev_iff p q = ground arith

-- No phase comes after ML_PRIMARY and none before RULE, and every other phase has both.
pub walk_ends :
    (p : Phase)
    → ((next_phase p ≡ none) ↔ (p ≡ Phase.ml_primary)) × ((prev_phase p ≡ none) ↔ (p ≡ Phase.rule))
unfolding next_phase prev_phase
walk_ends p = ground arith
