-- ===== src/Judges/Votes.antt =====
-- Lemmas on the vote of `JudgeCommittee` (src/postrule/verdicts.py).
use postrule.Prelude.{
  ℕ, ◌+◌, ◌<◌, ◌≡◌, ◌↔◌, ◌≢◌, refl, true, List, [], ◌∷◌, ltb, if◌then◌else◌, all, arith, All,
}
use postrule.Record.{Verdict, correct, incorrect, unknown}
use postrule.Judges.{verdict_eq, agree_with, unanimity, aggregate, unanimous}

-- How many verdicts are this one.
pub votes_for : Verdict → List Verdict → ℕ
unfolding verdict_eq
votes_for v [] = 0
votes_for v (w ∷ ws) = (if verdict_eq v w then 1 else 0) + votes_for v ws

-- What the counts of the two contenders are, in the order of their first votes.
data Tally (c i : ℕ) (counts : List (Verdict × ℕ)) : Type 0 where
  nobody : c ≡ 0 → i ≡ 0 → counts ≡ [] → Tally c i counts
  only_correct : 0 < c → i ≡ 0 → counts ≡ (correct, c) ∷ [] → Tally c i counts
  only_incorrect : c ≡ 0 → 0 < i → counts ≡ (incorrect, i) ∷ [] → Tally c i counts
  correct_first : 0 < c → 0 < i → counts ≡ (correct, c) ∷ (incorrect, i) ∷ [] → Tally c i counts
  incorrect_first : 0 < c → 0 < i → counts ≡ (incorrect, i) ∷ (correct, c) ∷ [] → Tally c i counts

-- The verdict with strictly more votes among the two.
pub more_votes : ℕ → ℕ → Verdict
more_votes c i = if ltb i c then correct else if ltb c i then incorrect else unknown

verdict_eq_iff : (v w : Verdict) → (verdict_eq v w ≡ true) ↔ (v ≡ w)
unfolding verdict_eq
verdict_eq_iff v w = ground arith

all_same :
    (v : Verdict) (vs : List Verdict)
    → (all (verdict_eq v) vs ≡ true) ↔ All (λ (w : Verdict). v ≡ w) vs
unfolding all
all_same v [] = ground arith
all_same v (w ∷ vs) = ground (arith, all_same v vs, verdict_eq_iff v w)

-- A unanimous committee answers a verdict that is not unknown exactly when it has judges and every one
-- of them gave this verdict.
pub aggregate-unanimous_iff :
    (v : Verdict) (vs : List Verdict)
    → v ≢ unknown
    → (aggregate unanimous vs ≡ v) ↔ ((vs ≢ []) × All (λ (w : Verdict). v ≡ w) vs)
unfolding aggregate unanimity agree_with all verdict_eq
aggregate-unanimous_iff v [] h = ground arith
aggregate-unanimous_iff v (unknown ∷ vs) h = ground arith
aggregate-unanimous_iff correct (correct ∷ vs) h = ground (arith, all_same correct vs)
aggregate-unanimous_iff incorrect (correct ∷ vs) h = ground arith
aggregate-unanimous_iff unknown (correct ∷ vs) h = absurd (h refl)
aggregate-unanimous_iff correct (incorrect ∷ vs) h = ground arith
aggregate-unanimous_iff incorrect (incorrect ∷ vs) h = ground (arith, all_same incorrect vs)
aggregate-unanimous_iff unknown (incorrect ∷ vs) h = absurd (h refl)
