-- ===== src/Judges/Guards.antt =====
-- Lemmas on the constructor of `JudgeCommittee` (src/postrule/verdicts.py).
use mathlib.Core.Path.{subst}
use postrule.Prelude.{
  ◌≤◌, ◌≡◌, true, false, not, some, List, [], ◌∷◌, ltb, any, all, length, arith, All, if-P_eq,
  nor_iff,
}
use postrule.Switch.Result.{Error, Outcome, returned, raised}
use postrule.Judges.{
  JudgeModel, JudgeCommittee, CommitteeMode, is_model_like, same_model, clashes, make_committee,
}

-- A committee as the constructor means it: two judges or more, all able to classify, and none of them
-- the classifier's own model.
pub record IsGuarded (classifier : JudgeModel) (k : JudgeCommittee) : Type 0 where
  pub size : 2 ≤ length k.judges
  pub can_judge : All (λ (j : JudgeModel). j.model_like ≡ true) k.judges
  pub distinct : All (λ (j : JudgeModel). same_model j classifier ≡ false) k.judges

all-All :
    (js : List JudgeModel)
    → all is_model_like js ≡ true
    → All (λ (j : JudgeModel). j.model_like ≡ true) js
unfolding all is_model_like
all-All [] e = tt
all-All (j ∷ js) e = (ground arith, all-All js (ground arith))

any-All :
    (classifier : JudgeModel) (js : List JudgeModel)
    → any (clashes true (some classifier)) js ≡ false
    → All (λ (j : JudgeModel). same_model j classifier ≡ false) js
unfolding any clashes
any-All classifier [] e = tt
any-All classifier (j ∷ js) e =
    let (here, rest) =
      (nor_iff (same_model j classifier) (any (clashes true (some classifier)) js)).0 e in
    (here, any-All classifier js rest)

raised-returned : {e : Error} (k : JudgeCommittee) → raised e ≡ returned k → ⊥
raised-returned k e = cc

returned_inj : (j k : JudgeCommittee) → returned j ≡ returned k → j ≡ k
returned_inj j k e = cc

-- A guarded committee that is constructed has two judges or more, each of which can classify, and no
-- judge is the same object as the classifier or has its class and model name.
pub make_committee-IsGuarded :
    (classifier : JudgeModel) (js : List JudgeModel) (mode : CommitteeMode) (k : JudgeCommittee)
    → make_committee true (some classifier) js mode ≡ returned k
    → IsGuarded classifier k
unfolding make_committee
make_committee-IsGuarded classifier js mode k =
    let P = λ (o : Outcome JudgeCommittee). o ≡ returned k → IsGuarded classifier k in
    if-P_eq P (ltb (length js) 2) _ _ (λ _ e. absurd (raised-returned k e))
      (λ enough.
        if-P_eq P (not (all is_model_like js)) _ _ (λ _ e. absurd (raised-returned k e))
          (λ able.
            if-P_eq P (any (clashes true (some classifier)) js) _ _
              (λ _ e. absurd (raised-returned k e))
              (λ apart e. subst (IsGuarded classifier) (returned_inj _ k e) (record {
                size = ground arith;
                can_judge = all-All js (ground arith);
                distinct = any-All classifier js apart;
              }))))
