-- ===== src/Tests/ShadowTests.antt =====
-- Tests of `ShadowUnderperformanceGate` (src/postrule/gates.py).
use postrule.Prelude.{◌≡◌, inl, refl, true, false, none, List, [], ◌∷◌}
use postrule.Num.{ratio}
use postrule.Phase.{Phase}
use postrule.Record.{correct, ClassificationRecord}
use postrule.Gate.Pairing.{model_output}
use postrule.Gate.Mcnemar.{mcnemar_p}
use postrule.Gate.Kinds.{mcnemar_gate}
use postrule.Gate.Evaluate.{evaluate}
use postrule.Gate.Shadow.{assess}
use postrule.Gate.Rivals.{IsPlain, assess-no_promotion}
use postrule.Tests.Data.{bug, question, row_of, sample_tail}

-- The rule was right and the model wrong.
abbrev lost : ClassificationRecord
lost = row_of correct bug bug question

abbrev eight_losses : List ClassificationRecord
eight_losses = lost ∷ lost ∷ lost ∷ lost ∷ lost ∷ lost ∷ lost ∷ lost ∷ []

lost-IsPlain : IsPlain lost
lost-IsPlain = (inl refl, refl, refl)

losses-off :
    (assess sample_tail (ratio 1 20) 8 model_output eight_losses none).recommend_disable ≡ true
unfolding assess mcnemar_p
losses-off = refl

assess-no_promotion_example :
    (evaluate sample_tail
      (mcnemar_gate (ratio 1 2) 1)
      eight_losses
      Phase.rule
      Phase.model_primary).target_better
    ≡ false
assess-no_promotion_example =
    assess-no_promotion sample_tail (ratio 1 20) (ratio 1 2) 8 1 eight_losses none
      (
        lost-IsPlain,
        (
          lost-IsPlain,
          (
            lost-IsPlain,
            (lost-IsPlain, (lost-IsPlain, (lost-IsPlain, (lost-IsPlain, (lost-IsPlain, tt))))),
          ),
        ),
      )
      losses-off
