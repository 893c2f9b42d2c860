-- ===== src/Tests/GateTests.antt =====
-- Tests of the gates (src/postrule/gates.py, src/postrule/viz.py).
use postrule.Prelude.{
  ℕ, zero, suc, Bool, List, ◌+◌, ◌*◌, ◌^◌, ◌≤◌, ◌<◌, ◌≡◌, ◌↔◌, refl, true, false, [], ◌∷◌, length,
  All, arith,
}
use postrule.Num.{ratio, neg_real, round_ratio, lt_real, le_real}
use postrule.Phase.{Phase}
use postrule.Record.{label_eq}
use postrule.Gate.Pairing.{
  paired_correctness, source_correct_for, count_true, count_only_first, count_only_second,
}
use postrule.Gate.Mcnemar.{mcnemar_p, comb}
use postrule.Gate.Decision.{all_mode, any_mode}
use postrule.Gate.Kinds.{
  accuracy_delta, tolerance_decide, Gate, Gates, mcnemar_gate, composite_gate, latency_gate,
  last_gate, and_gate, latency_decide, latency_of,
}
use postrule.Gate.Evaluate.{evaluate, mcnemar_decide, combine}
use postrule.Gate.Soundness.{
  IsMoreCorrect, IsBelow, mcnemar-better_iff, mcnemar-IsMoreCorrect, mcnemar-needs_disagreements,
  mcnemar-no_flip,
}
use postrule.Gate.Composite.{members, IsBetter, AllRefuse, composite-IsBetter_iff}
use postrule.Tests.Data.{eight_wins, sample_tail}

abbrev small_gate : Gate
small_gate = mcnemar_gate (ratio 1 100) 8

abbrev pair : Gates
pair =
    and_gate small_gate
      (last_gate (latency_gate ((Phase.model_primary, ratio 20 1) ∷ []) (ratio 50 1)))

small_gate-better :
    (evaluate sample_tail small_gate eight_wins Phase.rule Phase.model_primary).target_better ≡ true
unfolding evaluate mcnemar_decide paired_correctness source_correct_for label_eq mcnemar_p comb
    lt_real
small_gate-better = refl

pair-better :
    (evaluate sample_tail
      (composite_gate all_mode pair)
      eight_wins
      Phase.rule
      Phase.model_primary).target_better
    ≡ true
unfolding evaluate combine latency_decide latency_of mcnemar_decide paired_correctness
    source_correct_for label_eq mcnemar_p comb lt_real le_real
pair-better = refl

mcnemar-better_iff_example :
    let (cs, ts) = paired_correctness eight_wins Phase.rule Phase.model_primary in
    ((evaluate sample_tail small_gate eight_wins Phase.rule Phase.model_primary).target_better
      ≡ true)
    ↔ ((8 ≤ length cs)
        × (count_only_first cs ts < count_only_second cs ts)
        × IsBelow (ratio 1 100) (mcnemar_p sample_tail cs ts))
mcnemar-better_iff_example =
    mcnemar-better_iff sample_tail (ratio 1 100) 8 eight_wins Phase.rule Phase.model_primary

mcnemar-IsMoreCorrect_example :
    IsMoreCorrect (paired_correctness eight_wins Phase.rule Phase.model_primary)
mcnemar-IsMoreCorrect_example =
    mcnemar-IsMoreCorrect sample_tail (ratio 1 100) 8 eight_wins Phase.rule Phase.model_primary
      small_gate-better

mcnemar-no_flip_example :
    (evaluate sample_tail
      (mcnemar_gate (ratio 1 20) 1)
      eight_wins
      Phase.model_primary
      Phase.rule).target_better
    ≡ false
mcnemar-no_flip_example =
    mcnemar-no_flip sample_tail (ratio 1 100) (ratio 1 20) 8 1 eight_wins Phase.rule
      Phase.model_primary small_gate-better

eight_disagree :
    let (cs, ts) = paired_correctness eight_wins Phase.rule Phase.model_primary in
    count_only_second cs ts + count_only_first cs ts ≡ 8
unfolding paired_correctness source_correct_for label_eq count_only_second count_only_first
eight_disagree = refl

mcnemar-needs_disagreements_example :
    let (cs, ts) = paired_correctness eight_wins Phase.rule Phase.model_primary in
    2 * 100 < 1 * 2 ^ (count_only_second cs ts + count_only_first cs ts)
mcnemar-needs_disagreements_example =
    mcnemar-needs_disagreements sample_tail 1 100 8 eight_wins Phase.rule Phase.model_primary
      (omega arith) (omega (arith, eight_disagree)) small_gate-better

abbrev answers : ℕ → ℕ → List Bool
answers zero zero = []
answers zero (suc w) = false ∷ answers zero w
answers (suc r) w = true ∷ answers r w

-- With the default margin, 196 right answers of 200 against 200 are refused: in doubles 0.98 - 1.0 is
-- below -0.02. One right answer more is accepted.
boundary_refused :
    (tolerance_decide (round_ratio 2 100) 30 (answers 200 0, answers 196 4)).target_better ≡ false
unfolding tolerance_decide le_real neg_real accuracy_delta count_true
boundary_refused = refl

inside_accepted :
    (tolerance_decide (round_ratio 2 100) 30 (answers 200 0, answers 197 3)).target_better ≡ true
unfolding tolerance_decide le_real neg_real accuracy_delta count_true
inside_accepted = refl

composite-IsBetter_iff_example :
    (((evaluate sample_tail
          (composite_gate all_mode pair)
          eight_wins
          Phase.rule
          Phase.model_primary).target_better
        ≡ true)
      ↔ All (IsBetter sample_tail eight_wins Phase.rule Phase.model_primary) (members pair))
    × (((evaluate sample_tail
            (composite_gate any_mode pair)
            eight_wins
            Phase.rule
            Phase.model_primary).target_better
          ≡ false)
        ↔ AllRefuse sample_tail eight_wins Phase.rule Phase.model_primary (members pair))
composite-IsBetter_iff_example =
    composite-IsBetter_iff sample_tail eight_wins Phase.rule Phase.model_primary pair
