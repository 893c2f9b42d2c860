-- ===== src/Gate/Evaluate.antt =====
-- The `evaluate` methods of the built-in gates (src/postrule/gates.py).
use postrule.Prelude.{
  ℕ, Bool, true, false, ◌&&◌, ◌||◌, Option, none, some, List, [], ◌∷◌, length, ltb, if◌then◌else◌,
}
use postrule.Num.{Real, lt_real}
use postrule.Phase.{Phase, is_phase}
use postrule.Record.{ClassificationRecord}
use postrule.Gate.Pairing.{paired_correctness, count_only_first, count_only_second}
use postrule.Gate.Mcnemar.{mcnemar_p}
use postrule.Gate.Decision.{Mode, all_mode, any_mode, GateKind, Rationale, Rationales, GateDecision}
use postrule.Gate.Kinds.{
  Gate, mcnemar_gate, manual_gate, accuracy_margin_gate, cost_tolerance_gate, min_volume_gate,
  latency_gate, composite_gate, phase_aware_gate, Gates, last_gate, and_gate, Transitions,
  no_transition, transition, bare_decision, sized_decision, measured_decision, mcnemar_decision,
  margin_decide, tolerance_decide, latency_decide, gate_kind,
}

-- `d.statistic_value is not None or d.paired_sample_size > 0`
unfoldable pub has_stats : GateDecision → Bool
has_stats d = elim d.statistic_value [ some _ ↦ true | none ↦ ltb 0 d.paired_sample_size ]

-- `all(…)` and `any(…)` over the sub-decisions
unfoldable pub all_better : List GateDecision → Bool
all_better [] = true
all_better (d ∷ ds) = d.target_better && all_better ds

unfoldable pub any_better : List GateDecision → Bool
any_better [] = false
any_better (d ∷ ds) = d.target_better || any_better ds

unfoldable pub parts : List GateDecision → Rationales
parts [] = Rationales.end
parts (d ∷ ds) = Rationales.part d.target_better d.rationale (parts ds)

-- `next((d for d in ds if …), first)`
unfoldable pub first_with_stats : GateDecision → List GateDecision → GateDecision
unfolding has_stats
first_with_stats first [] = first
first_with_stats first (d ∷ ds) =
    let rest = first_with_stats first ds in if has_stats d then d else rest

-- The end of `CompositeGate.evaluate`, on the first sub-decision and the others.
unfoldable pub combine : Mode → GateDecision → List GateDecision → GateDecision
unfolding all_better any_better parts first_with_stats
combine mode d ds = record (first_with_stats d (d ∷ ds)) {
  target_better = elim mode [ all_mode ↦ all_better (d ∷ ds) | any_mode ↦ any_better (d ∷ ds) ];
  rationale = Rationale.combined mode (parts (d ∷ ds));
}

-- The end of `PhaseAwareGate.evaluate`.
unfoldable pub relay : Phase → Phase → GateKind × GateDecision → GateDecision
relay current target (kind, d) = record d {
  rationale = Rationale.via current target kind d.rationale;
}

-- `normal_tail` is the tail of the normal approximation in `mcnemar_p`.
module _ (normal_tail : ℕ → ℕ → Real) where
  mcnemar_verdict : Real → List Bool → List Bool → ℕ → ℕ → Option Real → GateDecision
  unfolding measured_decision mcnemar_decision
  mcnemar_verdict alpha cs ts b c none = measured_decision false Rationale.degenerate cs ts
  mcnemar_verdict alpha cs ts b c (some p) =
      if lt_real p alpha && ltb c b
      then mcnemar_decision true (Rationale.reliably_better p b c) p alpha cs ts
      else if lt_real p alpha
      then mcnemar_decision false (Rationale.wrong_direction p b c) p alpha cs ts
      else mcnemar_decision false (Rationale.not_significant p) p alpha cs ts

  -- `McNemarGate.evaluate` on the paired lists
  unfoldable pub mcnemar_decide : Real → ℕ → List Bool × List Bool → GateDecision
  unfolding mcnemar_verdict sized_decision
  mcnemar_decide alpha min_paired (cs, ts) =
      if ltb (length cs) min_paired
      then sized_decision false (Rationale.insufficient (length cs) min_paired) (length cs)
      else mcnemar_verdict alpha cs ts (count_only_second cs ts) (count_only_first cs ts)
          (mcnemar_p normal_tail cs ts)

  unfoldable mutual
    -- `evaluate`
    pub evaluate : Gate → List ClassificationRecord → Phase → Phase → GateDecision
    evaluate (mcnemar_gate alpha m) rs current target =
        mcnemar_decide alpha m (paired_correctness rs current target)
    evaluate manual_gate rs current target =
        bare_decision false (Rationale.operator_required current)
    evaluate (accuracy_margin_gate margin m) rs current target =
        margin_decide margin m (paired_correctness rs current target)
    evaluate (cost_tolerance_gate margin m) rs current target =
        tolerance_decide margin m (paired_correctness rs current target)
    evaluate (min_volume_gate inner m) rs current target =
        let delegated = evaluate inner rs current target in
        if ltb (length rs) m
        then sized_decision false (Rationale.below_volume (length rs) m) (length rs)
        else delegated
    evaluate (latency_gate tiers slo) rs current target = latency_decide tiers slo target
    evaluate (composite_gate mode (last_gate g)) rs current target =
        combine mode (evaluate g rs current target) []
    evaluate (composite_gate mode (and_gate g gs)) rs current target =
        combine mode (evaluate g rs current target) (evaluate_all gs rs current target)
    evaluate (phase_aware_gate table g) rs current target =
        relay current target
          (evaluate_in table rs current target (gate_kind g, evaluate g rs current target))

    pub evaluate_all : Gates → List ClassificationRecord → Phase → Phase → List GateDecision
    evaluate_all (last_gate g) rs current target = evaluate g rs current target ∷ []
    evaluate_all (and_gate g gs) rs current target =
        evaluate g rs current target ∷ evaluate_all gs rs current target

    -- `self._transition_gates.get((current_phase, target_phase), self._default)`, evaluated
    pub evaluate_in :
        Transitions
        → List ClassificationRecord
        → Phase
        → Phase
        → GateKind × GateDecision
        → GateKind × GateDecision
    evaluate_in no_transition rs current target default = default
    evaluate_in (transition c t g rest) rs current target default =
        let here = evaluate g rs current target in
        let later = evaluate_in rest rs current target default in
        if is_phase c current && is_phase t target then (gate_kind g, here) else later
