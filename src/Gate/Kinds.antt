-- ===== src/Gate/Kinds.antt =====
-- The built-in gates as values, and the gates that decide alone (src/postrule/gates.py). A gate is a
-- value with the parameters that its class holds; what `__init__` refuses has no value (`Gates` is
-- not empty) or is answered by `none` of the function `make_mcnemar`.
use postrule.Prelude.{
  ℕ, Bool, true, false, not, ◌&&◌, Option, none, some, List, [], ◌∷◌, length, ltb, leb,
  if◌then◌else◌,
}
use postrule.Num.{
  Real, zero_real, one_real, lt_real, le_real, sub_real, round_real, round_ratio, neg_real,
}
use postrule.Phase.{Phase, is_phase}
use postrule.Gate.Pairing.{count_true}
use postrule.Gate.Decision.{
  Mode, GateKind, mcnemar_kind, manual_kind, margin_kind, tolerance_kind, volume_kind, latency_kind,
  composite_kind, phase_aware_kind, Rationale, GateDecision,
}

mutual
  pub data Gate : Type 0 where
    mcnemar_gate : Real → ℕ → Gate
    manual_gate : Gate
    accuracy_margin_gate cost_tolerance_gate : Real → ℕ → Gate
    min_volume_gate : Gate → ℕ → Gate
    latency_gate : List (Phase × Real) → Real → Gate
    composite_gate : Mode → Gates → Gate
    phase_aware_gate : Transitions → Gate → Gate

  -- The sub-gates of a composite, at least one.
  pub data Gates : Type 0 where
    last_gate : Gate → Gates
    and_gate : Gate → Gates → Gates

  -- The dict from transitions to gates.
  pub data Transitions : Type 0 where
    no_transition : Transitions
    transition : Phase → Phase → Gate → Transitions → Transitions

-- `0 < alpha < 1`, `min_paired > 0`
unfoldable pub make_mcnemar : Real → ℕ → Option Gate
unfolding lt_real
make_mcnemar alpha min_paired =
    if not (lt_real zero_real alpha && lt_real alpha one_real)
    then none
    else if leb min_paired 0
    then none
    else some (mcnemar_gate alpha min_paired)

-- `GateDecision(target_better=…, rationale=…)`, the other fields at their defaults
unfoldable pub bare_decision : Bool → Rationale → GateDecision
bare_decision better why = record {
  target_better = better;
  rationale = why;
  method = "none";
  statistic_name = none;
  statistic_value = none;
  threshold = none;
  paired_sample_size = 0;
  current_accuracy = none;
  target_accuracy = none;
}

unfoldable pub sized_decision : Bool → Rationale → ℕ → GateDecision
unfolding bare_decision
sized_decision better why n = record (bare_decision better why) { paired_sample_size = n }

-- A decision with both accuracies on `n` pairs.
unfoldable pub measured_decision : Bool → Rationale → List Bool → List Bool → GateDecision
unfolding bare_decision
measured_decision better why cs ts = record (bare_decision better why) {
  paired_sample_size = length cs;
  current_accuracy = some (round_ratio (count_true cs) (length cs));
  target_accuracy = some (round_ratio (count_true ts) (length cs));
}

unfoldable pub mcnemar_decision :
    Bool → Rationale → Real → Real → List Bool → List Bool → GateDecision
unfolding measured_decision
mcnemar_decision better why p alpha cs ts = record (measured_decision better why cs ts) {
  method = "mcnemar";
  statistic_name = some "p_value";
  statistic_value = some p;
  threshold = some alpha;
}

-- `target_acc - current_acc`, each quotient and the difference rounded to a double
unfoldable pub accuracy_delta : List Bool → List Bool → Real
unfolding sub_real round_real round_ratio
accuracy_delta cs ts =
    round_real
      (sub_real (round_ratio (count_true ts) (length cs)) (round_ratio (count_true cs) (length cs)))

-- `AccuracyMarginGate.evaluate` on the paired lists
unfoldable pub margin_decide : Real → ℕ → List Bool × List Bool → GateDecision
unfolding sized_decision measured_decision
margin_decide margin min_paired (cs, ts) =
    if ltb (length cs) min_paired
    then sized_decision false (Rationale.insufficient (length cs) min_paired) (length cs)
    else if lt_real margin (accuracy_delta cs ts)
    then measured_decision true (Rationale.exceeds_margin (accuracy_delta cs ts) margin) cs ts
    else measured_decision false (Rationale.within_margin (accuracy_delta cs ts) margin) cs ts

-- `CostToleranceGate.evaluate` on the paired lists
unfoldable pub tolerance_decide : Real → ℕ → List Bool × List Bool → GateDecision
unfolding sized_decision measured_decision
tolerance_decide margin min_paired (cs, ts) =
    if ltb (length cs) min_paired
    then sized_decision false (Rationale.insufficient (length cs) min_paired) (length cs)
    else if le_real (neg_real margin) (accuracy_delta cs ts)
    then measured_decision true (Rationale.within_tolerance (accuracy_delta cs ts) margin) cs ts
    else measured_decision false (Rationale.below_tolerance (accuracy_delta cs ts) margin) cs ts

-- `self._tier_latency_ms.get(target_phase)`
unfoldable pub latency_of : Phase → List (Phase × Real) → Option Real
unfolding is_phase
latency_of p [] = none
latency_of p ((q, ms) ∷ rest) = if is_phase q p then some ms else latency_of p rest

latency_verdict : Phase → Real → Option Real → GateDecision
unfolding bare_decision
latency_verdict target slo none = bare_decision true (Rationale.latency_unmeasured target)
latency_verdict target slo (some ms) = bare_decision (le_real ms slo) (
    if le_real ms slo
    then Rationale.latency_within target ms
    else Rationale.latency_exceeds target ms)

-- `LatencyGate.evaluate`
unfoldable pub latency_decide : List (Phase × Real) → Real → Phase → GateDecision
unfolding latency_verdict
latency_decide tiers slo target = latency_verdict target slo (latency_of target tiers)

unfoldable pub gate_kind : Gate → GateKind
gate_kind (mcnemar_gate _ _) = mcnemar_kind
gate_kind manual_gate = manual_kind
gate_kind (accuracy_margin_gate _ _) = margin_kind
gate_kind (cost_tolerance_gate _ _) = tolerance_kind
gate_kind (min_volume_gate _ _) = volume_kind
gate_kind (latency_gate _ _) = latency_kind
gate_kind (composite_gate _ _) = composite_kind
gate_kind (phase_aware_gate _ _) = phase_aware_kind
