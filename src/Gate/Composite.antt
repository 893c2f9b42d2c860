-- ===== src/Gate/Composite.antt =====
-- The gates that stand on other gates (`CompositeGate`, `MinVolumeGate` and `PhaseAwareGate` of
-- src/postrule/gates.py).
use mathlib.Core.List.{Memᴰ}
use postrule.Prelude.{
  ℕ, ◌≡◌, ◌↔◌, refl, true, false, ◌&&◌, and_iff, nor_iff, Bool-cases, inl, inr, List, [], ◌∷◌, All,
  if◌then◌else◌,
}
use postrule.Num.{Real}
use postrule.Phase.{Phase, is_phase}
use postrule.Record.{ClassificationRecord}
use postrule.Gate.Pairing.{paired_correctness}
use postrule.Gate.Decision.{Mode, all_mode, any_mode, GateDecision, Rationale}
use postrule.Gate.Kinds.{
  Gate, Gates, Transitions, mcnemar_gate, composite_gate, phase_aware_gate, last_gate, and_gate,
  no_transition, transition, gate_kind,
}
use postrule.Gate.Evaluate.{
  evaluate, evaluate_all, evaluate_in, combine, relay, all_better, any_better,
}
use postrule.Gate.Soundness.{IsMoreCorrect, mcnemar-IsMoreCorrect}

abbrev pub members : Gates → List Gate
members (last_gate g) = g ∷ []
members (and_gate g gs) = g ∷ members gs

-- The gate of the transition, or the default: what `.get((current, target), default)` returns.
abbrev pub gate_for : Transitions → Gate → Phase → Phase → Gate
gate_for no_transition default current target = default
gate_for (transition c t g rest) default current target =
    if is_phase c current && is_phase t target then g else gate_for rest default current target

module _ (normal_tail : ℕ → ℕ → Real) (rs : List ClassificationRecord)
    (current target : Phase) where
  abbrev pub IsBetter : Gate → Type 0
  IsBetter g = (evaluate normal_tail g rs current target).target_better ≡ true

  all_better-cons_iff :
      (d : GateDecision) (ds : List GateDecision)
      → (all_better (d ∷ ds) ≡ true) ↔ ((d.target_better ≡ true) × (all_better ds ≡ true))
  unfolding all_better
  all_better-cons_iff d ds = and_iff d.target_better (all_better ds)

  any_better-cons_false :
      (d : GateDecision) (ds : List GateDecision)
      → (any_better (d ∷ ds) ≡ false) ↔ ((d.target_better ≡ false) × (any_better ds ≡ false))
  unfolding any_better
  any_better-cons_false d ds = nor_iff d.target_better (any_better ds)

  all_better_iff :
      (gs : Gates)
      → (all_better (evaluate_all normal_tail gs rs current target) ≡ true)
        ↔ All IsBetter (members gs)
  unfolding evaluate
  all_better_iff (last_gate g) =
      let e = all_better-cons_iff (evaluate normal_tail g rs current target) [] in
      (λ h. ((e.0 h).0, tt), λ h. e.1 (h.0, unfold all_better in refl))
  all_better_iff (and_gate g gs) =
      let later = evaluate_all normal_tail gs rs current target in
      let e = all_better-cons_iff (evaluate normal_tail g rs current target) later in
      let ih = all_better_iff gs in (λ h. ((e.0 h).0, ih.0 (e.0 h).1), λ h. e.1 (h.0, ih.1 h.1))

  -- No member of the list answers that the target is better.
  abbrev pub AllRefuse : List Gate → Type 0
  AllRefuse gs = All (λ g. (evaluate normal_tail g rs current target).target_better ≡ false) gs

  any_better_iff :
      (gs : Gates)
      → (any_better (evaluate_all normal_tail gs rs current target) ≡ false)
        ↔ AllRefuse (members gs)
  unfolding evaluate
  any_better_iff (last_gate g) =
      let e = any_better-cons_false (evaluate normal_tail g rs current target) [] in
      (λ h. ((e.0 h).0, tt), λ h. e.1 (h.0, unfold any_better in refl))
  any_better_iff (and_gate g gs) =
      let later = evaluate_all normal_tail gs rs current target in
      let e = any_better-cons_false (evaluate normal_tail g rs current target) later in
      let ih = any_better_iff gs in (λ h. ((e.0 h).0, ih.0 (e.0 h).1), λ h. e.1 (h.0, ih.1 h.1))

  evaluate-composite :
      (mode : Mode) (gs : Gates)
      → (evaluate normal_tail (composite_gate mode gs) rs current target).target_better
        ≡ elim mode [
          | all_mode ↦ all_better (evaluate_all normal_tail gs rs current target)
          | any_mode ↦ any_better (evaluate_all normal_tail gs rs current target)
        ]
  unfolding evaluate combine
  evaluate-composite all_mode (last_gate g) = refl
  evaluate-composite any_mode (last_gate g) = refl
  evaluate-composite all_mode (and_gate g gs) = refl
  evaluate-composite any_mode (and_gate g gs) = refl

  -- A composite in mode "all" holds the target better exactly when each of its sub-gates does; one
  -- in mode "any" refuses exactly when each of them refuses.
  pub composite-IsBetter_iff :
      (gs : Gates)
      → (((evaluate normal_tail (composite_gate all_mode gs) rs current target).target_better
            ≡ true)
          ↔ All IsBetter (members gs))
        × (((evaluate normal_tail (composite_gate any_mode gs) rs current target).target_better
              ≡ false)
            ↔ AllRefuse (members gs))
  composite-IsBetter_iff gs = (
    rw (evaluate-composite all_mode gs) (all_better_iff gs),
    rw (evaluate-composite any_mode gs) (any_better_iff gs),
  )

  All-mem : (gs : List Gate) (g : Gate) → Memᴰ g gs → All IsBetter gs → IsBetter g
  All-mem [] g m xs = elim m [ ]
  All-mem (h ∷ gs) g (Memᴰ.head e) (x, xs) = rw e x
  All-mem (h ∷ gs) g (Memᴰ.tail m) (x, xs) = All-mem gs g m xs

  -- A conjunction with a McNemar gate in it never sends a switch to a source that is not right on
  -- more of the pairs, whatever its other members are.
  pub all_of-IsMoreCorrect :
      (alpha : Real) (m : ℕ) (gs : Gates)
      → Memᴰ (mcnemar_gate alpha m) (members gs)
      → (evaluate normal_tail (composite_gate all_mode gs) rs current target).target_better ≡ true
      → IsMoreCorrect (paired_correctness rs current target)
  all_of-IsMoreCorrect alpha m gs mem h =
      mcnemar-IsMoreCorrect normal_tail alpha m rs current target
        (All-mem (members gs) (mcnemar_gate alpha m) mem ((composite-IsBetter_iff gs).0.0 h))

  evaluate_in-chosen :
      (table : Transitions) (default : Gate)
      → evaluate_in normal_tail table rs current target
          (gate_kind default, evaluate normal_tail default rs current target)
        ≡ (
          gate_kind (gate_for table default current target),
          evaluate normal_tail (gate_for table default current target) rs current target,
        )
  unfolding evaluate
  evaluate_in-chosen no_transition default = refl
  evaluate_in-chosen (transition c t g rest) default =
      elim (Bool-cases (is_phase c current && is_phase t target)) [
        | inl e ↦ rw e
        | inr e ↦ rw e (evaluate_in-chosen rest default)
      ]

  -- A phase-aware gate gives the answer of the gate that its table names for the transition, or of
  -- the default, with the same evidence; only the rationale differs.
  pub phase_aware-chosen :
      (table : Transitions) (default : Gate)
      → let d = evaluate normal_tail (phase_aware_gate table default) rs current target in
        let chosen = gate_for table default current target in
        let e = evaluate normal_tail chosen rs current target in
        d ≡ record e { rationale = Rationale.via current target (gate_kind chosen) e.rationale }
  unfolding evaluate relay
  phase_aware-chosen table default = rw (evaluate_in-chosen table default)
