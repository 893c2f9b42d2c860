-- ===== src/Gate/Decision.antt =====
-- What a gate answers: `GateDecision` of src/postrule/gates.py. The text of a rationale is kept as
-- the case that it explains with the numbers that it shows.
use postrule.Prelude.{ℕ, Bool, Option, String}
use postrule.Num.{Real}
use postrule.Phase.{Phase}

pub data Mode : Type 0 where
  all_mode any_mode : Mode

-- `type(gate).__name__`
pub data GateKind : Type 0 where
  mcnemar_kind manual_kind margin_kind tolerance_kind volume_kind latency_kind : GateKind
  composite_kind phase_aware_kind : GateKind

mutual
  pub data Rationale : Type 0 where
    insufficient : ℕ → ℕ → Rationale
    degenerate : Rationale
    reliably_better : Real → ℕ → ℕ → Rationale
    wrong_direction : Real → ℕ → ℕ → Rationale
    not_significant : Real → Rationale
    operator_required : Phase → Rationale
    exceeds_margin within_margin within_tolerance below_tolerance : Real → Real → Rationale
    below_volume : ℕ → ℕ → Rationale
    latency_unmeasured : Phase → Rationale
    latency_within latency_exceeds : Phase → Real → Rationale
    combined : Mode → Rationales → Rationale
    via : Phase → Phase → GateKind → Rationale → Rationale
    at_terminal at_floor : Phase → Rationale
    exceeds_limit : Phase → Phase → Rationale
    refuses_ml_primary : Rationale
    manual_demote : Phase → Phase → String → Rationale
    with_reason : Rationale → String → Rationale

  pub data Rationales : Type 0 where
    end : Rationales
    part : Bool → Rationale → Rationales → Rationales

pub record GateDecision : Type 0 where
  pub target_better : Bool
  pub rationale : Rationale
  pub method : String
  pub statistic_name : Option String
  pub statistic_value : Option Real
  pub threshold : Option Real
  pub paired_sample_size : ℕ
  pub current_accuracy : Option Real
  pub target_accuracy : Option Real
