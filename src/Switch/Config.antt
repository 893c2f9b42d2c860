-- ===== src/Switch/Config.antt =====
-- `SwitchConfig` of src/postrule/core.py, with the checks of `__post_init__`.
use postrule.Prelude.{ℕ, ◌≤◌, ◌≡◌, Bool, true, ◌&&◌, not, Option, none, some, ltb, if◌then◌else◌}
use postrule.Num.{Real, zero_real, one_real, le_real}
use postrule.Phase.{Phase, order, is_phase}

pub record Config : Type 0 where
  pub confidence_threshold : Real
  pub starting_phase : Phase
  pub phase_limit : Phase
  pub safety_critical : Bool
  pub latency_slo_ms : Option Real
  pub auto_record : Bool
  pub auto_advance : Bool
  pub auto_demote : Bool
  pub auto_advance_interval : ℕ
  pub phase_cooldown_records : ℕ
  pub adjudicate_disagreements : Bool
  pub verifier_sample_rate : Real
  pub propagate_action_exceptions : Bool
  -- the deprecated alias `phase=`
  pub phase : Option Phase

-- The deprecated alias wins over the default starting phase only.
unfoldable pub resolve_alias : Config → Config
unfolding is_phase order
resolve_alias c = elim c.phase [
  | none ↦ c
  | some p ↦ if is_phase c.starting_phase Phase.rule then record c { starting_phase = p } else c
]

unfoldable pub positive_slo : Option Real → Bool
unfolding le_real
positive_slo none = true
positive_slo (some slo) = not (le_real slo zero_real)

-- `safety_critical` caps the ceiling at ML_WITH_FALLBACK.
unfoldable pub cap_limit : Config → Config
unfolding order
cap_limit c =
    if c.safety_critical && ltb (order Phase.ml_with_fallback) (order c.phase_limit)
    then record c { phase_limit = Phase.ml_with_fallback }
    else c

unfoldable pub within_limit : Config → Option Config
unfolding order
within_limit c = if ltb (order c.phase_limit) (order c.starting_phase) then none else some c

-- The checks after the alias is resolved. `none` is a `ValueError`.
unfoldable pub check_config : Config → Option Config
check_config c =
    if c.safety_critical && is_phase c.starting_phase Phase.ml_primary
    then none
    else if not
        (le_real zero_real c.verifier_sample_rate && le_real c.verifier_sample_rate one_real)
    then none
    else if not (positive_slo c.latency_slo_ms)
    then none
    else within_limit (cap_limit c)

-- `__post_init__`
unfoldable pub post_init : Config → Option Config
post_init c = check_config (resolve_alias c)

-- What the checks establish of the phases.
pub record IsCapped (c : Config) : Type 0 where
  pub below_limit : order c.starting_phase ≤ order c.phase_limit
  pub critical_limit : c.safety_critical ≡ true → order c.phase_limit ≤ 4
