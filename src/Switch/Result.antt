-- ===== src/Switch/Result.antt =====
-- What collaborators of a switch answer, and what a call returns (src/postrule/core.py,
-- src/postrule/models.py, src/postrule/ml.py).
use postrule.Prelude.{ℕ, Option}
use postrule.Num.{Float}
use postrule.Phase.{Phase}
use postrule.Record.{Value, Source}

-- A call of code that the caller supplies: it answers, raises an exception with some text, or
-- leaves by `KeyboardInterrupt` or `SystemExit`.
pub data Attempt (A : Type 0) : Type 0 where
  answered : A → Attempt A
  failed : Value → Attempt A
  exits : Attempt A

-- Why a method of the switch raises.
pub data Error : Type 0 where
  value_error type_error key_error runtime_error attribute_error storage_error system_exit : Error
  -- an exception of a rule, a gate or an action, passed on
  raised_by_caller : Value → Error

pub data Outcome (A : Type 0) : Type 0 where
  returned : A → Outcome A
  raised : Error → Outcome A

-- `ModelPrediction` and `MLPrediction`
pub record Prediction : Type 0 where
  pub label : Option Value
  pub confidence : Float

-- `ClassificationResult`, without its back references
pub record ClassificationResult : Type 0 where
  pub label : Option Value
  pub source : Source
  pub confidence : Float
  pub phase : Phase
  pub rule_output : Option Value
  pub model_output : Option Value
  pub model_confidence : Option Float
  pub ml_output : Option Value
  pub ml_confidence : Option Float
  pub action_result : Option Value
  pub action_raised : Option Value
  pub action_elapsed : Option ℕ

-- What the collaborators answer within one call: the rule, the model if one is configured, and
-- the ML head if there is one or a strategy selects one.
pub record Answers : Type 0 where
  pub rule : Attempt (Option Value)
  pub model : Option (Attempt Prediction)
  pub head : Option (Attempt Prediction)
