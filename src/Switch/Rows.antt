-- ===== src/Switch/Rows.antt =====
-- The row that `record_verdict` of src/postrule/core.py appends, with the judgements of shadow layers
-- on their own, and its telemetry.
use postrule.Prelude.{ℕ, Bool, true, false, ◌&&◌, Option, none, some, String, if◌then◌else◌}
use postrule.Num.{Float}
use postrule.Phase.{Phase, order}
use postrule.Record.{
  Value, Verdict, incorrect, Source, is_rule_source, ClassificationRecord, label_eq,
}
use postrule.Switch.Config.{Config}
use postrule.Switch.Result.{Attempt, answered, failed, exits, ClassificationResult}
use postrule.Switch.State.{Verifier, Event, outcome_event, per_classifier_correct}

-- The arguments of `record_verdict`, with the time of the call.
pub record VerdictCall : Type 0 where
  pub input : Value
  pub label : Option Value
  pub outcome : String
  pub source : Source
  pub confidence : Float
  pub context : Option ClassificationResult
  pub now : ℕ

-- The observations that the row takes over from the result of the call.
unfoldable pub rule_observation : VerdictCall → Option Value
unfolding is_rule_source
rule_observation v = elim v.context [
  | none ↦ if is_rule_source v.source then v.label else none
  | some r ↦ elim r.rule_output [
    | none ↦ if is_rule_source v.source then v.label else none
    | some o ↦ some o
  ]
]

unfoldable pub from_context :
    {A : Type 0} → (ClassificationResult → Option A) → VerdictCall → Option A
from_context f v = elim v.context [ none ↦ none | some r ↦ f r ]

-- The row, before its shadow layers are judged on their own.
unfoldable pub verdict_row : VerdictCall → Verdict → ClassificationRecord
unfolding rule_observation from_context
verdict_row v outcome = record {
  timestamp = v.now;
  input = v.input;
  label = v.label;
  outcome = outcome;
  source = v.source;
  confidence = v.confidence;
  rule_output = rule_observation v;
  model_output = from_context (λ r. r.model_output) v;
  model_confidence = from_context (λ r. r.model_confidence) v;
  ml_output = from_context (λ r. r.ml_output) v;
  ml_confidence = from_context (λ r. r.ml_confidence) v;
  model_outcome = none;
  ml_outcome = none;
  action_result = from_context (λ r. r.action_result) v;
  action_raised = from_context (λ r. r.action_raised) v;
  action_elapsed = from_context (λ r. r.action_elapsed) v;
}

-- The judgement of one shadow layer: `none` is an exit of the process.
unfoldable pub own_verdict : Attempt Verdict → Option (Option Verdict)
own_verdict (answered v) = some (some v)
own_verdict (failed e) = some none
own_verdict exits = none

-- One round of the loop over the shadow layers: an output that is absent or is the label is
-- skipped.
unfoldable pub judge_layer :
    Verifier → Value → Option Value → Option Value → Option (Option Verdict)
unfolding own_verdict label_eq
judge_layer judge input label none = some none
judge_layer judge input label (some out) =
    if label_eq (some out) label then some none else own_verdict (judge input (some out))

-- The row with both judgements. `none` is an exit of the process.
unfoldable pub with_outcomes :
    ClassificationRecord → Option Verdict → Option (Option Verdict) → Option ClassificationRecord
with_outcomes row m none = none
with_outcomes row m (some h) = some (record row { model_outcome = m; ml_outcome = h })

-- The second round, once the first has judged the model's output.
unfoldable pub judge_head :
    Verifier → ClassificationRecord → Option (Option Verdict) → Option ClassificationRecord
unfolding judge_layer with_outcomes
judge_head judge row none = none
judge_head judge row (some m) =
    with_outcomes row m (judge_layer judge row.input row.label row.ml_output)

-- Both rounds.
unfoldable pub judge_layers : Verifier → ClassificationRecord → Option ClassificationRecord
unfolding judge_head
judge_layers judge row =
    judge_head judge row (judge_layer judge row.input row.label row.model_output)

unfoldable pub is_incorrect : Verdict → Bool
is_incorrect incorrect = true
is_incorrect _ = false

unfoldable pub adjudicate :
    Config → Option Verifier → ClassificationRecord → Option ClassificationRecord
unfolding judge_layers is_incorrect
adjudicate c none row = some row
adjudicate c (some judge) row =
    if c.adjudicate_disagreements && is_incorrect row.outcome
    then judge_layers judge row
    else some row

-- The telemetry event of a row.
unfoldable pub outcome_of : ClassificationRecord → Phase → Event
unfolding per_classifier_correct order
outcome_of row p =
    outcome_event row (order p) (per_classifier_correct row.rule_output row.label row.outcome)
      (per_classifier_correct row.model_output row.label row.outcome)
      (per_classifier_correct row.ml_output row.label row.outcome)
