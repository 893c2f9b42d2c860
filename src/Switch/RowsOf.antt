-- ===== src/Switch/RowsOf.antt =====
-- Lemmas on the rows of `record_verdict` and `_auto_log` (src/postrule/core.py).
use postrule.Prelude.{◌≡◌, refl, ◌&&◌, Option, none, some, if-P, if◌then◌else◌}
use postrule.Record.{
  Verdict, correct, incorrect, unknown, verdict_text, parse_verdict, Source, Value, is_rule_source,
  ClassificationRecord,
}
use postrule.Switch.Config.{Config}
use postrule.Switch.Result.{ClassificationResult}
use postrule.Switch.State.{Verifier}
use postrule.Switch.Rows.{
  verdict_row, rule_observation, from_context, adjudicate, with_outcomes, judge_head, judge_layers,
  is_incorrect,
}
use postrule.Switch.Serve.{Call, verifier_call}

-- What a row says of correctness, by the verdict of the verifier, if it gave one.
abbrev pub outcome_with : Option Verdict → Verdict
outcome_with none = unknown
outcome_with (some v) = v

-- Who stands behind the row: the path of the decision, or the verifier under its own name.
abbrev pub source_with : Source → ClassificationResult → Option Verdict → Source
source_with name r none = r.source
source_with name r (some v) = name

-- What the row says of the rule: its own output, and where the call has none, the label of a verifier
-- that is called `rule`.
abbrev pub rule_with : Source → ClassificationResult → Option Verdict → Option Value
rule_with name r none = r.rule_output
rule_with name r (some v) = elim r.rule_output [
  | some o ↦ some o
  | none ↦ if is_rule_source name then r.label else none
]

-- The row carries the time, the decision and the observations of the result, with the verifier's verdict
-- and name, or unknown and the path of the decision.
pub record IsRowOf (name : Source) (c : Call) (r : ClassificationResult) (given : Option Verdict)
    (row : ClassificationRecord) : Type 0 where
  pub same_time : row.timestamp ≡ c.now
  pub same_input : row.input ≡ c.input
  pub same_label : row.label ≡ r.label
  pub same_outcome : row.outcome ≡ outcome_with given
  pub same_source : row.source ≡ source_with name r given
  pub same_confidence : row.confidence ≡ r.confidence
  pub same_rule : row.rule_output ≡ rule_with name r given
  pub same_model : row.model_output ≡ r.model_output
  pub same_model_confidence : row.model_confidence ≡ r.model_confidence
  pub same_head : row.ml_output ≡ r.ml_output
  pub same_head_confidence : row.ml_confidence ≡ r.ml_confidence
  pub same_result : row.action_result ≡ r.action_result
  pub same_action : row.action_raised ≡ r.action_raised
  pub same_elapsed : row.action_elapsed ≡ r.action_elapsed

pub parse-text : (v : Verdict) → parse_verdict (verdict_text v) ≡ some v
unfolding parse_verdict verdict_text
parse-text correct = refl
parse-text incorrect = refl
parse-text unknown = refl

-- The judgement of shadow layers changes only its own two fields.
pub record SameRow (row judged_row : ClassificationRecord) : Type 0 where
  pub same_time : judged_row.timestamp ≡ row.timestamp
  pub same_input : judged_row.input ≡ row.input
  pub same_label : judged_row.label ≡ row.label
  pub same_outcome : judged_row.outcome ≡ row.outcome
  pub same_source : judged_row.source ≡ row.source
  pub same_confidence : judged_row.confidence ≡ row.confidence
  pub same_rule : judged_row.rule_output ≡ row.rule_output
  pub same_model : judged_row.model_output ≡ row.model_output
  pub same_model_confidence : judged_row.model_confidence ≡ row.model_confidence
  pub same_head : judged_row.ml_output ≡ row.ml_output
  pub same_head_confidence : judged_row.ml_confidence ≡ row.ml_confidence
  pub same_result : judged_row.action_result ≡ row.action_result
  pub same_action : judged_row.action_raised ≡ row.action_raised
  pub same_elapsed : judged_row.action_elapsed ≡ row.action_elapsed

SameRow-refl : (row : ClassificationRecord) → SameRow row row
SameRow-refl row = record {
  same_time = refl;
  same_input = refl;
  same_label = refl;
  same_outcome = refl;
  same_source = refl;
  same_confidence = refl;
  same_rule = refl;
  same_model = refl;
  same_model_confidence = refl;
  same_head = refl;
  same_head_confidence = refl;
  same_result = refl;
  same_action = refl;
  same_elapsed = refl;
}

-- `none` is an exit of the process.
abbrev pub SameRows : ClassificationRecord → Option ClassificationRecord → Type 0
SameRows row none = Unit
SameRows row (some judged_row) = SameRow row judged_row

with_outcomes-SameRows :
    (row : ClassificationRecord) (m : Option Verdict) (h : Option (Option Verdict))
    → SameRows row (with_outcomes row m h)
unfolding with_outcomes
with_outcomes-SameRows row m none = tt
with_outcomes-SameRows row m (some h) = record {
  same_time = refl;
  same_input = refl;
  same_label = refl;
  same_outcome = refl;
  same_source = refl;
  same_confidence = refl;
  same_rule = refl;
  same_model = refl;
  same_model_confidence = refl;
  same_head = refl;
  same_head_confidence = refl;
  same_result = refl;
  same_action = refl;
  same_elapsed = refl;
}

judge_head-SameRows :
    (judge : Verifier) (row : ClassificationRecord) (m : Option (Option Verdict))
    → SameRows row (judge_head judge row m)
unfolding judge_head
judge_head-SameRows judge row none = tt
judge_head-SameRows judge row (some m) = with_outcomes-SameRows row m _

judge_layers-SameRows :
    (judge : Verifier) (row : ClassificationRecord) → SameRows row (judge_layers judge row)
unfolding judge_layers
judge_layers-SameRows judge row = judge_head-SameRows judge row _

pub adjudicate-SameRows :
    (c : Config) (judge : Option Verifier) (row : ClassificationRecord)
    → SameRows row (adjudicate c judge row)
unfolding adjudicate
adjudicate-SameRows c none row = SameRow-refl row
adjudicate-SameRows c (some judge) row =
    if-P (SameRows row) (c.adjudicate_disagreements && is_incorrect row.outcome) _ _
      (judge_layers-SameRows judge row) (SameRow-refl row)

pub verdict_row-IsRowOf :
    (name : Source) (c : Call) (r : ClassificationResult) (v : Verdict)
    → IsRowOf name c r (some v) (verdict_row (verifier_call name c r v) v)
unfolding verdict_row verifier_call from_context rule_observation
verdict_row-IsRowOf name c r v = record {
  same_time = refl;
  same_input = refl;
  same_label = refl;
  same_outcome = refl;
  same_source = refl;
  same_confidence = refl;
  same_rule = refl;
  same_model = refl;
  same_model_confidence = refl;
  same_head = refl;
  same_head_confidence = refl;
  same_result = refl;
  same_action = refl;
  same_elapsed = refl;
}
