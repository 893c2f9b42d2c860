-- ===== src/Tests/Data.antt =====
-- Rows, gates and switches for the tests (src/postrule/core.py, src/postrule/gates.py).
use postrule.Prelude.{ℕ, true, false, Option, none, some, List, [], ◌∷◌}
use postrule.Num.{Real, ratio, real, one_float}
use postrule.Phase.{Phase}
use postrule.Record.{
  Value, str, Verdict, correct, unknown, rule_source, model_source, ClassificationRecord,
}
use postrule.Storage.Memory.{Logs}
use postrule.Switch.Config.{Config}
use postrule.Switch.Result.{Prediction, Answers, Attempt, answered}
use postrule.Switch.State.{Switch, never_changed}
use postrule.Switch.Rows.{VerdictCall}

abbrev pub bug : Option Value
bug = some (str "bug")

abbrev pub question : Option Value
question = some (str "question")

abbrev pub row_of : Verdict → Option Value → Option Value → Option Value → ClassificationRecord
row_of outcome label rule_said model_said = record {
  timestamp = 0;
  input = str "how?";
  label = label;
  outcome = outcome;
  source = model_source;
  confidence = one_float;
  rule_output = rule_said;
  model_output = model_said;
  model_confidence = some one_float;
  ml_output = none;
  ml_confidence = none;
  model_outcome = none;
  ml_outcome = none;
  action_result = none;
  action_raised = none;
  action_elapsed = none;
}

-- The model was right and the rule was wrong.
abbrev pub won : ClassificationRecord
won = row_of correct question bug question

-- Nobody judged the row.
abbrev pub unjudged : ClassificationRecord
unjudged = row_of unknown bug bug question

abbrev pub eight_wins : List ClassificationRecord
eight_wins = won ∷ won ∷ won ∷ won ∷ won ∷ won ∷ won ∷ won ∷ []

abbrev pub sample_tail : ℕ → ℕ → Real
sample_tail cc n = ratio 1 n

abbrev pub base_config : Config
base_config = record {
  confidence_threshold = ratio 85 100;
  starting_phase = Phase.rule;
  phase_limit = Phase.ml_primary;
  safety_critical = true;
  latency_slo_ms = none;
  auto_record = true;
  auto_advance = true;
  auto_demote = true;
  auto_advance_interval = 1;
  phase_cooldown_records = 1;
  adjudicate_disagreements = false;
  verifier_sample_rate = ratio 1 1;
  propagate_action_exceptions = false;
  phase = none;
}

-- `base_config` once its ceiling is capped.
abbrev pub critical_config : Config
critical_config = record base_config { phase_limit = Phase.ml_with_fallback }

abbrev pub config_at : Phase → Config
config_at p = record base_config { starting_phase = p; safety_critical = false }

abbrev pub switch_with : Config → Logs ClassificationRecord → Switch (Logs ClassificationRecord)
switch_with c logs = record {
  config = c;
  since_check = 0;
  since_change = never_changed;
  tripped = false;
  persist = true;
  saved_breaker = none;
  log = logs;
  events = [];
}

abbrev pub triage_log : Logs ClassificationRecord
triage_log = ("triage", eight_wins) ∷ []

abbrev pub confident : Prediction
confident = record { label = question; confidence = real (ratio 9 10) }

abbrev pub answers_with : Attempt Prediction → Attempt Prediction → Answers
answers_with m h = record { rule = answered bug; model = some m; head = some h }

abbrev pub good_verdict : VerdictCall
good_verdict = record {
  input = str "how?";
  label = question;
  outcome = "correct";
  source = rule_source;
  confidence = one_float;
  context = none;
  now = 7;
}
