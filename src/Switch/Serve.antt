-- ===== src/Switch/Serve.antt =====
-- The public calls of a switch, `classify` and `dispatch` of src/postrule/core.py: the verifier, the
-- row that is logged, the action of a label.
use text.Mathlib.Text.{◌==◌ as str_eq}
use postrule.Prelude.{
  ℕ, Bool, true, false, ◌&&◌, not, Option, none, some, String, List, [], ◌∷◌, if◌then◌else◌,
}
use postrule.Num.{Real, one_real, lt_real}
use postrule.Record.{
  Value, str, object, Verdict, unknown, verdict_text, Source, ClassificationRecord,
}
use postrule.Switch.Result.{
  Attempt, answered, failed, exits, system_exit, raised_by_caller, Outcome, returned, raised,
  ClassificationResult, Answers,
}
use postrule.Switch.Classify.{classify_impl}
use postrule.Switch.State.{
  Storage, GateCall, Verifier, Switch, Event, classify_event, dispatch_event, emit, after_call,
}
use postrule.Switch.Rows.{VerdictCall}
use postrule.Switch.Verdicts.{record_verdict}

-- `Label`: a name and what its action does on an input.
pub record Label : Type 0 where
  pub name : String
  pub on : Option (Value → Attempt (Option Value))

-- `self._label_index.get(name)`: of two labels with one name the later one counts.
unfoldable pub find_named : List Label → String → Option Label
find_named [] name = none
find_named (l ∷ ls) name = elim (find_named ls name) [
  | some found ↦ some found
  | none ↦ if str_eq l.name name then some l else none
]

-- `_find_label`
unfoldable pub find_label : List Label → Option Value → Option Label
unfolding find_named
find_label labels none = none
find_label labels (some (str s)) = find_named labels s
find_label labels (some (object _)) = none

-- The action of the label that was found, if there is one.
unfoldable pub action_of : Option Label → Option (Value → Attempt (Option Value))
action_of none = none
action_of (some l) = l.on

-- The result with what the action did, and the exception that it raised, in case `dispatch` is to
-- raise it again.
unfoldable pub act :
    ClassificationResult
    → ℕ
    → Attempt (Option Value)
    → Outcome (ClassificationResult × Option Value)
act r elapsed exits = raised system_exit
act r elapsed (answered v) =
    returned
      (record r { action_result = v; action_raised = none; action_elapsed = some elapsed }, none)
act r elapsed (failed e) = returned (
  record r { action_result = none; action_raised = some e; action_elapsed = some elapsed },
  some e,
)

unfoldable pub act_if :
    Value
    → ClassificationResult
    → ℕ
    → Option (Value → Attempt (Option Value))
    → Outcome (ClassificationResult × Option Value)
unfolding act
act_if input r elapsed none = returned (r, none)
act_if input r elapsed (some on) = act r elapsed (on input)

-- `_maybe_dispatch`, the action taking some time
unfoldable pub maybe_dispatch :
    List Label → Value → ClassificationResult → ℕ → Outcome (ClassificationResult × Option Value)
unfolding act_if find_label action_of
maybe_dispatch labels input r elapsed =
    act_if input r elapsed (action_of (find_label labels r.label))

-- The row of `_auto_log`.
unfoldable pub log_row : Value → ℕ → ClassificationResult → ClassificationRecord
log_row input now r = record {
  timestamp = now;
  input = input;
  label = r.label;
  outcome = unknown;
  source = r.source;
  confidence = r.confidence;
  rule_output = r.rule_output;
  model_output = r.model_output;
  model_confidence = r.model_confidence;
  ml_output = r.ml_output;
  ml_confidence = r.ml_confidence;
  model_outcome = none;
  ml_outcome = none;
  action_result = r.action_result;
  action_raised = r.action_raised;
  action_elapsed = r.action_elapsed;
}

-- The arguments of a call, with what time and chance bring: the time, the random number that is
-- compared with the sample rate, and how long an action takes.
pub record Call : Type 0 where
  pub input : Value
  pub now : ℕ
  pub draw : Real
  pub elapsed : ℕ

-- The verdict that the verifier's answer becomes.
unfoldable pub verifier_call : Source → Call → ClassificationResult → Verdict → VerdictCall
verifier_call source_name c r v = record {
  input = c.input;
  label = r.label;
  outcome = verdict_text v;
  source = source_name;
  confidence = r.confidence;
  context = some r;
  now = c.now;
}

module _ {S : Type 0} where
  unfoldable pub keep_log : Switch S → Option S → Switch S
  keep_log sw none = sw
  keep_log sw (some log) = record sw { log = log }

  -- Did `record_verdict` return?
  unfoldable pub verified : Outcome (Unit {0}) × Switch S → Outcome Bool × Switch S
  verified (returned _, sw) = (returned true, sw)
  verified (raised system_exit, sw) = (raised system_exit, sw)
  verified (raised _, sw) = (returned false, sw)

  -- The last lines of `dispatch`.
  unfoldable pub raise_again :
      Bool
      → Option Value
      → Outcome ClassificationResult × Switch S
      → Outcome ClassificationResult × Switch S
  raise_again propagate (some e) (returned r, sw) =
      if propagate then (raised (raised_by_caller e), sw) else (returned r, sw)
  raise_again propagate _ o = o

module _ {S : Type 0} (storage : Storage S) (gate : GateCall) (drift_gate : Option GateCall)
    (verifier : Option Verifier) (on_verdict : ClassificationRecord → Attempt (Unit {0}))
    (source_name : Source) where
  -- `_auto_log`
  unfoldable pub auto_log : Call → ClassificationResult → Switch S → Switch S
  unfolding keep_log log_row
  auto_log c r sw = keep_log sw (storage.append_record (log_row c.input c.now r) sw.log)

  unfoldable pub judged :
      Call → ClassificationResult → Switch S → Attempt Verdict → Outcome Bool × Switch S
  unfolding verified verifier_call
  judged c r sw (failed e) = (returned false, sw)
  judged c r sw exits = (raised system_exit, sw)
  judged c r sw (answered v) = verified (
      record_verdict storage gate drift_gate verifier on_verdict (verifier_call source_name c r v)
        sw)

  unfoldable pub run_sampled :
      Call → ClassificationResult → Switch S → Verifier → Outcome Bool × Switch S
  unfolding judged
  run_sampled c r sw judge =
      if lt_real sw.config.verifier_sample_rate one_real
        && not (lt_real c.draw sw.config.verifier_sample_rate)
      then (returned false, sw)
      else judged c r sw (judge c.input r.label)

  -- `_maybe_run_verifier`
  unfoldable pub maybe_run_verifier :
      Call → ClassificationResult → Switch S → Option Verifier → Outcome Bool × Switch S
  unfolding run_sampled
  maybe_run_verifier c r sw none = (returned false, sw)
  maybe_run_verifier c r sw (some judge) = run_sampled c r sw judge

  -- The lines that `classify` and `dispatch` share from the verifier on.
  unfoldable pub log_and_emit :
      Call
      → (Bool → Event)
      → ClassificationResult
      → Outcome Bool × Switch S
      → Outcome ClassificationResult × Switch S
  unfolding auto_log emit
  log_and_emit c event r (raised e, sw) = (raised e, sw)
  log_and_emit c event r (returned judged, sw) =
      let logged = if not judged && sw.config.auto_record then auto_log c r sw else sw in
      (returned r, emit (event judged) logged)

  unfoldable pub finish_classify :
      Call → Outcome ClassificationResult → Switch S → Outcome ClassificationResult × Switch S
  unfolding log_and_emit maybe_run_verifier
  finish_classify c (raised e) sw = (raised e, sw)
  finish_classify c (returned r) sw =
      log_and_emit c (classify_event r.phase r.source r.confidence) r
        (maybe_run_verifier c r sw verifier)

  -- `classify`
  unfoldable pub classify : Call → Answers → Switch S → Outcome ClassificationResult × Switch S
  unfolding finish_classify classify_impl after_call
  classify c a sw =
      let (o, tripped) = classify_impl sw.config a sw.tripped in
      finish_classify c o (after_call tripped sw)

  unfoldable pub finish_dispatch :
      Call
      → Outcome (ClassificationResult × Option Value)
      → Switch S
      → Outcome ClassificationResult × Switch S
  unfolding log_and_emit maybe_run_verifier raise_again
  finish_dispatch c (raised e) sw = (raised e, sw)
  finish_dispatch c (returned (r, exception)) sw =
      raise_again sw.config.propagate_action_exceptions exception (
        log_and_emit c (dispatch_event r.phase r.source r.confidence r.action_raised) r
          (maybe_run_verifier c r sw verifier))

  unfoldable pub dispatch_decided :
      List Label
      → Call
      → Outcome ClassificationResult
      → Switch S
      → Outcome ClassificationResult × Switch S
  unfolding finish_dispatch maybe_dispatch
  dispatch_decided labels c (raised e) sw = (raised e, sw)
  dispatch_decided labels c (returned r) sw =
      finish_dispatch c (maybe_dispatch labels c.input r c.elapsed) sw

  -- `dispatch`
  unfoldable pub dispatch :
      List Label → Call → Answers → Switch S → Outcome ClassificationResult × Switch S
  unfolding dispatch_decided classify_impl after_call
  dispatch labels c a sw =
      let (o, tripped) = classify_impl sw.config a sw.tripped in
      dispatch_decided labels c o (after_call tripped sw)
