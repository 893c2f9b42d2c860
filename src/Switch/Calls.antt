-- ===== src/Switch/Calls.antt =====
-- Lemmas on whole calls of `classify` and `dispatch` (src/postrule/core.py).
use postrule.Prelude.{
  ◌≡◌, refl, Bool, true, false, Option, none, some, List, if◌then◌else◌, arith, if-P_eq,
}
use postrule.Record.{Value, Source, ClassificationRecord}
use postrule.Switch.Result.{
  Attempt, failed, raised_by_caller, Outcome, returned, raised, ClassificationResult, Answers,
}
use postrule.Switch.Classify.{classify_impl}
use postrule.Switch.State.{Storage, IsLog, GateCall, Verifier, Switch, after_call, dispatch_event}
use postrule.Switch.Serve.{
  Label, Call, find_label, action_of, act, act_if, maybe_dispatch, raise_again, maybe_run_verifier,
  log_and_emit, finish_classify, classify, finish_dispatch, dispatch_decided, dispatch,
}
use postrule.Switch.Served.{
  given_by, LogsRow, Takes, Served, log_and_emit-Served, maybe_run_verifier-Judged,
}

-- What `dispatch` makes of an action that raised: the result with the exception's text, or the
-- exception itself.
abbrev pub after_failure : Call → ClassificationResult → Value → ClassificationResult
after_failure c r e = record r {
  action_result = none;
  action_raised = some e;
  action_elapsed = some c.elapsed;
}

module _ {S : Type 0} where
  after_call-log : (b : Bool) (sw : Switch S) → (after_call b sw).log ≡ sw.log
  unfolding after_call
  after_call-log b sw = ground arith

  after_call-auto_record :
      (b : Bool) (sw : Switch S) → (after_call b sw).config.auto_record ≡ sw.config.auto_record
  unfolding after_call
  after_call-auto_record b sw = ground arith

  after_call-sample_rate :
      (b : Bool) (sw : Switch S)
      → (after_call b sw).config.verifier_sample_rate ≡ sw.config.verifier_sample_rate
  unfolding after_call
  after_call-sample_rate b sw = ground arith

  after_call-propagate :
      (b : Bool) (sw : Switch S)
      → (after_call b sw).config.propagate_action_exceptions ≡ sw.config.propagate_action_exceptions
  unfolding after_call
  after_call-propagate b sw = ground arith

module _ {S : Type 0} (storage : Storage S) (gate : GateCall) (drift_gate : Option GateCall)
    (hook : ClassificationRecord → Attempt (Unit {0})) (name : Source) (kept : IsLog storage) where
  module _ (verifier : Option Verifier) where
    finish_classify-Served :
        (rows : List ClassificationRecord) (c : Call) (o : Outcome ClassificationResult)
        (sw : Switch S)
        → storage.load_records sw.log ≡ some rows
        → Takes storage sw.log
        → sw.config.auto_record ≡ true
        → Served storage gate drift_gate verifier hook name kept rows c
            (given_by verifier sw.config.verifier_sample_rate c)
            (finish_classify storage gate drift_gate verifier hook name c o sw)
    unfolding finish_classify
    finish_classify-Served rows c (raised e) sw loaded takes on = tt
    finish_classify-Served rows c (returned r) sw loaded takes on =
        log_and_emit-Served storage gate drift_gate verifier hook name kept rows c _
          (given_by verifier sw.config.verifier_sample_rate c) r sw _
          (maybe_run_verifier-Judged storage gate drift_gate verifier hook name kept rows c r sw
            verifier loaded takes)
          loaded takes on

    -- Where the storage takes any row and `auto_record` is on, a call of `classify` that returns has
    -- put exactly one row of its decision at the end of the log, with the time, the decision and all
    -- observations. Its outcome and its source are the verifier's verdict and name where the verifier
    -- gave one, and unknown and the path of the decision where there is no verifier, where sampling
    -- leaves the call out, and where the verifier raises.
    pub classify-LogsRow :
        (rows : List ClassificationRecord) (c : Call) (a : Answers) (sw : Switch S)
        {r : ClassificationResult} {sx : Switch S}
        → storage.load_records sw.log ≡ some rows
        → Takes storage sw.log
        → sw.config.auto_record ≡ true
        → classify storage gate drift_gate verifier hook name c a sw ≡ (returned r, sx)
        → LogsRow storage name rows c r
            (given_by verifier sw.config.verifier_sample_rate c r)
            sx.log
    unfolding classify
    classify-LogsRow rows c a sw {r} {sx} loaded takes on e =
        let t = (classify_impl sw.config a sw.tripped).1 in
        let served =
          finish_classify-Served rows c (classify_impl sw.config a sw.tripped).0 (after_call t sw)
            (rw (after_call-log t sw) loaded) (rw (after_call-log t sw) takes)
            (rw (after_call-auto_record t sw) on) in
        rw (after_call-sample_rate t sw, e) at served

  finish_dispatch-failure :
      (rows : List ClassificationRecord) (c : Call) (r : ClassificationResult) (e : Value)
      (sw : Switch S) (propagate : Bool)
      → storage.load_records sw.log ≡ some rows
      → Takes storage sw.log
      → sw.config.auto_record ≡ true
      → sw.config.propagate_action_exceptions ≡ propagate
      → let d =
          finish_dispatch storage gate drift_gate none hook name c (returned (r, some e)) sw in
        LogsRow storage name rows c r none d.1.log
        × (d.0 ≡ (if propagate then raised (raised_by_caller e) else returned r))
  unfolding finish_dispatch maybe_run_verifier raise_again log_and_emit
  finish_dispatch-failure rows c r e sw propagate loaded takes on same =
      let logged =
        log_and_emit-Served storage gate drift_gate none hook name kept rows c
          (dispatch_event r.phase r.source r.confidence r.action_raised) (λ x. none) r sw
          (returned false, sw) (refl, refl) loaded takes on in
      if-P_eq
        (λ (d : Outcome ClassificationResult × Switch S).
          LogsRow storage name rows c r none d.1.log
          × (d.0 ≡ (if propagate then raised (raised_by_caller e) else returned r)))
        sw.config.propagate_action_exceptions _ _
        (λ yes. let p : propagate ≡ true = cc in (logged, rw p refl))
        (λ no. let p : propagate ≡ false = cc in (logged, rw p refl))

  -- With `auto_record` on, no verifier and a storage that takes any row: where the action of the
  -- decided label raises, the row with the exception's text and the outcome unknown is at the end of
  -- the log all the same, and `dispatch` returns the decision with that text, or raises the exception if it is to be
  -- propagated.
  pub dispatch_failed :
      (rows : List ClassificationRecord) (labels : List Label) (c : Call) (a : Answers)
      (sw : Switch S) {r : ClassificationResult} {tripped : Bool}
      {on : Value → Attempt (Option Value)} {e : Value}
      → storage.load_records sw.log ≡ some rows
      → Takes storage sw.log
      → sw.config.auto_record ≡ true
      → classify_impl sw.config a sw.tripped ≡ (returned r, tripped)
      → action_of (find_label labels r.label) ≡ some on
      → on c.input ≡ failed e
      → let d = dispatch storage gate drift_gate none hook name labels c a sw in
        LogsRow storage name rows c (after_failure c r e) none d.1.log
        × (d.0 ≡ (
            if sw.config.propagate_action_exceptions
            then raised (raised_by_caller e)
            else returned (after_failure c r e)))
  unfolding dispatch dispatch_decided maybe_dispatch act_if act
  dispatch_failed rows labels c a sw {r} {tripped} {on} {e} loaded takes recording decided found
        fails =
      rw (decided, found, fails)
        (finish_dispatch-failure rows c (after_failure c r e) e (after_call tripped sw) _
          (rw (after_call-log tripped sw) loaded) (rw (after_call-log tripped sw) takes)
          (rw (after_call-auto_record tripped sw) recording) (after_call-propagate tripped sw))
