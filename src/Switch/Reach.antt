-- ===== src/Switch/Reach.antt =====
-- The histories of a switch (src/postrule/core.py): what its methods can do to it in any order, with
-- any answers of the collaborators.
use postrule.Prelude.{
  ◌≤◌, ◌≡◌, Bool, true, false, ◌&&◌, ◌||◌, not, Option, none, some, String, List, [], ◌∷◌, ltb,
  arith, Option-cases, inl, inr,
}
use postrule.Phase.{order, is_phase}
use postrule.Record.{ClassificationRecord, parse_verdict}
use postrule.Gate.Decision.{GateDecision}
use postrule.Switch.Config.{Config, IsCapped, post_init}
use postrule.Switch.Result.{Attempt, answered, failed, exits, Outcome, returned, raised, Answers}
use postrule.Switch.Classify.{classify_impl}
use postrule.Switch.Service.{is_breached}
use postrule.Switch.State.{Storage, GateCall, Verifier, Switch, after_call, reset_circuit_breaker}
use postrule.Switch.Lifecycle.{demote, advance}
use postrule.Switch.Rows.{VerdictCall}
use postrule.Switch.Verdicts.{
  drift_check, try_advance, then_advance, check_gates, count_record, is_due, auto_evaluate,
  record_verdict, after_hook, append_row, record_row,
}
use postrule.Switch.Bulk.{
  bulk_loop, bulk_probe, bulk_record_verdicts, add_decision, with_auto_advance, BulkVerdictSummary,
  no_verdicts, tally,
}
use postrule.Switch.Safety.{
  IsSafe, post_init-IsCapped, IsSafe-if, done-IsSafe, absorb-IsSafe, advance-IsSafe,
  maybe_auto_demote-IsSafe, demote-IsSafe,
}

after_call-config : {S : Type 0} (b : Bool) (sw : Switch S) → (after_call b sw).config ≡ sw.config
unfolding after_call
after_call-config b sw = ground arith

reset-config :
    {S : Type 0} (operator : Option String) (sw : Switch S)
    → (reset_circuit_breaker operator sw).config ≡ sw.config
unfolding reset_circuit_breaker
reset-config operator sw = ground arith

with_auto_advance-IsSafe :
    {S : Type 0} (b : Bool) (sw : Switch S) → IsSafe sw → IsSafe (with_auto_advance b sw)
unfolding with_auto_advance
with_auto_advance-IsSafe b sw h = record {
  below_limit = h.below_limit;
  critical_limit = h.critical_limit;
}

pub IsCapped-unbreached : (c : Config) → IsCapped c → is_breached c ≡ false
unfolding is_phase
IsCapped-unbreached c h = ground arith

module _ {S : Type 0} (storage : Storage S) (gate : GateCall) (drift_gate : Option GateCall) where
  drift_check-IsSafe :
      (d : Option GateCall) (sw : Switch S) → IsSafe sw → IsSafe (drift_check storage gate d sw).1
  unfolding drift_check
  drift_check-IsSafe none sw h = h
  drift_check-IsSafe (some g) sw h =
      IsSafe-if (sw.config.auto_demote) _ _ (maybe_auto_demote-IsSafe storage gate (some g) g sw h)
        h

  try_advance-IsSafe :
      (sw : Switch S) → IsSafe sw → IsSafe (try_advance storage gate drift_gate sw).1
  unfolding try_advance
  try_advance-IsSafe sw h = advance-IsSafe storage gate drift_gate true sw h

  then_advance-IsSafe :
      (b : Bool) (sw : Switch S) → IsSafe sw → IsSafe (then_advance storage gate drift_gate b sw).1
  unfolding then_advance
  then_advance-IsSafe b sw h =
      IsSafe-if (not b && sw.config.auto_advance) _ _
        (done-IsSafe (try_advance storage gate drift_gate sw) (try_advance-IsSafe sw h)) h

  check_gates-IsSafe :
      (sw : Switch S) → IsSafe sw → IsSafe (check_gates storage gate drift_gate sw).1
  unfolding check_gates
  check_gates-IsSafe sw h =
      let next = drift_check storage gate drift_gate sw in
      let k = drift_check-IsSafe drift_gate sw h in
      absorb-IsSafe _ _ _ next.0 (λ b. then_advance-IsSafe b next.1 k)
        (then_advance-IsSafe false next.1 k) k

  auto_evaluate-IsSafe :
      (sw : Switch S) → IsSafe sw → IsSafe (auto_evaluate storage gate drift_gate sw).1
  unfolding auto_evaluate
  auto_evaluate-IsSafe sw h =
      IsSafe-if (sw.config.auto_advance || sw.config.auto_demote) _ _
        (IsSafe-if (is_due (count_record sw)) _ _ (check_gates-IsSafe _ h) h) h

  module _ (verifier : Option Verifier)
      (on_verdict : ClassificationRecord → Attempt (Unit {0})) where
    after_hook-IsSafe :
        (row : ClassificationRecord) (sw : Switch S) (a : Attempt (Unit {0}))
        → IsSafe sw
        → IsSafe (after_hook storage gate drift_gate verifier on_verdict row sw a).1
    unfolding after_hook
    after_hook-IsSafe row sw exits h = h
    after_hook-IsSafe row sw (answered _) h = auto_evaluate-IsSafe _ h
    after_hook-IsSafe row sw (failed _) h = auto_evaluate-IsSafe _ h

    append_row-IsSafe :
        (row : ClassificationRecord) (sw : Switch S) (log : Option S)
        → IsSafe sw
        → IsSafe (append_row storage gate drift_gate verifier on_verdict row sw log).1
    unfolding append_row
    append_row-IsSafe row sw none h = h
    append_row-IsSafe row sw (some log) h = after_hook-IsSafe row _ _ h

    record_row-IsSafe :
        (sw : Switch S) (row : Option ClassificationRecord)
        → IsSafe sw
        → IsSafe (record_row storage gate drift_gate verifier on_verdict sw row).1
    unfolding record_row
    record_row-IsSafe sw none h = h
    record_row-IsSafe sw (some row) h = append_row-IsSafe row sw _ h

    record_verdict-IsSafe :
        (v : VerdictCall) (sw : Switch S)
        → IsSafe sw
        → IsSafe (record_verdict storage gate drift_gate verifier on_verdict v sw).1
    unfolding record_verdict
    record_verdict-IsSafe v sw h = elim (Option-cases (parse_verdict v.outcome)) [
      | inl e ↦ rw e h
      | inr (o, e) ↦ rw e (record_row-IsSafe sw _ h)
    ]

    bulk_loop-IsSafe :
        (vs : List VerdictCall) (s : BulkVerdictSummary) (sw : Switch S)
        → IsSafe sw
        → IsSafe (bulk_loop storage gate drift_gate verifier on_verdict vs s sw).1
    unfolding bulk_loop
    bulk_loop-IsSafe [] s sw h = h
    bulk_loop-IsSafe (v ∷ vs) s sw h =
        let next = record_verdict storage gate drift_gate verifier on_verdict v sw in
        let k = record_verdict-IsSafe v sw h in
        let rest = bulk_loop-IsSafe vs (tally s next.0) next.1 k in
        absorb-IsSafe _ _ _ next.0 (λ _. rest) rest k

    add_decision-IsSafe :
        (s : BulkVerdictSummary) (o : Outcome (Option GateDecision) × Switch S)
        → IsSafe o.1
        → IsSafe (add_decision s o).1
    unfolding add_decision
    add_decision-IsSafe s (returned d, sw) h = h
    add_decision-IsSafe s (raised e, sw) h = h

    bulk_probe-IsSafe :
        (o : Outcome BulkVerdictSummary) (sw : Switch S)
        → IsSafe sw
        → IsSafe (bulk_probe storage gate drift_gate verifier on_verdict o sw).1
    unfolding bulk_probe
    bulk_probe-IsSafe (raised e) sw h = h
    bulk_probe-IsSafe (returned s) sw h =
        let probing : Switch S = record sw { since_check = 0 } in
        IsSafe-if (sw.config.auto_advance && ltb 0 s.recorded) _ _
          (add_decision-IsSafe s (try_advance storage gate drift_gate probing)
            (try_advance-IsSafe probing h))
          h

    bulk-IsSafe :
        (vs : List VerdictCall) (sw : Switch S)
        → IsSafe sw
        → IsSafe (bulk_record_verdicts storage gate drift_gate verifier on_verdict vs sw).1
    unfolding bulk_record_verdicts
    bulk-IsSafe vs sw h =
        let off = with_auto_advance false sw in
        let next = bulk_loop storage gate drift_gate verifier on_verdict vs no_verdicts off in
        bulk_probe-IsSafe next.0 (with_auto_advance (sw.config.auto_advance) next.1) (
          with_auto_advance-IsSafe (sw.config.auto_advance) next.1
            (bulk_loop-IsSafe vs no_verdicts off (with_auto_advance-IsSafe false sw h)))

  -- One call of a method of the switch; the answers of verifier and hook may differ from call to
  -- call.
  pub data Step : Switch S → Switch S → Type 0 where
    calls :
        (a : Answers) (sw : Switch S)
        → Step sw (after_call (classify_impl (sw.config) a sw.tripped).1 sw)
    verdict :
        (verifier : Option Verifier) (hook : ClassificationRecord → Attempt (Unit {0}))
        (v : VerdictCall) (sw : Switch S)
        → Step sw (record_verdict storage gate drift_gate verifier hook v sw).1
    bulk_verdicts :
        (verifier : Option Verifier) (hook : ClassificationRecord → Attempt (Unit {0}))
        (vs : List VerdictCall) (sw : Switch S)
        → Step sw (bulk_record_verdicts storage gate drift_gate verifier hook vs sw).1
    advances : (sw : Switch S) → Step sw (advance storage gate false sw).1
    demotes : (reason : String) (sw : Switch S) → Step sw (demote reason false none sw).1
    resets :
        (operator : Option String) (sw : Switch S) → Step sw (reset_circuit_breaker operator sw)

  pub data Reach (start : Switch S) : Switch S → Type 0 where
    here : Reach start start
    next : {sw sx : Switch S} → Reach start sw → Step sw sx → Reach start sx

  Step-IsSafe : {sw sx : Switch S} → Step sw sx → IsSafe sw → IsSafe sx
  Step-IsSafe (calls a sw) h =
      rw (after_call-config (classify_impl (sw.config) a sw.tripped).1 sw) h
  Step-IsSafe (verdict verifier hook v sw) h = record_verdict-IsSafe verifier hook v sw h
  Step-IsSafe (bulk_verdicts verifier hook vs sw) h = bulk-IsSafe verifier hook vs sw h
  Step-IsSafe (advances sw) h = advance-IsSafe storage gate drift_gate false sw h
  Step-IsSafe (demotes reason sw) h = demote-IsSafe reason false none sw h
  Step-IsSafe (resets operator sw) h = rw (reset-config operator sw) h

  Reach-IsSafe : {start sw : Switch S} → IsSafe start → Reach start sw → IsSafe sw
  Reach-IsSafe h here = h
  Reach-IsSafe h (next r s) = Step-IsSafe s (Reach-IsSafe h r)

  -- A switch whose configuration passed `__post_init__` stays at or below its ceiling through every
  -- history of calls, verdicts, batches, advances, demotions and resets, whatever the gates and the
  -- other collaborators answer; if it is safety critical it never stands in ML_PRIMARY.
  pub Reach-below_limit :
      (c d : Config) (start : Switch S) {sw : Switch S}
      → post_init c ≡ some d
      → start.config ≡ d
      → Reach start sw
      → (order (sw.config.starting_phase) ≤ order (sw.config.phase_limit))
        × (is_breached (sw.config) ≡ false)
  Reach-below_limit c d start {sw} p e r =
      let safe : IsSafe sw = Reach-IsSafe (rw e (post_init-IsCapped c d p)) r in
      (safe.below_limit, IsCapped-unbreached (sw.config) safe)
