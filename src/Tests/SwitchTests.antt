-- ===== src/Tests/SwitchTests.antt =====
-- Tests of phase changes and verdicts (src/postrule/core.py).
use postrule.Num.{le_real}
use postrule.Prelude.{
  arith, ℕ, ◌≤◌, ◌≡◌, ◌⊎◌, refl, true, false, ◌||◌, none, some, [], ◌∷◌, ◌++◌, drop,
}
use postrule.Phase.{is_phase, Phase, order, next_phase, prev_phase}
use postrule.Record.{correct, parse_verdict, ClassificationRecord, codes, strip, is_empty}
use postrule.Gate.Decision.{Rationale}
use postrule.Gate.Kinds.{bare_decision}
use postrule.Storage.Memory.{find_log, load_records, Logs}
use postrule.Switch.Config.{
  cap_limit, within_limit, positive_slo, resolve_alias, check_config, post_init,
}
use postrule.Switch.Result.{Attempt, answered, value_error, raised}
use postrule.Switch.State.{Storage, GateCall, Switch}
use postrule.Switch.Lifecycle.{advance, demote}
use postrule.Switch.Rows.{VerdictCall, verdict_row, adjudicate}
use postrule.Switch.Verdicts.{record_verdict}
use postrule.Switch.Service.{is_breached}
use postrule.Switch.Reach.{verdict, here, next, Reach-below_limit}
use postrule.Switch.Moves.{phase_of, SteppedUp, SteppedDown, advance_moves, demote_moves}
use postrule.Switch.Pace.{MovesByOne, record_verdict_moves}
use postrule.Switch.Logging.{bounded_storage, bounded_storage-IsLog, record_verdict_logs}
use postrule.Tests.Data.{
  base_config, critical_config, config_at, switch_with, triage_log, eight_wins, good_verdict,
}

abbrev yes_gate : GateCall
yes_gate rows p q = answered (bare_decision true (Rationale.operator_required p))

abbrev quiet : ClassificationRecord → Attempt (Unit {0})
quiet row = answered tt

abbrev storage : Storage (Logs ClassificationRecord)
storage = bounded_storage 100 "triage"

abbrev ready : Switch (Logs ClassificationRecord)
ready = switch_with critical_config triage_log

abbrev after_verdict : Switch (Logs ClassificationRecord)
after_verdict = (record_verdict storage yes_gate none none quiet good_verdict ready).1

after_verdict-phase : phase_of after_verdict ≡ Phase.model_shadow
unfolding record_verdict bounded_storage parse_verdict adjudicate advance next_phase is_phase
    bare_decision
after_verdict-phase = refl

base-post_init : post_init base_config ≡ some critical_config
unfolding post_init check_config resolve_alias le_real positive_slo within_limit cap_limit
base-post_init = refl

Reach-below_limit_example :
    (order (after_verdict.config.starting_phase) ≤ order (after_verdict.config.phase_limit))
    × (is_breached (after_verdict.config) ≡ false)
Reach-below_limit_example =
    Reach-below_limit storage yes_gate none base_config critical_config ready base-post_init refl
      (next here (verdict none quiet good_verdict ready))

advance_moves_example :
    let sx = (advance storage yes_gate false ready).1 in
    (sx ≡ ready) ⊎ SteppedUp storage yes_gate ready sx
advance_moves_example = advance_moves storage yes_gate false ready

abbrev shadowing : Switch (Logs ClassificationRecord)
shadowing = switch_with (config_at Phase.model_shadow) triage_log

demote_moves_example :
    let r = demote "drift" false none shadowing in
    let blank = is_empty (codes "drift") || is_empty (strip (codes "drift")) in
    ((blank ≡ true) × (r ≡ (raised value_error, shadowing)))
    ⊎ ((blank ≡ false)
        × (((r.1 ≡ shadowing) × (prev_phase Phase.model_shadow ≡ none))
            ⊎ SteppedDown shadowing r.1))
demote_moves_example = demote_moves "drift" false none shadowing

record_verdict_moves_example : MovesByOne storage yes_gate ready after_verdict
record_verdict_moves_example =
    record_verdict_moves storage yes_gate none none quiet good_verdict ready

abbrev bad_verdict : VerdictCall
bad_verdict = record good_verdict { outcome = "maybe" }

record_verdict_logs_example :
    (aged : ℕ) × (storage.load_records after_verdict.log
      ≡ some (drop aged eight_wins ++ verdict_row good_verdict correct ∷ []))
unfolding bounded_storage parse_verdict adjudicate load_records find_log
record_verdict_logs_example =
    record_verdict_logs storage yes_gate none none quiet good_verdict ready
      (bounded_storage-IsLog 100 "triage" (omega arith)) refl refl refl refl
