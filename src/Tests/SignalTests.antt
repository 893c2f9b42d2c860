-- ===== src/Tests/SignalTests.antt =====
-- Tests of signal changes and migrations (src/postrule/core.py, src/postrule/signals.py).
use postrule.Prelude.{◌≡◌, inr, refl, Bool, true, false, Option, none, some, [], arith}
use postrule.Phase.{Phase, prev_phase}
use postrule.Record.{ClassificationRecord, strip, is_empty}
use postrule.Gate.Decision.{Rationale}
use postrule.Gate.Kinds.{bare_decision}
use postrule.Storage.Memory.{Logs}
use postrule.Switch.Result.{answered, Outcome, returned}
use postrule.Switch.State.{Storage, GateCall}
use postrule.Switch.Logging.{bounded_storage}
use postrule.Signals.Ident.{string, array, nil, cons}
use postrule.Signals.Signature.{
  GateInfo, SignalSignature, Audit, from_audit, to_audit, same_core, changed_components,
}
use postrule.Signals.Managed.{
  Env, Defaults, Managed, Justification, stored, demote_action, flag_action, resolve_gate,
  signal_signature, phase_of, load_signature,
}
use postrule.Signals.Reconcile.{is_default_drift, reconcile_signals}
use postrule.Signals.Migrate.{migrate_defaults}
use postrule.Signals.Swaps.{Reconciled, Swapped}
use postrule.Signals.Integrity.{
  not_swapped, reconcile_keeps_switch, reconcile_rests, reconcile_ends,
}
use postrule.Signals.Audit.{from_audit-to_audit}
use postrule.Signals.Reset.{Migrated}
use postrule.Signals.Migration.{migrate_ends}
use postrule.Tests.Data.{config_at, switch_with, triage_log}

abbrev no_call : GateCall
no_call rows p q =
    answered
      (record (bare_decision false (Rationale.operator_required p)) { paired_sample_size = 8 })

abbrev strict : GateInfo
strict = record { name = "StrictGate"; alpha = none; min_paired = some 4; evaluate = no_call }

abbrev storage : Storage (Logs ClassificationRecord)
storage = bounded_storage 100 "triage"

abbrev env : Env
env = record { now = 9; reads = λ k. true; writes = λ k. true }

abbrev defaults : Defaults
defaults = record {
  sets = [];
  current_version = "v1";
  current = record { gate = some strict; drift_gate = none };
}

-- The signature of the switch when its judge was another one.
abbrev old_audit : Audit
old_audit = record {
  judge_id = some "old judge";
  gate_id = array (cons (string "__default__") (cons (string "v1") nil));
  strategy_id = none;
  ml_head_version = none;
  labels_id = none;
  rule_version_id = none;
  rule_drift_digest = none;
}

abbrev old_signature : SignalSignature
old_signature = record {
  judge_id = some "old judge";
  gate_id = cons (string "__default__") (cons (string "v1") nil);
  strategy_id = none;
  ml_head_version = none;
  labels_id = none;
  rule_version_id = none;
  rule_drift_digest = none;
}

abbrev old_justification : Justification
old_justification = record {
  signature = old_audit;
  phase = Phase.model_primary;
  justified_at = 1;
  verdict_high_water = 8;
}

abbrev graduated : Managed (Logs ClassificationRecord)
graduated = record {
  switch = switch_with (config_at Phase.model_primary) triage_log;
  gate = some strict;
  gate_is_default = true;
  default_set_version = some "v1";
  verifier_name = some "new judge";
  head_strategy = none;
  ml_head = none;
  labels = [];
  rule_version = none;
  rule_digest = none;
  signal_swap_action = demote_action;
  window_records = 2000;
  window_span = 0;
  signature = some (stored old_justification);
  stored_head = true;
  ledger = [];
  emitted = [];
}

from_audit-to_audit_example :
    from_audit (to_audit (signal_signature graduated)) ≡ signal_signature graduated
from_audit-to_audit_example = from_audit-to_audit graduated

reconcile_ends_example :
    (r : Outcome (Unit {0}) × Managed (Logs ClassificationRecord)) × (reconcile_signals storage 6
        env defaults graduated
      ≡ some r)
    × Reconciled storage env graduated r.1
reconcile_ends_example = reconcile_ends storage env defaults 6 graduated (omega arith)

graduated-loads : load_signature env graduated ≡ some (old_signature, old_justification)
unfolding load_signature
graduated-loads = refl

graduated-differs : same_core old_signature (signal_signature graduated) ≡ false
unfolding same_core signal_signature
graduated-differs = refl

graduated-no_drift :
    is_default_drift old_signature
      (signal_signature graduated)
      (changed_components (signal_signature graduated) old_signature)
      graduated
    ≡ false
unfolding is_default_drift changed_components signal_signature
graduated-no_drift = refl

reconcile_rests_example :
    (r : Outcome (Unit {0}) × Managed (Logs ClassificationRecord)) × (reconcile_signals storage 6
        env defaults graduated
      ≡ some r)
    × Swapped storage env graduated r
reconcile_rests_example =
    reconcile_rests storage env defaults 6 graduated old_signature old_justification (omega arith)
      graduated-loads graduated-differs graduated-no_drift refl

abbrev flagged : Managed (Logs ClassificationRecord)
flagged = record graduated { signal_swap_action = flag_action }

flagged-loads : load_signature env flagged ≡ some (old_signature, old_justification)
unfolding load_signature
flagged-loads = refl

reconcile_keeps_switch_example :
    (k : Managed (Logs ClassificationRecord)) × (reconcile_signals storage 6 env defaults flagged
      ≡ some (returned tt, k))
    × (k.switch ≡ flagged.switch)
reconcile_keeps_switch_example =
    reconcile_keeps_switch storage env defaults 6 flagged
      (not_swapped old_signature old_justification flagged-loads (inr (inr refl)))

abbrev first_run :
    (k : Managed (Logs ClassificationRecord)) × (reconcile_signals storage 6 env defaults flagged
      ≡ some (returned tt, k))
    × (k.switch ≡ flagged.switch)
first_run =
    reconcile_keeps_switch storage env defaults 6 flagged
      (not_swapped old_signature old_justification flagged-loads (inr (inr refl)))

abbrev phase_after :
    Option (Outcome (Unit {0}) × Managed (Logs ClassificationRecord)) → Option Phase
phase_after none = none
phase_after (some (o, m)) = some (phase_of m)

-- The new judge's evidence refutes the phase, and then the one below it.
graduated-falls : phase_after (reconcile_signals storage 6 env defaults graduated) ≡ some Phase.rule
unfolding reconcile_signals prev_phase bounded_storage bare_decision is_empty strip
graduated-falls = refl

migrate_ends_example :
    (r : Outcome Bool × Managed (Logs ClassificationRecord)) × (migrate_defaults storage 6 env
        defaults "v2" true graduated
      ≡ some r)
    × Migrated storage env "v2" true (resolve_gate defaults (some "v2")) graduated r
migrate_ends_example = migrate_ends storage env 6 defaults "v2" true graduated (omega arith)
