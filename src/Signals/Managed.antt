-- ===== src/Signals/Managed.antt =====
-- The part of a `LearnedSwitch` that signal changes read and write (src/postrule/core.py): the
-- signals, the persisted signature, the head, the audit ledger and the recency window; and
-- `resolve_gate` of src/postrule/defaults.py.
use text.Mathlib.Text.{◌==◌ as str_eq}
use postrule.Prelude.{
  ℕ, ◌+◌, ◌-◌, Bool, true, false, ◌&&◌, ◌||◌, not, Option, none, some, String, List, [], ◌∷◌, ◌++◌,
  ltb, leb, ◌==◌, if◌then◌else◌, length, drop, select,
}
use postrule.Phase.{Phase}
use postrule.Record.{ClassificationRecord}
use postrule.Gate.Decision.{GateDecision}
use postrule.Switch.State.{Storage, Switch}
use postrule.Signals.Ident.{string, cons, nil}
use postrule.Signals.Signature.{
  GateInfo, Strategy, Version, SignalSignature, Component, Audit, opt_string, gate_identity,
  strategy_identity, labels_identity, head_version, to_audit, from_audit,
}

-- The state keys that the code reads and writes here.
pub data Key : Type 0 where
  signature_key ledger_key head_key : Key

-- What one call meets: the clock in ticks, and which state keys the store can read and write.
pub record Env : Type 0 where
  pub now : ℕ
  pub reads : Key → Bool
  pub writes : Key → Bool

-- A version's own factories: the gate and the drift gate.
pub record DefaultSet : Type 0 where
  pub gate : Option GateInfo
  pub drift_gate : Option GateInfo

-- `_DEFAULT_SETS`, and `CURRENT_DEFAULT_SET_VERSION` with its set
pub record Defaults : Type 0 where
  pub sets : List (String × DefaultSet)
  pub current_version : String
  pub current : DefaultSet

-- What happened, for the audit ledger.
pub data Happening : Type 0 where
  adopt advisory held : Happening
  pin : Option String → Happening
  swap quarantine : List Component → Happening
  demoted : List Component → GateDecision → Happening
  migrated migrate_reset migrate_rejected : String → Happening

pub record LedgerEvent : Type 0 where
  pub at : ℕ
  pub event : Happening
  pub sig_before : Option SignalSignature
  pub sig_after : SignalSignature
  pub phase_before : Phase
  pub phase_after : Phase

-- The persisted signature: what `_save_signature` writes.
pub record Justification : Type 0 where
  pub signature : Audit
  pub phase : Phase
  pub justified_at : ℕ
  pub verdict_high_water : ℕ

pub data Blob : Type 0 where
  corrupt : Blob
  stored : Justification → Blob

pub data SwapAction : Type 0 where
  demote_action flag_action : SwapAction

pub record Managed (S : Type 0) : Type 0 where
  pub switch : Switch S
  -- `config.gate`, `_gate_is_default`, `_default_set_version`
  pub gate : Option GateInfo
  pub gate_is_default : Bool
  pub default_set_version : Option String
  -- the verifier's name, `_head_strategy`, `_ml_head`, the labels, the rule's version and digest
  pub verifier_name : Option String
  pub head_strategy : Option Strategy
  pub ml_head : Option Version
  pub labels : List (String × Option String)
  pub rule_version : Option String
  pub rule_digest : Option String
  -- `signal_swap_action`, `reconcile_window_records`, `reconcile_window_days` in ticks
  pub signal_swap_action : SwapAction
  pub window_records : ℕ
  pub window_span : ℕ
  -- the persisted state, of which the head is only there or not, and the ledger, oldest first
  pub signature : Option Blob
  pub stored_head : Bool
  pub ledger : List LedgerEvent
  -- the ledger events handed to telemetry, the newest first
  pub emitted : List LedgerEvent

-- `_DEFAULT_SETS.get(version or "")`
unfoldable pub find_set : String → List (String × DefaultSet) → Option DefaultSet
find_set v [] = none
find_set v ((w, set) ∷ sets) = let rest = find_set v sets in if str_eq w v then some set else rest

unfoldable pub version_text : Option String → String
version_text none = ""
version_text (some v) = v

-- The set of a version; a missing or an empty one gives way to the current set.
unfoldable pub set_or_current : DefaultSet → Option DefaultSet → DefaultSet
set_or_current current none = current
set_or_current current (some set) = elim (set.gate) [
  | some g ↦ set
  | none ↦ elim (set.drift_gate) [ none ↦ current | some g ↦ set ]
]

-- `resolve_gate`, for the key "gate"
unfoldable pub resolve_gate : Defaults → Option String → Option GateInfo
unfolding set_or_current find_set version_text
resolve_gate defaults v =
    let set = set_or_current defaults.current (find_set (version_text v) defaults.sets) in set.gate

abbrev pub default_mark : String
default_mark = "__default__"

-- `event in _EMITTED_LIFECYCLE_EVENTS`
unfoldable pub is_emitted : Happening → Bool
is_emitted adopt = false
is_emitted advisory = false
is_emitted _ = true

-- `getattr(gate, "min_paired", …) or 0`
unfoldable pub min_paired_of : Option GateInfo → ℕ
min_paired_of none = 0
min_paired_of (some g) = elim (g.min_paired) [ none ↦ 0 | some n ↦ n ]

-- `_recency_window`, of the rows that the storage gives
unfoldable pub recent_rows : ℕ → ℕ → ℕ → List ClassificationRecord → List ClassificationRecord
unfolding select
recent_rows now span n rows =
    let fresh =
      (if span == 0
        then rows
        else select (λ (r : ClassificationRecord). leb now (r.timestamp + span)) rows) in
    if not (n == 0) && ltb n (length fresh) then drop (length fresh - n) fresh else fresh

-- The signature and the rest of what is stored, if it is readable.
unfoldable pub read_blob : Option Blob → Option (SignalSignature × Justification)
unfolding from_audit
read_blob (some (stored j)) = some (from_audit j.signature, j)
read_blob _ = none

module _ {S : Type 0} where
  -- `signal_signature`
  unfoldable pub signal_signature : Managed S → SignalSignature
  unfolding gate_identity strategy_identity head_version labels_identity opt_string
  signal_signature m = record {
    judge_id = m.verifier_name;
    gate_id =
        if m.gate_is_default
        then cons (string default_mark) (cons (opt_string m.default_set_version) nil)
        else gate_identity m.gate;
    strategy_id = strategy_identity m.head_strategy;
    ml_head_version = head_version m.ml_head;
    labels_id = labels_identity m.labels;
    rule_version_id = m.rule_version;
    rule_drift_digest = m.rule_digest;
  }

  abbrev pub phase_of : Managed S → Phase
  phase_of m = m.switch.config.starting_phase

  -- `_append_ledger`: what cannot be read counts as empty
  unfoldable pub append_ledger : Env → LedgerEvent → Managed S → Managed S
  unfolding is_emitted
  append_ledger env e m = record m {
    ledger =
        if env.writes ledger_key
        then (if env.reads ledger_key then m.ledger else []) ++ e ∷ []
        else m.ledger;
    emitted = if is_emitted e.event then e ∷ m.emitted else m.emitted;
  }

  -- An event at which the phase stays.
  unfoldable pub note :
      Env → Happening → Option SignalSignature → SignalSignature → Managed S → Managed S
  unfolding append_ledger
  note env h before after m =
      append_ledger env
        (record {
          at = env.now;
          event = h;
          sig_before = before;
          sig_after = after;
          phase_before = phase_of m;
          phase_after = phase_of m;
        })
        m

  -- `_load_signature`: none if there is none, or it cannot be read
  unfoldable pub load_signature : Env → Managed S → Option (SignalSignature × Justification)
  unfolding read_blob
  load_signature env m = if env.reads signature_key then read_blob m.signature else none

  unfoldable pub put_signature : Env → Justification → Managed S → Managed S
  put_signature env j m =
      if env.writes signature_key then record m { signature = some (stored j) } else m

  -- `_save_signature` with the time and the count of an earlier justification
  unfoldable pub save_signature_as : Env → SignalSignature → Justification → Managed S → Managed S
  unfolding put_signature to_audit
  save_signature_as env sig j m =
      put_signature env (record j { signature = to_audit sig; phase = phase_of m }) m

  -- `_head_is_present`
  unfoldable pub head_is_present : Env → Managed S → Bool
  head_is_present env m =
      let live : Bool = elim (m.ml_head) [ none ↦ false | some v ↦ true ] in
      let chosen : Bool = elim (m.head_strategy) [ none ↦ false | some s ↦ true ] in
      live || (chosen || env.reads head_key && m.stored_head)

  module _ (storage : Storage S) where
    -- `_recency_window`
    unfoldable pub recency_window : Env → Managed S → Option (List ClassificationRecord)
    unfolding recent_rows
    recency_window env m = elim (storage.load_records (m.switch.log)) [
      | none ↦ none
      | some rows ↦ some (recent_rows env.now m.window_span m.window_records rows)
    ]

    -- `verdict_high_water` where the caller gives none; a failing storage counts 0 rows.
    unfoldable pub high_water : Managed S → ℕ
    high_water m = elim (storage.load_records (m.switch.log)) [ none ↦ 0 | some rows ↦ length rows ]

    -- `_save_signature` with a signature alone
    unfoldable pub save_signature : Env → SignalSignature → Managed S → Managed S
    unfolding put_signature to_audit high_water
    save_signature env sig m =
        put_signature env
          (record {
            signature = to_audit sig;
            phase = phase_of m;
            justified_at = env.now;
            verdict_high_water = high_water m;
          })
          m
