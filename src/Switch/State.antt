-- ===== src/Switch/State.antt =====
-- The state of a `LearnedSwitch` (src/postrule/core.py), the storage that it writes to
-- (`Storage` of src/postrule/storage.py), and the circuit breaker's own operations.
use postrule.Prelude.{
  ℕ, ◌≡◌, Bool, true, false, Option, none, some, String, List, [], ◌∷◌, ◌++◌, drop, if◌then◌else◌,
}
use postrule.Phase.{Phase}
use postrule.Num.{Float}
use postrule.Record.{
  Source, Value, Verdict, correct, incorrect, unknown, ClassificationRecord, label_eq,
}
use postrule.Gate.Decision.{GateDecision}
use postrule.Switch.Config.{Config}
use postrule.Switch.Result.{Attempt}

-- A storage backend as one switch uses it, under its own name. `none` is an exception.
pub record Storage (S : Type 0) : Type 0 where
  pub append_record : ClassificationRecord → S → Option S
  pub load_records : S → Option (List ClassificationRecord)

-- What a backend promises: after an append the log is the old log, less rows that aged out at its
-- front, and the new row.
pub record IsLog {S : Type 0} (storage : Storage S) : Type 0 where
  pub load-append :
      (r : ClassificationRecord) (s t : S) (rows : List ClassificationRecord)
      → storage.append_record r s ≡ some t
      → storage.load_records s ≡ some rows
      → (aged : ℕ) × (storage.load_records t ≡ some (drop aged rows ++ r ∷ []))

-- `Gate.evaluate` of any gate, the caller's own included
abbrev pub GateCall : Type 0
GateCall = List ClassificationRecord → Phase → Phase → Attempt GateDecision

-- `VerdictSource.judge`
abbrev pub Verifier : Type 0
Verifier = Value → Option Value → Attempt Verdict

-- What the switch hands to its telemetry emitter; a failing emitter is ignored.
pub data Event : Type 0 where
  -- the row, the phase as a number, and which layers were right
  outcome_event : ClassificationRecord → ℕ → Option Bool → Option Bool → Option Bool → Event
  -- phase, source, confidence, whether the verifier judged the call, and what the action raised
  classify_event : Phase → Source → Float → Bool → Event
  dispatch_event : Phase → Source → Float → Option Value → Bool → Event
  advance_event : Phase → Phase → GateDecision → Bool → Event
  demote_event : Phase → Phase → GateDecision → String → Bool → Event
  reset_event : Option String → Event

pub record Switch (S : Type 0) : Type 0 where
  pub config : Config
  -- `_records_since_advance_check`, `_records_since_phase_change`
  pub since_check : ℕ
  pub since_change : ℕ
  -- `_circuit_tripped`
  pub tripped : Bool
  -- `_persist`, and the stored bytes of the breaker as a flag
  pub persist : Bool
  pub saved_breaker : Option Bool
  pub log : S
  -- the newest first
  pub events : List Event

-- `10**9`: a new switch has no phase change to cool down from.
abbrev pub never_changed : ℕ
never_changed = 1_000_000_000

module _ {S : Type 0} where
  unfoldable pub in_phase : Phase → Switch S → Switch S
  in_phase p sw = record sw { config = record (sw.config) { starting_phase = p } }

  unfoldable pub emit : Event → Switch S → Switch S
  emit e sw = record sw { events = e ∷ sw.events }

  -- `_save_breaker_state`
  unfoldable pub save_breaker : Switch S → Switch S
  save_breaker sw = if sw.persist then record sw { saved_breaker = some sw.tripped } else sw

  -- The state after a call, of which `_classify_impl` reports the breaker. A trip is saved.
  unfoldable pub after_call : Bool → Switch S → Switch S
  unfolding save_breaker
  after_call now_tripped sw =
      if sw.tripped
      then sw
      else if now_tripped
      then save_breaker (record sw { tripped = true })
      else sw

  -- `_load_breaker_state`
  unfoldable pub load_breaker : Switch S → Switch S
  load_breaker sw = elim sw.saved_breaker [ some true ↦ record sw { tripped = true } | _ ↦ sw ]

  -- `__init__` on what an earlier process left: the configuration is checked by then.
  unfoldable pub restart : Config → Switch S → Switch S
  unfolding load_breaker
  restart c old =
      let fresh : Switch S = record old {
        config = c;
        since_check = 0;
        since_change = never_changed;
        tripped = false;
        events = [];
      } in
      if old.persist then load_breaker fresh else fresh

  -- `reset_circuit_breaker`
  unfoldable pub reset_circuit_breaker : Option String → Switch S → Switch S
  unfolding emit save_breaker
  reset_circuit_breaker operator sw =
      emit (reset_event operator) (save_breaker (record sw { tripped = false }))

-- `_per_classifier_correct`
unfoldable pub per_classifier_correct : Option Value → Option Value → Verdict → Option Bool
unfolding label_eq
per_classifier_correct none chosen outcome = none
per_classifier_correct (some v) chosen unknown = none
per_classifier_correct (some v) chosen correct =
    if label_eq (some v) chosen then some true else none
per_classifier_correct (some v) chosen incorrect =
    if label_eq (some v) chosen then some false else none
