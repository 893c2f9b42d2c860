-- ===== src/Switch/Bulk.antt =====
-- `bulk_record_verdicts` of src/postrule/core.py.
use postrule.Prelude.{ℕ, ◌+◌, Bool, false, ◌&&◌, Option, none, List, [], ◌∷◌, ltb, if◌then◌else◌}
use postrule.Record.{ClassificationRecord}
use postrule.Gate.Decision.{GateDecision}
use postrule.Switch.Result.{Attempt, system_exit, Outcome, returned, raised}
use postrule.Switch.State.{Storage, GateCall, Verifier, Switch}
use postrule.Switch.Rows.{VerdictCall}
use postrule.Switch.Verdicts.{absorb, try_advance, record_verdict}

-- `BulkVerdictSummary`
pub record BulkVerdictSummary : Type 0 where
  pub total : ℕ
  pub recorded : ℕ
  pub failures : ℕ
  pub auto_advance_decision : Option GateDecision

-- A new summary
abbrev pub no_verdicts : BulkVerdictSummary
no_verdicts = record { total = 0; recorded = 0; failures = 0; auto_advance_decision = none }

-- The summary after one more row.
unfoldable pub tally : BulkVerdictSummary → Outcome (Unit {0}) → BulkVerdictSummary
tally s (returned _) = record s { total = s.total + 1; recorded = s.recorded + 1 }
tally s (raised _) = record s { total = s.total + 1; failures = s.failures + 1 }

unfoldable pub add_decision {ℓ} :
    {S : Type ℓ}
    → BulkVerdictSummary
    → Outcome (Option GateDecision) × S
    → Outcome BulkVerdictSummary × S
add_decision s (returned d, sw) = (returned (record s { auto_advance_decision = d }), sw)
add_decision s (raised e, sw) = (raised e, sw)

unfoldable pub with_auto_advance : {S : Type 0} → Bool → Switch S → Switch S
with_auto_advance b sw = record sw { config = record (sw.config) { auto_advance = b } }

module _ {S : Type 0} (storage : Storage S) (gate : GateCall) (drift_gate : Option GateCall)
    (verifier : Option Verifier) (on_verdict : ClassificationRecord → Attempt (Unit {0})) where
  -- The loop of `bulk_record_verdicts`; an exit ends it.
  unfoldable pub bulk_loop :
      List VerdictCall → BulkVerdictSummary → Switch S → Outcome BulkVerdictSummary × Switch S
  unfolding tally
  bulk_loop [] s sw = (returned s, sw)
  bulk_loop (v ∷ vs) s sw =
      let (o, sw') = record_verdict storage gate drift_gate verifier on_verdict v sw in
      let rest = bulk_loop vs (tally s o) sw' in absorb (λ _. rest) rest (raised system_exit, sw') o

  -- The probe at the end of a batch.
  unfoldable pub bulk_probe :
      Outcome BulkVerdictSummary → Switch S → Outcome BulkVerdictSummary × Switch S
  unfolding add_decision try_advance
  bulk_probe (raised e) sw = (raised e, sw)
  bulk_probe (returned s) sw =
      if sw.config.auto_advance && ltb 0 s.recorded
      then add_decision s (try_advance storage gate drift_gate (record sw { since_check = 0 }))
      else (returned s, sw)

  -- `bulk_record_verdicts`: no automatic advance within the batch, one probe at its end.
  unfoldable pub bulk_record_verdicts :
      List VerdictCall → Switch S → Outcome BulkVerdictSummary × Switch S
  unfolding bulk_loop bulk_probe with_auto_advance
  bulk_record_verdicts vs sw =
      let (o, sw') = bulk_loop vs no_verdicts (with_auto_advance false sw) in
      bulk_probe o (with_auto_advance sw.config.auto_advance sw')
