-- ===== src/Switch/Exits.antt =====
-- Lemmas on how the automatic checks at the end of `record_verdict` (src/postrule/core.py) end.
use postrule.Prelude.{Bool, true, false, ◌&&◌, ◌||◌, not, Option, if-P}
use postrule.Record.{ClassificationRecord}
use postrule.Switch.Result.{
  Attempt, answered, failed, exits, system_exit, raised_by_caller, storage_error, value_error,
  runtime_error, type_error, key_error, attribute_error, Outcome, returned, raised,
}
use postrule.Switch.State.{Storage, GateCall, Verifier, Switch, emit}
use postrule.Switch.Rows.{outcome_of}
use postrule.Switch.Verdicts.{
  absorb, absorbed, done, drift_check, try_advance, then_advance, check_gates, check_if_due,
  auto_evaluate, count_record, is_due, after_hook,
}
use postrule.Switch.Lifecycle.{advance}
use postrule.Switch.Cycle.{absorb-P}

-- An operation returns, or it leaves by an exit of the process.
abbrev pub OnlyExits : {A : Type 0} → Outcome A → Type 0
OnlyExits (returned a) = Unit
OnlyExits (raised system_exit) = Unit
OnlyExits (raised _) = ⊥

absorbed-OnlyExits : {A S : Type 0} (o : Outcome A × S) → OnlyExits (absorbed o).0
unfolding absorbed absorb
absorbed-OnlyExits (returned a, s) = tt
absorbed-OnlyExits (raised system_exit, s) = tt
absorbed-OnlyExits (raised value_error, s) = tt
absorbed-OnlyExits (raised runtime_error, s) = tt
absorbed-OnlyExits (raised key_error, s) = tt
absorbed-OnlyExits (raised type_error, s) = tt
absorbed-OnlyExits (raised attribute_error, s) = tt
absorbed-OnlyExits (raised storage_error, s) = tt
absorbed-OnlyExits (raised (raised_by_caller e), s) = tt

done-OnlyExits : {A S : Type 0} (o : Outcome A × S) → OnlyExits o.0 → OnlyExits (done o).0
unfolding done
done-OnlyExits (returned a, s) h = tt
done-OnlyExits (raised system_exit, s) h = tt
done-OnlyExits (raised value_error, s) h = absurd h
done-OnlyExits (raised runtime_error, s) h = absurd h
done-OnlyExits (raised key_error, s) h = absurd h
done-OnlyExits (raised type_error, s) h = absurd h
done-OnlyExits (raised attribute_error, s) h = absurd h
done-OnlyExits (raised storage_error, s) h = absurd h
done-OnlyExits (raised (raised_by_caller e), s) h = absurd h

module _ {S : Type 0} (storage : Storage S) (gate : GateCall) (drift_gate : Option GateCall) where
  then_advance-OnlyExits :
      (b : Bool) (sw : Switch S) → OnlyExits (then_advance storage gate drift_gate b sw).0
  unfolding then_advance try_advance
  then_advance-OnlyExits b sw =
      if-P (λ (o : Outcome (Unit {0}) × Switch S). OnlyExits o.0) (not b && sw.config.auto_advance)
        _ _ (done-OnlyExits _ (absorbed-OnlyExits (advance storage gate true sw))) tt

  check_gates-OnlyExits : (sw : Switch S) → OnlyExits (check_gates storage gate drift_gate sw).0
  unfolding check_gates
  check_gates-OnlyExits sw =
      let next = drift_check storage gate drift_gate sw in
      absorb-P (λ (o : Outcome (Unit {0}) × Switch S). OnlyExits o.0) _ _ _ next.0
        (λ b. then_advance-OnlyExits b next.1) (then_advance-OnlyExits false next.1) tt

  auto_evaluate-OnlyExits : (sw : Switch S) → OnlyExits (auto_evaluate storage gate drift_gate sw).0
  unfolding auto_evaluate check_if_due
  auto_evaluate-OnlyExits sw =
      let P = λ (o : Outcome (Unit {0}) × Switch S). OnlyExits o.0 in
      if-P P (sw.config.auto_advance || sw.config.auto_demote) _ _
        (if-P P (is_due (count_record sw)) _ _ (check_gates-OnlyExits _) tt) tt

  pub after_hook-OnlyExits :
      (verifier : Option Verifier) (hook : ClassificationRecord → Attempt (Unit {0}))
      (row : ClassificationRecord) (sw : Switch S) (a : Attempt (Unit {0}))
      → OnlyExits (after_hook storage gate drift_gate verifier hook row sw a).0
  unfolding after_hook
  after_hook-OnlyExits verifier hook row sw exits = tt
  after_hook-OnlyExits verifier hook row sw (answered _) =
      auto_evaluate-OnlyExits (emit (outcome_of row sw.config.starting_phase) sw)
  after_hook-OnlyExits verifier hook row sw (failed _) =
      auto_evaluate-OnlyExits (emit (outcome_of row sw.config.starting_phase) sw)
