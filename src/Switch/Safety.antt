-- ===== src/Switch/Safety.antt =====
-- Lemmas on the phase ceiling under the checks of `SwitchConfig` and the phase changes of a switch
-- (src/postrule/core.py).
use postrule.Prelude.{
  ◌≤◌, ◌≡◌, refl, Bool, true, false, ◌&&◌, ◌||◌, Option, none, some, String, List, ltb, arith,
  Bool-cases, inl, inr, if◌then◌else◌,
}
use postrule.Phase.{Phase, order, is_phase, prev_phase}
use postrule.Phase.Walk.{prev_phase-order}
use postrule.Record.{ClassificationRecord, codes, strip, is_empty}
use postrule.Gate.Decision.{GateDecision}
use postrule.Switch.Config.{
  Config, IsCapped, post_init, resolve_alias, check_config, cap_limit, within_limit,
}
use postrule.Switch.Result.{
  Attempt, answered, failed, exits, Outcome, returned, raised, system_exit,
}
use postrule.Switch.State.{Storage, GateCall, Switch}
use postrule.Switch.Lifecycle.{
  settle, step_down, demote, ask, step_up, advance, demoted, drift_settle, drift_ask,
  maybe_auto_demote,
}
use postrule.Switch.Verdicts.{absorb, absorbed, done}

within_limit-IsCapped :
    (c d : Config)
    → (c.safety_critical ≡ true → order c.phase_limit ≤ 4)
    → within_limit c ≡ some d
    → IsCapped d
unfolding within_limit
within_limit-IsCapped c d k h =
    elim (Bool-cases (ltb (order c.phase_limit) (order c.starting_phase))) [
      | inl e ↦ absurd (let g = rw e at h in cc)
      | inr e ↦
          let capped : IsCapped c = record { below_limit = ground arith; critical_limit = k } in
          let g : c ≡ d = (let g = rw e at h in cc) in rw g at capped
    ]

cap_limit-critical :
    (c : Config) → (cap_limit c).safety_critical ≡ true → order (cap_limit c).phase_limit ≤ 4
unfolding cap_limit
cap_limit-critical c h = ground arith

check_config-IsCapped : (c d : Config) → check_config c ≡ some d → IsCapped d
unfolding check_config
check_config-IsCapped c d h =
    within_limit-IsCapped (cap_limit c) d (cap_limit-critical c) (ground arith)

-- A configuration that passes the checks of `__post_init__` starts at or below its ceiling, and
-- if it is safety critical its ceiling is below ML_PRIMARY.
pub post_init-IsCapped : (c d : Config) → post_init c ≡ some d → IsCapped d
unfolding post_init
post_init-IsCapped c d h = check_config-IsCapped (resolve_alias c) d h

module _ {S : Type 0} where
  abbrev pub IsSafe : Switch S → Type 0
  IsSafe sw = IsCapped (sw.config)

  -- A branch of an operation.
  pub IsSafe-if :
      {A : Type 0} (b : Bool) (x y : Outcome A × Switch S)
      → IsSafe x.1
      → IsSafe y.1
      → IsSafe (if b then x else y).1
  IsSafe-if true x y h k = h
  IsSafe-if false x y h k = k

  settle-IsSafe :
      (current target : Phase) (auto : Bool) (sw : Switch S) (a : Attempt GateDecision)
      → IsSafe sw
      → order target ≤ order (sw.config.phase_limit)
      → IsSafe (settle current target auto sw a).1
  unfolding settle
  settle-IsSafe current target auto sw (failed e) h k = h
  settle-IsSafe current target auto sw exits h k = h
  settle-IsSafe current target auto sw (answered d) h k = ground arith

  step_down-IsSafe :
      (reason : String) (auto : Bool) (given : Option GateDecision) (sw : Switch S)
      (q : Option Phase)
      → prev_phase (sw.config.starting_phase) ≡ q
      → IsSafe sw
      → IsSafe (step_down (sw.config.starting_phase) reason auto given sw q).1
  unfolding step_down
  step_down-IsSafe reason auto given sw none e h = h
  step_down-IsSafe reason auto given sw (some q) e h =
      ground (arith, prev_phase-order (sw.config.starting_phase) q)

  pub demote-IsSafe :
      (reason : String) (auto : Bool) (given : Option GateDecision) (sw : Switch S)
      → IsSafe sw
      → IsSafe (demote reason auto given sw).1
  unfolding demote
  demote-IsSafe reason auto given sw h =
      IsSafe-if (is_empty (codes reason) || is_empty (strip (codes reason))) _ _ h
        (step_down-IsSafe reason auto given sw _ refl h)

  demoted-IsSafe : (o : Outcome GateDecision × Switch S) → IsSafe o.1 → IsSafe (demoted o).1
  unfolding demoted
  demoted-IsSafe (returned d, sw) h = h
  demoted-IsSafe (raised e, sw) h = h

  drift_settle-IsSafe :
      (sw : Switch S) (a : Attempt GateDecision) → IsSafe sw → IsSafe (drift_settle sw a).1
  unfolding drift_settle
  drift_settle-IsSafe sw (failed e) h = h
  drift_settle-IsSafe sw exits h = h
  drift_settle-IsSafe sw (answered d) h =
      IsSafe-if d.target_better _ _ (demoted-IsSafe _ (demote-IsSafe _ true (some d) sw h)) h

  drift_ask-IsSafe :
      (g : GateCall) (sw : Switch S) (rows : Option (List ClassificationRecord))
      → IsSafe sw
      → IsSafe (drift_ask g sw rows).1
  unfolding drift_ask
  drift_ask-IsSafe g sw none h = h
  drift_ask-IsSafe g sw (some rows) h = drift_settle-IsSafe sw _ h

  ask-IsSafe :
      (storage : Storage S) (gate : GateCall) (current target : Phase) (auto : Bool) (sw : Switch S)
      (rows : Option (List ClassificationRecord))
      → IsSafe sw
      → order target ≤ order (sw.config.phase_limit)
      → IsSafe (ask storage gate current target auto sw rows).1
  unfolding ask
  ask-IsSafe storage gate current target auto sw none h k = h
  ask-IsSafe storage gate current target auto sw (some rows) h k =
      settle-IsSafe current target auto sw _ h k

  step_up-IsSafe :
      (storage : Storage S) (gate : GateCall) (current : Phase) (auto : Bool) (sw : Switch S)
      (q : Option Phase)
      → IsSafe sw
      → IsSafe (step_up storage gate current auto sw q).1
  unfolding step_up
  step_up-IsSafe storage gate current auto sw none h = h
  step_up-IsSafe storage gate current auto sw (some target) h =
      elim (Bool-cases (ltb (order (sw.config.phase_limit)) (order target))) [
        | inl e ↦ rw e h
        | inr e ↦ rw e (
            IsSafe-if (sw.config.safety_critical && is_phase target Phase.ml_primary) _ _ h
              (ask-IsSafe storage gate current target auto sw _ h (ground arith)))
      ]

  pub absorbed-IsSafe : {A : Type 0} (o : Outcome A × Switch S) → IsSafe o.1 → IsSafe (absorbed o).1
  unfolding absorbed
  absorbed-IsSafe o h = h

  pub done-IsSafe : {A : Type 0} (o : Outcome A × Switch S) → IsSafe o.1 → IsSafe (done o).1
  unfolding done
  done-IsSafe (returned a, sw) h = h
  done-IsSafe (raised e, sw) h = h

  pub absorb-IsSafe :
      {A B : Type 0} (f : A → Outcome B × Switch S) (failure exit : Outcome B × Switch S)
      (o : Outcome A)
      → ((a : A) → IsSafe (f a).1)
      → IsSafe failure.1
      → IsSafe exit.1
      → IsSafe (absorb f failure exit o).1
  unfolding absorb
  absorb-IsSafe f failure exit (returned a) h k l = h a
  absorb-IsSafe f failure exit (raised system_exit) h k l = l
  absorb-IsSafe f failure exit (raised _) h k l = k

  module _ (storage : Storage S) (gate : GateCall) (drift_gate : Option GateCall) where
    pub advance-IsSafe :
        (auto : Bool) (sw : Switch S) → IsSafe sw → IsSafe (advance storage gate auto sw).1
    unfolding advance
    advance-IsSafe auto sw h = step_up-IsSafe storage gate _ auto sw _ h

    pub maybe_auto_demote-IsSafe :
        (g : GateCall) (sw : Switch S) → IsSafe sw → IsSafe (maybe_auto_demote storage g sw).1
    unfolding maybe_auto_demote
    maybe_auto_demote-IsSafe g sw h =
        IsSafe-if (is_phase (sw.config.starting_phase) Phase.rule) _ _ h (drift_ask-IsSafe g sw _ h)
