-- ===== src/Signals/Reset.antt =====
-- Lemmas on the reset loop of `migrate_defaults` and on its test of the phase
-- (src/postrule/core.py).
use postrule.Prelude.{
  ℕ, ◌≤◌, ◌<◌, ◌≡◌, ◌⊎◌, inl, inr, refl, ap, ◌∙◌, Bool, true, false, Option, none, some, String,
  List, ltb, if◌then◌else◌, arith,
}
use postrule.Phase.{Phase, order, prev_phase}
use postrule.Phase.Walk.{prev_phase-order, walk_ends}
use postrule.Record.{ClassificationRecord, strip, is_empty}
use postrule.Gate.Decision.{GateDecision}
use postrule.Switch.Result.{Attempt, answered, failed, exits, Error, Outcome, returned, raised}
use postrule.Switch.State.{Storage}
use postrule.Switch.Lifecycle.{demote}
use postrule.Signals.Signature.{GateInfo}
use postrule.Signals.Managed.{Env, Managed, min_paired_of, phase_of, recency_window}
use postrule.Signals.Reconcile.{Turn, turns}
use postrule.Signals.Descent.{order-lt}
use postrule.Signals.Loop.{TurnKeeps, turns_lem}
use postrule.Signals.Migrate.{
  approves, ask_new, still_earned, step_to_floor, floor_turn, reset_turn,
}

step_to_floor-phase :
    {S : Type 0} (m : Managed S) (p : Phase)
    → prev_phase (phase_of m) ≡ some p
    → (phase_of (step_to_floor m) ≡ p) × ((step_to_floor m).switch.log ≡ m.switch.log)
unfolding step_to_floor demote strip is_empty
step_to_floor-phase m p e = rw e (refl, refl)

raised-returned : {e : Error} {b : Bool} → raised e ≡ returned b → ⊥
raised-returned e = cc

passed :
    (pairs least : ℕ) (better : Bool)
    → returned (if ltb pairs least then false else better) ≡ returned true
    → (least ≤ pairs) × (better ≡ true)
passed pairs least better e = ground arith

module _ {S : Type 0} where
  -- What the loop keeps.
  pub record Falling (m n : Managed S) : Type 0 where
    pub same_log : n.switch.log ≡ m.switch.log
    pub same_version : n.default_set_version ≡ m.default_set_version
    pub same_gate : n.gate ≡ m.gate

  abbrev pub AtFloor : Managed S → Outcome (Unit {0}) × Managed S → Type 0
  AtFloor m (returned u, n) = Falling m n × (phase_of n ≡ Phase.rule)
  AtFloor m (raised e, n) = ⊥

  abbrev Keeps : Managed S → Managed S → Turn (Managed S) → Type 0
  Keeps m = TurnKeeps (Falling m) (AtFloor m) (λ (n : Managed S). order (phase_of n))

  floor_turn-Keeps :
      (m n : Managed S) (p : Option Phase)
      → prev_phase (phase_of n) ≡ p
      → Falling m n
      → Keeps m n (floor_turn n p)
  unfolding floor_turn
  floor_turn-Keeps m n none e f = (f, (walk_ends (phase_of n)).1.0 e)
  floor_turn-Keeps m n (some p) e f =
      let step = step_to_floor-phase n p e in
      let at : order (phase_of (step_to_floor n)) ≡ order p = ap order step.0 in
      (falls, omega (arith, at, prev_phase-order (phase_of n) p e))
    where
      falls : Falling m (step_to_floor n)
      falls = record {
        same_log = (step_to_floor-phase n p e).1 ∙ f.same_log;
        same_version = f.same_version;
        same_gate = f.same_gate;
      }

  reset_turn-Keeps : (m n : Managed S) → Falling m n → Keeps m n (reset_turn n)
  unfolding reset_turn
  reset_turn-Keeps m n f = floor_turn-Keeps m n _ refl f

  pub reset_lem :
      (fuel : ℕ) (m : Managed S)
      → 5 < fuel
      → (r : Outcome (Unit {0}) × Managed S) × (turns reset_turn fuel m ≡ some r) × AtFloor m r
  reset_lem fuel m h =
      turns_lem (Falling m) (AtFloor m) (λ (k : Managed S). order (phase_of k)) reset_turn
        (λ (k : Managed S) (f : Falling m k). reset_turn-Keeps m k f) fuel m
        (order-lt (phase_of m) fuel h)
        (record { same_log = refl; same_version = refl; same_gate = refl })

  module _ (storage : Storage S) (env : Env) where
    -- On the recent rows the gate, with pairs enough, holds the phase better than the one below.
    pub record Approved (m : Managed S) (g : Option GateInfo) : Type 0 where
      pub rows : List ClassificationRecord
      pub pred : Phase
      pub decision : GateDecision
      pub info : GateInfo
      pub window : recency_window storage env m ≡ some rows
      pub is_prev : prev_phase (phase_of m) ≡ some pred
      pub has_gate : g ≡ some info
      pub answers : info.evaluate rows pred (phase_of m) ≡ answered decision
      pub better : decision.target_better ≡ true
      pub enough : min_paired_of g ≤ decision.paired_sample_size

    abbrev pub Earned : Managed S → Option GateInfo → Type 0
    Earned m g = (phase_of m ≡ Phase.rule) ⊎ Approved m g

    approves-Earned :
        (m : Managed S) (g : GateInfo) (pred : Phase) (rows : List ClassificationRecord)
        (a : Attempt GateDecision)
        → recency_window storage env m ≡ some rows
        → prev_phase (phase_of m) ≡ some pred
        → g.evaluate rows pred (phase_of m) ≡ a
        → approves (min_paired_of (some g)) a ≡ returned true
        → Earned m (some g)
    unfolding approves
    approves-Earned m g pred rows (failed e) w p a ok = absurd (raised-returned ok)
    approves-Earned m g pred rows exits w p a ok = absurd (raised-returned ok)
    approves-Earned m g pred rows (answered d) w p a ok =
        let yes_both = passed d.paired_sample_size (min_paired_of (some g)) d.target_better ok in
        inr (record {
          rows = rows;
          pred = pred;
          decision = d;
          info = g;
          window = w;
          is_prev = p;
          has_gate = refl;
          answers = a;
          better = yes_both.1;
          enough = yes_both.0;
        })

    ask_new-Earned :
        (m : Managed S) (g : Option GateInfo) (pred : Phase)
        (rows : Option (List ClassificationRecord))
        → recency_window storage env m ≡ rows
        → prev_phase (phase_of m) ≡ some pred
        → ask_new pred (phase_of m) g rows ≡ returned true
        → Earned m g
    unfolding ask_new
    ask_new-Earned m g pred none w p ok = absurd (raised-returned ok)
    ask_new-Earned m none pred (some rows) w p ok = absurd (raised-returned ok)
    ask_new-Earned m (some g) pred (some rows) w p ok = approves-Earned m g pred rows _ w p refl ok

    pub still_earned-Earned :
        (m : Managed S) (g : Option GateInfo) (p : Option Phase)
        → prev_phase (phase_of m) ≡ p
        → still_earned (phase_of m) g (recency_window storage env m) p ≡ returned true
        → Earned m g
    unfolding still_earned
    still_earned-Earned m g none e ok = inl ((walk_ends (phase_of m)).1.0 e)
    still_earned-Earned m g (some pred) e ok = ask_new-Earned m g pred _ refl e ok

    module _ (v : String) (accept_reset : Bool) (g : Option GateInfo) where
      -- Why a migration succeeded: nothing to do, the phase was earned under the new gate, or the
      -- reset was accepted.
      abbrev pub Success : Managed S → Managed S → Type 0
      Success m n =
          (n ≡ m)
          ⊎ ((n.switch ≡ m.switch) × (n.gate ≡ g) × Earned m g)
          ⊎ ((phase_of n ≡ Phase.rule) × (n.gate ≡ g) × (accept_reset ≡ true))

      abbrev pub Migrated : Managed S → Outcome Bool × Managed S → Type 0
      Migrated m (raised e, n) = n ≡ m
      Migrated m (returned true, n) =
          (n.default_set_version ≡ some v) × (n.switch.log ≡ m.switch.log) × Success m n
      Migrated m (returned false, n) =
          (n.switch ≡ m.switch)
          × (n.gate ≡ m.gate)
          × (n.default_set_version ≡ m.default_set_version)
          × ((m.gate_is_default ≡ false) ⊎ (accept_reset ≡ false))

      abbrev pub EndsMigrated : Managed S → Option (Outcome Bool × Managed S) → Type 0
      EndsMigrated m o = (r : Outcome Bool × Managed S) × (o ≡ some r) × Migrated m r
