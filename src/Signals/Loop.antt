-- ===== src/Signals/Loop.antt =====
-- Lemmas on the re-justification loop of `reconcile_signals` (src/postrule/core.py).
use postrule.Prelude.{ℕ, zero, suc, ◌<◌, ◌≡◌, refl, true, Option, some, arith}
use postrule.Phase.{Phase, prev_phase}
use postrule.Record.{strip, is_empty}
use postrule.Gate.Decision.{GateDecision}
use postrule.Switch.Result.{Outcome, returned, raised}
use postrule.Switch.State.{Switch}
use postrule.Switch.Lifecycle.{demote}
use postrule.Switch.Moves as Moves
use postrule.Switch.Moves.{SteppedDown, demote_moves}
use postrule.Signals.Reconcile.{Turn, stop, again, fail, take_turn, turns, swap_reason}

module _ {M : Type 0} (P : M → Type 0) (Q : Outcome (Unit {0}) × M → Type 0) (measure : M → ℕ) where
  -- What a turn must do from a state where `P` holds.
  abbrev pub TurnKeeps : M → Turn M → Type 0
  TurnKeeps m (stop n) = Q (returned tt, n)
  TurnKeeps m (fail e n) = Q (raised e, n)
  TurnKeeps m (again n) = P n × (measure n < measure m)

  take_turn_lem :
      (rest : M → Option (Outcome (Unit {0}) × M)) (m : M)
      → ((n : M)
          → P n
          → measure n < measure m
          → (r : Outcome (Unit {0}) × M) × (rest n ≡ some r) × Q r)
      → (t : Turn M) → TurnKeeps m t
      → (r : Outcome (Unit {0}) × M) × (take_turn rest t ≡ some r) × Q r
  unfolding take_turn
  take_turn_lem rest m ih (stop n) h = ((returned tt, n), refl, h)
  take_turn_lem rest m ih (fail e n) h = ((raised e, n), refl, h)
  take_turn_lem rest m ih (again n) h = ih n h.0 h.1

  pub turns_lem :
      (turn : M → Turn M)
      → ((m : M) → P m → TurnKeeps m (turn m))
      → (fuel : ℕ) (m : M) → measure m < fuel
      → P m
      → (r : Outcome (Unit {0}) × M) × (turns turn fuel m ≡ some r) × Q r
  unfolding turns
  turns_lem turn keep zero m l h = absurd (omega arith)
  turns_lem turn keep (suc fuel) m l h =
      take_turn_lem (turns turn fuel) m (λ n p k. turns_lem turn keep fuel n (omega arith) p)
        (turn m) (keep m h)

-- The demotion for a swap steps down one phase and keeps the log.
pub demote-swap :
    {S : Type 0} (d : GateDecision) (sw : Switch S) (p : Phase)
    → prev_phase (Moves.phase_of sw) ≡ some p
    → let sx = (demote swap_reason true (some d) sw).1 in
      (Moves.phase_of sx ≡ p) × (sx.log ≡ sw.log)
unfolding demote strip is_empty
demote-swap d sw p e = rw e (refl, refl)
