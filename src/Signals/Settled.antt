-- ===== src/Signals/Settled.antt =====
-- A second run of `reconcile_signals` (src/postrule/core.py).
use postrule.Prelude.{◌≡◌, true, false, Option, some}
use postrule.Switch.Result.{Error, Outcome, returned, raised}
use postrule.Switch.State.{Storage}
use postrule.Signals.Signature.{opt_text_eq, same_core, from_audit}
use postrule.Signals.Managed.{Env, signature_key, Managed, Justification, stored, signal_signature}
use postrule.Signals.Reconcile.{rule_drifted}

module _ {M : Type 0} where
  abbrev done : M → Option (Outcome (Unit {0}) × M)
  done m = some (returned tt, m)

  abbrev broken : Error → M → Option (Outcome (Unit {0}) × M)
  broken x m = some (raised x, m)

module _ {S : Type 0} (storage : Storage S) where
  -- The stored signature is current: no swap, no drift of the rule, the same head version.
  pub record Signed (k : Managed S) : Type 0 where
    pub j : Justification
    pub is_stored : k.signature ≡ some (stored j)
    pub core : same_core (from_audit j.signature) (signal_signature k) ≡ true
    pub undrifted : rule_drifted (from_audit j.signature) (signal_signature k) ≡ false
    pub version :
        opt_text_eq
          ((from_audit j.signature).ml_head_version)
          ((signal_signature k).ml_head_version)
        ≡ true

  module _ (env : Env) (w : env.writes signature_key ≡ true) where
    -- A normal end leaves a current signature.
    abbrev EndsSigned : Option (Outcome (Unit {0}) × Managed S) → Type 0
    EndsSigned o = (k : Managed S) → o ≡ some (returned tt, k) → Signed k
