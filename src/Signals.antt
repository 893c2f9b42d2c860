-- ===== src/Signals.antt =====
-- The identity of the signals that a phase was earned against (src/postrule/signals.py), and the
-- methods of `LearnedSwitch` in src/postrule/core.py that react to a change of it. `Ident` and
-- `Signature` are the identities, `Managed` the state with its audit ledger, `Reconcile` and
-- `Migrate` the methods. The other children hold lemmas: `Audit` of the stored form, `Loop` of the
-- re-justification loop, `Descent` of the phase, `Settled` of a second run, `Reset` of a migration.
pub mod Ident
pub mod Signature
pub mod Managed
pub mod Reconcile
pub mod Loop
pub mod Descent
pub mod Swaps
pub mod Integrity
pub mod Audit
pub mod Settled
pub mod Migrate
pub mod Reset
pub mod Migration
