-- ===== src/Signals/Migration.antt =====
-- The ends of `migrate_defaults` (src/postrule/core.py).
use text.Mathlib.TextEquality.{eq_iff}
use postrule.Prelude.{
  ℕ, ◌<◌, ◌≡◌, inl, inr, refl, sym, ap, ◌∙◌, Bool, true, false, Option, none, some, String, if-P,
  if-P_eq,
}
use postrule.Switch.Result.{Outcome, returned, raised}
use postrule.Switch.State.{Storage, Switch}
use postrule.Signals.Signature.{GateInfo, SignalSignature, opt_text_eq}
use postrule.Signals.Managed.{
  Env, signature_key, Defaults, Managed, resolve_gate, signal_signature, phase_of, append_ledger,
  note, save_signature, put_signature,
}
use postrule.Signals.Migrate.{adopt_gate, keep_phase, close_reset, migrate_judged, migrate_defaults}
use postrule.Signals.Reset.{AtFloor, reset_lem, Earned, still_earned-Earned, Migrated, EndsMigrated}

opt_text_eq→eq : (a b : Option String) → opt_text_eq a b ≡ true → a ≡ b
unfolding opt_text_eq
opt_text_eq→eq none none e = refl
opt_text_eq→eq none (some t) e = cc
opt_text_eq→eq (some s) none e = cc
opt_text_eq→eq (some s) (some t) e = ap some ((eq_iff s t).0 e)

module _ {S : Type 0} (storage : Storage S) (env : Env) where
  record Untouched (m n : Managed S) : Type 0 where
    same_switch : n.switch ≡ m.switch
    same_gate : n.gate ≡ m.gate
    same_version : n.default_set_version ≡ m.default_set_version

  save_signature-Untouched :
      (sig : SignalSignature) (m : Managed S) → Untouched m (save_signature storage env sig m)
  unfolding save_signature put_signature
  save_signature-Untouched sig m =
      if-P (Untouched m) (env.writes signature_key) _ m
        (record { same_switch = refl; same_gate = refl; same_version = refl })
        (record { same_switch = refl; same_gate = refl; same_version = refl })

  module _ (v : String) (g : Option GateInfo) (before : SignalSignature) where
    keep_phase-Migrated :
        (accept_reset : Bool) (m : Managed S)
        → Earned storage env m g
        → Migrated storage env v accept_reset g m
            (returned true, keep_phase storage env v g before m)
    unfolding keep_phase note adopt_gate
    keep_phase-Migrated accept_reset m earned =
        let new = adopt_gate v g m in
        let u = save_signature-Untouched (signal_signature new) new in
        (
          u.same_version,
          ap (λ (sw : Switch S). sw.log) u.same_switch,
          inr (inl (u.same_switch, u.same_gate, earned)),
        )

    close_reset-Migrated :
        (m : Managed S) (r : Outcome (Unit {0}) × Managed S)
        → AtFloor (adopt_gate v g m) r
        → EndsMigrated storage env v true g m
            (close_reset storage env v (phase_of m) before (some r))
    unfolding close_reset append_ledger adopt_gate
    close_reset-Migrated m (raised e, n) h = absurd h
    close_reset-Migrated m (returned t, n) (f, floor) =
        let u = save_signature-Untouched (signal_signature n) n in
        (
          _,
          refl,
          (
            u.same_version ∙ f.same_version,
            ap (λ (sw : Switch S). sw.log) u.same_switch ∙ f.same_log,
            inr (
                inr (
                  ap (λ (sw : Switch S). sw.config.starting_phase) u.same_switch ∙ floor,
                  u.same_gate ∙ f.same_gate,
                  refl,
                )),
          ),
        )

    migrate_judged-Migrated :
        (fuel : ℕ) (accept_reset : Bool) (m : Managed S) (judged : Outcome Bool)
        → 5 < fuel
        → (judged ≡ returned true → Earned storage env m g)
        → EndsMigrated storage env v accept_reset g m
            (migrate_judged storage fuel env v accept_reset g before m judged)
    unfolding migrate_judged note
    migrate_judged-Migrated fuel accept_reset m (raised e) h k = (_, refl, refl)
    migrate_judged-Migrated fuel accept_reset m (returned true) h k =
        (_, refl, keep_phase-Migrated accept_reset m (k refl))
    migrate_judged-Migrated fuel false m (returned false) h k =
        (_, refl, (refl, refl, refl, inr refl))
    migrate_judged-Migrated fuel true m (returned false) h k =
        let (r, runs, floor) = reset_lem fuel (adopt_gate v g m) h in
        let (q, closes, good) = close_reset-Migrated m r floor in
        (q, ap (close_reset storage env v (phase_of m) before) runs ∙ closes, good)

  -- With fuel for six turns a migration to a version of the default set ends. If it raises, nothing
  -- changed. If it returns false, the switch, its gate and its version are as they were, and the gate
  -- is the operator's or a reset was not accepted. If it returns true, the version is the new one, the
  -- log is the same, and one of three holds: nothing changed, the switch is the same under the new
  -- version's gate and is at RULE or at a phase that this gate, on the recent rows and with pairs
  -- enough, holds better than the one below, or a reset was accepted and the switch is at RULE under
  -- the new gate.
  pub migrate_ends :
      (fuel : ℕ) (defaults : Defaults) (v : String) (accept_reset : Bool) (m : Managed S)
      → 5 < fuel
      → (r : Outcome Bool × Managed S) × (migrate_defaults storage fuel env defaults v accept_reset
            m
          ≡ some r)
        × Migrated storage env v accept_reset (resolve_gate defaults (some v)) m r
  unfolding migrate_defaults
  migrate_ends fuel defaults v accept_reset m h =
      let g = resolve_gate defaults (some v) in
      if-P_eq (EndsMigrated storage env v accept_reset g m) m.gate_is_default _ _
        (λ managed.
          if-P_eq (EndsMigrated storage env v accept_reset g m)
            (opt_text_eq (some v) m.default_set_version) _ _
            (λ e.
              (_, refl, (sym (opt_text_eq→eq (some v) m.default_set_version e), refl, inl refl)))
            (λ _.
              migrate_judged-Migrated v g (signal_signature m) fuel accept_reset m _ h
                (still_earned-Earned storage env m g _ refl)))
        (λ owned. (_, refl, (refl, refl, refl, inl owned)))
