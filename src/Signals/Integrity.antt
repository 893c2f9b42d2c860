-- ===== src/Signals/Integrity.antt =====
-- `reconcile_signals` (src/postrule/core.py) as a whole: when the phase can change, and where it
-- comes to rest.
use postrule.Prelude.{
  ℕ, ◌<◌, ◌≡◌, ◌⊎◌, inl, inr, refl, ap, ◌∙◌, Bool, true, false, Option, none, some, arith, if-P_eq,
  Bool-cases, Option-cases,
}
use postrule.Phase.{order}
use postrule.Switch.Result.{Outcome, returned, raised}
use postrule.Switch.State.{Storage, Switch}
use postrule.Signals.Signature.{SignalSignature, same_core, changed_components}
use postrule.Signals.Managed.{
  Env, Defaults, Managed, Justification, SwapAction, demote_action, flag_action, signal_signature,
  phase_of, note, load_signature, save_signature_as,
}
use postrule.Signals.Reconcile.{
  refresh_stamps, pin_gate, is_default_drift, adopt_signature, pin_default, compare_signatures,
  reconcile_signals,
}
use postrule.Signals.Swaps.{
  Kept-refl, save_signature-Kept, Reconciled, Swapped, handle_swap-demotes, handle_swap-flags,
}

true_or_false : {b : Bool} → b ≡ true → b ≡ false → ⊥
true_or_false e f = cc

action_cases : (a : SwapAction) → (a ≡ flag_action) ⊎ (a ≡ demote_action)
action_cases flag_action = inl refl
action_cases demote_action = inr refl

module _ {S : Type 0} (storage : Storage S) (env : Env) (defaults : Defaults) where
  refresh_stamps-switch :
      (prev cur : SignalSignature) (j : Justification) (m : Managed S)
      → (refresh_stamps env prev cur j m).switch ≡ m.switch
  unfolding refresh_stamps note save_signature_as
  refresh_stamps-switch prev cur j m = ground arith

  adopt_signature-switch : (m : Managed S) → (adopt_signature storage env m).switch ≡ m.switch
  unfolding adopt_signature note
  adopt_signature-switch m =
      (save_signature-Kept storage env (signal_signature m) m m
        (Kept-refl storage env m)).same_switch

  pin_default-switch :
      (prev cur : SignalSignature) (m : Managed S)
      → (pin_default storage env defaults prev cur m).switch ≡ m.switch
  unfolding pin_default note pin_gate
  pin_default-switch prev cur m =
      (save_signature-Kept storage env _ _ _ (Kept-refl storage env _)).same_switch

  -- No swap that may demote.
  abbrev pub Unchanged : SignalSignature → SignalSignature → Managed S → Type 0
  Unchanged prev cur m =
      (same_core prev cur ≡ true)
      ⊎ (is_default_drift prev cur (changed_components cur prev) m ≡ true)
      ⊎ (m.signal_swap_action ≡ flag_action)

  -- Why a run demotes nothing.
  pub data Unswapped (m : Managed S) : Type 0 where
    never_signed : load_signature env m ≡ none → Unswapped m
    not_swapped :
        (prev : SignalSignature) (j : Justification)
        → load_signature env m ≡ some (prev, j)
        → Unchanged prev (signal_signature m) m
        → Unswapped m

  -- The run returned, with the same switch.
  abbrev pub KeepsSwitch : Managed S → Option (Outcome (Unit {0}) × Managed S) → Type 0
  KeepsSwitch m r = (k : Managed S) × (r ≡ some (returned tt, k)) × (k.switch ≡ m.switch)

  compare-KeepsSwitch :
      (fuel : ℕ) (m : Managed S) (prev : SignalSignature) (j : Justification)
      → Unchanged prev (signal_signature m) m
      → KeepsSwitch m
          (compare_signatures storage fuel env defaults (signal_signature m) m (some (prev, j)))
  unfolding compare_signatures
  compare-KeepsSwitch fuel m prev j why =
      let cur = signal_signature m in
      let changed = changed_components cur prev in
      if-P_eq (KeepsSwitch m) (same_core prev cur) _ _
        (λ _. (refresh_stamps env prev cur j m, refl, refresh_stamps-switch prev cur j m))
        (λ differs.
          if-P_eq (KeepsSwitch m) (is_default_drift prev cur changed m) _ _
            (λ _.
              (pin_default storage env defaults prev cur m, refl, pin_default-switch prev cur m))
            (λ no_drift. elim why [
              | inl e ↦ absurd (true_or_false e differs)
              | inr (inl e) ↦ absurd (true_or_false e no_drift)
              | inr (inr e) ↦ handle_swap-flags storage env prev cur changed fuel m e
            ]))

  -- A run of the method with no signature to compare, with the same core identity, with a change of
  -- the library's default gate alone, or with the action "flag", returns, and the switch is the same:
  -- its phase, its log, its counters and its breaker.
  pub reconcile_keeps_switch :
      (fuel : ℕ) (m : Managed S)
      → Unswapped m
      → (k : Managed S) × (reconcile_signals storage fuel env defaults m ≡ some (returned tt, k))
        × (k.switch ≡ m.switch)
  unfolding reconcile_signals compare_signatures
  reconcile_keeps_switch fuel m (never_signed e) = (
    adopt_signature storage env m,
    ap (compare_signatures storage fuel env defaults (signal_signature m) m) e,
    adopt_signature-switch m,
  )
  reconcile_keeps_switch fuel m (not_swapped prev j e why) =
      let (k, runs, same) = compare-KeepsSwitch fuel m prev j why in
      (k, ap (compare_signatures storage fuel env defaults (signal_signature m) m) e ∙ runs, same)

  -- What a swap that may demote does, at a run's end.
  abbrev pub EndsSwap : Managed S → Option (Outcome (Unit {0}) × Managed S) → Type 0
  EndsSwap m o = (r : Outcome (Unit {0}) × Managed S) × (o ≡ some r) × Swapped storage env m r

  -- After a change of the core identity that is not a change of the default gate alone, under the
  -- action "demote" and with fuel for six turns, a run ends. If it returns, it leaves the switch at a
  -- phase where the gate, asked on the recent rows for this phase against the one below, answers that
  -- the phase is better, has too few pairs, or does not answer, or at RULE, or with no gate. Whether it
  -- returns or raises, the phase did not rise, the log is the same, and for each phase that was given
  -- up the gate answered, with pairs enough, that it is not better than the one below.
  pub reconcile_rests :
      (fuel : ℕ) (m : Managed S) (prev : SignalSignature) (j : Justification)
      → 5 < fuel
      → load_signature env m ≡ some (prev, j)
      → same_core prev (signal_signature m) ≡ false
      → is_default_drift prev (signal_signature m) (changed_components (signal_signature m) prev) m
        ≡ false
      → m.signal_swap_action ≡ demote_action
      → (r : Outcome (Unit {0}) × Managed S) × (reconcile_signals storage fuel env defaults m
          ≡ some r)
        × Swapped storage env m r
  unfolding reconcile_signals compare_signatures
  reconcile_rests fuel m prev j h e differs no_drift act =
      let cur = signal_signature m in
      let changed = changed_components cur prev in
      let swap = handle_swap-demotes storage env prev cur changed fuel m h act in
      let (r, runs, ends) =
        if-P_eq (EndsSwap m) (same_core prev cur) _ _ (λ same. absurd (true_or_false same differs))
          (λ _.
            if-P_eq (EndsSwap m) (is_default_drift prev cur changed m) _ _
              (λ drift. absurd (true_or_false drift no_drift)) (λ _. swap)) in
      (r, ap (compare_signatures storage fuel env defaults cur m) e ∙ runs, ends)

  Reconciled-same : (m k : Managed S) → k.switch ≡ m.switch → Reconciled storage env m k
  Reconciled-same m k same =
      let at : order (phase_of k) ≡ order (phase_of m) =
        ap (λ (sw : Switch S). order (sw.config.starting_phase)) same in
      record {
        descends = omega arith;
        same_log = ap (λ (sw : Switch S). sw.log) same;
        gave_up = λ q lo hi. absurd (omega (arith, at, lo, hi));
      }

  -- The run ended, and its last state is reconciled with the first one.
  abbrev Ends : Managed S → Option (Outcome (Unit {0}) × Managed S) → Type 0
  Ends m o = (r : Outcome (Unit {0}) × Managed S) × (o ≡ some r) × Reconciled storage env m r.1

  Swapped-Ends :
      (m : Managed S) (o : Option (Outcome (Unit {0}) × Managed S)) → EndsSwap m o → Ends m o
  Swapped-Ends m o ((returned u, k), e, (good, rests)) = ((returned u, k), e, good)
  Swapped-Ends m o ((raised x, k), e, good) = ((raised x, k), e, good)

  KeepsSwitch-Ends :
      (m : Managed S) (o : Option (Outcome (Unit {0}) × Managed S)) → KeepsSwitch m o → Ends m o
  KeepsSwitch-Ends m o (k, e, same) = ((returned tt, k), e, Reconciled-same m k same)

  signed-Ends :
      (fuel : ℕ) (m : Managed S) (prev : SignalSignature) (j : Justification)
      → 5 < fuel
      → load_signature env m ≡ some (prev, j)
      → Ends m (reconcile_signals storage fuel env defaults m)
  signed-Ends fuel m prev j h e =
      let cur = signal_signature m in
      let kept = λ (why : Unchanged prev cur m).
        KeepsSwitch-Ends m _ (reconcile_keeps_switch fuel m (not_swapped prev j e why)) in
      elim (Bool-cases (same_core prev cur)) [
        | inl same ↦ kept (inl same)
        | inr differs ↦
            elim (Bool-cases (is_default_drift prev cur (changed_components cur prev) m)) [
              | inl drift ↦ kept (inr (inl drift))
              | inr no_drift ↦ elim (action_cases m.signal_swap_action) [
                | inl flags ↦ kept (inr (inr flags))
                | inr demotes ↦
                    Swapped-Ends m _ (reconcile_rests fuel m prev j h e differs no_drift demotes)
              ]
            ]
      ]

  -- With fuel for six turns the method ends, whatever the gate, the storage and the signals are: it
  -- returns or raises, the phase did not rise, the log is the same, and for each phase that was given
  -- up the gate answered on the recent rows, with pairs enough, that it is not better than the one
  -- below.
  pub reconcile_ends :
      (fuel : ℕ) (m : Managed S)
      → 5 < fuel
      → (r : Outcome (Unit {0}) × Managed S) × (reconcile_signals storage fuel env defaults m
          ≡ some r)
        × Reconciled storage env m r.1
  reconcile_ends fuel m h = elim (Option-cases (load_signature env m)) [
    | inl e ↦ KeepsSwitch-Ends m _ (reconcile_keeps_switch fuel m (never_signed e))
    | inr ((prev, j), e) ↦ signed-Ends fuel m prev j h e
  ]
