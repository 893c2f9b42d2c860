-- ===== src/Storage/Spills.antt =====
-- Lemmas on one `append_record` of `ResilientStorage` (src/postrule/storage.py).
use text.Mathlib.Text.{◌==◌ as str_eq}
use text.Mathlib.TextEquality.{eq_iff}
use text.Mathlib.TextPositions.{eq_refl}
use mathlib.Core.List.{append_assoc, append-nil}
use postrule.Prelude.{
  if-P_eq, ℕ, ◌+◌, ◌≤◌, ◌≡◌, refl, sym, ap, ◌∙◌, Bool, true, false, String, List, [], ◌∷◌, ◌++◌,
  length, leb, if◌then◌else◌, arith, Bool-cases, inl, inr, length-append,
}
use postrule.Storage.Memory.{Logs, load_records, append_bounded}
use postrule.Storage.Window.{load-append_bounded}
use postrule.Storage.Resilient.{
  Primary, Resilient, degraded_at, track, enter_degraded, spill, probe_if_due, append_asked,
  append_resilient,
}
use postrule.Storage.Drain.{IsPrimary}
use postrule.Storage.Recovery.{has, track-has, push-room, seen, IsSound, Keeps, try_recover-Keeps}

module _ {P R : Type 0} (backend : Primary P R) (law : IsPrimary backend) (cap every : ℕ) where
  abbrev pub sees : String → Resilient P R → List R
  sees name s = seen backend law name s

  -- The state is sound and shows one row more, of one switch.
  pub record Extends (k : ℕ) (name : String) (r : R) (s t : Resilient P R) : Type 0 where
    pub sound : IsSound backend law k t
    pub extended :
        (other : String)
        → sees other t ≡ (if str_eq name other then sees name s ++ r ∷ [] else sees other s)

  spill-within :
      (k : ℕ) (name other : String) (r : R) (logs : Logs R)
      → length (load_records name logs) + 1 ≤ cap
      → load_records other (append_bounded cap name r logs)
        ≡ (if str_eq name other then load_records name logs ++ r ∷ [] else load_records other logs)
  spill-within k name other r logs h =
      rw (load-append_bounded cap name other r logs, push-room cap (load_records name logs) r h)

  spill-Extends :
      (k : ℕ) (name : String) (r : R) (s : Resilient P R)
      → IsSound backend law k s
      → s.degraded ≡ true
      → has name s.tracked_switches ≡ true
      → k + 1 ≤ cap
      → Extends (k + 1) name r s (spill cap name r s)
  unfolding spill
  spill-Extends k name r s sound off known room =
      let fits : length (load_records name s.fallback) + 1 ≤ cap =
        omega (arith, sound.within name) in
      record {
        sound = record {
          healthy = λ e other. absurd (ground arith);
          tracked = λ other e.
              rw (spill-within k name other r s.fallback fits)
                (elim (Bool-cases (str_eq name other)) [
                  | inl b ↦
                      let same : name ≡ other = (eq_iff name other).0 b in
                      absurd (let g = rw (← same) at e in ground arith)
                  | inr b ↦ rw b (sound.tracked other e)
                ]);
          within = λ other.
              rw (spill-within k name other r s.fallback fits)
                (elim (Bool-cases (str_eq name other)) [
                  | inl b ↦ rw b (
                      omega (
                        arith,
                        length-append (load_records name s.fallback) (r ∷ []),
                        sound.within name,
                      ))
                  | inr b ↦ rw b (omega (arith, sound.within other))
                ]);
        };
        extended = λ other.
            rw (spill-within k name other r s.fallback fits)
              (elim (Bool-cases (str_eq name other)) [
                | inl b ↦
                    let same : name ≡ other = (eq_iff name other).0 b in
                    rw (b, ← same)
                      (sym (
                        append_assoc (law.kept name s.primary) (load_records name s.fallback)
                          (r ∷ [])))
                | inr b ↦ rw b
              ]);
      }

  after-Extends :
      (k : ℕ) (name : String) (r : R) (s t u : Resilient P R)
      → Extends k name r s t
      → Keeps backend law k t u
      → Extends k name r s u
  after-Extends k name r s t u h keep = record {
    sound = keep.sound;
    extended = λ other. keep.same other ∙ h.extended other;
  }

  probed-Keeps :
      (k : ℕ) (t : Resilient P R)
      → IsSound backend law k t
      → Keeps backend law k t (probe_if_due backend every t)
  unfolding probe_if_due
  probed-Keeps k t sound =
      let probing : Resilient P R = record t { writes_since_probe = 0 } in
      let keep =
        try_recover-Keeps backend law k probing
          (record { healthy = sound.healthy; tracked = sound.tracked; within = sound.within }) in
      elim (Bool-cases (leb every t.writes_since_probe)) [
        | inl b ↦ rw b (record { sound = keep.sound; same = keep.same })
        | inr b ↦ rw b (record { sound = sound; same = λ name. refl })
      ]

  -- The path through the fallback.
  spilled-Extends :
      (k : ℕ) (name : String) (r : R) (s t : Resilient P R)
      → IsSound backend law k t
      → ((other : String) → sees other t ≡ sees other s)
      → t.degraded ≡ true
      → has name t.tracked_switches ≡ true
      → k + 1 ≤ cap
      → Extends (k + 1) name r s (probe_if_due backend every (spill cap name r t))
  spilled-Extends k name r s t sound same off known room =
      let h = spill-Extends k name r t sound off known room in
      let keep = probed-Keeps (k + 1) (spill cap name r t) h.sound in
      record {
        sound = keep.sound;
        extended = λ other. keep.same other ∙ rw (h.extended other, same other, same name);
      }

  asked-Extends :
      (k : ℕ) (name : String) (r : R) (now : ℕ) (s : Resilient P R) (a : Bool × P)
      → IsSound backend law k s
      → s.degraded ≡ false
      → has name s.tracked_switches ≡ true
      → k + 1 ≤ cap
      → backend.append_record name r s.primary ≡ a
      → Extends (k + 1) name r s (append_asked backend cap every name r now s a)
  unfolding append_asked enter_degraded
  asked-Extends k name r now s (true, p) sound on known room e = record {
    sound = record {
      healthy = sound.healthy;
      tracked = sound.tracked;
      within = λ other. omega (arith, sound.within other);
    };
    extended = λ other.
        rw (law.takes name other r s.primary p e, sound.healthy on other, sound.healthy on name)
          (elim (Bool-cases (str_eq name other)) [
            | inl b ↦ rw (
              b,
              append-nil (law.kept name s.primary),
              append-nil (law.kept name s.primary ++ r ∷ []),
            )
            | inr b ↦ rw b
          ]);
  }
  asked-Extends k name r now s (false, p) sound on known room e =
      let same : (other : String)
          → law.kept other p ++ load_records other s.fallback ≡ sees other s =
        λ other.
          ap (λ rows. rows ++ load_records other s.fallback)
            (law.refuses name other r s.primary p e) in
      if-P_eq
        (λ (t : Resilient P R).
          Extends (k + 1) name r s (probe_if_due backend every (spill cap name r t)))
        s.degraded _ _ (λ off. absurd (ground arith))
        (λ _.
          spilled-Extends k name r s (degraded_at now (record s { primary = p }))
            (record {
              healthy = λ x. absurd (ground arith);
              tracked = sound.tracked;
              within = sound.within;
            })
            same refl known room)

  pub append-Extends :
      (k : ℕ) (name : String) (r : R) (now : ℕ) (s : Resilient P R)
      → IsSound backend law k s
      → k + 1 ≤ cap
      → Extends (k + 1) name r s (append_resilient backend cap every name r now s)
  unfolding append_resilient
  append-Extends k name r now s sound room =
      let tracked : Resilient P R = record s { tracked_switches = track name s.tracked_switches } in
      let known : has name tracked.tracked_switches ≡ true =
        rw (track-has name name s.tracked_switches, eq_refl name) in
      let kept : IsSound backend law k tracked = record {
        healthy = sound.healthy;
        tracked = λ other e.
            sound.tracked other
              (let g = rw (track-has name other s.tracked_switches) at e in ground arith);
        within = sound.within;
      } in
      if-P_eq (λ (t : Resilient P R). Extends (k + 1) name r s t) s.degraded _ _
        (λ off. spilled-Extends k name r s tracked kept (λ other. refl) off known room)
        (λ on.
          let h = asked-Extends k name r now tracked _ kept on known room refl in
          record { sound = h.sound; extended = h.extended })
