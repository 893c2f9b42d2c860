-- ===== src/Storage/Recovery.antt =====
-- The invariant of `ResilientStorage` (src/postrule/storage.py) and lemmas on `_try_recover`.
use text.Mathlib.Text.{◌==◌ as str_eq}
use text.Mathlib.TextEquality.{eq_iff}
use mathlib.Core.Path.{subst}
use postrule.Prelude.{
  ℕ, zero, suc, ◌+◌, ◌-◌, ◌≤◌, ◌≡◌, refl, Bool, true, false, ◌||◌, String, List, [], ◌∷◌, ◌++◌,
  length, any, arith, Bool-cases, inl, inr,
}
use postrule.Storage.Memory.{load_records, push_bounded}
use postrule.Storage.Resilient.{
  Primary, Drain, Resilient, track, drain_after, drain_round, drain_switch, drain_all, recovered,
  try_recover,
}
use postrule.Storage.Drain.{IsPrimary, view, Moved, drain_all-Moved}

abbrev pub has : String → List String → Bool
has name ns = any (λ n. str_eq n name) ns

pub track-has :
    (name other : String) (ns : List String)
    → has other (track name ns) ≡ (str_eq name other || has other ns)
unfolding track any
track-has name other [] = ground arith
track-has name other (n ∷ ns) =
    ground (arith, eq_iff name other, eq_iff name n, eq_iff n other, track-has name other ns)

no-rows {ℓ} : {A : Type ℓ} (xs : List A) → length xs ≤ 0 → xs ≡ []
no-rows [] h = refl
no-rows (x ∷ xs) h = absurd (omega arith)

pub push-room :
    {R : Type 0} (cap : ℕ) (rows : List R) (r : R)
    → length rows + 1 ≤ cap
    → push_bounded cap rows r ≡ rows ++ r ∷ []
unfolding push_bounded
push-room cap rows r h = let none_out : length rows + 1 - cap ≡ 0 = omega arith in rw none_out

module _ {P R : Type 0} (backend : Primary P R) where
  drain_after-ends :
      (again : Drain P R → Bool × Drain P R) (name : String) (d : Drain P R) (a : Bool × P)
      → ((e : Drain P R) → (again e).0 ≡ true → load_records name (again e).1.fallback ≡ [])
      → (drain_after backend again name d a).0 ≡ true
      → load_records name (drain_after backend again name d a).1.fallback ≡ []
  unfolding drain_after
  drain_after-ends again name d (false, p) h ok = absurd (ground arith)
  drain_after-ends again name d (true, p) h ok = h _ ok

  drain_round-ends :
      (again : Drain P R → Bool × Drain P R) (name : String) (d : Drain P R) (rows : List R)
      → ((e : Drain P R) → (again e).0 ≡ true → load_records name (again e).1.fallback ≡ [])
      → load_records name d.fallback ≡ rows
      → (drain_round backend again name d rows).0 ≡ true
      → load_records name (drain_round backend again name d rows).1.fallback ≡ []
  unfolding drain_round
  drain_round-ends again name d [] h held ok = held
  drain_round-ends again name d (r ∷ rest) h held ok = drain_after-ends again name d _ h ok

  drain_switch-ends :
      (fuel : ℕ) (name : String) (d : Drain P R)
      → (drain_switch backend fuel name d).0 ≡ true
      → load_records name (drain_switch backend fuel name d).1.fallback ≡ []
  unfolding drain_switch
  drain_switch-ends zero name d ok = no-rows (load_records name d.fallback) (ground arith)
  drain_switch-ends (suc fuel) name d ok =
      drain_round-ends (drain_switch backend fuel name) name d _ (drain_switch-ends fuel name) refl
        ok

  module _ (law : IsPrimary backend) where
    -- A loop that ends without an exception leaves the buffers of its switches empty.
    drain_all-ends :
        (ns : List String) (d : Drain P R) (name : String)
        → (drain_all backend ns d).0 ≡ true
        → has name ns ≡ true
        → load_records name (drain_all backend ns d).1.fallback ≡ []
    unfolding drain_all any
    drain_all-ends [] d name ok h = absurd (ground arith)
    drain_all-ends (n ∷ ns) d name ok h =
        let fuel = length (load_records n d.fallback) in
        let one = drain_switch backend fuel n d in
        let moved = drain_all-Moved backend law ns one.1 in
        elim (Bool-cases one.0) [
          | inl b ↦
              let k : (drain_all backend ns one.1).0 ≡ true = (let g = rw b at ok in g) in
              rw b (elim (Bool-cases (str_eq n name)) [
                | inl e ↦
                    let same : n ≡ name = (eq_iff n name).0 e in
                    let empty : load_records name one.1.fallback ≡ [] =
                      subst (λ m. load_records m one.1.fallback ≡ []) same
                        (drain_switch-ends fuel n d b) in
                    no-rows (load_records name (drain_all backend ns one.1).1.fallback)
                      (let g = moved.shrinks name in let g2 = rw empty at g in g2)
                | inr e ↦ drain_all-ends ns one.1 name k (let g = rw e at h in g)
              ])
          | inr b ↦ absurd (let g = rw b at ok in ground arith)
        ]

    -- What a reader sees of a switch.
    abbrev pub seen : String → Resilient P R → List R
    seen name s = view backend law name s.primary s.fallback

    -- Between calls: rows are in the fallback only while degraded, only of switches that are
    -- tracked, and at most `k` of each.
    pub record IsSound (k : ℕ) (s : Resilient P R) : Type 0 where
      pub healthy : s.degraded ≡ false → (name : String) → load_records name s.fallback ≡ []
      pub tracked :
          (name : String) → has name s.tracked_switches ≡ false → load_records name s.fallback ≡ []
      pub within : (name : String) → length (load_records name s.fallback) ≤ k

    -- The state is sound and shows the same rows.
    pub record Keeps (k : ℕ) (s t : Resilient P R) : Type 0 where
      pub sound : IsSound k t
      pub same : (name : String) → seen name t ≡ seen name s

    emptied :
        (k : ℕ) (s : Resilient P R) (d : Drain P R) (name : String)
        → Moved backend law (record { primary = s.primary; fallback = s.fallback; drained = 0 }) d
        → load_records name s.fallback ≡ []
        → load_records name d.fallback ≡ []
    emptied k s d name moved e =
        no-rows (load_records name d.fallback)
          (let g = moved.shrinks name in let g2 = rw e at g in g2)

    recovered-Keeps :
        (k : ℕ) (s : Resilient P R) (o : Bool × Drain P R)
        → IsSound k s
        → Moved backend law (record { primary = s.primary; fallback = s.fallback; drained = 0 }) o.1
        → (o.0 ≡ true
            → (name : String) → has name s.tracked_switches ≡ true
            → load_records name o.1.fallback ≡ [])
        → Keeps k s (recovered backend s o)
    unfolding recovered
    recovered-Keeps k s (false, d) sound moved ends = record {
      sound = record {
        healthy = λ e name. emptied k s d name moved (sound.healthy e name);
        tracked = λ name e. emptied k s d name moved (sound.tracked name e);
        within = λ name. omega (arith, moved.shrinks name, sound.within name);
      };
      same = moved.same_view;
    }
    recovered-Keeps k s (true, d) sound moved ends = record {
      sound = record {
        healthy = λ e name. elim (Bool-cases (has name s.tracked_switches)) [
          | inl t ↦ ends refl name t
          | inr t ↦ emptied k s d name moved (sound.tracked name t)
        ];
        tracked = λ name e. emptied k s d name moved (sound.tracked name e);
        within = λ name. omega (arith, moved.shrinks name, sound.within name);
      };
      same = moved.same_view;
    }

    pub try_recover-Keeps :
        (k : ℕ) (s : Resilient P R) → IsSound k s → Keeps k s (try_recover backend s)
    unfolding try_recover
    try_recover-Keeps k s sound =
        let d : Drain P R = record { primary = s.primary; fallback = s.fallback; drained = 0 } in
        recovered-Keeps k s (drain_all backend s.tracked_switches d) sound
          (drain_all-Moved backend law s.tracked_switches d)
          (λ ok name t. drain_all-ends s.tracked_switches d name ok t)
