-- ===== src/Storage/Outages.antt =====
-- The histories of a `ResilientStorage` (src/postrule/storage.py): appends and drains over a primary
-- that fails and recovers at any time.
use text.Mathlib.Text.{◌==◌ as str_eq}
use text.Mathlib.TextEquality.{eq_iff}
use mathlib.Core.List.{append_assoc, append-nil}
use postrule.Prelude.{
  if-P, ℕ, suc, ◌+◌, ◌≤◌, ◌≡◌, refl, sym, some, String, List, [], ◌∷◌, ◌++◌, if◌then◌else◌, arith,
  Bool-cases, inl, inr,
}
use postrule.Storage.Memory.{find_log, load_records}
use postrule.Storage.Resilient.{
  Primary, Resilient, healthy, drain, load_resilient, make_resilient, append_resilient,
}
use postrule.Storage.Drain.{IsPrimary}
use postrule.Storage.Recovery.{seen, IsSound, Keeps, try_recover-Keeps}
use postrule.Storage.Spills.{append-Extends}

-- One call: an append at some time, or a drain by the operator.
pub data Call (R : Type 0) : Type 0 where
  appends : String → R → ℕ → Call R
  drains : Call R

module _ {R : Type 0} where
  -- The rows that calls append to a switch, and how many rows they append.
  abbrev pub appended : String → List (Call R) → List R
  appended name [] = []
  appended name (appends n r now ∷ calls) =
      if str_eq n name then r ∷ appended name calls else appended name calls
  appended name (drains ∷ calls) = appended name calls

  abbrev pub count_appends : List (Call R) → ℕ
  count_appends [] = 0
  count_appends (appends n r now ∷ calls) = suc (count_appends calls)
  count_appends (drains ∷ calls) = count_appends calls

module _ {P R : Type 0} (backend : Primary P R) (cap every : ℕ) where
  abbrev pub run : List (Call R) → Resilient P R → Resilient P R
  run [] s = s
  run (appends name r now ∷ calls) s = run calls (append_resilient backend cap every name r now s)
  run (drains ∷ calls) s = run calls (drain backend s).1

module _ {P R : Type 0} (backend : Primary P R) (law : IsPrimary backend) (cap every : ℕ) where
  pub drain-Keeps :
      (k : ℕ) (s : Resilient P R)
      → IsSound backend law k s
      → Keeps backend law k s (drain backend s).1
  unfolding drain
  drain-Keeps k s sound =
      if-P (λ (t : Resilient P R). Keeps backend law k s t) s.degraded _ _
        (try_recover-Keeps backend law k s sound) (record { sound = sound; same = λ name. refl })

  pub run-seen :
      (k : ℕ) (calls : List (Call R)) (s : Resilient P R) (name : String)
      → IsSound backend law k s
      → k + count_appends calls ≤ cap
      → seen backend law name (run backend cap every calls s)
        ≡ seen backend law name s ++ appended name calls
  run-seen k [] s name sound room = sym (append-nil (seen backend law name s))
  run-seen k (drains ∷ calls) s name sound room =
      let keep = drain-Keeps k s sound in
      rw (run-seen k calls (drain backend s).1 name keep.sound room, keep.same name)
  run-seen k (appends n r now ∷ calls) s name sound room =
      let h = append-Extends backend law cap every k n r now s sound (omega arith) in
      rw
        (
          run-seen (k + 1) calls (append_resilient backend cap every n r now s) name h.sound
              (omega arith),
          h.extended name,
        )
        (elim (Bool-cases (str_eq n name)) [
          | inl b ↦
              let same : n ≡ name = (eq_iff n name).0 b in
              rw (b, same) (append_assoc (seen backend law name s) (r ∷ []) (appended name calls))
          | inr b ↦ rw b
        ])

  widen : (k m : ℕ) (s : Resilient P R) → k ≤ m → IsSound backend law k s → IsSound backend law m s
  widen k m s h sound = record {
    healthy = sound.healthy;
    tracked = sound.tracked;
    within = λ name. omega (arith, sound.within name);
  }

  pub run-IsSound :
      (k : ℕ) (calls : List (Call R)) (s : Resilient P R)
      → IsSound backend law k s
      → k + count_appends calls ≤ cap
      → IsSound backend law cap (run backend cap every calls s)
  run-IsSound k [] s sound room = widen k cap s (omega arith) sound
  run-IsSound k (drains ∷ calls) s sound room =
      run-IsSound k calls (drain backend s).1 (drain-Keeps k s sound).sound room
  run-IsSound k (appends n r now ∷ calls) s sound room =
      run-IsSound (k + 1) calls (append_resilient backend cap every n r now s)
        (append-Extends backend law cap every k n r now s sound (omega arith)).sound (omega arith)

  pub made :
      (p : P) (start : Resilient P R) → make_resilient cap every p ≡ some start → healthy p ≡ start
  unfolding make_resilient
  made p start e = ground arith

  pub healthy-IsSound : (p : P) → IsSound backend law 0 (healthy p)
  unfolding load_records find_log
  healthy-IsSound p = record {
    healthy = λ e name. refl;
    tracked = λ name e. refl;
    within = λ name. omega arith;
  }

  pub healthy-sees : (p : P) (name : String) → seen backend law name (healthy p) ≡ law.kept name p
  unfolding load_records find_log
  healthy-sees p name = append-nil (law.kept name p)

  -- A storage that starts healthy and whose fallback has room for all rows loads for every switch
  -- the rows of before and then the appended ones, each once and in order, whenever the primary
  -- fails and recovers in between and whenever somebody drains, if the primary loads at the end.
  pub load-run :
      (p : P) (start : Resilient P R) (calls : List (Call R)) (name : String) {rows : List R}
      → make_resilient cap every p ≡ some start
      → count_appends calls ≤ cap
      → backend.load_records name (run backend cap every calls start).primary ≡ some rows
      → load_resilient backend name (run backend cap every calls start)
        ≡ law.kept name p ++ appended name calls
  unfolding load_resilient
  load-run p start calls name {rows} made_it room loaded =
      let start_is : healthy p ≡ start = made p start made_it in
      let shown = run-seen 0 calls (healthy p) name (healthy-IsSound p) (omega arith) in
      let all : seen backend law name (run backend cap every calls start)
          ≡ law.kept name p ++ appended name calls =
        (let g = rw (healthy-sees p name) at shown in rw start_is at g) in
      rw loaded (rw (law.loads name (run backend cap every calls start).primary rows loaded) all)
