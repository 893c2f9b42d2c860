-- ===== src/Storage/Healing.antt =====
-- Lemmas on `drain` of `ResilientStorage` (src/postrule/storage.py): its state once the primary is up,
-- and its result.
use text.Mathlib.TextPositions.{eq_refl}
use mathlib.Core.List.{append-nil}
use postrule.Prelude.{
  ℕ, zero, suc, ◌≤◌, ◌≡◌, refl, ◌∙◌, Bool, true, false, some, String, List, [], ◌∷◌, ◌++◌, length,
  arith, if-P, if-P_eq,
}
use postrule.Storage.Memory.{load_records}
use postrule.Storage.Resilient.{
  Primary, Drain, Resilient, healthy, drain_after, drain_round, drain_switch, drain_all, recovered,
  try_recover, drain, make_resilient,
}
use postrule.Storage.Drain.{IsPrimary, load-pop}
use postrule.Storage.Recovery.{IsSound}
use postrule.Storage.Outages.{
  Call, run, appended, count_appends, made, run-IsSound, healthy-IsSound, healthy-sees, run-seen,
  drain-Keeps,
}

-- The primary takes every row from these states on.
pub record IsUp {P R : Type 0} (backend : Primary P R) (Up : P → Type 0) : Type 0 where
  pub takes : (name : String) (r : R) (p : P) → Up p → (backend.append_record name r p).0 ≡ true
  pub stays : (name : String) (r : R) (p : P) → Up p → Up (backend.append_record name r p).1

module _ {P R : Type 0} (backend : Primary P R) (Up : P → Type 0) (up : IsUp backend Up) where
  -- A loop ended without an exception, and the primary is still up.
  abbrev IsDone : Bool × Drain P R → Type 0
  IsDone o = (o.0 ≡ true) × Up o.1.primary

  drain_after-IsDone :
      (again : Drain P R → Bool × Drain P R) (fuel : ℕ) (name : String) (r : R) (rest : List R)
      (d : Drain P R) (a : Bool × P)
      → ((e : Drain P R)
          → Up e.primary
          → length (load_records name e.fallback) ≤ fuel
          → IsDone (again e))
      → load_records name d.fallback ≡ r ∷ rest
      → length rest ≤ fuel
      → a.0 ≡ true
      → Up a.1
      → IsDone (drain_after backend again name d a)
  unfolding drain_after
  drain_after-IsDone again fuel name r rest d (false, p) h held enough ok here =
      absurd (ground arith)
  drain_after-IsDone again fuel name r rest d (true, p) h held enough ok here =
      h _ here (rw (load-pop name name d.fallback, eq_refl name, held) enough)

  drain_round-IsDone :
      (again : Drain P R → Bool × Drain P R) (fuel : ℕ) (name : String) (d : Drain P R)
      (rows : List R)
      → ((e : Drain P R)
          → Up e.primary
          → length (load_records name e.fallback) ≤ fuel
          → IsDone (again e))
      → load_records name d.fallback ≡ rows
      → length rows ≤ suc fuel
      → Up d.primary
      → IsDone (drain_round backend again name d rows)
  unfolding drain_round
  drain_round-IsDone again fuel name d [] h held enough here = (refl, here)
  drain_round-IsDone again fuel name d (r ∷ rest) h held enough here =
      drain_after-IsDone again fuel name r rest d (backend.append_record name r d.primary) h held
        (omega arith) (up.takes name r d.primary here) (up.stays name r d.primary here)

  -- As much fuel as there are rows is enough.
  drain_switch-IsDone :
      (fuel : ℕ) (name : String) (d : Drain P R)
      → Up d.primary
      → length (load_records name d.fallback) ≤ fuel
      → IsDone (drain_switch backend fuel name d)
  unfolding drain_switch
  drain_switch-IsDone zero name d here enough = (ground arith, here)
  drain_switch-IsDone (suc fuel) name d here enough =
      drain_round-IsDone (drain_switch backend fuel name) fuel name d _
        (drain_switch-IsDone fuel name) refl enough here

  drain_all-IsDone :
      (ns : List String) (d : Drain P R) → Up d.primary → IsDone (drain_all backend ns d)
  unfolding drain_all
  drain_all-IsDone [] d here = (refl, here)
  drain_all-IsDone (n ∷ ns) d here =
      let fuel = length (load_records n d.fallback) in
      let one = drain_switch-IsDone fuel n d here (omega arith) in
      if-P_eq IsDone (drain_switch backend fuel n d).0 _ _
        (λ _. drain_all-IsDone ns (drain_switch backend fuel n d).1 one.1)
        (λ no. absurd (let g = rw no at one.0 in ground arith))

  recovered-healthy :
      (s : Resilient P R) (o : Bool × Drain P R)
      → IsDone o
      → (recovered backend s o).degraded ≡ false
  unfolding recovered
  recovered-healthy s (true, d) h = refl
  recovered-healthy s (false, d) h = absurd (let g = h.0 in ground arith)

  drain-healthy : (s : Resilient P R) → Up s.primary → (drain backend s).1.degraded ≡ false
  unfolding drain try_recover
  drain-healthy s here =
      if-P_eq (λ (t : Resilient P R). t.degraded ≡ false) s.degraded _ _
        (λ _. recovered-healthy s _ (drain_all-IsDone s.tracked_switches _ here)) (λ on. on)

  -- After a history that the fallback has room for, a drain while the primary is up ends healthy:
  -- every fallback buffer is empty, and the primary keeps for every switch the rows of before and
  -- then the appended ones, each once and in order.
  pub drain-heals :
      (law : IsPrimary backend) (cap every : ℕ) (p : P) (start : Resilient P R)
      (calls : List (Call R))
      → make_resilient cap every p ≡ some start
      → count_appends calls ≤ cap
      → Up (run backend cap every calls start).primary
      → let t = (drain backend (run backend cap every calls start)).1 in
        (t.degraded ≡ false)
        × ((name : String)
            → (load_records name t.fallback ≡ [])
              × (law.kept name t.primary ≡ law.kept name p ++ appended name calls))
  drain-heals law cap every p start calls made_it room here =
      let start_is : healthy p ≡ start = made backend law cap every p start made_it in
      let s = run backend cap every calls start in
      let t = (drain backend s).1 in
      let good =
        run-IsSound backend law cap every 0 calls (healthy p)
          (healthy-IsSound backend law cap every p) (omega arith) in
      let good2 : IsSound backend law cap s = (let g = good in rw start_is at g) in
      let keep = drain-Keeps backend law cap every cap s good2 in
      let on = drain-healthy s here in
      let shown = run-seen backend law cap every 0 calls (healthy p) in
      (
        on,
        λ name.
            let empty = keep.sound.healthy on name in
            let all = shown name (healthy-IsSound backend law cap every p) (omega arith) in
            let all2 = rw (healthy-sees backend law cap every p name) at all in
            let all3 = rw start_is at all2 in
            let both = keep.same name ∙ all3 in
            (empty, (let g = rw (empty, append-nil (law.kept name t.primary)) at both in g)),
      )

module _ {P R : Type 0} (backend : Primary P R) where
  recovered-writes :
      (s : Resilient P R) (o : Bool × Drain P R)
      → (recovered backend s o).degraded_writes ≡ s.degraded_writes
  unfolding recovered
  recovered-writes s (true, d) = refl
  recovered-writes s (false, d) = refl

  drain-writes : (s : Resilient P R) → (drain backend s).1.degraded_writes ≡ s.degraded_writes
  unfolding drain try_recover
  drain-writes s =
      if-P (λ (t : Resilient P R). t.degraded_writes ≡ s.degraded_writes) s.degraded _ _
        (recovered-writes s _) refl

  drain-returns : (s : Resilient P R) → (drain backend s).0 ≡ s.degraded_writes
  unfolding drain
  drain-returns s = omega (arith, drain-writes s)

  -- The number that `drain` returns counts all rows that ever went to the fallback: it is the running
  -- total `degraded_writes`, also where the drain moved none of them, and a second drain returns it
  -- again.
  pub drain-repeats :
      (s : Resilient P R)
      → ((drain backend s).0 ≡ s.degraded_writes)
        × ((drain backend (drain backend s).1).0 ≡ s.degraded_writes)
  drain-repeats s = (drain-returns s, drain-returns (drain backend s).1 ∙ drain-writes s)
