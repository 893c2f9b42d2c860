-- ===== src/Tests/ResilientTests.antt =====
-- Tests of `ResilientStorage` (src/postrule/storage.py) over a primary that fails some times.
use text.Mathlib.Text.{◌==◌ as str_eq}
use postrule.Prelude.{
  ℕ, zero, suc, ◌≡◌, refl, Bool, true, false, some, String, List, [], ◌∷◌, ◌++◌, arith,
  if◌then◌else◌,
}
use postrule.Storage.Memory.{find_log, Logs, load_records, append_record}
use postrule.Storage.Window.{load-append}
use postrule.Storage.Resilient.{
  append_resilient, Primary, healthy, make_resilient, load_resilient, drain,
}
use postrule.Storage.Drain.{IsPrimary}
use postrule.Storage.Outages.{Call, appends, run, appended, load-run}
use postrule.Storage.Healing.{IsUp, drain-heals, drain-repeats}

-- An in-memory log that refuses as many appends as its counter says.
abbrev Flaky : Type 0
Flaky = ℕ × Logs ℕ

abbrev flaky_append : String → ℕ → Flaky → Bool × Flaky
flaky_append name r (zero, logs) = (true, (zero, append_record name r logs))
flaky_append name r (suc n, logs) = (false, (n, logs))

abbrev flaky : Primary Flaky ℕ
flaky = record {
  append_record = flaky_append;
  load_records = λ name p. some (load_records name p.1);
}

flaky-takes :
    (name other : String) (r : ℕ) (p q : Flaky)
    → flaky_append name r p ≡ (true, q)
    → load_records other q.1
      ≡ (if str_eq name other then load_records name p.1 ++ r ∷ [] else load_records other p.1)
flaky-takes name other r (zero, logs) q e =
    let q_is : (zero, append_record name r logs) ≡ q = cc in
    rw (← q_is) (load-append name other r logs)
flaky-takes name other r (suc n, logs) q e = absurd (ground arith)

flaky-refuses :
    (name other : String) (r : ℕ) (p q : Flaky)
    → flaky_append name r p ≡ (false, q)
    → load_records other q.1 ≡ load_records other p.1
flaky-refuses name other r (zero, logs) q e = absurd (ground arith)
flaky-refuses name other r (suc n, logs) q e = let q_is : (n, logs) ≡ q = cc in rw (← q_is)

flaky-loads :
    (name : String) (p : Flaky) (rows : List ℕ)
    → flaky.load_records name p ≡ some rows
    → rows ≡ load_records name p.1
flaky-loads name p rows e = cc

abbrev flaky_law : IsPrimary flaky
flaky_law = record {
  kept = λ name p. load_records name p.1;
  loads = flaky-loads;
  takes = flaky-takes;
  refuses = flaky-refuses;
}

abbrev IsOver : Flaky → Type 0
IsOver p = p.0 ≡ 0

flaky-up :
    (name : String) (r : ℕ) (p : Flaky)
    → IsOver p
    → ((flaky_append name r p).0 ≡ true) × IsOver (flaky_append name r p).1
flaky-up name r (zero, logs) h = (refl, refl)
flaky-up name r (suc n, logs) h = absurd (omega arith)

flaky-IsUp : IsUp flaky IsOver
flaky-IsUp = record {
  takes = λ name r p h. (flaky-up name r p h).0;
  stays = λ name r p h. (flaky-up name r p h).1;
}

abbrev outage : Flaky
outage = (2, [])

abbrev calls : List (Call ℕ)
calls = appends "a" 1 5 ∷ appends "b" 2 6 ∷ appends "a" 3 7 ∷ appends "a" 4 8 ∷ []

outages : load_resilient flaky "a" (run flaky 10 2 calls (healthy outage)) ≡ 1 ∷ 3 ∷ 4 ∷ []
unfolding load_resilient find_log append_resilient append_record
outages = refl

is_over : (run flaky 10 2 calls (healthy outage)).primary.0 ≡ 0
unfolding load_resilient find_log append_resilient append_record
is_over = refl

load-run_example :
    load_resilient flaky "a" (run flaky 10 2 calls (healthy outage)) ≡ appended "a" calls
unfolding make_resilient load_records find_log
load-run_example =
    load-run flaky flaky_law 10 2 outage (healthy outage) calls "a" refl (omega arith) refl

drain-heals_example :
    let t = (drain flaky (run flaky 10 2 calls (healthy outage))).1 in
    (t.degraded ≡ false)
    × ((name : String)
        → (load_records name t.fallback ≡ [])
          × (load_records name t.primary.1 ≡ load_records name [] ++ appended name calls))
drain-heals_example =
    drain-heals flaky IsOver flaky-IsUp flaky_law 10 2 outage (healthy outage) calls
      (unfold make_resilient in refl) (omega arith) is_over

drain-repeats_example :
    let s = run flaky 10 2 calls (healthy outage) in
    ((drain flaky s).0 ≡ s.degraded_writes)
    × ((drain flaky (drain flaky s).1).0 ≡ s.degraded_writes)
drain-repeats_example = drain-repeats flaky (run flaky 10 2 calls (healthy outage))
