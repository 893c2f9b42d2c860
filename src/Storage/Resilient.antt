-- ===== src/Storage/Resilient.antt =====
-- `ResilientStorage` of src/postrule/storage.py over any primary backend, with the bounded in-memory
-- fallback that its constructor makes by default.
use text.Mathlib.Text.{◌==◌ as str_eq}
use postrule.Prelude.{
  ℕ, zero, suc, ◌+◌, ◌-◌, Bool, true, false, Option, none, some, String, List, [], ◌∷◌, ◌++◌,
  length, leb, ltb, if◌then◌else◌,
}
use postrule.Record.{codes}
use postrule.Storage.Memory.{Logs, rows_of, load_records, put_log, append_bounded}

-- The primary backend: an append says whether it returned or raised, and leaves a state either way;
-- `none` of a load is an exception.
pub record Primary (P R : Type 0) : Type 0 where
  pub append_record : String → R → P → Bool × P
  pub load_records : String → P → Option (List R)

-- What the hooks `on_degrade` and `on_recover` are called with.
pub data Notice : Type 0 where
  degraded_notice : Notice
  recovered_notice : ℕ → Notice

pub record Resilient (P R : Type 0) : Type 0 where
  pub primary : P
  pub fallback : Logs R
  pub degraded : Bool
  pub degraded_since : Option ℕ
  pub degraded_writes : ℕ
  pub degraded_evictions : ℕ
  pub writes_since_probe : ℕ
  -- the set of names, as `sorted` lists it
  pub tracked_switches : List String
  pub notices : List Notice

-- What a drain changes: both backends, and how many rows moved.
pub record Drain (P R : Type 0) : Type 0 where
  pub primary : P
  pub fallback : Logs R
  pub drained : ℕ

-- `a < b` on texts compares code points.
unfoldable pub codes_lt : List ℕ → List ℕ → Bool
codes_lt cs [] = false
codes_lt [] (d ∷ ds) = true
codes_lt (c ∷ cs) (d ∷ ds) =
    let rest = codes_lt cs ds in if ltb c d then true else if ltb d c then false else rest

-- `self._tracked_switches.add(name)`, the set kept sorted
unfoldable pub track : String → List String → List String
unfolding codes_lt
track name [] = name ∷ []
track name (n ∷ ns) =
    let rest = track name ns in
    if str_eq name n
    then n ∷ ns
    else if codes_lt (codes name) (codes n)
    then name ∷ n ∷ ns
    else n ∷ rest

module _ {R : Type 0} where
  -- `del log[name]`
  unfoldable pub del_log : String → Logs R → Logs R
  del_log name [] = []
  del_log name ((n, rows) ∷ logs) =
      let rest = del_log name logs in if str_eq n name then rest else (n, rows) ∷ rest

  -- The buffer of a switch once its oldest row is popped; an empty one is deleted.
  unfoldable pub put_rest : String → List R → Logs R → Logs R
  unfolding del_log put_log
  put_rest name [] logs = logs
  put_rest name (r ∷ []) logs = del_log name logs
  put_rest name (r ∷ s ∷ rest) logs = put_log name (s ∷ rest) logs

  -- `_pop_fallback_head`
  unfoldable pub pop_fallback_head : String → Logs R → Logs R
  unfolding put_rest load_records
  pop_fallback_head name logs = put_rest name (load_records name logs) logs

module _ {P R : Type 0} where
  abbrev pub degraded_at : ℕ → Resilient P R → Resilient P R
  degraded_at now s = record s {
    degraded = true;
    degraded_since = some now;
    writes_since_probe = 0;
    notices = degraded_notice ∷ s.notices;
  }

  -- `_enter_degraded`, at some time
  unfoldable pub enter_degraded : ℕ → Resilient P R → Resilient P R
  enter_degraded now s = if s.degraded then s else degraded_at now s

  -- The fields that `__init__` sets.
  abbrev pub healthy : P → Resilient P R
  healthy p = record {
    primary = p;
    fallback = [];
    degraded = false;
    degraded_since = none;
    degraded_writes = 0;
    degraded_evictions = 0;
    writes_since_probe = 0;
    tracked_switches = [];
    notices = [];
  }

  -- `__init__`: `none` is a `ValueError`.
  unfoldable pub make_resilient : ℕ → ℕ → P → Option (Resilient P R)
  make_resilient cap every p =
      if leb every 0 then none else if leb cap 0 then none else some (healthy p)

  -- The fallback part of `append_record`, before the probe. A row that did not grow the buffer
  -- pushed another one out.
  unfoldable pub spill : ℕ → String → R → Resilient P R → Resilient P R
  unfolding append_bounded load_records
  spill cap name r s =
      let before = length (load_records name s.fallback) in
      let logs = append_bounded cap name r s.fallback in
      let evicted = leb (length (load_records name logs)) before in
      record s {
        fallback = logs;
        degraded_evictions = if evicted then s.degraded_evictions + 1 else s.degraded_evictions;
        degraded_writes = s.degraded_writes + 1;
        writes_since_probe = s.writes_since_probe + 1;
      }

  module _ (backend : Primary P R) where
    -- The rest of one round of the drain loop after the append to the primary.
    unfoldable pub drain_after :
        (Drain P R → Bool × Drain P R) → String → Drain P R → Bool × P → Bool × Drain P R
    unfolding pop_fallback_head
    drain_after again name d (false, p) = (false, record d { primary = p })
    drain_after again name d (true, p) = again (record {
      primary = p;
      fallback = pop_fallback_head name d.fallback;
      drained = d.drained + 1;
    })

    -- One round of the drain loop, on the rows that the fallback holds.
    unfoldable pub drain_round :
        (Drain P R → Bool × Drain P R) → String → Drain P R → List R → Bool × Drain P R
    unfolding drain_after
    drain_round again name d [] = (true, d)
    drain_round again name d (r ∷ _) =
        drain_after again name d (backend.append_record name r d.primary)

    -- The drain loop of one switch: did it end with an empty buffer? The fuel bounds its rounds.
    unfoldable pub drain_switch : ℕ → String → Drain P R → Bool × Drain P R
    unfolding drain_round load_records
    drain_switch zero name d = (leb (length (load_records name d.fallback)) 0, d)
    drain_switch (suc fuel) name d =
        drain_round (drain_switch fuel name) name d (load_records name d.fallback)

    -- The loop over the switches; an exception ends it. Every round pops a row, so there are as
    -- many rounds as rows.
    unfoldable pub drain_all : List String → Drain P R → Bool × Drain P R
    unfolding drain_switch
    drain_all [] d = (true, d)
    drain_all (n ∷ ns) d =
        let (ok, e) = drain_switch (length (load_records n d.fallback)) n d in
        let rest = drain_all ns e in if ok then rest else (false, e)

    unfoldable pub recovered : Resilient P R → Bool × Drain P R → Resilient P R
    recovered s (false, d) = record s { primary = d.primary; fallback = d.fallback }
    recovered s (true, d) = record s {
      primary = d.primary;
      fallback = d.fallback;
      degraded = false;
      degraded_since = none;
      writes_since_probe = 0;
      notices = recovered_notice d.drained ∷ s.notices;
    }

    -- `_try_recover`
    unfoldable pub try_recover : Resilient P R → Resilient P R
    unfolding drain_all recovered
    try_recover s = recovered s (
        drain_all s.tracked_switches
          (record { primary = s.primary; fallback = s.fallback; drained = 0 }))

    -- `drain`, with its result. `_degraded_writes` is read again after the attempt.
    unfoldable pub drain : Resilient P R → ℕ × Resilient P R
    unfolding try_recover
    drain s =
        let before = s.degraded_writes in
        let t = if s.degraded then try_recover s else s in
        (before - (before - t.degraded_writes), t)

    -- `load_records`
    unfoldable pub load_resilient : String → Resilient P R → List R
    unfolding load_records
    load_resilient name s =
        rows_of (backend.load_records name s.primary) ++ load_records name s.fallback

    -- The recovery probe, every `every` writes to the fallback.
    unfoldable pub probe_if_due : ℕ → Resilient P R → Resilient P R
    unfolding try_recover
    probe_if_due every s =
        if leb every s.writes_since_probe
        then try_recover (record s { writes_since_probe = 0 })
        else s

    -- `cap` is `fallback_max_records`, `every` is `recovery_probe_every`.
    module _ (cap every : ℕ) where
      -- `append_record` once the primary was asked.
      unfoldable pub append_asked : String → R → ℕ → Resilient P R → Bool × P → Resilient P R
      unfolding enter_degraded spill probe_if_due
      append_asked name r now s (true, p) = record s { primary = p }
      append_asked name r now s (false, p) =
          probe_if_due every (spill cap name r (enter_degraded now (record s { primary = p })))

      -- `append_record`
      unfoldable pub append_resilient : String → R → ℕ → Resilient P R → Resilient P R
      unfolding track append_asked spill probe_if_due
      append_resilient name r now s =
          let tracked : Resilient P R = record s {
            tracked_switches = track name s.tracked_switches;
          } in
          if s.degraded
          then probe_if_due every (spill cap name r tracked)
          else append_asked name r now tracked (backend.append_record name r s.primary)
