-- ===== src/Storage/Batching.antt =====
-- Lemmas on the batching queue of `FileStorage` and its drain (src/postrule/storage.py).
use text.Mathlib.Text.{◌==◌ as str_eq}
use text.Mathlib.TextEquality.{eq_iff}
use text.Mathlib.TextPositions.{eq_refl}
use mathlib.Core.List.{append_assoc, append-nil}
use mathlib.Core.Path.{subst}
use postrule.Prelude.{
  ℕ, ◌≡◌, inl, inr, refl, sym, ap, ◌∙◌, Bool, true, false, Option, none, some, String, List, [],
  ◌∷◌, ◌++◌, if◌then◌else◌, arith, Bool-cases,
}
use postrule.Storage.Memory.{Logs, find_log, put_log, load_records}
use postrule.Storage.Segments.{Dir, Io, load_segments, append_sync, written, write_ok}
use postrule.Storage.Retention.{append_sync-Stays}
use postrule.Storage.Files.{
  FileConfig, FileStore, put_disk, write_batch, after_write, drain_each, drain_once,
}

module _ {R : Type 0} (c : FileConfig R) where
  -- The log of one switch on disk.
  abbrev pub on_disk : String → FileStore R → List R
  on_disk name s = load_segments c.max_rotated (s.disks name)

  -- All but some of the oldest of these rows are on disk.
  abbrev pub Holds : List R → String → FileStore R → Type 0
  Holds xs name s = (lost : List R) × (xs ≡ lost ++ on_disk name s)

  -- The keys of a dict differ.
  abbrev pub Distinct : Logs R → Type 0
  Distinct [] = Unit
  Distinct ((name, rows) ∷ logs) = (find_log name logs ≡ none) × Distinct logs

  Holds-then :
      (xs ys : List R) (name : String) (s t : FileStore R)
      → Holds xs name s
      → Holds (on_disk name s ++ ys) name t
      → Holds (xs ++ ys) name t
  Holds-then xs ys name s t (lost, e) (more, f) = (
    lost ++ more,
    ap (λ (z : List R). z ++ ys) e
        ∙ append_assoc lost (on_disk name s) ys
        ∙ ap (λ (z : List R). lost ++ z) f
        ∙ sym (append_assoc lost more (on_disk name t)),
  )

  put_disk-other :
      (name other : String) (d : Dir R) (s : FileStore R)
      → str_eq other name ≡ false
      → (put_disk name d s).disks other ≡ s.disks other
  unfolding put_disk
  put_disk-other name other d s e = rw e refl

  put_disk-same : (name : String) (d : Dir R) (s : FileStore R) → (put_disk name d s).disks name ≡ d
  unfolding put_disk
  put_disk-same name d s = rw (eq_refl name) refl

  -- A batch whose writes all work.
  write_batch-Holds :
      (io : Io) (name : String) (rows : List R) (s : FileStore R)
      → io.fails_after ≡ none
      → Holds (on_disk name s ++ rows) name (write_batch c io name rows s).1
  unfolding write_batch written
  write_batch-Holds io name rows s ok =
      let d = s.disks name in
      let (lost, e) = append_sync-Stays c.size c.max_bytes c.max_rotated (io, rows) d in
      let next = (append_sync c.size c.max_bytes c.max_rotated io rows d).1 in
      (
        lost,
        ap (λ (o : Option ℕ). on_disk name s ++ written o rows) (sym ok)
            ∙ e
            ∙ ap (λ (x : Dir R). lost ++ load_segments c.max_rotated x)
                (sym (put_disk-same name next s)),
      )

  write_batch_ok :
      (io : Io) (name : String) (r : R) (rows : List R) (s : FileStore R)
      → (write_batch c io name (r ∷ rows) s).0 ≡ write_ok io.fails_after
  unfolding write_batch append_sync
  write_batch_ok io name r rows s = refl

  write_batch-other :
      (io : Io) (name other : String) (rows : List R) (s : FileStore R)
      → str_eq other name ≡ false
      → (write_batch c io name rows s).1.disks other ≡ s.disks other
  unfolding write_batch
  write_batch-other io name other rows s e = put_disk-other name other _ s e

  write_batch-queue :
      (io : Io) (name : String) (rows : List R) (s : FileStore R)
      → (write_batch c io name rows s).1.queue ≡ s.queue
  unfolding write_batch put_disk
  write_batch-queue io name rows s = refl

  after_write_ok :
      (again : FileStore R → Bool × FileStore R) (name : String) (rows : List R)
      (p : Bool × FileStore R)
      → p.0 ≡ true
      → after_write c again name rows p ≡ again p.1
  unfolding after_write
  after_write_ok again name rows (true, s) e = refl
  after_write_ok again name rows (false, s) e = cc

  after_write_failed :
      (again : FileStore R → Bool × FileStore R) (name : String) (rows : List R)
      (p : Bool × FileStore R)
      → p.0 ≡ false
      → after_write c again name rows p ≡ (
        false,
        record (p.1) { queue = put_log name (rows ++ load_records name (p.1.queue)) (p.1.queue) },
      )
  unfolding after_write
  after_write_failed again name rows (true, s) e = cc
  after_write_failed again name rows (false, s) e = refl

  -- The rows of one entry of a dict, and of the entries after it.
  load-entry :
      (name n : String) (rows : List R) (rest : Logs R)
      → load_records name ((n, rows) ∷ rest)
        ≡ (if str_eq n name then rows else load_records name rest)
  unfolding load_records find_log
  load-entry name n rows rest = ground arith

  load_absent :
      (name : String) (rest : Logs R) → find_log name rest ≡ none → load_records name rest ≡ []
  unfolding load_records
  load_absent name rest e = rw e refl

  -- One entry of the snapshot and then the rest.
  step-Holds :
      (n : String) (rows : List R) (rest : Logs R) (s t : FileStore R)
      → find_log n rest ≡ none
      → Holds (on_disk n s ++ rows) n t
      → ((other : String) → str_eq other n ≡ false → t.disks other ≡ s.disks other)
      → (name : String) (u : FileStore R) → Holds (on_disk name t ++ load_records name rest) name u
      → Holds (on_disk name s ++ load_records name ((n, rows) ∷ rest)) name u
  step-Holds n rows rest s t absent here others name u later = elim (Bool-cases (str_eq n name)) [
    | inl e ↦ rw (load-entry name n rows rest, e) (same ((eq_iff n name).0 e) here)
    | inr e ↦
        rw (load-entry name n rows rest, e)
          (subst
            (λ (x : Dir R). Holds (load_segments c.max_rotated x ++ load_records name rest) name u)
            (others name (differs e)) later)
  ]
    where
      differs : str_eq n name ≡ false → str_eq name n ≡ false
      differs e = ground (arith, eq_iff n name, eq_iff name n)

      same : n ≡ name → Holds (on_disk n s ++ rows) n t → Holds (on_disk name s ++ rows) name u
      same e h =
          let at_name = subst (λ (m : String). Holds (on_disk m s ++ rows) m t) e h in
          let gone : load_records name rest ≡ [] =
            load_absent name rest (subst (λ (m : String). find_log m rest ≡ none) e absent) in
          let after = subst (λ (x : List R). Holds (on_disk name t ++ x) name u) gone later in
          subst (λ (x : List R). Holds x name u) (append-nil (on_disk name s ++ rows))
            (Holds-then (on_disk name s ++ rows) [] name t u at_name after)

  module _ (io : String → Io) (works : (name : String) → (io name).fails_after ≡ none) where
    abbrev Drained : Logs R → FileStore R → Bool × FileStore R → Type 0
    Drained q s r =
        (r.0 ≡ true)
        × (r.1.queue ≡ s.queue)
        × ((name : String) → Holds (on_disk name s ++ load_records name q) name r.1)

    drain_each-Drained :
        (q : Logs R) (s : FileStore R) → Distinct q → Drained q s (drain_each c io q s)
    unfolding drain_each find_log
    drain_each-Drained [] s h = (refl, refl, λ name. ([], append-nil (on_disk name s)))
    drain_each-Drained ((n, []) ∷ rest) s (absent, h) =
        let (ok, queue, holds) = drain_each-Drained rest s h in
        (
          ok,
          queue,
          λ name.
              step-Holds n [] rest s s absent ([], append-nil (on_disk n s)) (λ other e. refl) name
                (drain_each c io rest s).1 (holds name),
        )
    drain_each-Drained ((n, r ∷ rows) ∷ rest) s (absent, h) =
        let w = write_batch c (io n) n (r ∷ rows) s in
        let goes =
          after_write_ok (drain_each c io rest) n (r ∷ rows) w
            (write_batch_ok (io n) n r rows s ∙ ap write_ok (works n)) in
        let (ok, queue, holds) = drain_each-Drained rest w.1 h in
        subst (Drained ((n, r ∷ rows) ∷ rest) s) (sym goes) (
          ok,
          queue ∙ write_batch-queue (io n) n (r ∷ rows) s,
          λ name.
              step-Holds n (r ∷ rows) rest s w.1 absent
                (write_batch-Holds (io n) n (r ∷ rows) s (works n))
                (λ other e. write_batch-other (io n) n other (r ∷ rows) s e) name
                (drain_each c io rest w.1).1 (holds name),
        )

    -- Where all writes work, a drain returns with an empty queue, and the log of every switch on disk is
    -- the log of before and then the rows that were queued for it, in order, less rows that aged out at
    -- the front.
    pub drain_once-delivers :
        (s : FileStore R)
        → Distinct s.queue
        → let r = drain_once c io s in
          (r.0 ≡ true)
          × (r.1.queue ≡ [])
          × ((name : String) → Holds (on_disk name s ++ load_records name s.queue) name r.1)
    unfolding drain_once
    drain_once-delivers s h = drain_each-Drained s.queue (record s { queue = [] }) h

  abbrev pub Lost : FileStore R → String → String → List R → Bool × FileStore R → Type 0
  Lost s name other rows d =
      (d.0 ≡ false)
      × (load_records other d.1.queue ≡ [])
      × (on_disk other d.1 ≡ on_disk other s)
      × (load_records name d.1.queue ≡ rows)

  -- The rows that were queued behind a switch whose write fails: after the drain they are neither in
  -- the queue nor on disk.
  pub drain_once-loses :
      (io : String → Io) (s : FileStore R) (name other : String) (r : R) (rows : List R)
      (rest : Logs R) (k : ℕ)
      → s.queue ≡ (name, r ∷ rows) ∷ rest
      → (io name).fails_after ≡ some k
      → str_eq name other ≡ false
      → let d = drain_once c io s in
        (d.0 ≡ false)
        × (load_records other d.1.queue ≡ [])
        × (on_disk other d.1 ≡ on_disk other s)
        × (load_records name d.1.queue ≡ r ∷ rows)
  unfolding drain_once drain_each put_log find_log load_records
  drain_once-loses io s name other r rows rest k q bad differ =
      let base = record s { queue = [] } in
      let w = write_batch c (io name) name (r ∷ rows) base in
      let goes =
        ap (λ (x : Logs R). drain_each c io x base) q
        ∙ after_write_failed (drain_each c io rest) name (r ∷ rows) w
            (write_batch_ok (io name) name r rows base ∙ ap write_ok bad) in
      subst (Lost s name other (r ∷ rows)) (sym goes) (
        refl,
        rw (load-entry other name (r ∷ (rows ++ [])) [], differ) refl,
        ap (load_segments c.max_rotated)
            (write_batch-other (io name) name other (r ∷ rows) base (differs_back differ)),
        rw (load-entry name name (r ∷ (rows ++ [])) [], eq_refl name, append-nil) refl,
      )
    where
      differs_back : str_eq name other ≡ false → str_eq other name ≡ false
      differs_back e = ground (arith, eq_iff name other, eq_iff other name)
