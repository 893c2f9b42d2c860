-- ===== src/Storage/Retention.antt =====
-- Lemmas on appends to the segments of `FileStorage` (src/postrule/storage.py): what stays, and how
-- many bytes it takes.
use mathlib.Core.List.{append_assoc, append-nil}
use postrule.Prelude.{
  ℕ, zero, suc, ◌+◌, ◌≡◌, refl, sym, ap, ◌∙◌, Option, none, some, List, [], ◌∷◌, ◌++◌, ltb,
  if◌then◌else◌, arith, if-P,
}
use postrule.Storage.Segments.{
  Dir, Io, read_segment, put_slot, load_rotated, load_segments, written, append_lines, bytes,
  rotate_if_full, append_sync,
}
use postrule.Storage.Rotation.{load-rotate}

-- One batch with the fate of its writes.
abbrev pub Batch : Type 0 → Type 0
Batch R = Io × List R

module _ {R : Type 0} where
  pub append_lines-get :
      (k : ℕ) (rows : List R) (d : Dir R) → append_lines rows d (suc k) ≡ d (suc k)
  unfolding append_lines put_slot
  append_lines-get k rows d = ground arith

  load_rotated-append_lines :
      (k : ℕ) (rows : List R) (d : Dir R) → load_rotated k (append_lines rows d) ≡ load_rotated k d
  unfolding load_rotated
  load_rotated-append_lines zero rows d = refl
  load_rotated-append_lines (suc k) rows d =
      rw (append_lines-get k rows d, load_rotated-append_lines k rows d) refl

  pub load-append_lines :
      (n : ℕ) (rows : List R) (d : Dir R)
      → load_segments n (append_lines rows d) ≡ load_segments n d ++ rows
  unfolding load_segments append_lines put_slot read_segment
  load-append_lines n rows d =
      ap (λ (t : List R). t ++ (read_segment (d 0) ++ rows)) (load_rotated-append_lines n rows d)
      ∙ sym (append_assoc (load_rotated n d) (read_segment (d 0)) rows)

  pub written_none : (o : Option ℕ) → written {R = R} o [] ≡ []
  unfolding written
  written_none none = refl
  written_none (some zero) = refl
  written_none (some (suc k)) = refl

  -- The lines that reached the files.
  abbrev pub delivered : List (Batch R) → List R
  delivered [] = []
  delivered (b ∷ bs) = written (b.0.fails_after) b.1 ++ delivered bs

  module _ (size : R → ℕ) (max_bytes n : ℕ) where
    -- What stays of the rows `xs` in a directory: all but some of the oldest.
    abbrev pub Stays : List R → Dir R → Type 0
    Stays xs d = (lost : List R) × (xs ≡ lost ++ load_segments n d)

    pub rotate_if_full-Stays :
        (io : Io) (total : ℕ) (d : Dir R) (f : Option (List R))
        → Stays (load_segments n d) (rotate_if_full size max_bytes n io total d f)
    unfolding rotate_if_full
    rotate_if_full-Stays io total d none = ([], refl)
    rotate_if_full-Stays io total d (some rows) =
        if-P (Stays (load_segments n d))
          (ltb max_bytes ((if io.stat_works then bytes size rows else 0) + total)) _ d
          (read_segment (d n), load-rotate n d) ([], refl)

    pub append_sync-Stays :
        (b : Batch R) (d : Dir R)
        → Stays
            (load_segments n d ++ written (b.0.fails_after) b.1)
            (append_sync size max_bytes n b.0 b.1 d).1
    unfolding append_sync
    append_sync-Stays (io, []) d = ([], rw (written_none (io.fails_after), append-nil) refl)
    append_sync-Stays (io, r ∷ rows) d =
        let (lost, e) = rotate_if_full-Stays io (bytes size (r ∷ rows)) d (d 0) in
        let after = written (io.fails_after) (r ∷ rows) in
        let next = rotate_if_full size max_bytes n io (bytes size (r ∷ rows)) d (d 0) in
        (
          lost,
          ap (λ (t : List R). t ++ after) e
              ∙ append_assoc lost (load_segments n next) after
              ∙ ap (λ (t : List R). lost ++ t) (sym (load-append_lines n after next)),
        )

    abbrev pub run : List (Batch R) → Dir R → Dir R
    run [] d = d
    run (b ∷ bs) d = run bs (append_sync size max_bytes n b.0 b.1 d).1

    run-Stays :
        (bs : List (Batch R)) (d : Dir R) → Stays (load_segments n d ++ delivered bs) (run bs d)
    run-Stays [] d = ([], append-nil (load_segments n d))
    run-Stays (b ∷ bs) d =
        let next = (append_sync size max_bytes n b.0 b.1 d).1 in
        let (lost, e) = append_sync-Stays b d in
        let (more, f) = run-Stays bs next in
        (
          lost ++ more,
          sym (append_assoc (load_segments n d) (written (b.0.fails_after) b.1) (delivered bs))
              ∙ ap (λ (t : List R). t ++ delivered bs) e
              ∙ append_assoc lost (load_segments n next) (delivered bs)
              ∙ ap (λ (t : List R). lost ++ t) f
              ∙ sym (append_assoc lost more (load_segments n (run bs next))),
        )

  -- From any directory, after any history of batches, rotations and failing writes: the log that is
  -- loaded is the rows of before and then the lines that reached the files, each once and in order,
  -- less rows that aged out at the front.
  pub log_is_suffix :
      (size : R → ℕ) (max_bytes n : ℕ) (bs : List (Batch R)) (d : Dir R)
      → (lost : List R) × (load_segments n d ++ delivered bs
          ≡ lost ++ load_segments n (run size max_bytes n bs d))
  log_is_suffix size max_bytes n bs d = run-Stays size max_bytes n bs d
