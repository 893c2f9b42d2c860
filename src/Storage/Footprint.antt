-- ===== src/Storage/Footprint.antt =====
-- Lemmas on the bytes that the segments of `FileStorage` take (src/postrule/storage.py), and on when
-- rows age out.
use mathlib.Core.List.{append_assoc, append-nil}
use postrule.Prelude.{
  ℕ, zero, suc, ◌+◌, ◌*◌, ◌≤◌, ◌<◌, ◌≡◌, ◌⊎◌, inl, inr, refl, sym, ap, ◌∙◌, true, Option, none,
  some, List, [], ◌∷◌, ◌++◌, ltb, if◌then◌else◌, arith, All, Bool-cases, if-P_eq,
}
use postrule.Storage.Segments.{
  Dir, Io, read_segment, put_slot, rotate, load_rotated, load_segments, written, append_lines,
  bytes, rotate_if_full, append_sync,
}
use postrule.Storage.Rotation.{some-none, rotate-active, rotate-get, rotate-above}
use postrule.Storage.Retention.{
  Batch, append_lines-get, load-append_lines, written_none, delivered, run,
}

append_lines-active :
    {R : Type 0} (rows : List R) (d : Dir R)
    → read_segment (append_lines rows d 0) ≡ read_segment (d 0) ++ rows
unfolding append_lines put_slot read_segment
append_lines-active rows d = refl

le_or_lt : (a b : ℕ) → (a ≤ b) ⊎ (b < a)
le_or_lt a b = elim (Bool-cases (ltb b a)) [
  | inl e ↦ inr (ground arith)
  | inr e ↦ inl (ground arith)
]

module _ {R : Type 0} (size : R → ℕ) where
  bytes-append : (xs ys : List R) → bytes size (xs ++ ys) ≡ bytes size xs + bytes size ys
  unfolding bytes
  bytes-append [] ys = omega arith
  bytes-append (x ∷ xs) ys = omega (arith, bytes-append xs ys)

  bytes-written : (o : Option ℕ) (xs : List R) → bytes size (written o xs) ≤ bytes size xs
  unfolding bytes written
  bytes-written none xs = omega arith
  bytes-written (some zero) xs = omega arith
  bytes-written (some (suc k)) [] = omega arith
  bytes-written (some (suc k)) (x ∷ xs) = omega (arith, bytes-written (some k) xs)

  bytes-none : (f : Option (List R)) → f ≡ none → bytes size (read_segment f) ≡ 0
  unfolding bytes read_segment
  bytes-none none e = refl
  bytes-none (some rows) e = absurd (some-none e)

  module _ (max_bytes n : ℕ) (pos : 0 < n) where
    -- Every file holds at most the bytes of a segment, and no slot above the last is taken.
    pub record Fits (d : Dir R) : Type 0 where
      pub files : (k : ℕ) → bytes size (read_segment (d k)) ≤ max_bytes
      pub free : (k : ℕ) → n < k → d k ≡ none

    files-rotate :
        (d : Dir R) → Fits d → (k : ℕ) → bytes size (read_segment (rotate n d k)) ≤ max_bytes
    files-rotate d f zero = omega (arith, bytes-none (rotate n d 0) (rotate-active n d))
    files-rotate d f (suc k) = elim (le_or_lt (suc k) n) [
      | inl h ↦ rw (rotate-get n k d h) (f.files k)
      | inr h ↦
          omega (arith, bytes-none (rotate n d (suc k)) (rotate-above n (suc k) d pos h f.free))
    ]

    -- A batch of so many bytes has room in the active segment.
    abbrev HasRoom : ℕ → Dir R → Type 0
    HasRoom total e = Fits e × (bytes size (read_segment (e 0)) + total ≤ max_bytes)

    rotate-HasRoom :
        (total : ℕ) (d : Dir R) → total ≤ max_bytes → Fits d → HasRoom total (rotate n d)
    rotate-HasRoom total d small f = (
      record { files = files-rotate d f; free = λ k h. rotate-above n k d pos h f.free },
      omega (arith, bytes-none (rotate n d 0) (rotate-active n d)),
    )

    rotate_if_full-HasRoom :
        (io : Io) (total : ℕ) (d : Dir R) (f : Option (List R))
        → d 0 ≡ f
        → io.stat_works ≡ true
        → total ≤ max_bytes
        → Fits d
        → HasRoom total (rotate_if_full size max_bytes n io total d f)
    unfolding rotate_if_full read_segment
    rotate_if_full-HasRoom io total d none at stat small f = (f, omega (arith, bytes-none (d 0) at))
    rotate_if_full-HasRoom io total d (some rows) at stat small f =
        let held : bytes size (read_segment (d 0)) ≡ bytes size rows =
          ap (λ (x : Option (List R)). bytes size (read_segment x)) at in
        if-P_eq (HasRoom total)
          (ltb max_bytes ((if io.stat_works then bytes size rows else 0) + total)) _ d
          (λ _. rotate-HasRoom total d small f) (λ e. (f, ground (arith, held)))

    append_lines-Fits :
        (total : ℕ) (rows : List R) (d : Dir R)
        → bytes size rows ≤ total
        → HasRoom total d
        → Fits (append_lines rows d)
    append_lines-Fits total rows d small (f, room) = record {
      files = appended_files;
      free = λ k h. above k h;
    }
      where
        appended_files : (k : ℕ) → bytes size (read_segment (append_lines rows d k)) ≤ max_bytes
        appended_files zero =
            rw (append_lines-active rows d) (omega (arith, bytes-append (read_segment (d 0)) rows))
        appended_files (suc k) = rw (append_lines-get k rows d) (f.files (suc k))

        above : (k : ℕ) → n < k → append_lines rows d k ≡ none
        above zero h = absurd (omega arith)
        above (suc k) h = append_lines-get k rows d ∙ f.free (suc k) h

    -- A batch that fits into a segment, and whose `stat` works.
    abbrev pub IsSmall : Batch R → Type 0
    IsSmall b = (b.0.stat_works ≡ true) × (bytes size b.1 ≤ max_bytes)

    append_sync-Fits :
        (b : Batch R) (d : Dir R)
        → IsSmall b
        → Fits d
        → Fits (append_sync size max_bytes n b.0 b.1 d).1
    unfolding append_sync
    append_sync-Fits (io, []) d small f = f
    append_sync-Fits (io, r ∷ rows) d (stat, small) f =
        append_lines-Fits (bytes size (r ∷ rows)) (written (io.fails_after) (r ∷ rows)) _
          (bytes-written (io.fails_after) (r ∷ rows))
          (rotate_if_full-HasRoom io (bytes size (r ∷ rows)) d (d 0) refl stat small f)

    run-Fits :
        (bs : List (Batch R)) (d : Dir R)
        → All IsSmall bs
        → Fits d
        → Fits (run size max_bytes n bs d)
    run-Fits [] d small f = f
    run-Fits (b ∷ bs) d (h, small) f = run-Fits bs _ small (append_sync-Fits b d h f)

    load_rotated-bytes :
        (k : ℕ) (d : Dir R) → Fits d → bytes size (load_rotated k d) ≤ k * max_bytes
    unfolding load_rotated bytes
    load_rotated-bytes zero d f = omega arith
    load_rotated-bytes (suc k) d f = grind (
      arith,
      bytes-append (read_segment (d (suc k))) (load_rotated k d),
      load_rotated-bytes k d f,
      f.files (suc k),
    )

    load_segments-bytes :
        (d : Dir R) → Fits d → bytes size (load_segments n d) ≤ (n + 1) * max_bytes
    unfolding load_segments
    load_segments-bytes d f = grind (
      arith,
      bytes-append (load_rotated n d) (read_segment (d 0)),
      load_rotated-bytes n d f,
      f.files 0,
    )

  -- Where a segment may be rotated out, `stat` works and no batch is larger than a segment: a history
  -- of batches, whatever writes fail, leaves every file at most as large as a segment, no file above
  -- the last slot, and a log of at most as many bytes as all segments may have, if that was so before.
  pub disk_is_bounded :
      (max_bytes n : ℕ) (pos : 0 < n) (bs : List (Batch R)) (d : Dir R)
      → All (IsSmall max_bytes n pos) bs
      → Fits max_bytes n pos d
      → let e = run size max_bytes n bs d in
        Fits max_bytes n pos e × (bytes size (load_segments n e) ≤ (n + 1) * max_bytes)
  disk_is_bounded max_bytes n pos bs d small f =
      let fits = run-Fits max_bytes n pos bs d small f in
      (fits, load_segments-bytes max_bytes n pos (run size max_bytes n bs d) fits)

  -- No rotation while the active segment has room for the batch.
  rotate_if_full_room :
      (max_bytes n : ℕ) (io : Io) (total : ℕ) (d : Dir R) (f : Option (List R))
      → bytes size (read_segment f) + total ≤ max_bytes
      → rotate_if_full size max_bytes n io total d f ≡ d
  unfolding rotate_if_full read_segment
  rotate_if_full_room max_bytes n io total d none h = refl
  rotate_if_full_room max_bytes n io total d (some rows) h =
      if-P_eq (λ (e : Dir R). e ≡ d)
        (ltb max_bytes ((if io.stat_works then bytes size rows else 0) + total)) _ d
        (λ e. absurd (ground arith)) (λ _. refl)

  abbrev batches_bytes : List (Batch R) → ℕ
  batches_bytes [] = 0
  batches_bytes (b ∷ bs) = bytes size b.1 + batches_bytes bs

  append_sync_room :
      (max_bytes n : ℕ) (b : Batch R) (d : Dir R)
      → bytes size (read_segment (d 0)) + bytes size b.1 ≤ max_bytes
      → let e = (append_sync size max_bytes n b.0 b.1 d).1 in
        (load_segments n e ≡ load_segments n d ++ written (b.0.fails_after) b.1)
        × (bytes size (read_segment (e 0)) ≤ bytes size (read_segment (d 0)) + bytes size b.1)
  unfolding append_sync
  append_sync_room max_bytes n (io, []) d h =
      (rw (written_none (io.fails_after), append-nil) refl, omega arith)
  append_sync_room max_bytes n (io, r ∷ rows) d h =
      let w = written (io.fails_after) (r ∷ rows) in
      rw (rotate_if_full_room max_bytes n io (bytes size (r ∷ rows)) d (d 0) h) (
        load-append_lines n w d,
        rw (append_lines-active w d) (
            omega (
              arith,
              bytes-append (read_segment (d 0)) w,
              bytes-written (io.fails_after) (r ∷ rows),
            )),
      )

  -- As long as the rows of the active segment and all batches together fit into one segment, nothing
  -- ages out: the log is the rows of before and then every line that reached the files.
  pub log_is_whole :
      (max_bytes n : ℕ) (bs : List (Batch R)) (d : Dir R)
      → bytes size (read_segment (d 0)) + batches_bytes bs ≤ max_bytes
      → load_segments n (run size max_bytes n bs d) ≡ load_segments n d ++ delivered bs
  log_is_whole max_bytes n [] d h = sym (append-nil (load_segments n d))
  log_is_whole max_bytes n (b ∷ bs) d h =
      let (loads, grows) = append_sync_room max_bytes n b d (omega arith) in
      log_is_whole max_bytes n bs _ (omega (arith, grows))
      ∙ ap (λ (t : List R). t ++ delivered bs) loads
      ∙ append_assoc (load_segments n d) (written (b.0.fails_after) b.1) (delivered bs)
