-- ===== src/Switch/FileLog.antt =====
-- `FileStorage` of src/postrule/storage.py, without batching, as the storage of one switch.
use postrule.Prelude.{
  ℕ, ◌≡◌, refl, sym, ap, ◌∙◌, Bool, true, false, Option, none, some, List, [], ◌∷◌, ◌++◌, length,
  drop,
}
use postrule.Record.{ClassificationRecord}
use postrule.Storage.Segments.{
  Dir, Io, load_segments, bytes, rotate_if_full, append_lines, append_sync, written, write_ok,
}
use postrule.Storage.Retention.{load-append_lines, rotate_if_full-Stays}
use postrule.Switch.State.{Storage, IsLog}

-- What `append_record` leaves; an error of the disk is an exception.
unfoldable pub taken : {S : Type 0} → Bool × S → Option S
taken (true, s) = some s
taken (false, s) = none

unfoldable pub file_storage :
    (ClassificationRecord → ℕ) → ℕ → ℕ → Io → Storage (Dir ClassificationRecord)
unfolding append_sync taken load_segments
file_storage size max_bytes n io = record {
  append_record = λ r d. taken (append_sync size max_bytes n io (r ∷ []) d);
  load_records = λ d. some (load_segments n d);
}

drop-length : {A : Type 0} (xs ys : List A) → drop (length xs) (xs ++ ys) ≡ ys
drop-length [] ys = refl
drop-length (x ∷ xs) ys = drop-length xs ys

taken_state : {S : Type 0} (p : Bool × S) (t : S) → taken p ≡ some t → (p.0 ≡ true) × (p.1 ≡ t)
unfolding taken
taken_state (true, s) t e = (refl, cc)
taken_state (false, s) t e = cc

write_ok→none : (o : Option ℕ) → write_ok o ≡ true → o ≡ none
unfolding write_ok
write_ok→none none e = refl
write_ok→none (some k) e = cc

-- Over segments of any size and number, on a disk that works or fails, the storage is a log: an append
-- that returns leaves the rows of before, less rows that aged out at the front, and the new row, which
-- is never among those that age out.
pub file_storage-IsLog :
    (size : ClassificationRecord → ℕ) (max_bytes n : ℕ) (io : Io)
    → IsLog (file_storage size max_bytes n io)
unfolding file_storage append_sync written
file_storage-IsLog size max_bytes n io = record {
  load-append = λ r s t rows appended loaded.
      let (ok, t_is) = taken_state (append_sync size max_bytes n io (r ∷ []) s) t appended in
      let works = write_ok→none io.fails_after ok in
      let rows_are : load_segments n s ≡ rows = cc in
      let kept = rotate_if_full size max_bytes n io (bytes size (r ∷ [])) s (s 0) in
      let (lost, e) = rotate_if_full-Stays size max_bytes n io (bytes size (r ∷ [])) s (s 0) in
      let whole : drop (length lost) rows ≡ load_segments n kept =
        ap (drop (length lost)) (sym rows_are ∙ e) ∙ drop-length lost (load_segments n kept) in
      (
        length lost,
        ap some (
            ap (load_segments n) (sym t_is)
            ∙ ap
                (λ (o : Option ℕ).
                  load_segments n
                    (append_lines (written {R = ClassificationRecord} o (r ∷ [])) kept))
                works
            ∙ load-append_lines n (r ∷ []) kept
            ∙ ap (λ (x : List ClassificationRecord). x ++ r ∷ []) (sym whole)),
      );
}
