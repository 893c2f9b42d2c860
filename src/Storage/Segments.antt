-- ===== src/Storage/Segments.antt =====
-- The segments of one switch in `FileStorage` (src/postrule/storage.py): the directory as a map from
-- slots to files, where slot 0 is the active segment and slot k the k-th rotated one. A file is the
-- list of its rows; `size` gives the bytes of a row's line. Renames and unlinks succeed.
use postrule.Prelude.{
  ℕ, zero, suc, ◌+◌, ◌-◌, Bool, true, false, Option, none, some, List, [], ◌∷◌, ◌++◌, ltb, ◌==◌,
  if◌then◌else◌,
}

abbrev pub Dir : Type 0 → Type 0
Dir R = ℕ → Option (List R)

-- How the writes of one batch go: all, or an error after so many lines; and whether `stat` works. A write
-- takes a whole line or raises.
pub record Io : Type 0 where
  pub stat_works : Bool
  pub fails_after : Option ℕ

unfoldable pub write_ok : Option ℕ → Bool
write_ok none = true
write_ok (some k) = false

module _ {R : Type 0} where
  -- `_read_segment`
  unfoldable pub read_segment : Option (List R) → List R
  read_segment none = []
  read_segment (some rows) = rows

  unfoldable pub put_slot : ℕ → Option (List R) → Dir R → Dir R
  put_slot k f d = λ i. if i == k then f else d i

  unfoldable pub unlink_next : (ℕ → Dir R → Dir R) → ℕ → Dir R → Option (List R) → Dir R
  unfolding put_slot
  unlink_next again idx d none = d
  unlink_next again idx d (some rows) = again (idx + 1) (put_slot idx none d)

  -- `for idx in range(max_rotated + 1, 1000)`: unlink, until a slot is free
  unfoldable pub drop_beyond : ℕ → ℕ → Dir R → Dir R
  unfolding unlink_next
  drop_beyond zero idx d = d
  drop_beyond (suc left) idx d = unlink_next (drop_beyond left) idx d (d idx)

  unfoldable pub shift_file : ℕ → ℕ → Dir R → Option (List R) → Dir R
  unfolding put_slot
  shift_file max_rotated idx d none = d
  shift_file max_rotated idx d (some rows) =
      if ltb max_rotated (idx + 1)
      then put_slot idx none d
      else put_slot idx none (put_slot (idx + 1) (some rows) d)

  -- `for idx in range(max_rotated, 0, -1)`
  unfoldable pub shift_up : ℕ → ℕ → Dir R → Dir R
  unfolding shift_file
  shift_up max_rotated zero d = d
  shift_up max_rotated (suc k) d =
      shift_up max_rotated k (shift_file max_rotated (suc k) d (d (suc k)))

  unfoldable pub move_active : Dir R → Option (List R) → Dir R
  unfolding put_slot
  move_active d none = d
  move_active d (some rows) = put_slot 0 none (put_slot 1 (some rows) d)

  -- `_rotate`
  unfoldable pub rotate : ℕ → Dir R → Dir R
  unfolding drop_beyond shift_up move_active
  rotate max_rotated d =
      let kept = drop_beyond (1000 - (max_rotated + 1)) (max_rotated + 1) d in
      let shifted = shift_up max_rotated max_rotated kept in move_active shifted (shifted 0)

  -- `for idx in range(max_rotated, 0, -1)`: the rotated segments, the oldest first
  unfoldable pub load_rotated : ℕ → Dir R → List R
  unfolding read_segment
  load_rotated zero d = []
  load_rotated (suc k) d = read_segment (d (suc k)) ++ load_rotated k d

  -- `load_records`, of the rows on disk
  unfoldable pub load_segments : ℕ → Dir R → List R
  unfolding load_rotated read_segment
  load_segments max_rotated d = load_rotated max_rotated d ++ read_segment (d 0)

  -- The lines that reach the file.
  unfoldable pub written : Option ℕ → List R → List R
  written none rows = rows
  written (some zero) rows = []
  written (some (suc k)) [] = []
  written (some (suc k)) (r ∷ rows) = r ∷ written (some k) rows

  -- `os.write` at the end of the active segment, which is made if it is not there
  unfoldable pub append_lines : List R → Dir R → Dir R
  unfolding put_slot read_segment
  append_lines rows d = put_slot 0 (some (read_segment (d 0) ++ rows)) d

  -- `sum(len(p) for p in payloads)`
  unfoldable pub bytes : (R → ℕ) → List R → ℕ
  bytes size [] = 0
  bytes size (r ∷ rows) = size r + bytes size rows

  module _ (size : R → ℕ) (max_bytes max_rotated : ℕ) where
    -- `if path.exists()`, and the size that `stat` gives or 0
    unfoldable pub rotate_if_full : Io → ℕ → Dir R → Option (List R) → Dir R
    unfolding rotate bytes
    rotate_if_full io total d none = d
    rotate_if_full io total d (some rows) =
        if ltb max_bytes ((if io.stat_works then bytes size rows else 0) + total)
        then rotate max_rotated d
        else d

    -- `_append_sync`: whether it returned, and the directory
    unfoldable pub append_sync : Io → List R → Dir R → Bool × Dir R
    unfolding rotate_if_full append_lines written write_ok bytes
    append_sync io [] d = (true, d)
    append_sync io (r ∷ rows) d =
        let batch = r ∷ rows in
        (
          write_ok io.fails_after,
          append_lines (written io.fails_after batch)
              (rotate_if_full io (bytes size batch) d (d 0)),
        )
