-- ===== src/Tests/FileTests.antt =====
-- Tests of `FileStorage` (src/postrule/storage.py) on small segments.
use postrule.Prelude.{
  ℕ, ◌+◌, ◌*◌, ◌≤◌, ◌≡◌, refl, true, false, none, some, String, List, [], ◌∷◌, ◌++◌, arith, All,
}
use postrule.Storage.Memory.{load_records, find_log}
use postrule.Storage.Segments.{append_sync, Dir, Io, load_segments, bytes, read_segment}
use postrule.Storage.Retention.{Batch, delivered, run, log_is_suffix}
use postrule.Storage.Footprint.{Fits, IsSmall, disk_is_bounded}
use postrule.Storage.Files.{FileConfig, FileStore, drain_once}
use postrule.Storage.Batching.{Holds, on_disk, Lost, drain_once-delivers, drain_once-loses}
use postrule.Switch.State.{IsLog}
use postrule.Switch.FileLog.{file_storage, file_storage-IsLog}

abbrev fine : Io
fine = record { stat_works = true; fails_after = none }

abbrev torn : Io
torn = record { stat_works = true; fails_after = some 1 }

-- Every row is four bytes long.
abbrev four : ℕ → ℕ
four r = 4

abbrev empty_dir : Dir ℕ
empty_dir k = none

abbrev batches : List (Batch ℕ)
batches = (fine, 1 ∷ 2 ∷ []) ∷ (torn, 3 ∷ 4 ∷ []) ∷ (fine, 5 ∷ []) ∷ (fine, 6 ∷ 7 ∷ []) ∷ []

-- Segments of ten bytes and one rotated segment: the rows 1, 2 and 4 are gone.
batches-load : load_segments 1 (run four 10 1 batches empty_dir) ≡ 3 ∷ 5 ∷ 6 ∷ 7 ∷ []
unfolding load_segments append_sync
batches-load = refl

log_is_suffix_example :
    (lost : List ℕ) × (load_segments 1 empty_dir ++ delivered batches
      ≡ lost ++ load_segments 1 (run four 10 1 batches empty_dir))
log_is_suffix_example = log_is_suffix four 10 1 batches empty_dir

batches-All : All (IsSmall four 10 1 (omega arith)) batches
unfolding bytes
batches-All =
    ((refl, omega arith), ((refl, omega arith), ((refl, omega arith), ((refl, omega arith), tt))))

empty_dir-Fits : Fits four 10 1 (omega arith) empty_dir
unfolding bytes read_segment
empty_dir-Fits = record { files = λ k. omega arith; free = λ k h. refl }

disk_is_bounded_example :
    let e = run four 10 1 batches empty_dir in
    Fits four 10 1 (omega arith) e × (bytes four (load_segments 1 e) ≤ (1 + 1) * 10)
disk_is_bounded_example =
    disk_is_bounded four 10 1 (omega arith) batches empty_dir batches-All empty_dir-Fits

abbrev small_files : FileConfig ℕ
small_files = record {
  size = four;
  max_bytes = 10;
  max_rotated = 1;
  batching = true;
  batch_size = 64;
  redact = none;
  valid_name = λ name. true;
}

abbrev waiting : FileStore ℕ
waiting = record {
  disks = λ name. empty_dir;
  queue = ("a", 1 ∷ []) ∷ ("b", 2 ∷ []) ∷ [];
  flush_event = false;
  closed = false;
}

drain_once-delivers_example :
    let r = drain_once small_files (λ name. fine) waiting in
    (r.0 ≡ true)
    × (r.1.queue ≡ [])
    × ((name : String)
        → Holds small_files
            (on_disk small_files name waiting ++ load_records name waiting.queue)
            name
            r.1)
unfolding find_log
drain_once-delivers_example =
    drain_once-delivers small_files (λ name. fine) (λ name. refl) waiting (refl, (refl, tt))

drain_once-loses_example :
    Lost small_files waiting "a" "b" (1 ∷ []) (drain_once small_files (λ name. torn) waiting)
drain_once-loses_example =
    drain_once-loses small_files (λ name. torn) waiting "a" "b" 1 [] (("b", 2 ∷ []) ∷ []) 1 refl
      refl refl

file_storage-IsLog_example : IsLog (file_storage (λ r. 4) 10 1 fine)
file_storage-IsLog_example = file_storage-IsLog (λ r. 4) 10 1 fine
