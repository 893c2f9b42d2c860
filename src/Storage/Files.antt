-- ===== src/Storage/Files.antt =====
-- `FileStorage` of src/postrule/storage.py over the segments of each switch: the batching queue, its
-- drain, and reads. A serialized row parses back to itself; locks, descriptors and fsync are left out.
use text.Mathlib.Text.{◌==◌ as str_eq}
use postrule.Prelude.{
  ℕ, ◌+◌, Bool, true, false, Option, none, some, String, List, [], ◌∷◌, ◌++◌, leb, length,
  if◌then◌else◌,
}
use postrule.Storage.Memory.{Logs, put_log, load_records}
use postrule.Storage.Segments.{Dir, Io, load_segments, append_sync, rotate}
use postrule.Switch.Result.{Outcome, returned, raised, value_error, runtime_error, storage_error}

-- What the constructor fixes. `valid_name` is the check of `_switch_dir` against path escapes.
pub record FileConfig (R : Type 0) : Type 0 where
  pub size : R → ℕ
  pub max_bytes : ℕ
  pub max_rotated : ℕ
  pub batching : Bool
  pub batch_size : ℕ
  pub redact : Option (R → R)
  pub valid_name : String → Bool

pub record FileStore (R : Type 0) : Type 0 where
  pub disks : String → Dir R
  -- `_queue`, `_flush_event`, `_closed`
  pub queue : Logs R
  pub flush_event : Bool
  pub closed : Bool

module _ {R : Type 0} where
  unfoldable pub redacted : Option (R → R) → R → R
  redacted none r = r
  redacted (some f) r = f r

  -- `sum(len(b) for b in self._queue.values())`
  unfoldable pub queued_rows : Logs R → ℕ
  queued_rows [] = 0
  queued_rows ((name, rows) ∷ logs) = length rows + queued_rows logs

  unfoldable pub put_disk : String → Dir R → FileStore R → FileStore R
  put_disk name d s = record s { disks = λ n. if str_eq n name then d else s.disks n }

  unfoldable pub done_or_failed : Bool × FileStore R → Outcome (Unit {0}) × FileStore R
  done_or_failed (true, s) = (returned tt, s)
  done_or_failed (false, s) = (raised storage_error, s)

  module _ (c : FileConfig R) where
    unfoldable pub write_batch : Io → String → List R → FileStore R → Bool × FileStore R
    unfolding append_sync put_disk
    write_batch io name rows s =
        let r = append_sync c.size c.max_bytes c.max_rotated io rows (s.disks name) in
        (r.0, put_disk name r.1 s)

    -- The batching branch of `append_record`.
    unfoldable pub enqueue : String → R → FileStore R → Outcome (Unit {0}) × FileStore R
    unfolding load_records put_log queued_rows
    enqueue name r s =
        if s.closed
        then (raised runtime_error, s)
        else let queue = put_log name (load_records name s.queue ++ r ∷ []) s.queue in
          (
            returned tt,
            record s {
              queue = queue;
              flush_event = if leb c.batch_size (queued_rows queue) then true else s.flush_event;
            },
          )

    -- `append_record`
    unfoldable pub append_file : Io → String → R → FileStore R → Outcome (Unit {0}) × FileStore R
    unfolding enqueue write_batch done_or_failed redacted
    append_file io name r s =
        if c.valid_name name
        then (if c.batching
            then enqueue name (redacted c.redact r) s
            else done_or_failed (write_batch io name (redacted c.redact r ∷ []) s))
        else (raised value_error, s)

    -- The end of a drain at a switch whose write failed: its rows are queued again, and the error
    -- leaves the loop.
    unfoldable pub after_write :
        (FileStore R → Bool × FileStore R)
        → String
        → List R
        → Bool × FileStore R
        → Bool × FileStore R
    unfolding put_log load_records
    after_write again name rows (true, s) = again s
    after_write again name rows (false, s) =
        (false, record s { queue = put_log name (rows ++ load_records name s.queue) s.queue })

    -- The loop of `_drain_once` over its snapshot.
    unfoldable pub drain_each : (String → Io) → Logs R → FileStore R → Bool × FileStore R
    unfolding after_write write_batch
    drain_each io [] s = (true, s)
    drain_each io ((name, []) ∷ rest) s = drain_each io rest s
    drain_each io ((name, r ∷ rows) ∷ rest) s =
        after_write (drain_each io rest) name (r ∷ rows) (write_batch (io name) name (r ∷ rows) s)

    -- `_drain_once`
    unfoldable pub drain_once : (String → Io) → FileStore R → Bool × FileStore R
    unfolding drain_each
    drain_once io s = drain_each io s.queue (record s { queue = [] })

    -- `flush`
    unfoldable pub flush : (String → Io) → FileStore R → Bool × FileStore R
    unfolding drain_once
    flush io s = if c.batching then drain_once io s else (true, s)

    unfoldable pub load_flushed : String → Bool × FileStore R → Outcome (List R) × FileStore R
    unfolding load_segments
    load_flushed name (false, s) = (raised storage_error, s)
    load_flushed name (true, s) =
        if c.valid_name name
        then (returned (load_segments c.max_rotated (s.disks name)), s)
        else (raised value_error, s)

    -- `load_records`
    unfoldable pub load_file : (String → Io) → String → FileStore R → Outcome (List R) × FileStore R
    unfolding load_flushed flush
    load_file io name s = load_flushed name (flush io s)

    -- `compact`
    unfoldable pub compact : String → FileStore R → FileStore R
    unfolding rotate put_disk
    compact name s = put_disk name (rotate c.max_rotated (s.disks name)) s
