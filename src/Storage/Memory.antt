-- ===== src/Storage/Memory.antt =====
-- `InMemoryStorage` and `BoundedInMemoryStorage` of src/postrule/storage.py, generic in the rows.
-- The dict from switch names to logs is an association list in insertion order.
use text.Mathlib.Text.{◌==◌ as str_eq}
use postrule.Prelude.{
  ℕ, ◌+◌, ◌-◌, Option, none, some, String, List, [], ◌∷◌, ◌++◌, length, drop, if◌then◌else◌,
}

-- `self._log`
abbrev pub Logs : Type 0 → Type 0
Logs R = List (String × List R)

module _ {R : Type 0} where
  -- `self._log.get(name)`
  unfoldable pub find_log : String → Logs R → Option (List R)
  find_log name [] = none
  find_log name ((n, rows) ∷ logs) = if str_eq n name then some rows else find_log name logs

  -- `self._log[name] = rows`
  unfoldable pub put_log : String → List R → Logs R → Logs R
  put_log name rows [] = (name, rows) ∷ []
  put_log name rows ((n, old) ∷ logs) =
      if str_eq n name then (n, rows) ∷ logs else (n, old) ∷ put_log name rows logs

  abbrev pub rows_of : Option (List R) → List R
  rows_of none = []
  rows_of (some rows) = rows

  -- `load_records` of both classes
  unfoldable pub load_records : String → Logs R → List R
  load_records name logs = rows_of (find_log name logs)

  -- `InMemoryStorage.append_record`
  unfoldable pub append_record : String → R → Logs R → Logs R
  append_record name r logs = put_log name (load_records name logs ++ r ∷ []) logs

  -- `buf.append(r)` on a `deque(maxlen=cap)`: the oldest rows go while there are too many.
  unfoldable pub push_bounded : ℕ → List R → R → List R
  push_bounded cap rows r = drop (length rows + 1 - cap) (rows ++ r ∷ [])

  -- `BoundedInMemoryStorage.append_record`
  unfoldable pub append_bounded : ℕ → String → R → Logs R → Logs R
  unfolding push_bounded
  append_bounded cap name r logs = put_log name (push_bounded cap (load_records name logs) r) logs
