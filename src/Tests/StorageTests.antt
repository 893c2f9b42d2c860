-- ===== src/Tests/StorageTests.antt =====
-- Tests of the in-process backends (src/postrule/storage.py).
use postrule.Prelude.{ℕ, ◌≡◌, refl, String, List, [], ◌∷◌}
use postrule.Storage.Memory.{put_log, append_bounded, find_log, load_records}
use postrule.Storage.Window.{latest, run_bounded, run_unbounded, bounded_refines}

abbrev history : List (String × ℕ)
history = ("a", 1) ∷ ("b", 2) ∷ ("a", 3) ∷ ("a", 4) ∷ []

bounded_history : load_records "a" (run_bounded 2 history []) ≡ 3 ∷ 4 ∷ []
unfolding load_records find_log append_bounded put_log
bounded_history = refl

bounded_refines_example :
    load_records "a" (run_bounded 2 history [])
    ≡ latest 2 (load_records "a" (run_unbounded history []))
bounded_refines_example = bounded_refines 2 history "a"
