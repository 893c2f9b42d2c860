-- ===== src/Storage/Window.antt =====
-- Lemmas on `InMemoryStorage` and `BoundedInMemoryStorage` of src/postrule/storage.py side by side.
use text.Mathlib.Text.{◌==◌ as str_eq}
use text.Mathlib.TextEquality.{eq_iff}
use native.Mathlib.Nat.{zero-add, add-zero, suc-add}
use postrule.Prelude.{
  ℕ, zero, suc, ◌+◌, ◌-◌, ◌≤◌, ◌≡◌, refl, sym, some, String, List, [], ◌∷◌, ◌++◌, length, drop,
  if◌then◌else◌, arith, Bool-cases, inl, inr, length-append, length-drop,
}
use postrule.Storage.Memory.{
  Logs, rows_of, find_log, put_log, load_records, append_record, push_bounded, append_bounded,
}

-- The last `cap` items.
abbrev pub latest {ℓ} : {A : Type ℓ} → ℕ → List A → List A
latest cap xs = drop (length xs - cap) xs

pub drop-append {ℓ} :
    {A : Type ℓ} (k : ℕ) (xs ys : List A) → k ≤ length xs → drop k (xs ++ ys) ≡ drop k xs ++ ys
drop-append zero xs ys h = refl
drop-append (suc k) [] ys h = absurd (omega arith)
drop-append (suc k) (x ∷ xs) ys h = drop-append k xs ys (omega arith)

drop-nil {ℓ} : {A : Type ℓ} (n : ℕ) → drop {A = A} n [] ≡ []
drop-nil zero = refl
drop-nil (suc n) = refl

drop-drop {ℓ} : {A : Type ℓ} (k j : ℕ) (xs : List A) → drop j (drop k xs) ≡ drop (k + j) xs
drop-drop zero j xs = rw zero-add
drop-drop (suc k) zero [] = rw add-zero
drop-drop (suc k) (suc j) [] = rw suc-add
drop-drop (suc k) j (x ∷ xs) = rw suc-add (drop-drop k j xs)

module _ {R : Type 0} where
  push-latest :
      (cap : ℕ) (xs : List R) (r : R)
      → push_bounded cap (latest cap xs) r ≡ latest cap (xs ++ r ∷ [])
  unfolding push_bounded
  push-latest cap xs r =
      let k = length xs - cap in
      let count : k + (length (drop k xs) + 1 - cap) ≡ length (xs ++ r ∷ []) - cap =
        omega (arith, length-drop k xs, length-append xs (r ∷ [])) in
      rw (
        ← drop-append k xs (r ∷ []) (omega arith),
        drop-drop k (length (drop k xs) + 1 - cap) (xs ++ r ∷ []),
        count,
      )

  pub find-put :
      (name other : String) (rows : List R) (logs : Logs R)
      → find_log other (put_log name rows logs)
        ≡ (if str_eq name other then some rows else find_log other logs)
  unfolding find_log put_log
  find-put name other rows [] = refl
  find-put name other rows ((n, old) ∷ logs) =
      ground
        (arith, eq_iff name other, eq_iff n name, eq_iff n other, find-put name other rows logs)

  pub load-append :
      (name other : String) (r : R) (logs : Logs R)
      → load_records other (append_record name r logs)
        ≡ (if str_eq name other then load_records name logs ++ r ∷ [] else load_records other logs)
  unfolding load_records append_record
  load-append name other r logs =
      ground (arith, find-put name other (rows_of (find_log name logs) ++ r ∷ []) logs)

  pub load-append_bounded :
      (cap : ℕ) (name other : String) (r : R) (logs : Logs R)
      → load_records other (append_bounded cap name r logs) ≡ (
          if str_eq name other
          then push_bounded cap (load_records name logs) r
          else load_records other logs)
  unfolding load_records append_bounded
  load-append_bounded cap name other r logs =
      ground (arith, find-put name other (push_bounded cap (rows_of (find_log name logs)) r) logs)

  -- The appends of a history, the oldest first, to either backend.
  abbrev pub run_unbounded : List (String × R) → Logs R → Logs R
  run_unbounded [] logs = logs
  run_unbounded ((name, r) ∷ rest) logs = run_unbounded rest (append_record name r logs)

  abbrev pub run_bounded : ℕ → List (String × R) → Logs R → Logs R
  run_bounded cap [] logs = logs
  run_bounded cap ((name, r) ∷ rest) logs = run_bounded cap rest (append_bounded cap name r logs)

  -- The bounded logs are the recent ends of the unbounded ones.
  abbrev IsWindow : ℕ → Logs R → Logs R → Type 0
  IsWindow cap bounded logs =
      (name : String) → load_records name bounded ≡ latest cap (load_records name logs)

  append-IsWindow :
      (cap : ℕ) (name : String) (r : R) (bounded logs : Logs R)
      → IsWindow cap bounded logs
      → IsWindow cap (append_bounded cap name r bounded) (append_record name r logs)
  append-IsWindow cap name r bounded logs h other =
      rw (load-append_bounded cap name other r bounded, load-append name other r logs)
        (elim (Bool-cases (str_eq name other)) [
          | inl e ↦ rw (e, h name) (push-latest cap (load_records name logs) r)
          | inr e ↦ rw e (h other)
        ])

  run-IsWindow :
      (cap : ℕ) (history : List (String × R)) (bounded logs : Logs R)
      → IsWindow cap bounded logs
      → IsWindow cap (run_bounded cap history bounded) (run_unbounded history logs)
  run-IsWindow cap [] bounded logs h = h
  run-IsWindow cap ((name, r) ∷ rest) bounded logs h =
      run-IsWindow cap rest _ _ (append-IsWindow cap name r bounded logs h)

  -- After any appends to any switches from empty storages, the bounded backend holds for each switch
  -- the last `cap` of the rows that the unbounded backend holds, in their order.
  pub bounded_refines :
      (cap : ℕ) (history : List (String × R)) (name : String)
      → load_records name (run_bounded cap history [])
        ≡ latest cap (load_records name (run_unbounded history []))
  bounded_refines cap history name =
      run-IsWindow cap history [] [] (λ n. unfold load_records find_log in sym (drop-nil (0 - cap)))
        name
