-- ===== src/Storage/Rotation.antt =====
-- Lemmas on the rotation of segments in `FileStorage` (src/postrule/storage.py).
use mathlib.Core.List.{append_assoc, append-nil}
use postrule.Prelude.{
  ℕ, zero, suc, ◌+◌, ◌-◌, ◌≤◌, ◌<◌, ◌≡◌, refl, ap, ◌∙◌, ◌&&◌, Option, none, some, List, ◌++◌, ltb,
  leb, ◌==◌, if◌then◌else◌, arith,
}
use postrule.Storage.Segments.{
  Dir, read_segment, put_slot, unlink_next, drop_beyond, shift_file, shift_up, move_active, rotate,
  load_rotated, load_segments,
}

pub some-none : {A : Type 0} {a : A} → some a ≡ none → ⊥
some-none e = cc

module _ {R : Type 0} where
  put_slot-get :
      (k i : ℕ) (f : Option (List R)) (d : Dir R) → put_slot k f d i ≡ (if i == k then f else d i)
  unfolding put_slot
  put_slot-get k i f d = refl

  unlink_next-below :
      (left idx k : ℕ) (d : Dir R) (f : Option (List R))
      → ((e : Dir R) → drop_beyond left (idx + 1) e k ≡ e k)
      → k < idx
      → unlink_next (drop_beyond left) idx d f k ≡ d k
  unfolding unlink_next put_slot
  unlink_next-below left idx k d none ih h = refl
  unlink_next-below left idx k d (some rows) ih h = ih (put_slot idx none d) ∙ ground arith

  drop_beyond-below : (left idx k : ℕ) (d : Dir R) → k < idx → drop_beyond left idx d k ≡ d k
  unfolding drop_beyond
  drop_beyond-below zero idx k d h = refl
  drop_beyond-below (suc left) idx k d h =
      unlink_next-below left idx k d (d idx)
        (λ e. drop_beyond-below left (idx + 1) k e (omega arith)) h

  -- What stands in slot k once the files up to slot k - 1 are shifted.
  unfoldable moved : Dir R → ℕ → Option (List R)
  moved d zero = none
  moved d (suc zero) = none
  moved d (suc (suc k)) = d (suc k)

  -- One file goes up, or is unlinked at the last slot; the slot above it was free.
  shift_file-get :
      (n j k : ℕ) (d : Dir R) (f : Option (List R))
      → d (suc j) ≡ f
      → (suc j < n → d (suc (suc j)) ≡ none)
      → suc j ≤ n
      → shift_file n (suc j) d f k
        ≡ (if k == suc j then none else if k == suc (suc j) && ltb (suc j) n then f else d k)
  unfolding shift_file put_slot
  shift_file-get n j k d none e free h = ground (arith, e, free)
  shift_file-get n j k d (some rows) e free h = ground (arith, e)

  shift_up-get :
      (n j k : ℕ) (d : Dir R)
      → j ≤ n
      → (j < n → d (suc j) ≡ none)
      → shift_up n j d k
        ≡ (if k == 0 then d 0 else if leb k (suc j) && leb k n then moved d k else d k)
  unfolding shift_up moved
  shift_up-get n zero zero d h free = refl
  shift_up-get n zero (suc zero) d h free = ground (arith, free)
  shift_up-get n zero (suc (suc k)) d h free = ground arith
  shift_up-get n (suc j) zero d h free =
      let e = shift_file n (suc j) d (d (suc j)) in
      let get = λ (k : ℕ). shift_file-get n j k d (d (suc j)) refl free h in
      shift_up-get n j zero e (omega arith) (λ _. ground (arith, get (suc j)))
      ∙ ground (arith, get 0)
  shift_up-get n (suc j) (suc zero) d h free =
      let e = shift_file n (suc j) d (d (suc j)) in
      let get = λ (k : ℕ). shift_file-get n j k d (d (suc j)) refl free h in
      shift_up-get n j 1 e (omega arith) (λ _. ground (arith, get (suc j))) ∙ ground (arith, get 1)
  shift_up-get n (suc j) (suc (suc k)) d h free =
      let e = shift_file n (suc j) d (d (suc j)) in
      let get = λ (k : ℕ). shift_file-get n j k d (d (suc j)) refl free h in
      shift_up-get n j (suc (suc k)) e (omega arith) (λ _. ground (arith, get (suc j)))
      ∙ ground (arith, get (suc k), get (suc (suc k)), slot_eq k j d)
    where
      slot_eq : (k j : ℕ) (d : Dir R) → k ≡ j → d (suc k) ≡ d (suc j)
      slot_eq k j d e = ap (λ (i : ℕ). d (suc i)) e

  -- The active segment goes to slot 1, which is free before.
  move_active-get :
      (k : ℕ) (d : Dir R) (f : Option (List R))
      → d 0 ≡ f
      → d 1 ≡ none
      → move_active d f k ≡ (if k == 0 then none else if k == 1 then f else d k)
  unfolding move_active put_slot
  move_active-get zero d none e free = e
  move_active-get (suc zero) d none e free = free
  move_active-get (suc (suc k)) d none e free = ground arith
  move_active-get k d (some rows) e free = ground arith

  move_active-zero : (d : Dir R) (f : Option (List R)) → d 0 ≡ f → move_active d f 0 ≡ none
  unfolding move_active put_slot
  move_active-zero d none e = e
  move_active-zero d (some rows) e = refl

  -- A rotation frees the active slot, and moves the file of every slot below the last to the next.
  pub rotate-active : (n : ℕ) (d : Dir R) → rotate n d 0 ≡ none
  unfolding rotate moved
  rotate-active n d =
      move_active-zero (shift_up n n (drop_beyond (1000 - (n + 1)) (n + 1) d)) _ refl

  pub rotate-get : (n k : ℕ) (d : Dir R) → suc k ≤ n → rotate n d (suc k) ≡ d k
  unfolding rotate moved
  rotate-get n zero d h =
      let kept = drop_beyond (1000 - (n + 1)) (n + 1) d in
      let s = shift_up n n kept in
      let free : s 1 ≡ none = ground (arith, shift_up-get n n 1 kept) in
      move_active-get 1 s (s 0) refl free
      ∙ ground (arith, shift_up-get n n 0 kept, drop_beyond-below (1000 - (n + 1)) (n + 1) 0 d)
  rotate-get n (suc k) d h =
      let kept = drop_beyond (1000 - (n + 1)) (n + 1) d in
      let s = shift_up n n kept in
      let free : s 1 ≡ none = ground (arith, shift_up-get n n 1 kept) in
      move_active-get (suc (suc k)) s (s 0) refl free
      ∙ ground (
        arith,
        shift_up-get n n (suc (suc k)) kept,
        drop_beyond-below (1000 - (n + 1)) (n + 1) (suc k) d,
      )

  load_rotated-rotate :
      (n k : ℕ) (d : Dir R)
      → suc k ≤ n
      → load_rotated (suc k) (rotate n d) ≡ load_rotated k d ++ read_segment (d 0)
  unfolding load_rotated
  load_rotated-rotate n zero d h = rw (rotate-get n 0 d h, append-nil) refl
  load_rotated-rotate n (suc k) d h =
      rw (rotate-get n (suc k) d h, load_rotated-rotate n k d (omega arith), append_assoc) refl

  -- A rotation loses the rows of the last slot and no others.
  pub load-rotate :
      (n : ℕ) (d : Dir R) → load_segments n d ≡ read_segment (d n) ++ load_segments n (rotate n d)
  unfolding load_segments load_rotated read_segment
  load-rotate zero d = rw (rotate-active 0 d, append-nil) refl
  load-rotate (suc n) d =
      rw
        (
          rotate-active (suc n) d,
          append-nil,
          load_rotated-rotate (suc n) n d (omega arith),
          append_assoc,
        )
        refl

  unlink_next-free :
      (again : ℕ → Dir R → Dir R) (idx : ℕ) (d : Dir R) (f : Option (List R))
      → f ≡ none
      → unlink_next again idx d f ≡ d
  unfolding unlink_next
  unlink_next-free again idx d none e = refl
  unlink_next-free again idx d (some rows) e = absurd (some-none e)

  drop_beyond-free : (left idx : ℕ) (d : Dir R) → d idx ≡ none → drop_beyond left idx d ≡ d
  unfolding drop_beyond
  drop_beyond-free zero idx d e = refl
  drop_beyond-free (suc left) idx d e = unlink_next-free (drop_beyond left) idx d (d idx) e

  -- No slot above the last is taken, if none was.
  pub rotate-above :
      (n k : ℕ) (d : Dir R) → 0 < n → n < k → ((i : ℕ) → n < i → d i ≡ none) → rotate n d k ≡ none
  unfolding rotate moved
  rotate-above n k d pos h free =
      let kept = drop_beyond (1000 - (n + 1)) (n + 1) d in
      let s = shift_up n n kept in
      let first : s 1 ≡ none = ground (arith, shift_up-get n n 1 kept) in
      let same : kept k ≡ none =
        ap (λ (e : Dir R). e k)
          (drop_beyond-free (1000 - (n + 1)) (n + 1) d (free (n + 1) (omega arith)))
        ∙ free k h in
      move_active-get k s (s 0) refl first ∙ ground (arith, shift_up-get n n k kept)
