-- ===== src/Signals/Ident.antt =====
-- The values that identities are built of, and their JSON form: `_jsonable` and `_tuplify` of
-- src/postrule/signals.py.
use text.Mathlib.Text.{◌==◌ as str_eq}
use text.Mathlib.TextEquality.{eq_iff}
use postrule.Prelude.{ℕ, ◌≡◌, refl, ap, Bool, true, false, ◌&&◌, String, ◌==◌, arith}

mutual
  -- A scalar, a tuple or a list. `number` is any number that is not NaN, by a code that equal
  -- numbers share.
  pub data Ident : Type 0 where
    null : Ident
    string : String → Ident
    number : ℕ → Ident
    tuple array : Idents → Ident

  pub data Idents : Type 0 where
    nil : Idents
    cons : Ident → Idents → Idents

unfoldable mutual
  -- `a == b`
  pub ident_eq : Ident → Ident → Bool
  ident_eq null null = true
  ident_eq (string s) (string t) = str_eq s t
  ident_eq (number a) (number b) = a == b
  ident_eq (tuple xs) (tuple ys) = idents_eq xs ys
  ident_eq (array xs) (array ys) = idents_eq xs ys
  ident_eq _ _ = false

  pub idents_eq : Idents → Idents → Bool
  idents_eq nil nil = true
  idents_eq (cons x xs) (cons y ys) = ident_eq x y && idents_eq xs ys
  idents_eq _ _ = false

unfoldable mutual
  -- `_jsonable`
  pub jsonable : Ident → Ident
  jsonable null = null
  jsonable (string s) = string s
  jsonable (number n) = number n
  jsonable (tuple xs) = array (jsonable_items xs)
  jsonable (array xs) = array (jsonable_items xs)

  pub jsonable_items : Idents → Idents
  jsonable_items nil = nil
  jsonable_items (cons x xs) = cons (jsonable x) (jsonable_items xs)

unfoldable mutual
  -- `_tuplify`, which meets no tuple in what JSON gives back
  pub tuplify : Ident → Ident
  tuplify null = null
  tuplify (string s) = string s
  tuplify (number n) = number n
  tuplify (tuple xs) = tuple xs
  tuplify (array xs) = tuple (tuplify_items xs)

  pub tuplify_items : Idents → Idents
  tuplify_items nil = nil
  tuplify_items (cons x xs) = cons (tuplify x) (tuplify_items xs)

mutual
  unfolding ident_eq idents_eq

  pub ident_eq_refl : (a : Ident) → ident_eq a a ≡ true
  ident_eq_refl null = refl
  ident_eq_refl (string s) = (eq_iff s s).1 refl
  ident_eq_refl (number n) = ground arith
  ident_eq_refl (tuple xs) = idents_eq_refl xs
  ident_eq_refl (array xs) = idents_eq_refl xs

  pub idents_eq_refl : (xs : Idents) → idents_eq xs xs ≡ true
  idents_eq_refl nil = refl
  idents_eq_refl (cons x xs) = rw (ident_eq_refl x) (idents_eq_refl xs)

-- No list stands inside, only tuples: so are the identities of a live switch.
abbrev mutual
  pub HasNoArray : Ident → Type 0
  HasNoArray null = Unit
  HasNoArray (string s) = Unit
  HasNoArray (number n) = Unit
  HasNoArray (tuple xs) = HaveNoArray xs
  HasNoArray (array xs) = ⊥

  pub HaveNoArray : Idents → Type 0
  HaveNoArray nil = Unit
  HaveNoArray (cons x xs) = HasNoArray x × HaveNoArray xs

mutual
  unfolding jsonable tuplify jsonable_items tuplify_items

  pub tuplify-jsonable : (a : Ident) → HasNoArray a → tuplify (jsonable a) ≡ a
  tuplify-jsonable null h = refl
  tuplify-jsonable (string s) h = refl
  tuplify-jsonable (number n) h = refl
  tuplify-jsonable (tuple xs) h = ap tuple (tuplify_items-jsonable_items xs h)
  tuplify-jsonable (array xs) h = absurd h

  pub tuplify_items-jsonable_items :
      (xs : Idents) → HaveNoArray xs → tuplify_items (jsonable_items xs) ≡ xs
  tuplify_items-jsonable_items nil h = refl
  tuplify_items-jsonable_items (cons x xs) h =
      rw (tuplify-jsonable x h.0, tuplify_items-jsonable_items xs h.1) refl
