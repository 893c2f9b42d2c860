-- ===== src/Autoresearch/Winner.antt =====
-- Lemmas on the winner of `Tournament.evaluate` of src/postrule/autoresearch.py.
use text.Mathlib.Text.{◌==◌ as str_eq}
use text.Mathlib.TextEquality.{eq_iff}
use mathlib.Core.List.{Memᴰ}
use mathlib.Core.Path.{subst}
use postrule.Prelude.{
  ℕ, ◌<◌, ◌≡◌, ◌≢◌, ◌↔◌, Bool, true, false, ◌||◌, refl, sym, some, String, List, [], ◌∷◌, all,
  arith, Bool-cases, and_iff, inl, inr, ap,
}
use postrule.Num.{lt_real}
use postrule.Gate.Pairing.{count_true}
use postrule.Storage.Memory.{load_records}
use postrule.Autoresearch.{accuracy}
use postrule.Autoresearch.Evidence.{accuracy_iff, accuracy_needs}
use postrule.Autoresearch.Contest.{
  Tournament, pair_report, pairwise, beats, beats_all, first_sweep, is_unanimous,
  evaluate_tournament,
}

all-mem :
    (p : String → Bool) (xs : List String) (x : String) → all p xs ≡ true → Memᴰ x xs → p x ≡ true
unfolding all
all-mem p [] x h m = elim m [ ]
all-mem p (y ∷ xs) x h (Memᴰ.head e) = rw e ((and_iff _ _).0 h).0
all-mem p (y ∷ xs) x h (Memᴰ.tail m) = all-mem p xs x ((and_iff _ _).0 h).1 m

all_of :
    (p : String → Bool) (xs : List String)
    → ((x : String) → Memᴰ x xs → p x ≡ true)
    → all p xs ≡ true
unfolding all
all_of p [] h = refl
all_of p (x ∷ xs) h = (and_iff _ _).1 (h x (Memᴰ.head refl), all_of p xs (λ y m. h y (Memᴰ.tail m)))

or_right : (a b : Bool) → a ≡ false → (a || b) ≡ true → b ≡ true
or_right true b e h = absurd (ground arith)
or_right false b e h = h

differ : (v w : String) → v ≢ w → str_eq v w ≡ false
differ v w ne = elim (Bool-cases (str_eq v w)) [
  | inl e ↦ absurd (ne ((eq_iff v w).0 e))
  | inr e ↦ e
]

distinct : (v w : String) → str_eq v w ≡ false → v ≢ w
distinct v w e h = ground (arith, eq_iff v w)

module _ (t : Tournament) where
  -- The candidate beats every other name.
  abbrev pub Sweeps : String → Type 0
  Sweeps w = (other : String) → Memᴰ other t.candidates → other ≢ w → beats t w other ≡ true

  right_of : String → ℕ
  right_of name = count_true (load_records name t.observations)

  beats-more : (v w : String) → beats t v w ≡ true → right_of w < right_of v
  unfolding beats pairwise pair_report right_of
  beats-more v w h =
      let n = t.n_observed in
      let g : lt_real (accuracy (right_of w) n) (accuracy (right_of v) n) ≡ true = ground arith in
      (accuracy_iff (right_of w) (right_of v) n (accuracy_needs (right_of w) (right_of v) n g)).0 g

  beats_asym : (v w : String) → beats t v w ≡ true → beats t w v ≢ true
  beats_asym v w g h = omega (arith, beats-more v w g, beats-more w v h)

  one-Sweeps :
      (v w : String) → Memᴰ v t.candidates → Memᴰ w t.candidates → Sweeps v → Sweeps w → v ≡ w
  one-Sweeps v w m n g h = elim (Bool-cases (str_eq v w)) [
    | inl e ↦ (eq_iff v w).0 e
    | inr e ↦ absurd (beats_asym v w (g w n (λ q. distinct v w e (sym q))) (h v m (distinct v w e)))
  ]

  beats_all-Sweeps : (w : String) → beats_all t w ≡ true → Sweeps w
  unfolding beats_all
  beats_all-Sweeps w h other m ne =
      or_right _ _ (differ other w ne)
        (all-mem (λ (x : String). str_eq x w || beats t w x) t.candidates other h m)

  beats_all_of : (w : String) → Sweeps w → beats_all t w ≡ true
  unfolding beats_all
  beats_all_of w h = all_of _ t.candidates (λ x m. elim (Bool-cases (str_eq x w)) [
    | inl e ↦ rw e refl
    | inr e ↦ rw e (h x m (distinct x w e))
  ])

  first_sweep-Sweeps :
      (names : List String) (w : String) → first_sweep t names ≡ some w → Memᴰ w names × Sweeps w
  unfolding first_sweep
  first_sweep-Sweeps [] w h = absurd (ground arith)
  first_sweep-Sweeps (n ∷ names) w h = elim (Bool-cases (beats_all t n)) [
    | inl e ↦
        let q : n ≡ w = let g = rw e at h in cc in
        (Memᴰ.head (sym q), subst (λ (x : String). Sweeps x) q (beats_all-Sweeps n e))
    | inr e ↦ let r = first_sweep-Sweeps names w (let g = rw e at h in g) in (Memᴰ.tail r.0, r.1)
  ]

  first_sweep-some :
      (names : List String) (w : String)
      → Memᴰ w names
      → beats_all t w ≡ true
      → (v : String) × (first_sweep t names ≡ some v)
  unfolding first_sweep
  first_sweep-some [] w m h = elim m [ ]
  first_sweep-some (n ∷ names) w m h = elim (Bool-cases (beats_all t n)) [
    | inl e ↦ (n, rw e refl)
    | inr e ↦ elim m [
      | Memᴰ.head q ↦ absurd (let g = rw q at h in cc)
      | Memᴰ.tail k ↦ let r = first_sweep-some names w k h in (r.0, rw e r.1)
    ]
  ]

  first_sweep_iff :
      (w : String) → (first_sweep t t.candidates ≡ some w) ↔ (Memᴰ w t.candidates × Sweeps w)
  first_sweep_iff w = (
    first_sweep-Sweeps t.candidates w,
    λ h.
        let r = first_sweep-some t.candidates w h.0 (beats_all_of w h.1) in
        let s = first_sweep-Sweeps t.candidates r.0 r.1 in
        rw r.1 (ap some (one-Sweeps r.0 w s.0 h.0 s.1 h.1)),
  )

  -- Where the candidates did not all predict the same throughout, a name is the winner of the
  -- tournament exactly when it is a candidate and beats every other candidate, in whatever order they
  -- are registered.
  pub winner_iff :
      (w : String)
      → is_unanimous t ≡ false
      → ((evaluate_tournament t).winner ≡ some w) ↔ (Memᴰ w t.candidates × Sweeps w)
  unfolding evaluate_tournament
  winner_iff w split = rw split (first_sweep_iff w)
