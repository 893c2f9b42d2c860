-- ===== src/Storage/Drain.antt =====
-- Lemmas on the drain loop of `ResilientStorage` (src/postrule/storage.py), and what it relies on in
-- the primary backend.
use text.Mathlib.Text.{◌==◌ as str_eq}
use text.Mathlib.TextEquality.{eq_iff}
use mathlib.Core.List.{append_assoc}
use postrule.Prelude.{
  ℕ, zero, suc, ◌+◌, ◌≤◌, ◌≡◌, refl, ap, ◌∙◌, Bool, true, false, none, some, String, List, [], ◌∷◌,
  ◌++◌, length, if◌then◌else◌, arith, Bool-cases, inl, inr,
}
use postrule.Storage.Memory.{Logs, find_log, load_records}
use postrule.Storage.Window.{find-put}
use postrule.Storage.Resilient.{
  Primary, Drain, del_log, put_rest, pop_fallback_head, drain_after, drain_round, drain_switch,
  drain_all,
}

-- What a primary backend promises: a row that it took is at the end of the rows that it keeps for
-- that switch, a row that it refused changes nothing, and it loads what it keeps.
pub record IsPrimary {P R : Type 0} (backend : Primary P R) : Type 0 where
  pub kept : String → P → List R
  pub loads :
      (name : String) (p : P) (rows : List R)
      → backend.load_records name p ≡ some rows
      → rows ≡ kept name p
  pub takes :
      (name other : String) (r : R) (p q : P)
      → backend.append_record name r p ≡ (true, q)
      → kept other q ≡ (if str_eq name other then kept name p ++ r ∷ [] else kept other p)
  pub refuses :
      (name other : String) (r : R) (p q : P)
      → backend.append_record name r p ≡ (false, q)
      → kept other q ≡ kept other p

abbrev pub tail {ℓ} : {A : Type ℓ} → List A → List A
tail [] = []
tail (x ∷ xs) = xs

module _ {R : Type 0} where
  find-del :
      (name other : String) (logs : Logs R)
      → find_log other (del_log name logs)
        ≡ (if str_eq name other then none else find_log other logs)
  unfolding find_log del_log
  find-del name other [] = ground arith
  find-del name other ((n, rows) ∷ logs) =
      ground (arith, eq_iff name other, eq_iff n name, eq_iff n other, find-del name other logs)

  load-put_rest :
      (name other : String) (rows : List R) (logs : Logs R)
      → load_records name logs ≡ rows
      → load_records other (put_rest name rows logs)
        ≡ (if str_eq name other then tail rows else load_records other logs)
  unfolding put_rest load_records
  load-put_rest name other [] logs e = elim (Bool-cases (str_eq name other)) [
    | inl b ↦ rw b (let same : name ≡ other = (eq_iff name other).0 b in rw same at e)
    | inr b ↦ rw b
  ]
  load-put_rest name other (r ∷ []) logs e = rw (find-del name other logs) (ground arith)
  load-put_rest name other (r ∷ s ∷ rest) logs e =
      rw (find-put name other (s ∷ rest) logs) (ground arith)

  pub load-pop :
      (name other : String) (logs : Logs R)
      → load_records other (pop_fallback_head name logs)
        ≡ (if str_eq name other then tail (load_records name logs) else load_records other logs)
  unfolding pop_fallback_head
  load-pop name other logs = load-put_rest name other (load_records name logs) logs refl

module _ {P R : Type 0} (backend : Primary P R) (law : IsPrimary backend) where
  -- What a reader sees of a switch: the rows that the primary keeps, then those of the fallback.
  abbrev pub view : String → P → Logs R → List R
  view name p logs = law.kept name p ++ load_records name logs

  -- Rows went from the fallback to the primary, and no reader sees it.
  pub record Moved (d e : Drain P R) : Type 0 where
    pub same_view :
        (name : String) → view name e.primary e.fallback ≡ view name d.primary d.fallback
    pub shrinks :
        (name : String)
        → length (load_records name e.fallback) ≤ length (load_records name d.fallback)

  Moved-refl : (d : Drain P R) → Moved d d
  Moved-refl d = record { same_view = λ name. refl; shrinks = λ name. omega arith }

  Moved-trans : (d e f : Drain P R) → Moved d e → Moved e f → Moved d f
  Moved-trans d e f h k = record {
    same_view = λ name. k.same_view name ∙ h.same_view name;
    shrinks = λ name. omega (arith, h.shrinks name, k.shrinks name);
  }

  refused-Moved :
      (name : String) (r : R) (d : Drain P R) (p : P)
      → backend.append_record name r d.primary ≡ (false, p)
      → Moved d (record d { primary = p })
  refused-Moved name r d p e = record {
    same_view = λ other.
        ap (λ rows. rows ++ load_records other d.fallback) (law.refuses name other r d.primary p e);
    shrinks = λ other. omega arith;
  }

  popped-Moved :
      (name : String) (r : R) (rest : List R) (d : Drain P R) (p : P)
      → load_records name d.fallback ≡ r ∷ rest
      → backend.append_record name r d.primary ≡ (true, p)
      → Moved d (record {
        primary = p;
        fallback = pop_fallback_head name d.fallback;
        drained = d.drained + 1;
      })
  popped-Moved name r rest d p held taken = record {
    same_view = λ other.
        rw (law.takes name other r d.primary p taken, load-pop name other d.fallback)
          (elim (Bool-cases (str_eq name other)) [
            | inl b ↦
                let same : name ≡ other = (eq_iff name other).0 b in
                rw (b, held)
                  (rw (← same, held) (append_assoc (law.kept name d.primary) (r ∷ []) rest))
            | inr b ↦ rw b
          ]);
    shrinks = λ other. rw (load-pop name other d.fallback) (elim (Bool-cases (str_eq name other)) [
      | inl b ↦
          let same : name ≡ other = (eq_iff name other).0 b in
          rw (b, held) (rw (← same, held) (omega arith))
      | inr b ↦ rw b (omega arith)
    ]);
  }

  drain_after-Moved :
      (again : Drain P R → Bool × Drain P R) (name : String) (r : R) (rest : List R) (d : Drain P R)
      (a : Bool × P)
      → ((e : Drain P R) → Moved e (again e).1)
      → load_records name d.fallback ≡ r ∷ rest
      → backend.append_record name r d.primary ≡ a
      → Moved d (drain_after backend again name d a).1
  unfolding drain_after
  drain_after-Moved again name r rest d (false, p) h held e = refused-Moved name r d p e
  drain_after-Moved again name r rest d (true, p) h held e =
      Moved-trans d _ _ (popped-Moved name r rest d p held e) (h _)

  drain_round-Moved :
      (again : Drain P R → Bool × Drain P R) (name : String) (d : Drain P R) (rows : List R)
      → ((e : Drain P R) → Moved e (again e).1)
      → load_records name d.fallback ≡ rows
      → Moved d (drain_round backend again name d rows).1
  unfolding drain_round
  drain_round-Moved again name d [] h held = Moved-refl d
  drain_round-Moved again name d (r ∷ rest) h held =
      drain_after-Moved again name r rest d _ h held refl

  drain_switch-Moved :
      (fuel : ℕ) (name : String) (d : Drain P R) → Moved d (drain_switch backend fuel name d).1
  unfolding drain_switch
  drain_switch-Moved zero name d = Moved-refl d
  drain_switch-Moved (suc fuel) name d =
      drain_round-Moved (drain_switch backend fuel name) name d _ (drain_switch-Moved fuel name)
        refl

  -- A loop over the switches moves rows, and nothing else.
  pub drain_all-Moved : (ns : List String) (d : Drain P R) → Moved d (drain_all backend ns d).1
  unfolding drain_all
  drain_all-Moved [] d = Moved-refl d
  drain_all-Moved (n ∷ ns) d =
      let one = drain_switch backend (length (load_records n d.fallback)) n d in
      let moved = drain_switch-Moved (length (load_records n d.fallback)) n d in
      elim (Bool-cases one.0) [
        | inl b ↦ rw b (Moved-trans d _ _ moved (drain_all-Moved ns one.1))
        | inr b ↦ rw b moved
      ]
