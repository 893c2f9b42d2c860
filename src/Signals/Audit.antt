-- ===== src/Signals/Audit.antt =====
-- Lemmas on the stored form of a signature and on its comparison (src/postrule/signals.py).
use text.Mathlib.TextEquality.{eq_iff}
use postrule.Prelude.{
  ℕ, ◌≡◌, refl, ap, if-P, true, false, Option, none, some, String, List, [], ◌∷◌,
}
use postrule.Signals.Ident.{
  Ident, Idents, nil, cons, string, jsonable, jsonable_items, HasNoArray, HaveNoArray,
  ident_eq_refl, idents_eq_refl, tuplify-jsonable,
}
use postrule.Signals.Signature.{
  GateInfo, Strategy, Attr, other_attr, null_attr, text_attr, number_attr, SignalSignature,
  opt_number, opt_string, gate_identity, sort_keys, scalar_attrs, strategy_identity, label_items,
  labels_identity, opt_text_eq, opt_ident_eq, same_core, opt_jsonable, opt_tuplify, to_audit,
  items_of, from_audit,
}
use postrule.Signals.Managed.{Managed, default_mark, signal_signature}
use postrule.Signals.Reconcile.{both_differ, rule_drifted}

pub opt_text_eq_refl : (a : Option String) → opt_text_eq a a ≡ true
unfolding opt_text_eq
opt_text_eq_refl none = refl
opt_text_eq_refl (some s) = (eq_iff s s).1 refl

opt_ident_eq_refl : (a : Option Ident) → opt_ident_eq a a ≡ true
unfolding opt_ident_eq
opt_ident_eq_refl none = refl
opt_ident_eq_refl (some a) = ident_eq_refl a

both_differ_self : (a : Option String) → both_differ a a ≡ false
unfolding both_differ
both_differ_self none = refl
both_differ_self (some s) = rw ((eq_iff s s).1 refl) refl

pub same_core_refl : (s : SignalSignature) → same_core s s ≡ true
unfolding same_core
same_core_refl s =
    rw
      (
        opt_text_eq_refl s.judge_id,
        idents_eq_refl s.gate_id,
        opt_ident_eq_refl s.strategy_id,
        opt_ident_eq_refl s.labels_id,
        opt_text_eq_refl s.rule_version_id,
      )
      refl

pub rule_drifted_self : (s : SignalSignature) → rule_drifted s s ≡ false
unfolding rule_drifted
rule_drifted_self s = both_differ_self s.rule_drift_digest

abbrev OptTuples : Option Ident → Type 0
OptTuples none = Unit
OptTuples (some a) = HasNoArray a

opt_tuplify-opt_jsonable : (a : Option Ident) → OptTuples a → opt_tuplify (opt_jsonable a) ≡ a
unfolding opt_tuplify opt_jsonable
opt_tuplify-opt_jsonable none h = refl
opt_tuplify-opt_jsonable (some a) h = ap some (tuplify-jsonable a h)

scalar_attrs-HaveNoArray : (ps : List (String × Attr)) → HaveNoArray (scalar_attrs ps)
unfolding scalar_attrs
scalar_attrs-HaveNoArray [] = tt
scalar_attrs-HaveNoArray ((k, other_attr) ∷ ps) = scalar_attrs-HaveNoArray ps
scalar_attrs-HaveNoArray ((k, null_attr) ∷ ps) = ((tt, (tt, tt)), scalar_attrs-HaveNoArray ps)
scalar_attrs-HaveNoArray ((k, text_attr s) ∷ ps) = ((tt, (tt, tt)), scalar_attrs-HaveNoArray ps)
scalar_attrs-HaveNoArray ((k, number_attr n) ∷ ps) = ((tt, (tt, tt)), scalar_attrs-HaveNoArray ps)

opt_string-HasNoArray : (o : Option String) → HasNoArray (opt_string o)
unfolding opt_string
opt_string-HasNoArray none = tt
opt_string-HasNoArray (some s) = tt

label_items-HaveNoArray : (ps : List (String × Option String)) → HaveNoArray (label_items ps)
unfolding label_items
label_items-HaveNoArray [] = tt
label_items-HaveNoArray ((n, o) ∷ ps) =
    ((tt, (opt_string-HasNoArray o, tt)), label_items-HaveNoArray ps)

strategy_identity-OptTuples : (s : Option Strategy) → OptTuples (strategy_identity s)
unfolding strategy_identity
strategy_identity-OptTuples none = tt
strategy_identity-OptTuples (some s) = (tt, (scalar_attrs-HaveNoArray (sort_keys s.attrs), tt))

labels_identity-OptTuples : (ps : List (String × Option String)) → OptTuples (labels_identity ps)
unfolding labels_identity
labels_identity-OptTuples [] = tt
labels_identity-OptTuples (p ∷ ps) = label_items-HaveNoArray _

jsonable-opt_string : (o : Option String) → jsonable (opt_string o) ≡ opt_string o
unfolding jsonable opt_string
jsonable-opt_string none = refl
jsonable-opt_string (some s) = refl

jsonable-opt_number : (o : Option ℕ) → jsonable (opt_number o) ≡ opt_number o
unfolding jsonable opt_number
jsonable-opt_number none = refl
jsonable-opt_number (some n) = refl

jsonable_items-gate_identity :
    (g : Option GateInfo) → jsonable_items (gate_identity g) ≡ gate_identity g
unfolding jsonable_items gate_identity
jsonable_items-gate_identity none = refl
jsonable_items-gate_identity (some g) =
    rw (jsonable-opt_number g.alpha, jsonable-opt_number g.min_paired) refl

jsonable_items-default :
    (v : Option String)
    → let ids = cons (string default_mark) (cons (opt_string v) nil) in jsonable_items ids ≡ ids
unfolding jsonable_items
jsonable_items-default v = rw (jsonable-opt_string v) refl

-- The signature of any switch, stored as JSON and read back, is the signature again.
pub from_audit-to_audit :
    {S : Type 0} (m : Managed S) → from_audit (to_audit (signal_signature m)) ≡ signal_signature m
unfolding from_audit to_audit items_of signal_signature
from_audit-to_audit m =
    rw
      (
        opt_tuplify-opt_jsonable (strategy_identity m.head_strategy)
            (strategy_identity-OptTuples m.head_strategy),
        opt_tuplify-opt_jsonable (labels_identity m.labels) (labels_identity-OptTuples m.labels),
        if-P (λ (ids : Idents). jsonable_items ids ≡ ids) m.gate_is_default _ _
            (jsonable_items-default m.default_set_version) (jsonable_items-gate_identity m.gate),
      )
      refl
