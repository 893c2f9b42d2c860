-- ===== src/Signals/Signature.antt =====
-- `SignalSignature` of src/postrule/signals.py: how it is built from the parts of a switch, compared,
-- and stored.
use text.Mathlib.Text.{◌==◌ as str_eq}
use postrule.Prelude.{
  ℕ, Bool, true, false, ◌&&◌, ◌||◌, not, Option, none, some, String, List, [], ◌∷◌, ◌++◌,
  if◌then◌else◌,
}
use postrule.Record.{codes}
use postrule.Storage.Resilient.{codes_lt}
use postrule.Switch.State.{GateCall}
use postrule.Signals.Ident.{
  Ident, null, string, number, tuple, array, Idents, nil, cons, ident_eq, idents_eq, jsonable,
  jsonable_items, tuplify,
}

-- A gate as its identity and `evaluate` show it: the class name, `alpha`, `min_paired` and the call.
pub record GateInfo : Type 0 where
  pub name : String
  pub alpha : Option ℕ
  pub min_paired : Option ℕ
  pub evaluate : GateCall

-- An instance attribute of a head strategy: a scalar, or `other`.
pub data Attr : Type 0 where
  other_attr null_attr : Attr
  text_attr : String → Attr
  number_attr : ℕ → Attr

pub record Strategy : Type 0 where
  pub name : String
  pub attrs : List (String × Attr)

-- What `head.model_version` does.
pub data Version : Type 0 where
  no_method raises_error : Version
  says : Option String → Version

pub record SignalSignature : Type 0 where
  pub judge_id : Option String
  pub gate_id : Idents
  pub strategy_id : Option Ident
  pub ml_head_version : Option String
  pub labels_id : Option Ident
  pub rule_version_id : Option String
  pub rule_drift_digest : Option String

unfoldable pub opt_number : Option ℕ → Ident
opt_number none = null
opt_number (some n) = number n

unfoldable pub opt_string : Option String → Ident
opt_string none = null
opt_string (some s) = string s

-- `_gate_identity`
unfoldable pub gate_identity : Option GateInfo → Idents
unfolding opt_number
gate_identity none = cons (string "None") nil
gate_identity (some g) =
    cons (string g.name) (cons (opt_number g.alpha) (cons (opt_number g.min_paired) nil))

-- `sorted(d)`: keys differ
unfoldable pub insert_key : String × Attr → List (String × Attr) → List (String × Attr)
unfolding codes_lt
insert_key p [] = p ∷ []
insert_key (k, v) ((l, w) ∷ ps) =
    let rest = insert_key (k, v) ps in
    if codes_lt (codes l) (codes k) then (l, w) ∷ rest else (k, v) ∷ (l, w) ∷ ps

unfoldable pub sort_keys : List (String × Attr) → List (String × Attr)
unfolding insert_key
sort_keys [] = []
sort_keys (p ∷ ps) = insert_key p (sort_keys ps)

unfoldable pub pair_of : String → Ident → Ident
pair_of s v = tuple (cons (string s) (cons v nil))

unfoldable pub scalar_attrs : List (String × Attr) → Idents
unfolding pair_of
scalar_attrs [] = nil
scalar_attrs ((k, other_attr) ∷ ps) = scalar_attrs ps
scalar_attrs ((k, null_attr) ∷ ps) = cons (pair_of k null) (scalar_attrs ps)
scalar_attrs ((k, text_attr s) ∷ ps) = cons (pair_of k (string s)) (scalar_attrs ps)
scalar_attrs ((k, number_attr n) ∷ ps) = cons (pair_of k (number n)) (scalar_attrs ps)

-- `_strategy_identity`
unfoldable pub strategy_identity : Option Strategy → Option Ident
unfolding scalar_attrs sort_keys
strategy_identity none = none
strategy_identity (some s) =
    some (tuple (cons (string s.name) (cons (tuple (scalar_attrs (sort_keys s.attrs))) nil)))

-- `a < b` on `(name, on)`. Python compares no text with `None`; labels of one name have both.
unfoldable pub label_lt : String × Option String → String × Option String → Bool
unfolding codes_lt
label_lt (a, some x) (b, some y) =
    codes_lt (codes a) (codes b)
    || not (codes_lt (codes b) (codes a)) && codes_lt (codes x) (codes y)
label_lt (a, _) (b, _) = codes_lt (codes a) (codes b)

unfoldable pub insert_label :
    String × Option String → List (String × Option String) → List (String × Option String)
unfolding label_lt
insert_label p [] = p ∷ []
insert_label p (q ∷ qs) =
    let rest = insert_label p qs in if label_lt q p then q ∷ rest else p ∷ q ∷ qs

unfoldable pub sort_labels : List (String × Option String) → List (String × Option String)
unfolding insert_label
sort_labels [] = []
sort_labels (p ∷ ps) = insert_label p (sort_labels ps)

unfoldable pub label_items : List (String × Option String) → Idents
unfolding pair_of opt_string
label_items [] = nil
label_items ((n, shown) ∷ ps) = cons (pair_of n (opt_string shown)) (label_items ps)

-- `_labels_identity`, of the labels' names and of `repr(on)` where a label has a condition
unfoldable pub labels_identity : List (String × Option String) → Option Ident
unfolding label_items sort_labels
labels_identity [] = none
labels_identity (p ∷ ps) = some (tuple (label_items (sort_labels (p ∷ ps))))

-- `_head_version`
unfoldable pub head_version : Option Version → Option String
head_version none = none
head_version (some no_method) = none
head_version (some raises_error) = none
head_version (some (says v)) = v

unfoldable pub opt_text_eq : Option String → Option String → Bool
opt_text_eq none none = true
opt_text_eq (some s) (some t) = str_eq s t
opt_text_eq _ _ = false

unfoldable pub opt_ident_eq : Option Ident → Option Ident → Bool
unfolding ident_eq
opt_ident_eq none none = true
opt_ident_eq (some a) (some b) = ident_eq a b
opt_ident_eq _ _ = false

-- `a.core_identity() == b.core_identity()`
unfoldable pub same_core : SignalSignature → SignalSignature → Bool
unfolding opt_text_eq opt_ident_eq idents_eq
same_core a b =
    opt_text_eq a.judge_id b.judge_id
    && (idents_eq a.gate_id b.gate_id
        && (opt_ident_eq a.strategy_id b.strategy_id
            && (opt_ident_eq a.labels_id b.labels_id
                && opt_text_eq a.rule_version_id b.rule_version_id)))

pub data Component : Type 0 where
  judge gate strategy labels rule : Component

unfoldable pub when_differs : Bool → Component → List Component
when_differs same c = if same then [] else c ∷ []

-- `changed_components`
unfoldable pub changed_components : SignalSignature → SignalSignature → List Component
unfolding when_differs opt_text_eq opt_ident_eq idents_eq
changed_components a b =
    when_differs (opt_text_eq a.judge_id b.judge_id) judge
    ++ (when_differs (idents_eq a.gate_id b.gate_id) gate
        ++ (when_differs (opt_ident_eq a.strategy_id b.strategy_id) strategy
            ++ (when_differs (opt_ident_eq a.labels_id b.labels_id) labels
                ++ when_differs (opt_text_eq a.rule_version_id b.rule_version_id) rule)))

-- What `to_audit` gives and JSON gives back.
pub record Audit : Type 0 where
  pub judge_id : Option String
  pub gate_id : Ident
  pub strategy_id : Option Ident
  pub ml_head_version : Option String
  pub labels_id : Option Ident
  pub rule_version_id : Option String
  pub rule_drift_digest : Option String

unfoldable pub opt_jsonable : Option Ident → Option Ident
unfolding jsonable
opt_jsonable none = none
opt_jsonable (some a) = some (jsonable a)

-- `_tuplify(v) if v is not None else None`
unfoldable pub opt_tuplify : Option Ident → Option Ident
unfolding tuplify
opt_tuplify none = none
opt_tuplify (some a) = some (tuplify a)

-- `to_audit`, through `json.dumps` and `json.loads`, which make lists of the tuples inside `gate_id`
unfoldable pub to_audit : SignalSignature → Audit
unfolding opt_jsonable jsonable_items
to_audit s = record {
  judge_id = s.judge_id;
  gate_id = array (jsonable_items s.gate_id);
  strategy_id = opt_jsonable s.strategy_id;
  ml_head_version = s.ml_head_version;
  labels_id = opt_jsonable s.labels_id;
  rule_version_id = s.rule_version_id;
  rule_drift_digest = s.rule_drift_digest;
}

-- `tuple(v or ())`: only a list has items here
unfoldable pub items_of : Ident → Idents
items_of (array xs) = xs
items_of (tuple xs) = xs
items_of _ = nil

-- `from_audit`
unfoldable pub from_audit : Audit → SignalSignature
unfolding opt_tuplify items_of
from_audit d = record {
  judge_id = d.judge_id;
  gate_id = items_of d.gate_id;
  strategy_id = opt_tuplify d.strategy_id;
  ml_head_version = d.ml_head_version;
  labels_id = opt_tuplify d.labels_id;
  rule_version_id = d.rule_version_id;
  rule_drift_digest = d.rule_drift_digest;
}
