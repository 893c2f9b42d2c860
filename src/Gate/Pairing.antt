-- ===== src/Gate/Pairing.antt =====
-- Paired correctness: `_source_correct_for`, `_paired_correctness` and `_phase_source_field` of
-- src/postrule/gates.py.
use postrule.Prelude.{ℕ, suc, Bool, true, false, Option, none, some, List, [], ◌∷◌, if◌then◌else◌}
use postrule.Phase.{Phase}
use postrule.Record.{Value, Verdict, correct, incorrect, unknown, ClassificationRecord, label_eq}

-- The fields of a record that hold the prediction of one source.
pub data SourceField : Type 0 where
  rule_output model_output ml_output : SourceField

-- `getattr(record, source_field)`
unfoldable pub source_value : SourceField → ClassificationRecord → Option Value
source_value rule_output r = r.rule_output
source_value model_output r = r.model_output
source_value ml_output r = r.ml_output

-- `getattr(record, independent_field)`; the rule's output is never judged on its own.
unfoldable pub independent_verdict : SourceField → ClassificationRecord → Option Verdict
independent_verdict rule_output r = none
independent_verdict model_output r = r.model_outcome
independent_verdict ml_output r = r.ml_outcome

-- What the outcome of the decision tells about a source that answered `value`.
unfoldable pub correct_by_outcome : Verdict → Option Value → Option Value → Option Bool
correct_by_outcome outcome label none = none
correct_by_outcome correct label (some v) = some (label_eq (some v) label)
correct_by_outcome incorrect label (some v) = if label_eq (some v) label then some false else none
correct_by_outcome unknown label (some v) = none

-- `_source_correct_for`
unfoldable pub source_correct_for : ClassificationRecord → SourceField → Option Bool
unfolding source_value independent_verdict correct_by_outcome
source_correct_for r field = elim (independent_verdict field r) [
  | some correct ↦ some true
  | some incorrect ↦ some false
  | _ ↦ correct_by_outcome r.outcome r.label (source_value field r)
]

-- `_phase_source_field`
unfoldable pub phase_source_field : Phase → Option SourceField
phase_source_field Phase.rule = some rule_output
phase_source_field Phase.model_shadow = some rule_output
phase_source_field Phase.model_primary = some model_output
phase_source_field Phase.ml_shadow = some model_output
phase_source_field Phase.ml_with_fallback = some ml_output
phase_source_field Phase.ml_primary = some ml_output

-- One round of the loop: a row counts if both sources have an observation.
unfoldable pub add_row : Option Bool → Option Bool → List Bool × List Bool → List Bool × List Bool
add_row (some c) (some t) (cs, ts) = (c ∷ cs, t ∷ ts)
add_row _ _ rest = rest

unfoldable pub paired_rows :
    SourceField → SourceField → List ClassificationRecord → List Bool × List Bool
unfolding add_row
paired_rows fc ft [] = ([], [])
paired_rows fc ft (r ∷ rs) =
    add_row (source_correct_for r fc) (source_correct_for r ft) (paired_rows fc ft rs)

unfoldable pub paired_fields :
    Option SourceField → Option SourceField → List ClassificationRecord → List Bool × List Bool
unfolding paired_rows
paired_fields (some fc) (some ft) records = paired_rows fc ft records
paired_fields _ _ records = ([], [])

-- `_paired_correctness`: the lists of current and of target correctness
unfoldable pub paired_correctness :
    List ClassificationRecord → Phase → Phase → List Bool × List Bool
unfolding paired_fields phase_source_field
paired_correctness records current target =
    paired_fields (phase_source_field current) (phase_source_field target) records

-- `sum(flags)`
unfoldable pub count_true : List Bool → ℕ
count_true [] = 0
count_true (true ∷ xs) = suc (count_true xs)
count_true (false ∷ xs) = count_true xs

-- `sum(1 for x, y in zip(xs, ys) if (not x) and y)`
unfoldable pub count_only_second : List Bool → List Bool → ℕ
count_only_second (false ∷ xs) (true ∷ ys) = suc (count_only_second xs ys)
count_only_second (_ ∷ xs) (_ ∷ ys) = count_only_second xs ys
count_only_second _ _ = 0

-- `sum(1 for x, y in zip(xs, ys) if x and (not y))`
unfoldable pub count_only_first : List Bool → List Bool → ℕ
count_only_first (true ∷ xs) (false ∷ ys) = suc (count_only_first xs ys)
count_only_first (_ ∷ xs) (_ ∷ ys) = count_only_first xs ys
count_only_first _ _ = 0
