-- ===== src/Gate/Unjudged.antt =====
-- Lemmas on rows of the log that nobody judged, for `_paired_correctness` of src/postrule/gates.py.
use postrule.Prelude.{
  ◌≡◌, refl, Bool, true, false, ◌||◌, Option, none, some, List, [], ◌∷◌, select, arith, Bool-cases,
  inl, inr,
}
use postrule.Phase.{Phase}
use postrule.Record.{Verdict, unknown, ClassificationRecord}
use postrule.Gate.Pairing.{
  SourceField, rule_output, model_output, ml_output, source_correct_for, paired_rows, paired_fields,
  paired_correctness, phase_source_field,
}

abbrev pub is_judgement : Verdict → Bool
is_judgement unknown = false
is_judgement _ = true

abbrev pub is_own_judgement : Option Verdict → Bool
is_own_judgement none = false
is_own_judgement (some v) = is_judgement v

-- The decision or one of its shadow layers was judged.
abbrev pub is_judged : ClassificationRecord → Bool
is_judged r =
    is_judgement r.outcome || is_own_judgement r.model_outcome || is_own_judgement r.ml_outcome

source_correct_for_unjudged :
    (r : ClassificationRecord) (f : SourceField)
    → is_judged r ≡ false
    → source_correct_for r f ≡ none
unfolding source_correct_for
source_correct_for_unjudged r rule_output h = ground arith
source_correct_for_unjudged r model_output h = ground arith
source_correct_for_unjudged r ml_output h = ground arith

paired_rows-select :
    (fc ft : SourceField) (rs : List ClassificationRecord)
    → paired_rows fc ft (select is_judged rs) ≡ paired_rows fc ft rs
unfolding paired_rows select
paired_rows-select fc ft [] = refl
paired_rows-select fc ft (r ∷ rs) = elim (Bool-cases (is_judged r)) [
  | inl e ↦ rw e (rw (paired_rows-select fc ft rs))
  | inr e ↦ rw (e, source_correct_for_unjudged r fc e) (paired_rows-select fc ft rs)
]

paired_fields-select :
    (fc ft : Option SourceField) (rs : List ClassificationRecord)
    → paired_fields fc ft (select is_judged rs) ≡ paired_fields fc ft rs
unfolding paired_fields
paired_fields-select (some fc) (some ft) rs = paired_rows-select fc ft rs
paired_fields-select none ft rs = refl
paired_fields-select (some fc) none rs = refl

-- The paired evidence of a log is that of its judged rows: the UNKNOWN rows that every call
-- appends are no evidence between any two phases.
pub paired-select :
    (rs : List ClassificationRecord) (current target : Phase)
    → paired_correctness (select is_judged rs) current target ≡ paired_correctness rs current target
unfolding paired_correctness
paired-select rs current target =
    paired_fields-select (phase_source_field current) (phase_source_field target) rs
