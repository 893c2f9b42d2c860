-- ===== src/Gate/Shadow.antt =====
-- `ShadowUnderperformanceGate` of src/postrule/gates.py: when a shadow tier is to be switched off, and
-- when it is to come back.
use postrule.Prelude.{
  ℕ, Bool, true, false, ◌&&◌, not, Option, none, some, String, List, [], ◌∷◌, length, ltb,
  if◌then◌else◌,
}
use text.Mathlib.Text.{◌==◌ as str_eq}
use postrule.Num.{Real, ratio, lt_real, le_real, sub_real}
use postrule.Record.{Value, Verdict, correct, ClassificationRecord, label_eq}
use postrule.Gate.Pairing.{
  SourceField, source_value, count_true, count_only_first, count_only_second,
}
use postrule.Gate.Mcnemar.{mcnemar_p}

-- The cases of the text that explains an assessment, with the numbers that it shows.
pub data ShadowRationale : Type 0 where
  warming_up : ℕ → ℕ → ShadowRationale
  rule_dominates shadow_competes : Real → ShadowRationale
  no_dominance : Option Real → ShadowRationale
  rule_edited : String → String → ShadowRationale
  no_basis : ℕ → ℕ → Bool → ShadowRationale
  rule_drifted rule_holds : Real → Real → ShadowRationale

pub record ShadowAssessment : Type 0 where
  pub recommend_disable : Bool
  pub rationale : ShadowRationale
  pub p_value : Option Real
  pub paired_sample_size : ℕ
  pub rule_accuracy : Option Real
  pub model_accuracy : Option Real
  pub rule_wins : ℕ
  pub shadow_wins : ℕ
  pub shadow_cost_per_call_usd : Option Real

pub record ShadowRestartAssessment : Type 0 where
  pub recommend_restart : Bool
  pub rationale : ShadowRationale
  pub rule_changed : Bool
  pub drift_detected : Bool
  pub rule_accuracy_recent : Option Real
  pub rule_accuracy_at_disable : Option Real
  pub paired_sample_size : ℕ

-- One round of the loop of `assess`, on the outcome, the label and both outputs of the row.
unfoldable pub add_pair :
    Verdict
    → Option Value
    → Option Value
    → Option Value
    → List Bool × List Bool
    → List Bool × List Bool
unfolding label_eq
add_pair correct label (some ru) (some sh) (rules, shadows) =
    (label_eq (some ru) label ∷ rules, label_eq (some sh) label ∷ shadows)
add_pair _ _ _ _ rest = rest

unfoldable pub shadow_pairs : SourceField → List ClassificationRecord → List Bool × List Bool
unfolding add_pair source_value
shadow_pairs field [] = ([], [])
shadow_pairs field (r ∷ rs) =
    add_pair r.outcome r.label r.rule_output (source_value field r) (shadow_pairs field rs)

-- `p is not None and p < alpha`
unfoldable pub is_below : Real → Option Real → Bool
unfolding lt_real
is_below alpha none = false
is_below alpha (some p) = lt_real p alpha

-- The text for a p-value that is below alpha, or not, or missing.
unfoldable pub explain : Bool → Bool → Option Real → ShadowRationale
explain disable below none = ShadowRationale.no_dominance none
explain disable below (some p) =
    if disable
    then ShadowRationale.rule_dominates p
    else if below
    then ShadowRationale.shadow_competes p
    else ShadowRationale.no_dominance (some p)

-- The end of `assess`, on a p-value.
unfoldable pub assess_p :
    Real → Option Real → List Bool × List Bool → Option Real → ShadowAssessment
unfolding is_below explain
assess_p alpha cost (rules, shadows) p =
    let below = is_below alpha p in
    let disable = below && ltb (count_only_second rules shadows) (count_only_first rules shadows) in
    record {
      recommend_disable = disable;
      rationale = explain disable below p;
      p_value = p;
      paired_sample_size = length rules;
      rule_accuracy = some (ratio (count_true rules) (length rules));
      model_accuracy = some (ratio (count_true shadows) (length rules));
      rule_wins = count_only_first rules shadows;
      shadow_wins = count_only_second rules shadows;
      shadow_cost_per_call_usd = cost;
    }

-- `normal_tail` is the tail of the normal approximation in `mcnemar_p`.
module _ (normal_tail : ℕ → ℕ → Real) where
  unfoldable pub assess_pairs : Real → ℕ → Option Real → List Bool × List Bool → ShadowAssessment
  unfolding assess_p
  assess_pairs alpha min_paired cost (rules, shadows) =
      if ltb (length rules) min_paired
      then record {
        recommend_disable = false;
        rationale = ShadowRationale.warming_up (length rules) min_paired;
        p_value = none;
        paired_sample_size = length rules;
        rule_accuracy = none;
        model_accuracy = none;
        rule_wins = 0;
        shadow_wins = 0;
        shadow_cost_per_call_usd = cost;
      }
      else assess_p alpha cost (rules, shadows) (mcnemar_p normal_tail rules shadows)

  -- `assess`
  unfoldable pub assess :
      Real → ℕ → SourceField → List ClassificationRecord → Option Real → ShadowAssessment
  unfolding assess_pairs shadow_pairs
  assess alpha min_paired field records cost =
      assess_pairs alpha min_paired cost (shadow_pairs field records)

-- `_rule_correct`
unfoldable pub add_rule_row : Verdict → Option Value → Option Value → List Bool → List Bool
unfolding label_eq
add_rule_row correct label (some ru) rest = label_eq (some ru) label ∷ rest
add_rule_row _ _ _ rest = rest

unfoldable pub rule_rows : List ClassificationRecord → List Bool
unfolding add_rule_row
rule_rows [] = []
rule_rows (r ∷ rs) = add_rule_row r.outcome r.label r.rule_output (rule_rows rs)

-- Both fingerprints are known and differ.
unfoldable pub is_edited : Option String → Option String → Bool
is_edited (some before) (some now) = not (str_eq before now)
is_edited _ _ = false

unfoldable pub fingerprint : Option String → String
fingerprint none = ""
fingerprint (some s) = s

-- `sum(rule_correct) / n if n else None`
unfoldable pub accuracy_of : List Bool → Option Real
accuracy_of [] = none
accuracy_of (x ∷ xs) = some (ratio (count_true (x ∷ xs)) (length (x ∷ xs)))

unfoldable pub no_drift_basis : ℕ → Option Real → List Bool → ShadowRestartAssessment
unfolding accuracy_of
no_drift_basis min_paired baseline rules = record {
  recommend_restart = false;
  rationale =
      ShadowRationale.no_basis (length rules) min_paired
        (elim baseline [ none ↦ false | some _ ↦ true ]);
  rule_changed = false;
  drift_detected = false;
  rule_accuracy_recent = accuracy_of rules;
  rule_accuracy_at_disable = baseline;
  paired_sample_size = length rules;
}

unfoldable pub judge_drift : Real → Real → List Bool → ShadowRestartAssessment
unfolding le_real sub_real
judge_drift drop baseline rules =
    let recent = ratio (count_true rules) (length rules) in
    let drift = le_real drop (sub_real baseline recent) in
    record {
      recommend_restart = drift;
      rationale =
          if drift
          then ShadowRationale.rule_drifted recent baseline
          else ShadowRationale.rule_holds recent baseline;
      rule_changed = false;
      drift_detected = drift;
      rule_accuracy_recent = some recent;
      rule_accuracy_at_disable = some baseline;
      paired_sample_size = length rules;
    }

unfoldable pub restart_unedited : ℕ → Option Real → Real → List Bool → ShadowRestartAssessment
unfolding no_drift_basis judge_drift
restart_unedited min_paired none drop rules = no_drift_basis min_paired none rules
restart_unedited min_paired (some baseline) drop rules =
    if ltb (length rules) min_paired
    then no_drift_basis min_paired (some baseline) rules
    else judge_drift drop baseline rules

-- `should_restart`
unfoldable pub should_restart :
    ℕ
    → List ClassificationRecord
    → Option String
    → Option String
    → Option Real
    → Real
    → ShadowRestartAssessment
unfolding is_edited fingerprint restart_unedited rule_rows
should_restart min_paired records before now baseline drop =
    if is_edited before now
    then record {
      recommend_restart = true;
      rationale = ShadowRationale.rule_edited (fingerprint before) (fingerprint now);
      rule_changed = true;
      drift_detected = false;
      rule_accuracy_recent = none;
      rule_accuracy_at_disable = baseline;
      paired_sample_size = 0;
    }
    else restart_unedited min_paired baseline drop (rule_rows records)
