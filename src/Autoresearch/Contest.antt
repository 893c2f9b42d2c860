-- ===== src/Autoresearch/Contest.antt =====
-- `Tournament` of src/postrule/autoresearch.py. What the candidates and the oracle answer to an input
-- are arguments, as is which of them can be called.
use text.Mathlib.Text.{◌==◌ as str_eq}
use postrule.Prelude.{
  ℕ, zero, suc, ◌+◌, Bool, true, false, not, ◌&&◌, ◌||◌, Option, none, some, String, List, [], ◌∷◌,
  ◌++◌, map, ltb, leb, if◌then◌else◌, length, all, select,
}
use postrule.Num.{Real, zero_real, one_real, lt_real, max_real}
use postrule.Record.{Value, label_eq, codes, is_empty}
use postrule.Gate.Pairing.{count_true, count_only_first, count_only_second}
use postrule.Storage.Memory.{Logs, load_records, append_record}
use postrule.Switch.Result.{
  Attempt, answered, failed, exits, Outcome, returned, raised, value_error, type_error, system_exit,
}
use postrule.Autoresearch.{CandidateReport, accuracy, mcnemar_p_value, is_right}

-- `tie_at_top`, `no_candidate_swept` and the empty text
pub data Reason : Type 0 where
  no_reason no_candidate_swept tie_at_top : Reason

pub record Tournament : Type 0 where
  pub alpha : Real
  pub candidates : List String
  pub observations : Logs Bool
  pub n_observed : ℕ
  -- the predictions on each input, in the order of the candidates
  pub predictions : List (List (Option Value))

pub record TournamentReport : Type 0 where
  pub winner : Option String
  pub unanimous : Bool
  pub accuracies : List (String × Real)
  pub paired_observations : ℕ
  pub pairwise_reports : List ((String × String) × CandidateReport)
  pub reason : Reason

-- The loop of `__init__` over the candidates.
unfoldable pub check_candidates : (String → Bool) → List String → Outcome (Unit {0})
unfolding is_empty
check_candidates callable [] = returned tt
check_candidates callable (name ∷ names) =
    let rest = check_candidates callable names in
    if is_empty (codes name)
    then raised value_error
    else if not (callable name)
    then raised type_error
    else rest

unfoldable pub opened : Real → List String → Outcome (Unit {0}) → Outcome Tournament
opened alpha names (raised e) = raised e
opened alpha names (returned u) = returned (record {
  alpha = alpha;
  candidates = names;
  observations = map (λ (n : String). (n, [])) names;
  n_observed = 0;
  predictions = [];
})

-- `__init__`
unfoldable pub open_tournament : (String → Bool) → Bool → Real → List String → Outcome Tournament
unfolding check_candidates opened lt_real
open_tournament callable oracle_callable alpha names =
    if ltb (length names) 2 || not (lt_real zero_real alpha && lt_real alpha one_real)
    then raised value_error
    else if not oracle_callable
    then raised type_error
    else opened alpha names (check_candidates callable names)

-- `pred` after the `try` block; none if the candidate exits the process
unfoldable pub prediction_of : Attempt (Option Value) → Option (Option Value)
prediction_of (answered v) = some v
prediction_of (failed e) = some none
prediction_of exits = none

-- The end of `observe`.
unfoldable pub close_round : List (Option Value) → Tournament → Tournament
close_round preds t = record t {
  n_observed = t.n_observed + 1;
  predictions = t.predictions ++ preds ∷ [];
}

-- The loop of `observe`; an exit leaves it in the middle, with rows appended.
unfoldable pub ask_each :
    Option Value
    → (String → Attempt (Option Value))
    → List String
    → List (Option Value)
    → Tournament
    → Outcome (Unit {0}) × Tournament
unfolding close_round is_right prediction_of append_record
ask_each truth answers [] preds t = (returned tt, close_round preds t)
ask_each truth answers (name ∷ names) preds t = elim (is_right truth (answers name)) [
  | none ↦ (raised system_exit, t)
  | some right ↦ elim (prediction_of (answers name)) [
    | none ↦ (raised system_exit, t)
    | some pred ↦
        ask_each truth answers names (preds ++ pred ∷ [])
          (record t { observations = append_record name right t.observations })
  ]
]

-- `observe`
unfoldable pub observe_all :
    Outcome (Option Value)
    → (String → Attempt (Option Value))
    → Tournament
    → Outcome (Unit {0}) × Tournament
unfolding ask_each
observe_all (raised e) answers t = (raised e, t)
observe_all (returned truth) answers t = ask_each truth answers t.candidates [] t

-- `len(set(values)) == 1`
unfoldable pub all_same : List (Option Value) → Bool
unfolding all label_eq
all_same [] = false
all_same (v ∷ vs) = all (label_eq v) vs

unfoldable pub is_unanimous : Tournament → Bool
unfolding all all_same
is_unanimous t = leb 1 (length t.predictions) && all all_same t.predictions

abbrev take : ℕ → List Bool → List Bool
take zero xs = []
take (suc n) [] = []
take (suc n) (x ∷ xs) = x ∷ take n xs

-- The report on one pair; the counts `b` and `c` read the first `n` rows.
unfoldable pub pair_report : Real → ℕ → List Bool → List Bool → CandidateReport
unfolding count_true count_only_first count_only_second mcnemar_p_value accuracy lt_real
pair_report alpha n chal base =
    let b = count_only_second (take n base) (take n chal) in
    let c = count_only_first (take n base) (take n chal) in
    let p = mcnemar_p_value b c in
    record {
      paired_observations = n;
      prod_correct = count_true base;
      candidate_correct = count_true chal;
      b = b;
      c = c;
      p_value = p;
      recommend_promote =
          lt_real p alpha && lt_real (accuracy (count_true base) n) (accuracy (count_true chal) n);
    }

unfoldable pub pairwise : Tournament → String → String → CandidateReport
unfolding pair_report load_records
pairwise t challenger baseline =
    pair_report t.alpha t.n_observed (load_records challenger t.observations)
      (load_records baseline t.observations)

unfoldable pub beats : Tournament → String → String → Bool
unfolding pairwise
beats t challenger baseline = (pairwise t challenger baseline).recommend_promote

-- `beats_all`
unfoldable pub beats_all : Tournament → String → Bool
unfolding all beats
beats_all t name = all (λ (other : String). str_eq other name || beats t name other) t.candidates

-- The loop for the winner.
unfoldable pub first_sweep : Tournament → List String → Option String
unfolding beats_all
first_sweep t [] = none
first_sweep t (name ∷ names) =
    let rest = first_sweep t names in if beats_all t name then some name else rest

unfoldable pub accuracies : Tournament → List (String × Real)
unfolding accuracy count_true load_records
accuracies t =
    map (λ (n : String). (n, accuracy (count_true (load_records n t.observations)) t.n_observed))
      t.candidates

unfoldable pub top_of : Real → List (String × Real) → Real
unfolding max_real
top_of best [] = best
top_of best ((n, a) ∷ rest) = top_of (max_real best a) rest

unfoldable pub at_top : Real → String × Real → Bool
unfolding lt_real
at_top top (n, a) = not (lt_real a top) && not (lt_real top a)

-- The reason, where nobody won.
unfoldable pub no_winner_reason : List (String × Real) → Reason
unfolding top_of at_top select
no_winner_reason [] = no_candidate_swept
no_winner_reason ((n, a) ∷ rest) =
    if ltb 1 (length (select (at_top (top_of a rest)) ((n, a) ∷ rest)))
    then tie_at_top
    else no_candidate_swept

-- The round robin, each challenger against each other name.
unfoldable pub against :
    Tournament → String → List String → List ((String × String) × CandidateReport)
unfolding pairwise
against t challenger [] = []
against t challenger (baseline ∷ names) =
    let rest = against t challenger names in
    if str_eq challenger baseline
    then rest
    else ((challenger, baseline), pairwise t challenger baseline) ∷ rest

unfoldable pub round_robin : Tournament → List String → List ((String × String) × CandidateReport)
unfolding against
round_robin t [] = []
round_robin t (name ∷ names) = against t name t.candidates ++ round_robin t names

unfoldable pub reason_for : Option String → List (String × Real) → Reason
unfolding no_winner_reason
reason_for (some w) accs = no_reason
reason_for none accs = no_winner_reason accs

-- `names[0]`; a tournament has two candidates or more.
unfoldable pub first_name : List String → Option String
first_name [] = none
first_name (n ∷ ns) = some n

-- `evaluate`
unfoldable pub evaluate_tournament : Tournament → TournamentReport
unfolding is_unanimous first_name accuracies first_sweep round_robin reason_for
evaluate_tournament t =
    let accs = accuracies t in
    if is_unanimous t
    then record {
      winner = first_name t.candidates;
      unanimous = true;
      accuracies = accs;
      paired_observations = t.n_observed;
      pairwise_reports = [];
      reason = no_reason;
    }
    else record {
      winner = first_sweep t t.candidates;
      unanimous = false;
      accuracies = accs;
      paired_observations = t.n_observed;
      pairwise_reports = round_robin t t.candidates;
      reason = reason_for (first_sweep t t.candidates) accs;
    }
