-- ===== src/Autoresearch.antt =====
-- `CandidateHarness` of src/postrule/autoresearch.py. What a candidate, the switch and the oracle answer
-- to one input are arguments. Evidence holds lemmas on its reports, Contest is `Tournament`, and Winner
-- holds lemmas on who wins.
pub mod Evidence
pub mod Contest
pub mod Winner
use text.Mathlib.Text.{◌==◌ as str_eq}
use postrule.Prelude.{
  ℕ, ◌+◌, Bool, false, not, ◌&&◌, ◌||◌, Option, none, some, String, List, [], ◌∷◌, ◌++◌, ◌==◌,
  if◌then◌else◌, length, any, select,
}
use postrule.Num.{Real, ratio, zero_real, one_real, lt_real}
use postrule.Record.{Value, label_eq, codes, is_empty}
use postrule.Gate.Mcnemar.{exact_p}
use postrule.Storage.Memory.{Logs, put_log, load_records}
use postrule.Storage.Resilient.{del_log}
use postrule.Switch.Result.{
  Attempt, answered, failed, exits, Outcome, returned, raised, value_error, type_error, key_error,
  system_exit,
}

-- `_mcnemar_p_value`, in exact fractions. The code computes in doubles, where a binomial coefficient above
-- the largest double raises an OverflowError, from about 1030 disagreements on.
unfoldable pub mcnemar_p_value : ℕ → ℕ → Real
unfolding exact_p
mcnemar_p_value b c = if (b + c) == 0 then one_real else exact_p b c

-- `_Observation`, less the labels, which nothing reads again
pub record Observation : Type 0 where
  pub prod_correct : Bool
  pub candidate_correct : Bool

pub record CandidateReport : Type 0 where
  pub paired_observations : ℕ
  pub prod_correct : ℕ
  pub candidate_correct : ℕ
  pub b : ℕ
  pub c : ℕ
  pub p_value : Real
  pub recommend_promote : Bool

-- Names stand in the order of registration.
pub record Harness : Type 0 where
  pub alpha : Real
  pub names : List String
  pub observations : Logs Observation
  pub already_recommended : List String
  -- the reports that went to the callback, the newest first
  pub notified : List (String × CandidateReport)

-- `__init__`
unfoldable pub open_harness : Bool → Real → Outcome Harness
unfolding lt_real
open_harness oracle_callable alpha =
    if not (lt_real zero_real alpha && lt_real alpha one_real)
    then raised value_error
    else if not oracle_callable
    then raised type_error
    else returned (record {
      alpha = alpha;
      names = [];
      observations = [];
      already_recommended = [];
      notified = [];
    })

unfoldable pub has_name : String → List String → Bool
unfolding any
has_name name names = any (λ (n : String). str_eq n name) names

-- `register`
unfoldable pub register : Bool → String → Harness → Outcome (Unit {0}) × Harness
unfolding has_name put_log is_empty
register callable name h =
    if is_empty (codes name) || has_name name h.names
    then (raised value_error, h)
    else if not callable
    then (raised type_error, h)
    else (
      returned tt,
      record h { names = h.names ++ name ∷ []; observations = put_log name [] h.observations },
    )

unfoldable pub without : String → List String → List String
unfolding select
without name names = select (λ (n : String). not (str_eq n name)) names

-- `unregister`
unfoldable pub unregister : String → Harness → Harness
unfolding without del_log
unregister name h = record h {
  names = without name h.names;
  observations = del_log name h.observations;
  already_recommended = without name h.already_recommended;
}

-- `cand_label is not None and cand_label == true_label`; none if the candidate exits the process
unfoldable pub is_right : Option Value → Attempt (Option Value) → Option Bool
unfolding label_eq
is_right truth (answered none) = some false
is_right truth (answered (some v)) = some (label_eq (some v) truth)
is_right truth (failed e) = some false
is_right truth exits = none

unfoldable pub observe_one :
    (Harness → Outcome (Unit {0}) × Harness)
    → Bool
    → String
    → Harness
    → Option Bool
    → Outcome (Unit {0}) × Harness
unfolding load_records put_log
observe_one next prod_right name h none = (raised system_exit, h)
observe_one next prod_right name h (some right) =
    let seen : Observation = record { prod_correct = prod_right; candidate_correct = right } in
    next (record h {
      observations = put_log name (load_records name h.observations ++ seen ∷ []) h.observations;
    })

-- The loop of `observe` over the candidates; an exit leaves it where it is.
unfoldable pub observe_each :
    Bool
    → Option Value
    → (String → Attempt (Option Value))
    → List String
    → Harness
    → Outcome (Unit {0}) × Harness
unfolding observe_one is_right
observe_each prod_right truth answers [] h = (returned tt, h)
observe_each prod_right truth answers (name ∷ names) h =
    observe_one (observe_each prod_right truth answers names) prod_right name h
      (is_right truth (answers name))

-- `observe`, of an input to which the switch decided a label and the oracle knows the true one
unfoldable pub observe :
    Option Value
    → Option Value
    → (String → Attempt (Option Value))
    → Harness
    → Outcome (Unit {0}) × Harness
unfolding observe_each label_eq
observe prod_label truth answers h =
    observe_each (label_eq prod_label truth) truth answers h.names h

unfoldable pub count_obs : (Observation → Bool) → List Observation → ℕ
count_obs p [] = 0
count_obs p (o ∷ os) = (if p o then 1 else 0) + count_obs p os

unfoldable pub gains : Observation → Bool
gains o = o.candidate_correct && not o.prod_correct

unfoldable pub losses : Observation → Bool
losses o = o.prod_correct && not o.candidate_correct

-- `x / n if n else 0.0`
unfoldable pub accuracy : ℕ → ℕ → Real
accuracy x n = if n == 0 then ratio 0 1 else ratio x n

-- The report of `evaluate` on a candidate's observations.
unfoldable pub report_on : Real → List Observation → CandidateReport
unfolding count_obs gains losses mcnemar_p_value accuracy lt_real
report_on alpha obs =
    let n = length obs in
    let prod = count_obs (λ (o : Observation). o.prod_correct) obs in
    let cand = count_obs (λ (o : Observation). o.candidate_correct) obs in
    let b = count_obs gains obs in
    let c = count_obs losses obs in
    let p = mcnemar_p_value b c in
    record {
      paired_observations = n;
      prod_correct = prod;
      candidate_correct = cand;
      b = b;
      c = c;
      p_value = p;
      recommend_promote = lt_real p alpha && lt_real (accuracy prod n) (accuracy cand n);
    }

unfoldable pub note_promotion :
    (CandidateReport → Attempt (Unit {0}))
    → String
    → CandidateReport
    → Harness
    → Outcome CandidateReport × Harness
unfolding has_name
note_promotion callback name r h =
    if r.recommend_promote && not (has_name name h.already_recommended)
    then (
      elim (callback r) [ exits ↦ raised system_exit | _ ↦ returned r ],
      record h {
        already_recommended = name ∷ h.already_recommended;
        notified = (name, r) ∷ h.notified;
      },
    )
    else (returned r, h)

-- `evaluate`, with a callback
unfoldable pub evaluate_candidate :
    (CandidateReport → Attempt (Unit {0})) → String → Harness → Outcome CandidateReport × Harness
unfolding note_promotion report_on has_name load_records
evaluate_candidate callback name h =
    if has_name name h.names
    then note_promotion callback name (report_on h.alpha (load_records name h.observations)) h
    else (raised key_error, h)
