-- ===== src/Tests/ResearchTests.antt =====
-- Tests of the harness and the tournament (src/postrule/autoresearch.py).
use text.Mathlib.Text.{◌==◌ as str_eq}
use mathlib.Core.List.{Memᴰ}
use postrule.Prelude.{
  ℕ, zero, suc, ◌+◌, ◌≡◌, ◌↔◌, ◌≤◌, refl, true, false, Option, some, String, List, [], ◌∷◌, arith,
  length, if◌then◌else◌,
}
use postrule.Num.{Real, ratio}
use postrule.Record.{Value, str}
use postrule.Switch.Result.{Attempt, answered, failed, Outcome, returned, raised, key_error}
use postrule.Storage.Memory.{find_log, put_log}
use postrule.Gate.Evaluate.{mcnemar_decide}
use postrule.Autoresearch.{
  Observation, Harness, report_on, count_obs, gains, losses, open_harness, register, unregister,
  observe, evaluate_candidate,
}
use postrule.Autoresearch.Evidence.{prods, cands, report-agrees}
use postrule.Autoresearch.Contest.{
  Tournament, tie_at_top, no_candidate_swept, open_tournament, observe_all, is_unanimous,
  evaluate_tournament,
}
use postrule.Autoresearch.Winner.{Sweeps, winner_iff}
use postrule.Tests.Data.{sample_tail}

abbrev level : Real
level = ratio 1 20

abbrev repeat : ℕ → Observation → List Observation
repeat zero o = []
repeat (suc n) o = o ∷ repeat n o

abbrev gain : Observation
gain = record { prod_correct = false; candidate_correct = true }

abbrev loss : Observation
loss = record { prod_correct = true; candidate_correct = false }

-- Eight gains and one loss: p is 20 / 512.
abbrev strong : List Observation
strong = loss ∷ repeat 8 gain

few-small : count_obs gains strong + count_obs losses strong ≤ 50
unfolding count_obs gains losses
few-small = omega arith

report-agrees_example :
    ((report_on level strong).recommend_promote ≡ true)
    ↔ ((mcnemar_decide sample_tail level 5 (prods strong, cands strong)).target_better ≡ true)
report-agrees_example = report-agrees sample_tail level 5 strong (omega arith) few-small

strong-recommended : (report_on level strong).recommend_promote ≡ true
unfolding report_on
strong-recommended = refl

abbrev harness_of : Outcome Harness → Harness
harness_of (returned h) = h
harness_of (raised e) = record {
  alpha = ratio 0 1;
  names = [];
  observations = [];
  already_recommended = [];
  notified = [];
}

unfoldable with_v1 : Harness
unfolding open_harness register
with_v1 = (register true "v1" (harness_of (open_harness true level))).1

unfoldable sees : ℕ → Harness → Harness
unfolding observe
sees zero h = h
sees (suc n) h =
    (observe (some (str "no")) (some (str "yes")) (λ name. answered (some (str "yes")))
      (sees n h)).1

-- After eight inputs on which only the candidate is right, the callback is told once.
told_once :
    length
      (evaluate_candidate
        (λ r. failed (str "late"))
        "v1"
        (evaluate_candidate (λ r. failed (str "late")) "v1" (sees 8 with_v1)).1).1.notified
    ≡ 1
unfolding evaluate_candidate sees with_v1 find_log
told_once = refl

gone_after_unregister :
    (evaluate_candidate (λ r. answered tt) "v1" (unregister "v1" (sees 8 with_v1))).0
    ≡ raised key_error
unfolding evaluate_candidate unregister sees with_v1
gone_after_unregister = refl

abbrev opened_with : Outcome Tournament → Tournament
opened_with (returned t) = t
opened_with (raised e) = record {
  alpha = level;
  candidates = [];
  observations = [];
  n_observed = 0;
  predictions = [];
}

abbrev answer : String → Attempt (Option Value)
answer name = if str_eq name "good" then answered (some (str "yes")) else failed (str "down")

unfoldable rounds : ℕ → Tournament → Tournament
unfolding observe_all
rounds zero t = t
rounds (suc n) t = (observe_all (returned (some (str "yes"))) answer (rounds n t)).1

unfoldable three : Tournament
unfolding open_tournament
three = opened_with (open_tournament (λ n. true) true level ("bad" ∷ "good" ∷ "worse" ∷ []))

abbrev contest : Tournament
contest = rounds 6 three

contest-split : is_unanimous contest ≡ false
unfolding is_unanimous rounds three
contest-split = refl

winner_iff_example :
    ((evaluate_tournament contest).winner ≡ some "good")
    ↔ (Memᴰ "good" contest.candidates × Sweeps contest "good")
winner_iff_example = winner_iff contest "good" contest-split

contest-won : (evaluate_tournament contest).winner ≡ some "good"
unfolding evaluate_tournament rounds three find_log put_log
contest-won = refl

-- Nothing observed: no winner, and all are at the top.
nothing_observed : (evaluate_tournament (rounds 0 three)).reason ≡ tie_at_top
unfolding evaluate_tournament rounds three find_log put_log
nothing_observed = refl

-- One input is too little for a winner, and one candidate alone is at the top.
one_observed : (evaluate_tournament (rounds 1 three)).reason ≡ no_candidate_swept
unfolding evaluate_tournament rounds three find_log put_log
one_observed = refl
