-- ===== src/Tests/JudgeTests.antt =====
-- Tests of the judges (src/postrule/verdicts.py).
use postrule.Prelude.{ℕ, ◌≡◌, ◌≢◌, ◌↔◌, refl, true, some, String, List, [], ◌∷◌, All}
use postrule.Record.{Verdict, incorrect, unknown}
use postrule.Switch.Result.{answered, failed, returned}
use postrule.Record.{str}
use postrule.Judges.{JudgeModel, majority, unanimous, make_committee, aggregate, judge_committee}
use postrule.Judges.Votes.{aggregate-unanimous_iff}
use postrule.Judges.Guards.{IsGuarded, make_committee-IsGuarded}

abbrev says : ℕ → String → JudgeModel
says n answer = record {
  identity = n;
  class_name = "Judge";
  model = answer;
  model_like = true;
  classify = λ prompt. answered answer;
}

abbrev broken : JudgeModel
broken = record (says 9 "gone") { classify = λ prompt. failed (str "timeout") }

abbrev verdicts : List Verdict
verdicts = unknown ∷ incorrect ∷ unknown ∷ unknown ∷ []

-- One judge decides where the others fail or do not know.
lone_vote :
    judge_committee
      (record { judges = broken ∷ says 1 " Incorrect " ∷ says 2 "maybe" ∷ []; mode = majority })
      "?"
    ≡ returned incorrect
unfolding judge_committee
lone_vote = refl

aggregate-unanimous_iff_example :
    (aggregate unanimous verdicts ≡ incorrect)
    ↔ ((verdicts ≢ []) × All (λ (w : Verdict). incorrect ≡ w) verdicts)
aggregate-unanimous_iff_example = aggregate-unanimous_iff incorrect verdicts (λ e. cc)

abbrev classifier : JudgeModel
classifier = says 7 "classifier"

abbrev pair : List JudgeModel
pair = says 1 "a" ∷ says 2 "b" ∷ []

pair-made :
    make_committee true (some classifier) pair majority
    ≡ returned (record { judges = pair; mode = majority })
unfolding make_committee
pair-made = refl

make_committee-IsGuarded_example : IsGuarded classifier (record { judges = pair; mode = majority })
make_committee-IsGuarded_example =
    make_committee-IsGuarded classifier pair majority (record { judges = pair; mode = majority })
      pair-made
