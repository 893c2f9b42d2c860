-- ===== src/Judges.antt =====
-- Verdict sources that ask language models: `_parse_judge_label`, `JudgeSource` and `JudgeCommittee` of
-- src/postrule/verdicts.py. What a model answers to a prompt is an argument. `Votes` and `Guards` hold lemmas on the vote and on the constructors.
pub mod Votes
pub mod Guards
use text.Mathlib.Text.{◌==◌ as str_eq}
use postrule.Prelude.{
  ℕ, ◌+◌, Bool, true, false, not, ◌&&◌, ◌||◌, Option, none, some, String, List, [], ◌∷◌, ltb, leb,
  ◌==◌, if◌then◌else◌, length, any, all, select,
}
use postrule.Record.{Verdict, correct, incorrect, unknown, codes, strip}
use postrule.Switch.Result.{
  Attempt, answered, failed, exits, Outcome, returned, raised, system_exit, value_error, type_error,
}

-- A model as the sources see it: which object it is, its class and model names, whether it can
-- classify at all, and the label that it answers to a prompt. `str(label)` is a text.
pub record JudgeModel : Type 0 where
  pub identity : ℕ
  pub class_name : String
  pub model : String
  pub model_like : Bool
  pub classify : String → Attempt String

-- `str.lower`, on the letters that the two words have; no other character becomes one of them
unfoldable pub lower : List ℕ → List ℕ
lower [] = []
lower (c ∷ cs) = (if leb 65 c && leb c 90 then c + 32 else c) ∷ lower cs

unfoldable pub codes_eq : List ℕ → List ℕ → Bool
codes_eq [] [] = true
codes_eq (c ∷ cs) (d ∷ ds) = c == d && codes_eq cs ds
codes_eq _ _ = false

-- `_parse_judge_label`
unfoldable pub parse_judge_label : String → Verdict
unfolding lower strip codes_eq
parse_judge_label text =
    let t = lower (strip (codes text)) in
    if codes_eq t (codes "correct")
    then correct
    else if codes_eq t (codes "incorrect")
    then incorrect
    else unknown

-- One judge's verdict; none if it exits the process.
unfoldable pub verdict_of : Attempt String → Option Verdict
unfolding parse_judge_label
verdict_of (answered label) = some (parse_judge_label label)
verdict_of (failed e) = some unknown
verdict_of exits = none

unfoldable pub after_poll : Option Verdict → Outcome Verdict
after_poll none = raised system_exit
after_poll (some v) = returned v

-- `JudgeSource.judge`, on the prompt that the template gives
unfoldable pub judge_alone : JudgeModel → String → Outcome Verdict
unfolding after_poll verdict_of
judge_alone j prompt = after_poll (verdict_of (j.classify prompt))

-- `_same_model`
unfoldable pub same_model : JudgeModel → JudgeModel → Bool
same_model a b =
    a.identity == b.identity || str_eq a.class_name b.class_name && str_eq a.model b.model

unfoldable pub clashes : Bool → Option JudgeModel → JudgeModel → Bool
unfolding same_model
clashes guarded none j = false
clashes guarded (some classifier) j = guarded && same_model j classifier

-- `JudgeSource.__init__`
unfoldable pub make_source : Bool → Option JudgeModel → JudgeModel → Outcome JudgeModel
unfolding clashes
make_source guarded distinct_from j =
    if not j.model_like
    then raised type_error
    else if clashes guarded distinct_from j
    then raised value_error
    else returned j

pub data CommitteeMode : Type 0 where
  majority unanimous confidence_weighted : CommitteeMode

pub record JudgeCommittee : Type 0 where
  pub judges : List JudgeModel
  pub mode : CommitteeMode

unfoldable pub is_model_like : JudgeModel → Bool
is_model_like j = j.model_like

-- `JudgeCommittee.__init__`, with a mode that is one of the three
unfoldable pub make_committee :
    Bool → Option JudgeModel → List JudgeModel → CommitteeMode → Outcome JudgeCommittee
unfolding is_model_like clashes any all
make_committee guarded distinct_from judges mode =
    if ltb (length judges) 2
    then raised value_error
    else if not (all is_model_like judges)
    then raised type_error
    else if any (clashes guarded distinct_from) judges
    then raised value_error
    else returned (record { judges = judges; mode = mode })

unfoldable pub verdict_eq : Verdict → Verdict → Bool
verdict_eq correct correct = true
verdict_eq incorrect incorrect = true
verdict_eq unknown unknown = true
verdict_eq _ _ = false

-- `counts[v] = counts.get(v, 0) + 1`
unfoldable pub count_vote : Verdict → List (Verdict × ℕ) → List (Verdict × ℕ)
unfolding verdict_eq
count_vote v [] = (v, 1) ∷ []
count_vote v ((w, n) ∷ counts) =
    let rest = count_vote v counts in if verdict_eq w v then (w, n + 1) ∷ counts else (w, n) ∷ rest

unfoldable pub count_votes : List Verdict → List (Verdict × ℕ) → List (Verdict × ℕ)
unfolding count_vote
count_votes [] counts = counts
count_votes (v ∷ vs) counts = count_votes vs (count_vote v counts)

-- `max(contenders.values())`, of values that are not negative
unfoldable pub max_votes : List (Verdict × ℕ) → ℕ
max_votes [] = 0
max_votes ((v, n) ∷ counts) = let rest = max_votes counts in if ltb n rest then rest else n

unfoldable pub sole_winner : List (Verdict × ℕ) → Verdict
sole_winner ((v, n) ∷ []) = v
sole_winner _ = unknown

unfoldable pub is_contender : Verdict × ℕ → Bool
is_contender (unknown, n) = false
is_contender (_, n) = true

-- `winners`, and the only one of them
unfoldable pub lead : List (Verdict × ℕ) → Verdict
unfolding select max_votes sole_winner
lead contenders = sole_winner (select (λ (e : Verdict × ℕ). e.1 == max_votes contenders) contenders)

-- The majority branch; with no contender there is no winner either.
unfoldable pub elect : List (Verdict × ℕ) → Verdict
unfolding lead select is_contender
elect counts = lead (select is_contender counts)

unfoldable pub agree_with : Verdict → List Verdict → Verdict
unfolding all verdict_eq
agree_with unknown verdicts = unknown
agree_with first verdicts = if all (verdict_eq first) verdicts then first else unknown

-- The unanimous branch; a committee has two judges at least.
unfoldable pub unanimity : List Verdict → Verdict
unfolding agree_with
unanimity [] = unknown
unanimity (v ∷ vs) = agree_with v (v ∷ vs)

-- `_aggregate`
unfoldable pub aggregate : CommitteeMode → List Verdict → Verdict
unfolding unanimity elect count_votes
aggregate unanimous verdicts = unanimity verdicts
aggregate majority verdicts = elect (count_votes verdicts [])
aggregate confidence_weighted verdicts = elect (count_votes verdicts [])

unfoldable pub then_vote : Option Verdict → Option (List Verdict) → Option (List Verdict)
then_vote none vs = none
then_vote (some v) none = none
then_vote (some v) (some vs) = some (v ∷ vs)

-- The loop of `judge`; none if a judge exits the process.
unfoldable pub poll : String → List JudgeModel → Option (List Verdict)
unfolding then_vote verdict_of
poll prompt [] = some []
poll prompt (j ∷ js) = then_vote (verdict_of (j.classify prompt)) (poll prompt js)

unfoldable pub close_poll : CommitteeMode → Option (List Verdict) → Outcome Verdict
unfolding aggregate
close_poll mode none = raised system_exit
close_poll mode (some verdicts) = returned (aggregate mode verdicts)

-- `JudgeCommittee.judge`
unfoldable pub judge_committee : JudgeCommittee → String → Outcome Verdict
unfolding close_poll poll
judge_committee c prompt = close_poll c.mode (poll prompt c.judges)
