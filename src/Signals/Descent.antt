-- ===== src/Signals/Descent.antt =====
-- What the re-justification loop of `reconcile_signals` (src/postrule/core.py) does to the phase.
use postrule.Prelude.{
  ℕ, ◌≤◌, ◌<◌, ◌≡◌, ◌⊎◌, inl, inr, refl, sym, ap, ◌∙◌, true, false, Option, none, some, List, ltb,
  arith, Bool-cases, if-P_eq,
}
use mathlib.Core.Path.{subst}
use postrule.Phase.{Phase, order, prev_phase}
use postrule.Phase.Walk.{prev_phase-order, walk_ends}
use postrule.Record.{ClassificationRecord}
use postrule.Gate.Decision.{GateDecision}
use postrule.Switch.Result.{Attempt, answered, failed, exits, Outcome, returned, raised}
use postrule.Switch.State.{Storage}
use postrule.Signals.Signature.{GateInfo, SignalSignature, Component}
use postrule.Signals.Managed.{
  Env, Managed, Happening, held, min_paired_of, signal_signature, phase_of, note, recency_window,
}
use postrule.Signals.Reconcile.{
  Turn, demote_unjustified, judge_turn, ask_turn, turn_above, rejustify_turn, turns,
}
use postrule.Signals.Loop.{TurnKeeps, turns_lem, demote-swap}

-- The gate's answer leaves a phase as it is: no answer, a phase that is still better, or too few
-- pairs.
abbrev pub Holds : ℕ → Attempt GateDecision → Type 0
Holds least (failed e) = Unit
Holds least exits = Unit
Holds least (answered d) = (d.target_better ≡ true) ⊎ (d.paired_sample_size < least)

same_order : (p q : Phase) → order p ≡ order q → p ≡ q
unfolding order
same_order p q e = ground arith

eq_or_above : (a b : ℕ) → a ≤ b → (b ≡ a) ⊎ (a < b)
eq_or_above a b h = elim (Bool-cases (ltb a b)) [
  | inl e ↦ inr (ground arith)
  | inr e ↦ inl (ground arith)
]

pub order-lt : (p : Phase) (fuel : ℕ) → 5 < fuel → order p < fuel
unfolding order
order-lt p fuel h = ground arith

module _ {S : Type 0} (storage : Storage S) (env : Env) where
  -- On the recent rows the gate, with pairs enough, holds a phase not better than the one below.
  pub record Refuted (m : Managed S) (q : Phase) : Type 0 where
    pub rows : List ClassificationRecord
    pub pred : Phase
    pub g : GateInfo
    pub decision : GateDecision
    pub window : recency_window storage env m ≡ some rows
    pub is_prev : prev_phase q ≡ some pred
    pub has_gate : m.gate ≡ some g
    pub answers : g.evaluate rows pred q ≡ answered decision
    pub worse : decision.target_better ≡ false
    pub enough : min_paired_of m.gate ≤ decision.paired_sample_size

  -- Why the loop stops at the phase that it stops at.
  pub data Rests (m : Managed S) : Type 0 where
    at_floor : phase_of m ≡ Phase.rule → Rests m
    no_gate : m.gate ≡ none → Rests m
    holds :
        (rows : List ClassificationRecord) (pred : Phase) (g : GateInfo)
        → recency_window storage env m ≡ some rows
        → prev_phase (phase_of m) ≡ some pred
        → m.gate ≡ some g
        → Holds (min_paired_of m.gate) (g.evaluate rows pred (phase_of m))
        → Rests m

  -- From one state to a later one of the loop.
  pub record Lowered (m n : Managed S) : Type 0 where
    pub descends : order (phase_of n) ≤ order (phase_of m)
    pub same_log : n.switch.log ≡ m.switch.log
    pub same_gate : n.gate ≡ m.gate
    pub same_window : recency_window storage env n ≡ recency_window storage env m
    pub same_signals : signal_signature n ≡ signal_signature m
    pub gave_up :
        (q : Phase) → order (phase_of n) < order q → order q ≤ order (phase_of m) → Refuted m q

  pub Lowered-note :
      (h : Happening) (before : Option SignalSignature) (after : SignalSignature) (m n : Managed S)
      → Lowered m n
      → Lowered m (note env h before after n)
  unfolding note recency_window signal_signature
  Lowered-note h before after m n l = record {
    descends = l.descends;
    same_log = l.same_log;
    same_gate = l.same_gate;
    same_window = l.same_window;
    same_signals = l.same_signals;
    gave_up = l.gave_up;
  }

  pub Rests-note :
      (h : Happening) (before : Option SignalSignature) (after : SignalSignature) (n : Managed S)
      → Rests n
      → Rests (note env h before after n)
  unfolding note recency_window
  Rests-note h before after n (at_floor e) = at_floor e
  Rests-note h before after n (no_gate e) = no_gate e
  Rests-note h before after n (holds rows pred g w p hg k) = holds rows pred g w p hg k

  module _ (prev cur : SignalSignature) (changed : List Component) where
    Refuted-here :
        (m n : Managed S) (rows : List ClassificationRecord) (pred : Phase) (g : GateInfo)
        (d : GateDecision)
        → recency_window storage env n ≡ some rows
        → prev_phase (phase_of n) ≡ some pred
        → n.gate ≡ some g
        → g.evaluate rows pred (phase_of n) ≡ answered d
        → d.target_better ≡ false
        → min_paired_of n.gate ≤ d.paired_sample_size
        → Lowered m n
        → (q : Phase) → order q ≡ order (phase_of n)
        → Refuted m q
    Refuted-here m n rows pred g d w p hg a b e l q same =
        let at_q : q ≡ phase_of n = same_order q (phase_of n) same in
        record {
          rows = rows;
          pred = pred;
          g = g;
          decision = d;
          window = sym l.same_window ∙ w;
          is_prev = rw at_q p;
          has_gate = sym l.same_gate ∙ hg;
          answers = rw at_q a;
          worse = b;
          enough =
              subst (λ (x : Option GateInfo). min_paired_of x ≤ d.paired_sample_size) l.same_gate e;
        }

    Lowered-demote :
        (m n : Managed S) (rows : List ClassificationRecord) (pred : Phase) (g : GateInfo)
        (d : GateDecision)
        → recency_window storage env n ≡ some rows
        → prev_phase (phase_of n) ≡ some pred
        → n.gate ≡ some g
        → g.evaluate rows pred (phase_of n) ≡ answered d
        → d.target_better ≡ false
        → min_paired_of n.gate ≤ d.paired_sample_size
        → Lowered m n
        → let k = demote_unjustified env prev cur changed d n in
          Lowered m k × (order (phase_of k) < order (phase_of n))
    unfolding demote_unjustified recency_window signal_signature
    Lowered-demote m n rows pred g d w p hg a b e l =
        let k = demote_unjustified env prev cur changed d n in
        let down = demote-swap d n.switch pred p in
        let at_pred : order (phase_of k) ≡ order pred = ap order down.0 in
        let above = prev_phase-order (phase_of n) pred p in
        let same : recency_window storage env k ≡ recency_window storage env n =
          ap
            (λ (t : S).
              recency_window storage env (record n { switch = record n.switch { log = t } }))
            down.1 in
        (
          record {
            descends = omega (arith, l.descends);
            same_log = down.1 ∙ l.same_log;
            same_gate = l.same_gate;
            same_window = same ∙ l.same_window;
            same_signals = l.same_signals;
            gave_up = λ q lo hi.
                elim (eq_or_above (order (phase_of n)) (order q)
                  (omega (arith, above, at_pred, lo))) [
                    | inl same ↦ Refuted-here m n rows pred g d w p hg a b e l q same
                    | inr more ↦ l.gave_up q more hi
                  ];
          },
          omega arith,
        )

    -- The end of the loop: the states between, and at a normal end the reason to rest.
    abbrev pub Ended : Managed S → Outcome (Unit {0}) × Managed S → Type 0
    Ended m (returned u, n) = Lowered m n × Rests n
    Ended m (raised e, n) = Lowered m n

    abbrev Keeps : Managed S → Managed S → Turn (Managed S) → Type 0
    Keeps m = TurnKeeps (Lowered m) (Ended m) (λ (n : Managed S). order (phase_of n))

    judge_turn-Keeps :
        (m n : Managed S) (rows : List ClassificationRecord) (pred : Phase) (g : GateInfo)
        (a : Attempt GateDecision)
        → recency_window storage env n ≡ some rows
        → prev_phase (phase_of n) ≡ some pred
        → n.gate ≡ some g
        → g.evaluate rows pred (phase_of n) ≡ a
        → Lowered m n
        → Keeps m n (judge_turn env prev cur changed n a)
    unfolding judge_turn
    judge_turn-Keeps m n rows pred g (failed x) w p hg e l = (l, holds rows pred g w p hg (rw e tt))
    judge_turn-Keeps m n rows pred g exits w p hg e l = (l, holds rows pred g w p hg (rw e tt))
    judge_turn-Keeps m n rows pred g (answered d) w p hg e l =
        if-P_eq (Keeps m n) d.target_better _ _ (λ b. (l, holds rows pred g w p hg (rw e (inl b))))
          (λ b.
            if-P_eq (Keeps m n) (ltb d.paired_sample_size (min_paired_of n.gate)) _ _
              (λ few. (
                Lowered-note held (some prev) cur m n l,
                Rests-note held (some prev) cur n
                    (holds rows pred g w p hg (rw e (inr (ground arith)))),
              ))
              (λ many. Lowered-demote m n rows pred g d w p hg e b (ground arith) l))

    ask_turn-Keeps :
        (m n : Managed S) (pred : Phase) (g : Option GateInfo)
        (rows : Option (List ClassificationRecord))
        → recency_window storage env n ≡ rows
        → prev_phase (phase_of n) ≡ some pred
        → n.gate ≡ g
        → Lowered m n
        → Keeps m n (ask_turn env prev cur changed pred n g rows)
    unfolding ask_turn
    ask_turn-Keeps m n pred g none w p hg l = l
    ask_turn-Keeps m n pred none (some rows) w p hg l = (l, no_gate hg)
    ask_turn-Keeps m n pred (some g) (some rows) w p hg l =
        judge_turn-Keeps m n rows pred g _ w p hg refl l

    turn_above-Keeps :
        (m n : Managed S) (pred : Option Phase)
        → prev_phase (phase_of n) ≡ pred
        → Lowered m n
        → Keeps m n (turn_above storage env prev cur changed n pred)
    unfolding turn_above
    turn_above-Keeps m n none p l = (l, at_floor ((walk_ends (phase_of n)).1.0 p))
    turn_above-Keeps m n (some pred) p l = ask_turn-Keeps m n pred n.gate _ refl p refl l

    rejustify_turn-Keeps :
        (m n : Managed S) → Lowered m n → Keeps m n (rejustify_turn storage env prev cur changed n)
    unfolding rejustify_turn
    rejustify_turn-Keeps m n l = turn_above-Keeps m n _ refl l

    -- Six turns are enough.
    pub rejustify_lem :
        (fuel : ℕ) (m n : Managed S)
        → 5 < fuel
        → Lowered m n
        → (r : Outcome (Unit {0}) × Managed S) × (turns
              (rejustify_turn storage env prev cur changed)
              fuel
              n
            ≡ some r)
          × Ended m r
    rejustify_lem fuel m n h l =
        turns_lem (Lowered m) (Ended m) (λ (k : Managed S). order (phase_of k)) _
          (λ (k : Managed S) (x : Lowered m k). rejustify_turn-Keeps m k x) fuel n
          (order-lt (phase_of n) fuel h) l
