-- ===== src/Lib.antt =====
-- Verification library of postrule, a library for classification switches that start as a rule and
-- graduate to a language model and to a trained head as the outcome log shows evidence for them.
--
-- The program's parts. A `LearnedSwitch` (src/postrule/core.py) stands in one of six phases. A call
-- is routed by the phase to the rule, the model or the head, with the rule as the floor; in the
-- last phase a circuit breaker guards the head. At construction `reconcile_signals` compares the
-- judge, the gate, the strategy, the labels and the rule's version with those that the phase was
-- earned under, and goes down where the gate no longer holds the phase justified. `record_verdict`
-- appends a row to the outcome log of a storage (src/postrule/storage.py), counts it, and from time
-- to time asks the drift gate whether to step down and the gate whether to step up. The gates
-- (src/postrule/gates.py) compare two phases on the rows on which both have an observation, the
-- default one by the McNemar test (src/postrule/viz.py).
--
-- Files:
-- - Prelude (and Prelude/Lists, Prelude/Tests): shared names, lists over the native numbers,
--   Boolean tests.
-- - Num: the numbers that the code keeps in floats, and `_clamp_conf`.
-- - Phase: `Phase`, `_PHASE_ORDER`, `next_phase` and `prev_phase`; Phase/Walk: what is proved of
--   them.
-- - Record: labels, verdicts, sources and `ClassificationRecord`, `_is_real_label`.
-- - Gate/Pairing: `_source_correct_for`, `_phase_source_field`, `_paired_correctness`;
--   Gate/Mcnemar: `mcnemar_p`; Gate/Decision: `GateDecision`; Gate/Kinds and Gate/Evaluate: the
--   gate classes and their `evaluate`; Gate/Shadow: `ShadowUnderperformanceGate`; Gate/Soundness,
--   Gate/Significance, Gate/Composite, Gate/Unjudged, Gate/Rivals: what is proved of them.
-- - Storage/Memory: `InMemoryStorage` and `BoundedInMemoryStorage`; Storage/Window: lemmas on both;
--   Storage/Segments: the segments of `FileStorage` and their rotation; Storage/Files: its queue,
--   drain and reads; Storage/Rotation, Storage/Retention, Storage/Footprint and Storage/Batching:
--   lemmas on rotation, on what stays, on bytes and on the drain; Storage/Resilient:
--   `ResilientStorage`; Storage/Drain, Storage/Recovery, Storage/Spills, Storage/Outages and
--   Storage/Healing: lemmas on its drain loop, one append, its histories, and `drain`.
-- - Autoresearch: `CandidateHarness` (src/postrule/autoresearch.py); Autoresearch/Contest:
--   `Tournament`; Autoresearch/Evidence and Autoresearch/Winner: lemmas on the reports and on the
--   winner.
-- - Judges: `JudgeSource` and `JudgeCommittee` (src/postrule/verdicts.py); Judges/Votes and
--   Judges/Guards: lemmas on the vote and on the constructors.
-- - Switch/Config: `SwitchConfig` and `__post_init__`; Switch/Result: what collaborators answer and
--   what a call returns; Switch/Classify: `_classify_impl` and `_phase_primary_decision`;
--   Switch/State: the state of a switch, its storage, and the breaker's operations;
--   Switch/Lifecycle: `advance`, `demote`, `_maybe_auto_demote`; Switch/Rows and Switch/Verdicts:
--   `record_verdict`; Switch/Bulk: `bulk_record_verdicts`; Switch/Serve: `classify` and `dispatch`
--   with the verifier, `_auto_log` and the actions of labels.
-- - Signals/Ident and Signals/Signature: `SignalSignature` (src/postrule/signals.py) and its JSON
--   form; Signals/Managed: the state that signal changes touch, with the persisted signature, the
--   ledger and the recency window, and `resolve_gate` (src/postrule/defaults.py); Signals/Reconcile
--   and Signals/Migrate: `reconcile_signals` and `migrate_defaults`; Signals/Loop, Signals/Descent,
--   Signals/Swaps and Signals/Integrity: the re-justification loop and the phase; Signals/Audit and
--   Signals/Settled: the stored form and a second run; Signals/Reset and Signals/Migration:
--   migrations.
-- - Switch/Floor, Switch/Service, Switch/Confidence: calls; Switch/Safety and Switch/Reach: the
--   ceiling through all histories; Switch/Moves, Switch/Cycle and Switch/Pace: when and how far the
--   phase moves; Switch/Logging: the log; Switch/FileLog: `FileStorage` as a switch's storage;
--   Switch/Exits, Switch/RowsOf, Switch/Served and Switch/Calls: what a call logs.
-- - Tests: small inputs, and each theorem with hypotheses at one of them.
--
-- State and errors. A stateful method is a function from the state of a switch to an outcome
-- (returned or raised) and the state afterwards. What a collaborator (rule, model, head, gate,
-- verifier, hook) does in one call is an argument: it answers, it raises an exception, or it exits
-- by KeyboardInterrupt or SystemExit, which the code never absorbs. A storage is a record of two
-- functions whose `none` is an exception.
--
-- Numbers. Probabilities and thresholds are exact fractions, compared by cross-multiplication,
-- where the code computes in binary floats. The accuracies of a gate's decision and their
-- difference, which the two gates without a test compare with a margin, are rounded to the nearest
-- double as in the code (`round_ratio`, `round_real`). Up to 50 disagreements the exact test has no
-- rounding in doubles either; beyond that the p-values of Autoresearch are those of exact
-- arithmetic, and the OverflowError of `_mcnemar_p_value` from about 1030 disagreements on is left
-- out. A confidence can be NaN; it is a float, as annotated, so that `float(pred.confidence)` does
-- not raise. The tail of the normal distribution that `mcnemar_p` takes from `math.erfc` above 50
-- disagreements is a parameter, `normal_tail`. Timestamps and durations are numbers of ticks. The
-- drain loop of `ResilientStorage` runs on fuel, as much as there are rows in the buffer, since
-- every round pops one; the loops of `reconcile_signals` and `migrate_defaults` run on fuel, and
-- six turns are enough, since each turn but the last goes one phase down. All other recursion is on
-- lists, gates or numbers.
--
-- Not modelled: threads and locks (an operation is one step), the text of rationales (kept as a
-- case with its numbers; the reason of an automatic demotion omits the names of the gate and the
-- phase, and that of a swap or a reset the names behind it), `_save_head_state` at the end of
-- `advance`, and the order in which a dict lists its keys beyond first insertion. A failing
-- telemetry emitter is ignored by the code; events are a list in the state. Whether the store reads
-- or writes a state key is fixed within one run of a method. Renames and unlinks of `FileStorage`
-- succeed, and a write takes a whole line or raises: short writes, whose count the code does not
-- read, are left out. The clock stands still within one run of `reconcile_signals` or
-- `migrate_defaults`, where the code reads it anew in every turn. Asynchronous variants, the SQL
-- storages, the verdict sources that wait for people or webhooks, adapters and benchmarks are not
-- part of the development.
pub mod Prelude
pub mod Num
pub mod Phase
pub mod Record
pub mod Gate
pub mod Storage
pub mod Switch
pub mod Tests
pub mod Signals
pub mod Judges
pub mod Autoresearch
