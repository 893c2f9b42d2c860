-- ===== src/Gate.antt =====
-- The phase-graduation gates (src/postrule/gates.py) with the test that they run
-- (src/postrule/viz.py). `Pairing` extracts the evidence, `Mcnemar` is the test, `Decision` what a
-- gate answers, `Kinds` the gates, `Evaluate` their `evaluate` and `Shadow` the check of a losing
-- shadow; the other children hold what is proved of them.
pub mod Pairing
pub mod Mcnemar
pub mod Decision
pub mod Kinds
pub mod Evaluate
pub mod Shadow
pub mod Soundness
pub mod Significance
pub mod Composite
pub mod Unjudged
pub mod Rivals
