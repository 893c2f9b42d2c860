-- ===== src/Tests.antt =====
-- Tests of the models on small inputs, and each theorem with hypotheses at one of them.
mod Data
mod GateTests
mod ShadowTests
mod StorageTests
mod ResilientTests
mod SwitchTests
mod CallTests
mod ServeTests
mod SignalTests
mod FileTests
mod JudgeTests
mod ResearchTests
