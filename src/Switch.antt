-- ===== src/Switch.antt =====
-- `LearnedSwitch` of src/postrule/core.py. `Config` is its configuration, `Result` what a call gives,
-- `Classify` the routing of a call and `Serve` the public calls around it. `State` is the state of a
-- switch; its operations are `Lifecycle` (advance, demote), `Rows` and `Verdicts` (record_verdict) and
-- `Bulk` (bulk_record_verdicts). The other children hold what is proved: `Floor`, `Service` and
-- `Confidence` of calls, `Safety` and `Reach` of the ceiling, `Moves`, `Cycle` and `Pace` of phase
-- changes, `Logging`, `Exits`, `RowsOf`,
-- `Served` and `Calls` of the log.
pub mod Config
pub mod Result
pub mod Classify
pub mod Floor
pub mod Service
pub mod Confidence
pub mod State
pub mod Lifecycle
pub mod Rows
pub mod Verdicts
pub mod Serve
pub mod Exits
pub mod RowsOf
pub mod Served
pub mod Calls
pub mod Bulk
pub mod Safety
pub mod Reach
pub mod Moves
pub mod Cycle
pub mod Pace
pub mod Logging
pub mod FileLog
