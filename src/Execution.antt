-- ===== src/Execution.antt =====
-- The life of an execution: crates/beampipe-domain/src/execution.rs. `Status` is the state machine of
-- its status, `Retry` the plan of a retry in place, and `Ledger` the row that records it.
pub mod Status
pub mod Retry
pub mod Ledger
