-- ===== src/RunRecord.antt =====
-- The run record kept in the manifest of an execution: crates/beampipe-domain/src/run_record.rs.
-- Its modules: `Edit` has the helpers that take the record out of a manifest and put it back,
-- `Slurm`, `Dim` and `Outputs` the merges of what is observed, `Rounds` the counters of the polls,
-- and `Summary` what is shown to an operator.
pub mod Edit
pub mod Slurm
pub mod Dim
pub mod Outputs
pub mod Rounds
pub mod Summary
mod Examples
