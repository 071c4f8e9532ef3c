-- ===== src/Worker.antt =====
-- The worker of crates/beampipe-jobs/src/lib.rs: what becomes of a failed job, and how one tick
-- claims a job, runs it under its lease and ends it.
pub mod Failure
pub mod Tick
pub mod Poll
pub mod Interval
