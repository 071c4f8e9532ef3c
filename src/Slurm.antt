-- ===== src/Slurm.antt =====
-- The text forms of Slurm's answers: crates/beampipe-domain/src/slurm.rs.
pub mod JobId
pub mod State
pub mod ExitCode
pub mod Batch
pub mod Bridge
