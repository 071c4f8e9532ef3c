-- ===== src/Lib.antt =====
-- Verification of beampipe-core: the job queue and the workers that drain it, the claims on sources,
-- the state of an execution in the database, and the rules of the domain crate, by which discovery,
-- admission, execution, reconciliation and retries of an astronomy pipeline are decided.
--
-- The service discovers sources in archives, admits executions, submits them to a Slurm scheduler or
-- a DALiuGE manager, polls both and reconciles what it observes. Workers claim jobs from a table under
-- a lease, run their handlers, renew the lease meanwhile and end the job. Handlers claim sources,
-- apply patches to the row of an execution, and call the pure functions of crates/beampipe-domain.
-- A pure function is a function of its arguments here, too, and one that changes `&mut self` returns
-- the new state. A function of the repository is a function from the rows of its table to its answer
-- and the rows after it; each is one transaction, so that an interleaving of the callers is a list of
-- calls, and a property of every interleaving is one of every list.
--
-- Which file is about which code, the paths being those of the repository:
--   * JobQueue: crates/beampipe-db/src/repo.rs, `jobs`, `worker_instances` and `job_claim_history`.
--     Enqueue has `enqueue_recurring_job_with_options`, Order the ranking of jobs, Claim
--     `claim_next_job_for_worker`, Lease the functions that renew a lease or end a job under it;
--     Trace and its modules are about any list of such calls.
--   * Worker: crates/beampipe-jobs/src/lib.rs. Failure has the classes of failures and the delay of a
--     retry (also crates/beampipe-domain/src/job_errors.rs and diagnostics.rs), Tick has
--     `dispatch_with_lease` and `tick_for_worker`,
--     Poll `advance_slurm_poll_progress`, Interval how often polls run; Poll.History and
--     Poll.Failures are about any list of polls.
--   * StatePatch: `apply_execution_state_patch_with_transition` of crates/beampipe-db/src/repo.rs, over
--     the rows of crates/beampipe-db/src/models.rs; it calls `reconcile` on the row it has projected.
--     StatePatch.Traces is about any list of patches.
--   * SourceClaims: crates/beampipe-db/src/repo.rs, the claims on `source_registry` for discovery and
--     for workflow runs; SourceClaims.Exclusive is about any list of calls.
--   * Rediscovery: crates/beampipe-db/src/repo.rs, `mark_sources_and_enqueue_discovery_tick`, which
--     joins the rows of SourceClaims and the queue.
--   * ExternalState and its modules: crates/beampipe-domain/src/external_state.rs. One module for each
--     of the six kinds of state with `parse` and `as_str`; Reconcile has `ExecutionAxes::reconcile`
--     and the functions `active` and `terminal`.
--   * Execution: crates/beampipe-domain/src/execution.rs. Status has `ExecutionStatus` and its edges,
--     Retry has `plan_execution_retry`, Ledger has `LedgerState::apply_patch`; Ledger.Traces is about
--     any list of patches.
--   * Slurm: crates/beampipe-domain/src/slurm.rs. JobId has the composite identifier, State the
--     normal form of job states, ExitCode the exit codes; Bridge joins the states with
--     `SchedulerState::from_normalized`.
--   * Slurm.Batch: crates/beampipe-orchestration/src/slurm_batch.rs, reading the answers of `sacct`
--     and `squeue`.
--   * RunRecord: crates/beampipe-domain/src/run_record.rs. Edit has the helpers and the frame of the
--     merges, Slurm, Dim, Outputs and Rounds the merges, Summary the view of an operator;
--     Slurm.History is about any list of polls.
--   * Admission: crates/beampipe-domain/src/admission.rs, the report of a scheduler tick.
--   * Readiness: crates/beampipe-domain/src/readiness.rs, whether a source can be executed.
--   * Discovery: crates/beampipe-domain/src/discovery.rs, the identities of prepared records.
--   * Json: the interface of `serde_json`, which is not part of the repository; Json.Sample is a
--     concrete document type that meets it. Common: numbers, lists, texts and tests; Common.Rows has
--     `UPDATE … WHERE`, `SELECT … WHERE` and `COALESCE` over a list of rows.
--
-- Parameters. JSON values, maps and numbers are those of the record `Json`, whose laws are what the
-- library documents of inserting, removing and looking up a key. PostgreSQL's containment of JSONB
-- documents is an argument (`jsonb_contains`), as are the rows that other transactions have locked
-- (`locked`, for SKIP LOCKED), the new uuid or token of a row, the finalisation of verified outputs
-- (`finalize`), and what a handler returns, when, and which calls other workers make meanwhile. The
-- Unicode upper case of characters that are not ASCII is an argument (`upper`), as are what Rust
-- prints with `Debug` (`debug`), the current time (`now`) and the age of a time stamp
-- (`seconds_since`).
--
-- Numbers. The retry count is an `i32` that wraps and a tick's counts are `u32`s that wrap, as in a
-- release build. A sum in SQL is an `int4` that raises an error out of range. A time is a natural
-- number: of microseconds in the queue, of seconds elsewhere. Lengths of texts are in bytes, as in the
-- source. A slice of a text that ends inside a character panics; `Outcome` has this case. Every
-- function is total and structural, so no fuel is used: the renewals of one dispatch are a list.
--
-- Not modelled: the connection to the database with its errors, the handlers of jobs beyond what they
-- return, the enqueueing of jobs that do not recur, the cancelling of jobs, HTTP routes, clients, the
-- command line and metrics, which are input and output around these rules; columns that no modelled
-- statement reads or writes; the reading of project configurations, so that the poll intervals of the
-- projects are given, rounded to seconds; the signature of discovery payloads; the parsing of time stamps; the messages of the error types.
pub mod Admission
pub mod Common
pub mod Discovery
pub mod Execution
pub mod ExternalState
pub mod JobQueue
pub mod Json
pub mod Readiness
pub mod Rediscovery
pub mod RunRecord
pub mod Slurm
pub mod SourceClaims
pub mod StatePatch
pub mod Worker
