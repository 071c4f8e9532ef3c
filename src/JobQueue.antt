-- ===== src/JobQueue.antt =====
-- The job queue in the database: the rows of `jobs`, `worker_instances` and `job_claim_history`
-- (crates/beampipe-db/src/models.rs and migrations/), and what the statements of
-- crates/beampipe-db/src/repo.rs ask of a row. A uuid is a number, a time is a count of microseconds,
-- and NULL is `none`.
pub mod Claim
pub mod Lease
pub mod Trace
pub mod Enqueue
mod Examples
pub mod Order
use beampipe_core_v.Common.{
  ℕ, ◌-◌, ◌*◌, zero, suc, ◌+◌, String, Bool, true, false, not, ◌&&◌, Option, none, some, List, [],
  ◌∷◌, ltb, leb, eqb, if◌then◌else◌,
}
use beampipe_core_v.Common.Int.{ℤ, pos, negsuc}
pub use beampipe_core_v.Common.Rows.{passed, ahead}
use beampipe_core_v.Common.Rows.{coalesce}

-- The constraint `ck_job_status`.
pub data JobStatus : Type 0 where
  queued running completed failed dead_letter cancelled : JobStatus

pub record JobRow (V : Type 0) : Type 0 where
  pub uuid : ℕ
  pub kind : String
  pub payload : V
  pub status : JobStatus
  pub execution_id : Option ℕ
  pub phase : Option String
  pub attempts : ℕ
  pub max_attempts : ℤ
  pub next_run_at : ℕ
  pub locked_until : Option ℕ
  pub lease_owner : Option ℕ
  pub lease_token : Option ℕ
  pub lease_expires_at : Option ℕ
  pub heartbeat_at : Option ℕ
  pub pool : String
  pub required_capabilities : List String
  pub required_labels : V
  pub priority : ℤ
  pub idempotency_key : Option String
  pub last_error : Option String
  pub failure_class : Option String
  pub dead_lettered_at : Option ℕ
  pub dead_letter_reason : Option String
  pub created_at : ℕ
  pub updated_at : Option ℕ

-- The constraint `ck_worker_status`.
pub data WorkerStatus : Type 0 where
  active draining stopped unhealthy : WorkerStatus

-- The columns of a worker that a claim reads.
pub record WorkerInstanceRow (V : Type 0) : Type 0 where
  pub uuid : ℕ
  pub pool : String
  pub capabilities : List String
  pub labels : V
  pub concurrency_limit : ℕ
  pub status : WorkerStatus

-- The constraint `ck_job_claim_event`, as far as the events are written.
pub data ClaimEventKind : Type 0 where
  claimed recovered completed requeued failed dead_lettered : ClaimEventKind

-- A row of `job_claim_history`, without its own uuid and its details.
pub record ClaimEvent : Type 0 where
  pub job_id : ℕ
  pub worker_id : ℕ
  pub lease_token : ℕ
  pub event : ClaimEventKind
  pub occurred_at : ℕ

-- The three tables.
pub record Store (V : Type 0) : Type 0 where
  pub jobs : List (JobRow V)
  pub workers : List (WorkerInstanceRow V)
  pub history : List ClaimEvent

-- `n.max(1)`, and a number of seconds as an interval.
abbrev pub at_least_one : ℤ → ℕ
at_least_one (pos zero) = 1
at_least_one (pos (suc n)) = suc n
at_least_one (negsuc n) = 1

abbrev pub seconds : ℕ → ℕ
seconds n = n * 1_000_000

abbrev pub is_running : JobStatus → Bool
is_running JobStatus.running = true
is_running _ = false

abbrev pub is_queued : JobStatus → Bool
is_queued JobStatus.queued = true
is_queued _ = false

abbrev pub is_active : WorkerStatus → Bool
is_active WorkerStatus.active = true
is_active _ = false

-- `column = $n` for a column that may be NULL.
abbrev pub is_uuid : Option ℕ → ℕ → Bool
is_uuid none w = false
is_uuid (some v) w = eqb v w

module _ {V : Type 0} where
  -- `COALESCE(lease_expires_at, locked_until)`.
  abbrev pub deadline : JobRow V → Option ℕ
  deadline r = coalesce r.lease_expires_at r.locked_until

  -- A running row whose lease has not run out.
  abbrev pub lease_active : ℕ → JobRow V → Bool
  lease_active now r = is_running r.status && not (passed now (deadline r))

  -- A running row whose lease has run out.
  abbrev pub lease_expired : ℕ → JobRow V → Bool
  lease_expired now r = is_running r.status && passed now (deadline r)

  -- `WHERE uuid = $1 AND status = 'running' AND lease_owner = $2 AND lease_token = $3`.
  abbrev pub holds_lease : ℕ → ℕ → ℕ → JobRow V → Bool
  holds_lease job_id worker_id token r =
      eqb r.uuid job_id
      && is_running r.status
      && is_uuid r.lease_owner worker_id
      && is_uuid r.lease_token token
