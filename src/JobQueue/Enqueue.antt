-- ===== src/JobQueue/Enqueue.antt =====
-- Enqueueing a recurring job under its idempotency key: `enqueue_recurring_job_with_options` of
-- crates/beampipe-db/src/repo.rs with the capabilities that it requires. The new uuid and the labels
-- as a JSON document are arguments.
pub mod Capabilities
pub mod Laws
mod Examples
use beampipe_core_v.Common.{
  ℕ, String, Bool, true, false, ◌||◌, Option, none, some, Result, ok, err, List, [], ◌∷◌, ◌==◌,
  if◌then◌else◌,
}
use beampipe_core_v.Common.Int.{ℤ, pos}
use beampipe_core_v.Common.Rows.{update_where, select_where}
use beampipe_core_v.JobQueue.{JobRow, JobStatus, Store}
use beampipe_core_v.JobQueue.Enqueue.Capabilities.{
  EnqueueError, job_kind_capabilities, normalize_required_capabilities,
}

-- The options that a recurring job has.
pub record JobEnqueueOptions : Type 0 where
  pub pool : Option String
  pub required_capabilities : List String
  pub priority : Option ℤ

-- `status IN ('completed', 'failed', 'dead_letter')`.
abbrev pub has_ended : JobStatus → Bool
has_ended JobStatus.completed = true
has_ended JobStatus.failed = true
has_ended JobStatus.dead_letter = true
has_ended _ = false

-- `unwrap_or(default)`.
abbrev or_default {ℓ} : {A : Type ℓ} → Option A → A → A
or_default none d = d
or_default (some a) d = a

-- The capabilities of the options, or else those of the kind.
unfoldable pub capabilities_for : String → List String → Result (List String) EnqueueError
unfolding job_kind_capabilities normalize_required_capabilities
capabilities_for kind [] = normalize_required_capabilities (job_kind_capabilities kind)
capabilities_for kind (c ∷ cs) = normalize_required_capabilities (c ∷ cs)

module _ {V : Type 0} where
  abbrev pub has_key : String → JobRow V → Bool
  has_key key r = elim r.idempotency_key [ none ↦ false | some k ↦ k == key ]

  -- The row that is inserted, the columns that are not named having their defaults.
  unfoldable pub inserted : ℕ → ℕ → String → V → String → String → List String → V → ℤ → JobRow V
  inserted now id kind payload key pool capabilities labels priority = record {
    uuid = id;
    kind = kind;
    payload = payload;
    status = JobStatus.queued;
    execution_id = none;
    phase = none;
    attempts = 0;
    max_attempts = pos 3;
    next_run_at = now;
    locked_until = none;
    lease_owner = none;
    lease_token = none;
    lease_expires_at = none;
    heartbeat_at = none;
    pool = pool;
    required_capabilities = capabilities;
    required_labels = labels;
    priority = priority;
    idempotency_key = some key;
    last_error = none;
    failure_class = none;
    dead_lettered_at = none;
    dead_letter_reason = none;
    created_at = now;
    updated_at = none;
  }

  -- The assignments of `DO UPDATE`, `new` being the row that would have been inserted.
  unfoldable pub requeued : ℕ → JobRow V → JobRow V → JobRow V
  requeued now new r = record r {
    status = if has_ended r.status then JobStatus.queued else r.status;
    payload = new.payload;
    pool = new.pool;
    required_capabilities = new.required_capabilities;
    required_labels = new.required_labels;
    priority = new.priority;
    next_run_at = if has_ended r.status then now else r.next_run_at;
    attempts = if has_ended r.status then 0 else r.attempts;
    locked_until = if has_ended r.status then none else r.locked_until;
    lease_owner = if has_ended r.status then none else r.lease_owner;
    lease_token = if has_ended r.status then none else r.lease_token;
    lease_expires_at = if has_ended r.status then none else r.lease_expires_at;
    heartbeat_at = if has_ended r.status then none else r.heartbeat_at;
    last_error = if has_ended r.status then none else r.last_error;
    failure_class = if has_ended r.status then none else r.failure_class;
    dead_lettered_at = if has_ended r.status then none else r.dead_lettered_at;
    dead_letter_reason = if has_ended r.status then none else r.dead_letter_reason;
    updated_at = some now;
  }

  -- `INSERT ... ON CONFLICT (idempotency_key) DO UPDATE ... RETURNING *`.
  abbrev pub upserted :
      (JobRow V → Bool)
      → (JobRow V → JobRow V)
      → JobRow V
      → List (JobRow V)
      → List (JobRow V)
      → JobRow V × List (JobRow V)
  upserted p f new rows [] = (new, new ∷ rows)
  upserted p f new rows (r ∷ rs) = (f r, update_where p f rows)

  abbrev pub inserted_for :
      ℕ → ℕ → String → V → String → JobEnqueueOptions → V → List String → JobRow V
  inserted_for now id kind payload key opts labels capabilities =
      inserted now id kind payload key (or_default opts.pool "default") capabilities labels
        (or_default opts.priority (pos 0))

  unfoldable pub enqueue_recurring_job_with_options :
      (now id : ℕ)
      → String
      → V
      → String
      → JobEnqueueOptions
      → (labels : V) → Store V
      → Result (JobRow V × Store V) EnqueueError
  unfolding capabilities_for inserted requeued
  enqueue_recurring_job_with_options now id kind payload key opts labels s =
      elim (capabilities_for kind opts.required_capabilities) [
        | err e ↦ err e
        | ok capabilities ↦
            let new = inserted_for now id kind payload key opts labels capabilities in
            let (job, jobs) =
              upserted (has_key key) (requeued now new) new s.jobs
                (select_where (has_key key) s.jobs) in
            ok (job, record s { jobs = jobs })
      ]
