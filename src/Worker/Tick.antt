-- ===== src/Worker/Tick.antt =====
-- `dispatch_with_lease` and `tick_for_worker` of crates/beampipe-jobs/src/lib.rs. What the job itself
-- does, when, and what the other workers call meanwhile is an argument.
pub mod Laws
pub mod Outcome
mod Examples
use Prim.Native.Nat.{◌/◌}
use beampipe_core_v.Common.{
  ℕ, ◌+◌, String, Bool, true, false, ◌||◌, Option, none, some, Result, ok, err, List, [], ◌∷◌, ◌==◌,
  if◌then◌else◌,
}
use beampipe_core_v.Common.Int.{ℤ, pos, negsuc}
use beampipe_core_v.JobQueue.{JobRow, Store, at_least_one}
use beampipe_core_v.JobQueue.Claim.{SqlError, claim_next_job_for_worker}
use beampipe_core_v.JobQueue.Lease.{renew_job_lease}
use beampipe_core_v.JobQueue.Trace.{Call, renews, completes, reschedules, fails, retries, step, run}
use beampipe_core_v.Json.{Json, Shape, as_object}
use beampipe_core_v.Worker.Failure.{
  is_non_retryable_job_error, as_str, classify_job_failure, retry_delay_seconds,
}

abbrev pub is_recurring : String → Bool
is_recurring kind = (kind == "slurm_poll_tick") || (kind == "dim_poll_tick")

-- `unwrap_or(default)`.
abbrev or_default {ℓ} : {A : Type ℓ} → Option A → A → A
or_default none d = d
or_default (some a) d = a

-- What a handler returns.
abbrev pub Handled : Type 0
Handled = Result (Unit {0}) String

-- `(lock_seconds / 3).max(1)`, the seconds between renewals.
unfoldable pub renewal_seconds : ℤ → ℕ
renewal_seconds (pos n) = at_least_one (pos (n / 3))
renewal_seconds (negsuc n) = 1

module _ (J : Json) where
  open J use {Value, get, as_i64}

  -- `value.and_then(Value::as_i64)`, and `payload.get("interval_secs").and_then(Value::as_i64)`.
  integer_of : Option Value → Option ℤ
  integer_of none = none
  integer_of (some v) = elim (J.view v) [ Shape.number n ↦ as_i64 n | _ ↦ none ]

  pub interval_of : Value → Option ℤ
  unfolding integer_of as_object
  interval_of payload = elim (as_object J payload) [
    | none ↦ none
    | some m ↦ integer_of (get "interval_secs" m)
  ]

  -- The call that ends a job whose handler has returned.
  unfoldable pub settling_call : JobRow Value → ℕ → ℕ → Handled → Call
  unfolding interval_of classify_job_failure is_non_retryable_job_error retry_delay_seconds as_str
  settling_call job worker_id token (ok _) =
      if is_recurring job.kind
      then reschedules job.uuid worker_id token (
          or_default (interval_of job.payload)
            (if job.kind == "dim_poll_tick" then pos 3 else pos 30))
      else completes job.uuid worker_id token
  settling_call job worker_id token (err error) =
      if is_non_retryable_job_error job.kind error
      then fails job.uuid worker_id token error (as_str (classify_job_failure job.kind error))
      else retries job.uuid worker_id token error (as_str (classify_job_failure job.kind error))
          (pos (retry_delay_seconds job.uuid job.attempts))

module _ {V : Type 0} (jsonb_contains : V → V → Bool) where
  -- The handler runs while the lease is renewed. A round is what the other workers call before a
  -- renewal, and its time; after the rounds the handler returns.
  unfoldable pub dispatch_with_lease :
      ℕ → ℕ → ℕ → ℤ → List (List (ℕ × Call) × ℕ) → Handled → Store V → Option Handled × Store V
  unfolding step run renew_job_lease
  dispatch_with_lease job_id worker_id token lock_seconds [] result s = (some result, s)
  dispatch_with_lease job_id worker_id token lock_seconds ((others, at) ∷ rounds) result s =
      let (renewed, s') =
        step jsonb_contains (run jsonb_contains s others)
          (at, renews job_id worker_id token lock_seconds) in
      let rest = dispatch_with_lease job_id worker_id token lock_seconds rounds result s' in
      if renewed then rest else (none, s')

-- What happens to a job that is dispatched: the rounds of renewals, what the handler returns, what
-- the other workers call before it has returned, and the time at which the job is ended.
pub record Course : Type 0 where
  pub rounds : List (List (ℕ × Call) × ℕ)
  pub result : Handled
  pub others : List (ℕ × Call)
  pub at : ℕ

-- How a tick ends: there was no job, the lease was lost, or the update that ends the job was made or
-- refused.
pub data Ended : Type 0 where
  no_job lease_lost : Ended
  settled : Bool → Ended

module _ (J : Json) (jsonb_contains : J.Value → J.Value → Bool) where
  open J use {Value}

  abbrev settle : JobRow Value → ℕ → ℕ → Course → Option Handled × Store Value → Ended × Store Value
  settle job worker_id token course (none, s) = (lease_lost, s)
  settle job worker_id token course (some result, s) =
      let (answer, s') =
        step jsonb_contains (run jsonb_contains s course.others)
          (course.at, settling_call J job worker_id token result) in
      (settled answer, s')

  -- A claimed job that has no token is a protocol error.
  abbrev pub work_on :
      ℕ
      → ℤ
      → (JobRow Value → Course)
      → JobRow Value
      → Store Value
      → Option ℕ
      → Option (Ended × Store Value)
  work_on worker_id lock_seconds course job s none = none
  work_on worker_id lock_seconds course job s (some token) = some (
      settle job worker_id token (course job) (
        dispatch_with_lease jsonb_contains job.uuid worker_id token lock_seconds (course job).rounds
          (course job).result s))

  abbrev after_claim :
      ℕ
      → ℤ
      → (JobRow Value → Course)
      → Result (Option (JobRow Value) × Store Value) SqlError
      → Option (Ended × Store Value)
  after_claim worker_id lock_seconds course (err e) = none
  after_claim worker_id lock_seconds course (ok (none, s)) = some (no_job, s)
  after_claim worker_id lock_seconds course (ok (some job, s)) =
      work_on worker_id lock_seconds course job s job.lease_token

  -- `none` is an error of the database. `token` is the token that the claim makes.
  pub tick_for_worker :
      ℕ
      → (ℕ → Bool)
      → ℕ
      → String
      → ℤ
      → ℕ
      → (JobRow Value → Course)
      → Store Value
      → Option (Ended × Store Value)
  unfolding dispatch_with_lease settling_call
  tick_for_worker now locked worker_id pool lock_seconds token course s =
      after_claim worker_id lock_seconds course
        (claim_next_job_for_worker jsonb_contains now locked worker_id pool lock_seconds token s)
