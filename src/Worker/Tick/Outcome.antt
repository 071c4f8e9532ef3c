-- ===== src/Worker/Tick/Outcome.antt =====
-- What becomes of a job by the result of its handler, and the call that ends the job
-- (crates/beampipe-jobs/src/lib.rs).
use beampipe_core_v.Common.{
  ℕ, ◌+◌, ◌≡◌, refl, String, true, some, ok, err, arith, by_test, ◌⊎◌, inl, inr, none, false, ◌||◌,
  ◌==◌, ◌≤◌, ◌∙◌, zero, suc, if◌then◌else◌, Option-cases,
}
use beampipe_core_v.Common.Int.{ℤ, pos, ltb_ℤ}
use beampipe_core_v.JobQueue.{JobStatus, ClaimEventKind, JobRow, at_least_one, seconds}
use beampipe_core_v.JobQueue.Trace.Holder.{
  IsSameJob, same_max_attempts, Tells, QueuedAgain, DeadLettered, IsEnd,
}
use beampipe_core_v.Json.{Json}
use beampipe_core_v.Worker.Failure.{
  is_non_retryable_job_error, classify_job_failure, as_str, retry_delay_seconds,
}
use beampipe_core_v.Worker.Failure.Laws.{retry_delay_bounds}
use beampipe_core_v.Worker.Tick.{Handled, is_recurring, settling_call, interval_of, or_default}

module _ {V : Type 0} where
  -- The row is still the job that was claimed, after as many attempts.
  abbrev pub IsJob : JobRow V → JobRow V → Type 0
  IsJob job r = IsSameJob job r × (r.attempts ≡ job.attempts)

  -- Before its last attempt a job is queued again, between 15 seconds and an hour from then; after it
  -- the job is dead-lettered.
  abbrev pub IsRetried : ℕ → String → JobRow V → ClaimEventKind → JobRow V → Type 0
  IsRetried at error r e job =
      ((ltb_ℤ (pos job.attempts) job.max_attempts ≡ true)
        × ((delay : ℕ) × (15 ≤ delay) × (delay ≤ 3600) × QueuedAgain (at + seconds delay) r e))
      ⊎ ((ltb_ℤ (pos job.attempts) job.max_attempts ≡ false) × DeadLettered at error r e)

module _ (J : Json) where
  open J use {Value}

  -- The interval of the payload, or else that of the kind.
  abbrev pub IsInterval : JobRow Value → ℤ → Type 0
  IsInterval job n =
      (interval_of J job.payload ≡ some n)
      ⊎ ((interval_of J job.payload ≡ none)
          × (n ≡ (if job.kind == "dim_poll_tick" then pos 3 else pos 30)))

  -- What the end of a job makes of it, by the handler's result: the row after it and the event.
  abbrev pub IsOutcome : ℕ → JobRow Value → Handled → JobRow Value → ClaimEventKind → Type 0
  IsOutcome at job (ok _) r e =
      (((job.kind == "slurm_poll_tick") || (job.kind == "dim_poll_tick") ≡ true)
        × ((n : ℤ) × IsInterval job n × QueuedAgain (at + seconds (at_least_one n)) r e)
        × (r.attempts ≡ 0)
        × (r.last_error ≡ none)
        × (r.failure_class ≡ none))
      ⊎ (((job.kind == "slurm_poll_tick") || (job.kind == "dim_poll_tick") ≡ false)
          × (r.status ≡ JobStatus.completed)
          × (r.attempts ≡ job.attempts)
          × (e ≡ ClaimEventKind.completed))
  IsOutcome at job (err error) r e =
      (r.attempts ≡ job.attempts)
      × Tells error (as_str (classify_job_failure job.kind error)) r
      × (((is_non_retryable_job_error job.kind error ≡ true)
            × (r.status ≡ JobStatus.failed)
            × (e ≡ ClaimEventKind.failed))
          ⊎ ((is_non_retryable_job_error job.kind error ≡ false) × IsRetried at error r e job))

  asked-IsInterval :
      (job : JobRow Value)
      → IsInterval job (
          or_default
            (interval_of J job.payload)
            (if job.kind == "dim_poll_tick" then pos 3 else pos 30))
  asked-IsInterval job = elim (Option-cases (interval_of J job.payload)) [
    | inl n ↦ inr (n, rw n refl)
    | inr (i, e) ↦ inl (rw e refl)
  ]

  at_least_one_pos : (d : ℕ) → 1 ≤ d → at_least_one (pos d) ≡ d
  at_least_one_pos zero h = absurd (omega arith)
  at_least_one_pos (suc d) h = refl

  end-IsRetried :
      (at : ℕ) (job row r : JobRow Value) (error : String) (e : ClaimEventKind)
      → IsSameJob job row
      → row.attempts ≡ job.attempts
      → ((ltb_ℤ (pos row.attempts) row.max_attempts ≡ true)
          × QueuedAgain
              (at + seconds (at_least_one (pos (retry_delay_seconds job.uuid job.attempts))))
              r
              e
          × (r.dead_lettered_at ≡ none))
        ⊎ ((ltb_ℤ (pos row.attempts) row.max_attempts ≡ false) × DeadLettered at error r e)
      → IsRetried at error r e job
  end-IsRetried at job row r error e job_is same (inl (more, queued, _)) =
      let delay = retry_delay_seconds job.uuid job.attempts in
      let (least, most, _) = retry_delay_bounds job.uuid job.attempts job.attempts (omega arith) in
      inl (
        rw (← same, ← same_max_attempts job row job_is) more,
        (delay, least, most, rw (at_least_one_pos delay (omega (arith, least))) at queued),
      )
  end-IsRetried at job row r error e job_is same (inr (none_left, dead)) =
      inr (rw (← same, ← same_max_attempts job row job_is) none_left, dead)

  -- A call that ends the job as the handler's result asks has the outcome of it.
  ok-IsOutcome :
      (at worker_id token : ℕ) (job row r : JobRow Value) (u : Unit {0}) (e : ClaimEventKind)
      → row.attempts ≡ job.attempts
      → IsEnd at (settling_call J job worker_id token (ok u)) row r e
      → IsOutcome at job (ok u) r e
  unfolding settling_call
  ok-IsOutcome at worker_id token job row r u e same h =
      by_test (λ c. IsEnd at c row r e → IsOutcome at job (ok u) r e) (is_recurring job.kind)
        (λ b (queued, attempts, error, class).
          inl (b, (_, asked-IsInterval job, queued), attempts, error, class))
        (λ b (status, attempts, event). inr (b, status, attempts ∙ same, event)) h

  err-IsOutcome :
      (at worker_id token : ℕ) (job row r : JobRow Value) (error : String) (e : ClaimEventKind)
      → IsSameJob job row
      → row.attempts ≡ job.attempts
      → IsEnd at (settling_call J job worker_id token (err error)) row r e
      → IsOutcome at job (err error) r e
  unfolding settling_call
  err-IsOutcome at worker_id token job row r error e job_is same h =
      by_test (λ c. IsEnd at c row r e → IsOutcome at job (err error) r e)
        (is_non_retryable_job_error job.kind error)
        (λ b (status, attempts, tells, event). (attempts ∙ same, tells, inl (b, status, event)))
        (λ b (attempts, tells, fate).
          (attempts ∙ same, tells, inr (b, end-IsRetried at job row r error e job_is same fate)))
        h

  pub result-IsOutcome :
      (at worker_id token : ℕ) (job row r : JobRow Value) (result : Handled) (e : ClaimEventKind)
      → IsJob job row
      → IsEnd at (settling_call J job worker_id token result) row r e
      → IsOutcome at job result r e
  result-IsOutcome at worker_id token job row r (ok u) e (_, same) h =
      ok-IsOutcome at worker_id token job row r u e same h
  result-IsOutcome at worker_id token job row r (err error) e (job_is, same) h =
      err-IsOutcome at worker_id token job row r error e job_is same h
