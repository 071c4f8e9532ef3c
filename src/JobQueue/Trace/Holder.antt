-- ===== src/JobQueue/Trace/Holder.antt =====
-- Ending a job under its lease: the four functions that do it in crates/beampipe-db/src/repo.rs, and
-- a description of the row and the event that each leaves.
use mathlib.Core.List.{Memᴰ}
use beampipe_core_v.Common.{
  ℕ, ◌+◌, none, ◌≡◌, refl, String, Bool, true, false, some, List, [], ◌∷◌, ◌⊎◌, arith,
  if◌then◌else◌, inl, inr, Bool-cases, Option, ap,
}
use beampipe_core_v.Common.Int.{ℤ, pos, ltb_ℤ}
use beampipe_core_v.Common.Lists.{All}
use beampipe_core_v.JobQueue.{
  at_least_one, seconds, JobStatus, JobRow, ClaimEventKind, ClaimEvent, Store, holds_lease,
}
use beampipe_core_v.JobQueue.Claim.{has_uuid}
use beampipe_core_v.JobQueue.Lease.{
  released, terminal_event, retry_event, returned_status, completed, rescheduled, failed, retried,
  exhausted, finish, complete_job_with_lease, reschedule_recurring_job_with_lease,
  fail_job_permanently_with_lease, fail_or_retry_job_with_lease,
}
use beampipe_core_v.Common.Rows.{count, update_where-mem, count-pos, count-le, only_row}
use beampipe_core_v.JobQueue.Trace.{
  Call, claims, renews, completes, reschedules, fails, retries, ends, step,
}
use beampipe_core_v.JobQueue.Trace.Fencing.{same_lease-eq}
use beampipe_core_v.JobQueue.Trace.Validity.{IsValid}

-- What the end of a job keeps of its row: everything but its status, its lease, its attempts, the time
-- of its next run, and what is told of a failure.
module _ {V : Type 0} where
  abbrev identity :
      JobRow V
      → (ℕ × String × V × Option ℕ × ℤ) × (String × List String × V × ℤ × Option String × ℕ)
  identity r = (
    (r.uuid, r.kind, r.payload, r.execution_id, r.max_attempts),
    (
      r.pool, r.required_capabilities, r.required_labels, r.priority, r.idempotency_key,
      r.created_at,
    ),
  )

  abbrev pub IsSameJob : JobRow V → JobRow V → Type 0
  IsSameJob r r' = identity r' ≡ identity r

  pub same_uuid : (r r' : JobRow V) → IsSameJob r r' → r'.uuid ≡ r.uuid
  same_uuid r r' h = ap (λ x. x.0.0) h

  pub same_max_attempts : (r r' : JobRow V) → IsSameJob r r' → r'.max_attempts ≡ r.max_attempts
  same_max_attempts r r' h = ap (λ x. x.0.4) h

  -- No column of a lease is set.
  abbrev lease : JobRow V → Option ℕ × Option ℕ × Option ℕ × Option ℕ × Option ℕ
  lease r = (r.lease_owner, r.lease_token, r.lease_expires_at, r.locked_until, r.heartbeat_at)

  abbrev pub IsUnleased : JobRow V → Type 0
  IsUnleased r = lease r ≡ (none, none, none, none, none)

  -- The failure that a row tells.
  abbrev pub Tells : String → String → JobRow V → Type 0
  Tells error class r = (r.last_error ≡ some error) × (r.failure_class ≡ some class)

  -- Queued for a time, or put away for good; with the event of it.
  abbrev pub QueuedAgain : ℕ → JobRow V → ClaimEventKind → Type 0
  QueuedAgain at r e =
      (r.status ≡ JobStatus.queued) × (r.next_run_at ≡ at) × (e ≡ ClaimEventKind.requeued)

  abbrev pub DeadLettered : ℕ → String → JobRow V → ClaimEventKind → Type 0
  DeadLettered now error r e =
      (r.status ≡ JobStatus.dead_letter)
      × (r.dead_lettered_at ≡ some now)
      × (r.dead_letter_reason ≡ some error)
      × (e ≡ ClaimEventKind.dead_lettered)

  -- What a call that ends a job makes of the row `r`, and the event that it records.
  abbrev pub IsEnd : ℕ → Call → JobRow V → JobRow V → ClaimEventKind → Type 0
  IsEnd now (completes _ _ _) r r' e =
      (r'.status ≡ JobStatus.completed)
      × (r'.attempts ≡ r.attempts)
      × (e ≡ ClaimEventKind.completed)
  IsEnd now (reschedules _ _ _ delay) r r' e =
      QueuedAgain (now + seconds (at_least_one delay)) r' e
      × (r'.attempts ≡ 0)
      × (r'.last_error ≡ none)
      × (r'.failure_class ≡ none)
  IsEnd now (fails _ _ _ error class) r r' e =
      (r'.status ≡ JobStatus.failed)
      × (r'.attempts ≡ r.attempts)
      × Tells error class r'
      × (e ≡ ClaimEventKind.failed)
  IsEnd now (retries _ _ _ error class delay) r r' e =
      (r'.attempts ≡ r.attempts)
      × Tells error class r'
      × (((ltb_ℤ (pos r.attempts) r.max_attempts ≡ true)
            × QueuedAgain (now + seconds (at_least_one delay)) r' e
            × (r'.dead_lettered_at ≡ none))
          ⊎ ((ltb_ℤ (pos r.attempts) r.max_attempts ≡ false) × DeadLettered now error r' e))
  IsEnd now _ r r' e = ⊥

module _ {V : Type 0} where
  -- The row that an ending call leaves, and the event that it records.
  ended : ℕ → Call → JobRow V → JobRow V
  ended now (completes _ _ _) r = completed now r
  ended now (reschedules _ _ _ delay) r = rescheduled now delay r
  ended now (fails _ _ _ error class) r = failed now error class r
  ended now (retries _ _ _ error class delay) r = retried now error class delay r
  ended now _ r = r

  end_event : Call → JobRow V → ClaimEventKind
  end_event (completes _ _ _) r = ClaimEventKind.completed
  end_event (fails _ _ _ _ _) r = ClaimEventKind.failed
  end_event (retries _ _ _ _ _ _) r =
      if exhausted r then ClaimEventKind.dead_lettered else ClaimEventKind.requeued
  end_event _ r = ClaimEventKind.requeued

  ended-IsSameJob : (now : ℕ) (c : Call) (r : JobRow V) → IsSameJob r (ended now c r)
  unfolding ended completed rescheduled failed retried released
  ended-IsSameJob now (claims _ _ _ _ _) r = refl
  ended-IsSameJob now (renews _ _ _ _) r = refl
  ended-IsSameJob now (completes _ _ _) r = refl
  ended-IsSameJob now (reschedules _ _ _ _) r = refl
  ended-IsSameJob now (fails _ _ _ _ _) r = refl
  ended-IsSameJob now (retries _ _ _ _ _ _) r = refl

  ended-IsUnleased :
      (j w t now : ℕ) (c : Call) (r : JobRow V) → ends j w t c ≡ true → IsUnleased (ended now c r)
  unfolding ended completed rescheduled failed retried released
  ended-IsUnleased j w t now (claims _ _ _ _ _) r e = cc
  ended-IsUnleased j w t now (renews _ _ _ _) r e = cc
  ended-IsUnleased j w t now (completes _ _ _) r e = refl
  ended-IsUnleased j w t now (reschedules _ _ _ _) r e = refl
  ended-IsUnleased j w t now (fails _ _ _ _ _) r e = refl
  ended-IsUnleased j w t now (retries _ _ _ _ _ _) r e = refl

  retried-IsEnd :
      (j w t now : ℕ) (error class : String) (delay : ℤ) (r : JobRow V)
      → IsEnd now
          (retries j w t error class delay)
          r
          (retried now error class delay r)
          (if exhausted r then ClaimEventKind.dead_lettered else ClaimEventKind.requeued)
  unfolding retried released
  retried-IsEnd j w t now error class delay r =
      elim (Bool-cases (ltb_ℤ (pos r.attempts) r.max_attempts)) [
        | inl e ↦ (refl, (refl, refl), inl (e, (rw e refl, refl, rw e refl), rw e refl))
        | inr e ↦ (refl, (refl, refl), inr (e, (rw e refl, rw e refl, rw e refl, rw e refl)))
      ]

  ended-IsEnd :
      (j w t now : ℕ) (c : Call) (r : JobRow V)
      → ends j w t c ≡ true
      → IsEnd now c r (ended now c r) (end_event c r)
  unfolding ended end_event completed rescheduled failed released
  ended-IsEnd j w t now (claims _ _ _ _ _) r e = cc
  ended-IsEnd j w t now (renews _ _ _ _) r e = cc
  ended-IsEnd j w t now (completes _ _ _) r e = (refl, refl, refl)
  ended-IsEnd j w t now (reschedules _ _ _ _) r e = ((refl, refl, refl), refl, refl, refl)
  ended-IsEnd j w t now (fails _ _ _ _ _) r e = (refl, refl, (refl, refl), refl)
  ended-IsEnd j w t now (retries a b c error class delay) r e =
      retried-IsEnd a b c now error class delay r

module _ {V : Type 0} (worker_id token : ℕ) (s : Store V) (r : JobRow V) (listed : Memᴰ r s.jobs)
    (holds : holds_lease r.uuid worker_id token r ≡ true) (v : IsValid s) where
  one_holder : count (holds_lease r.uuid worker_id token) s.jobs ≡ 1
  one_holder =
      let most =
        count-le (has_uuid r.uuid) (holds_lease r.uuid worker_id token) (λ x h. ground arith)
          s.jobs in
      let least = count-pos (holds_lease r.uuid worker_id token) listed holds in
      omega (arith, most, least, v.unique r.uuid)

  finish-holder :
      (now : ℕ) (change : JobRow V → JobRow V) (event : ClaimEventKind)
      → let done = finish now r.uuid worker_id token change event s in
        (done.0 ≡ true)
        × Memᴰ (change r) done.1.jobs
        × (done.1.history ≡ terminal_event now r.uuid worker_id token event ∷ s.history)
  unfolding finish
  finish-holder now change event = (
    rw one_holder refl,
    update_where-mem (holds_lease r.uuid worker_id token) change s.jobs listed holds,
    rw one_holder refl,
  )

  returned_status-found :
      (p : JobRow V → Bool) (f : JobRow V → JobRow V) (rows : List (JobRow V))
      → Memᴰ r rows
      → p r ≡ true
      → All (λ x. (p x ≡ false) ⊎ (x ≡ r)) rows
      → returned_status p f rows ≡ some (f r).status
  returned_status-found p f [] m h only = elim m [ ]
  returned_status-found p f (x ∷ xs) (Memᴰ.head e) h only = rw (← e, h) refl
  returned_status-found p f (x ∷ xs) (Memᴰ.tail m) h only = elim only.0 [
    | inl miss ↦ rw miss (returned_status-found p f xs m h only.1)
    | inr same ↦ rw (same, h) refl
  ]

  retry-holder :
      (now : ℕ) (error class : String) (delay : ℤ)
      → let done = fail_or_retry_job_with_lease now r.uuid worker_id token error class delay s in
        let event = if exhausted r then ClaimEventKind.dead_lettered else ClaimEventKind.requeued in
        (done.0 ≡ true)
        × Memᴰ (retried now error class delay r) done.1.jobs
        × (done.1.history ≡ terminal_event now r.uuid worker_id token event ∷ s.history)
  unfolding fail_or_retry_job_with_lease retried
  retry-holder now error class delay =
      let p = holds_lease r.uuid worker_id token in
      let f = retried now error class delay in
      let status =
        returned_status-found p f s.jobs listed holds
          (only_row p r s.jobs listed holds (omega (arith, one_holder))) in
      (
        rw status refl,
        update_where-mem p f s.jobs listed holds,
        rw status (by_exhausted (exhausted r)),
      )
    where
      by_exhausted :
          (b : Bool)
          → ◌≡◌ {A = List ClaimEvent}
              (terminal_event now r.uuid worker_id token
                  (retry_event (if b then JobStatus.dead_letter else JobStatus.queued))
                ∷ s.history)
              (terminal_event now r.uuid worker_id token
                  (if b then ClaimEventKind.dead_lettered else ClaimEventKind.requeued)
                ∷ s.history)
      by_exhausted true = refl
      by_exhausted false = refl

  holder_ended_lem :
      (jsonb_contains : V → V → Bool) (now : ℕ) (c : Call)
      → ends r.uuid worker_id token c ≡ true
      → let (answer, s') = step jsonb_contains s (now, c) in
        (answer ≡ true)
        × Memᴰ (ended now c r) s'.jobs
        × (s'.history ≡ terminal_event now r.uuid worker_id token (end_event c r) ∷ s.history)
  unfolding step complete_job_with_lease reschedule_recurring_job_with_lease
      fail_job_permanently_with_lease ended end_event
  holder_ended_lem jsonb_contains now (claims _ _ _ _ _) e = cc
  holder_ended_lem jsonb_contains now (renews _ _ _ _) e = cc
  holder_ended_lem jsonb_contains now (completes j w t) e =
      let (a, b, c) = same_lease-eq jsonb_contains r.uuid worker_id token j w t e in
      rw (a, b, c) (finish-holder now _ _)
  holder_ended_lem jsonb_contains now (reschedules j w t delay) e =
      let (a, b, c) = same_lease-eq jsonb_contains r.uuid worker_id token j w t e in
      rw (a, b, c) (finish-holder now _ _)
  holder_ended_lem jsonb_contains now (fails j w t error class) e =
      let (a, b, c) = same_lease-eq jsonb_contains r.uuid worker_id token j w t e in
      rw (a, b, c) (finish-holder now _ _)
  holder_ended_lem jsonb_contains now (retries j w t error class delay) e =
      let (a, b, c) = same_lease-eq jsonb_contains r.uuid worker_id token j w t e in
      rw (a, b, c) (retry-holder now error class delay)

  -- A worker that still holds the lease of a job, also if it has run out, can end the job: the call
  -- answers true, and the row stays the same job with no lease, `completed`, `queued` for the given
  -- time with no attempts and no failure, or `failed` with the failure, as the call says. A retry is
  -- `queued` for the given time while the attempts are below their limit, and `dead_letter` from there
  -- on, with the failure either way. One event is recorded for the lease, of the same kind. This is so
  -- if no two jobs have the same uuid and a job has the columns of a lease exactly if it is running.
  pub holder_ends :
      (jsonb_contains : V → V → Bool) (now : ℕ) (c : Call)
      → ends r.uuid worker_id token c ≡ true
      → let (answer, s') = step jsonb_contains s (now, c) in
        (answer ≡ true)
        × ((r' : JobRow V) × (event : ClaimEventKind) × Memᴰ r' s'.jobs
            × IsSameJob r r'
            × IsUnleased r'
            × IsEnd now c r r' event
            × (s'.history
                ≡ (record {
                  job_id = r.uuid;
                  worker_id = worker_id;
                  lease_token = token;
                  event = event;
                  occurred_at = now;
                })
                  ∷ s.history))
  holder_ends jsonb_contains now c e =
      let (answer, listed, history) = holder_ended_lem jsonb_contains now c e in
      (
        answer,
        (
          ended now c r,
          end_event c r,
          listed,
          ended-IsSameJob now c r,
          ended-IsUnleased r.uuid worker_id token now c r e,
          ended-IsEnd r.uuid worker_id token now c r e,
          history,
        ),
      )
