-- ===== src/Worker/Tick/Laws.antt =====
-- A tick of a worker that claims a job, and what becomes of the job
-- (crates/beampipe-jobs/src/lib.rs).
use mathlib.Core.List.{Memᴰ}
use mathlib.Core.Path.{subst}
use beampipe_core_v.Common.{
  ℕ, ◌+◌, ◌≡◌, refl, sym, ap, String, Bool, true, ◌&&◌, Option, some, ok, err, List, [], ◌∷◌, arith,
  ltb, by_test, ◌∙◌,
}
use beampipe_core_v.Common.Int.{ℤ}
use beampipe_core_v.JobQueue.{
  ClaimEventKind, ClaimEvent, JobRow, Store, at_least_one, seconds, holds_lease,
}
use beampipe_core_v.JobQueue.Claim.{leased, claim_next_job_for_worker}
use beampipe_core_v.JobQueue.Claim.Laws.{claimed-Takes, taken-mem}
use beampipe_core_v.JobQueue.Lease.{renewed}
use beampipe_core_v.JobQueue.Trace.{Call, renews, ends, step, run, same_lease_refl}
use beampipe_core_v.JobQueue.Trace.Exclusive.{
  kept_alive, last_deadline, IsHeldFor, KeptByRenewals, run-IsHeldFor, renewal_answers,
  claimed-IsHeldFor, step_renewed-IsHeldFor,
}
use beampipe_core_v.JobQueue.Trace.Holder.{IsSameJob, IsUnleased, holder_ends}
use beampipe_core_v.JobQueue.Trace.Validity.{IsValid, step-IsValid, run-IsValid, claimed-IsValid}
use beampipe_core_v.Json.{Json}
use beampipe_core_v.Worker.Failure.{is_non_retryable_job_error}
use beampipe_core_v.Worker.Tick.Outcome.{IsJob, IsOutcome, result-IsOutcome}
use beampipe_core_v.Worker.Tick.{
  Handled, is_recurring, settling_call, dispatch_with_lease, Course, settled, work_on,
  tick_for_worker,
}

-- Every renewal comes before the deadline that the claim or the last renewal has set, and so do the
-- calls of the other workers, none of which is a call under this lease.
abbrev pub in_time : ℕ → ℕ → ℕ → ℤ → ℕ → Course → List (List (ℕ × Call) × ℕ) → Bool
in_time job_id worker_id token n d course [] = kept_alive job_id worker_id token d course.others
in_time job_id worker_id token n d course ((others, at) ∷ rounds) =
    kept_alive job_id worker_id token d others
    && ltb at (last_deadline job_id worker_id token d others)
    && in_time job_id worker_id token n (at + seconds (at_least_one n)) course rounds

module _ {V : Type 0} (jsonb_contains : V → V → Bool) (job_id worker_id token : ℕ) (n : ℤ) where
  -- The handler's result comes back, and the job is still held.
  dispatch-IsHeldFor :
      (P : JobRow V → Type 0)
      → KeptByRenewals jsonb_contains job_id worker_id token P
      → (course : Course) (rounds : List (List (ℕ × Call) × ℕ)) (s : Store V) (d : ℕ) → IsValid s
      → IsHeldFor jsonb_contains job_id worker_id token P d s
      → in_time job_id worker_id token n d course rounds ≡ true
      → (s' : Store V) × (d' : ℕ) × (dispatch_with_lease jsonb_contains job_id worker_id token n
            rounds course.result s
          ≡ (some course.result, s'))
        × IsValid s'
        × IsHeldFor jsonb_contains job_id worker_id token P d' s'
        × (kept_alive job_id worker_id token d' course.others ≡ true)
  unfolding dispatch_with_lease
  dispatch-IsHeldFor P kept course [] s d v h t = (s, d, refl, v, h, t)
  dispatch-IsHeldFor P kept course ((others, at) ∷ rounds) s d v h t =
      let (alive, early, later) =
        three (kept_alive job_id worker_id token d others)
          (ltb at (last_deadline job_id worker_id token d others)) _ t in
      let s1 = run jsonb_contains s others in
      let d1 = last_deadline job_id worker_id token d others in
      let v1 = run-IsValid jsonb_contains s others v in
      let h1 = run-IsHeldFor jsonb_contains job_id worker_id token P kept s d others v alive h in
      let answer =
        renewal_answers jsonb_contains job_id worker_id token s1 at d1 n v1 (ground arith) P h1 in
      let c = renews job_id worker_id token n in
      let s2 = (step jsonb_contains s1 (at, c)).1 in
      let h2 =
        step_renewed-IsHeldFor jsonb_contains job_id worker_id token P kept s1 at d1 n v1
          (ground arith) h1 in
      let (s', d', e, v', h', k) =
        dispatch-IsHeldFor P kept course rounds s2 (at + seconds (at_least_one n))
          (step-IsValid jsonb_contains s1 (at, c) v1) h2 later in
      (s', d', rw (answer, e) refl, v', h', k)
    where
      three : (a b c : Bool) → (a && b && c) ≡ true → (a ≡ true) × (b ≡ true) × (c ≡ true)
      three a b c h = ground arith

module _ (J : Json) (jsonb_contains : J.Value → J.Value → Bool) where
  open J use {Value}

  settling_call-ends :
      (job : JobRow Value) (worker_id token : ℕ) (result : Handled)
      → ends job.uuid worker_id token (settling_call J job worker_id token result) ≡ true
  unfolding settling_call
  settling_call-ends job worker_id token (ok u) =
      by_test (λ c. ends job.uuid worker_id token c ≡ true) (is_recurring job.kind)
        (λ _. same_lease_refl job.uuid worker_id token)
        λ _. same_lease_refl job.uuid worker_id token
  settling_call-ends job worker_id token (err error) =
      by_test (λ c. ends job.uuid worker_id token c ≡ true)
        (is_non_retryable_job_error job.kind error) (λ _. same_lease_refl job.uuid worker_id token)
        λ _. same_lease_refl job.uuid worker_id token

  IsJob-renewed :
      (job : JobRow Value) (now : ℕ) (n : ℤ) (r : JobRow Value)
      → IsJob job r
      → IsJob job (renewed now n r)
  unfolding renewed
  IsJob-renewed job now n r h = h

  own_lease :
      (job_id worker_id token : ℕ) (r : JobRow Value)
      → holds_lease job_id worker_id token r ≡ true
      → (r.uuid ≡ job_id) × (holds_lease r.uuid worker_id token r ≡ true)
  own_lease job_id worker_id token r h = (ground arith, ground arith)

  -- A claimed job is held from then on, and the worker sees its token.
  claim_is_own :
      (now : ℕ) (locked : ℕ → Bool) (worker_id : ℕ) (pool : String) (n : ℤ) (token : ℕ)
      (s s1 : Store Value) (job : JobRow Value)
      → claim_next_job_for_worker jsonb_contains now locked worker_id pool n token s
        ≡ ok (some job, s1)
      → IsHeldFor jsonb_contains job.uuid worker_id token
          (IsJob job)
          (now + seconds (at_least_one n))
          s1
        × (job.lease_token ≡ some token)
  unfolding leased
  claim_is_own now locked worker_id pool n token s s1 job claimed =
      let (old, took, row, store) =
        claimed-Takes jsonb_contains now locked worker_id pool n token s job s1 claimed in
      let listed = taken-mem jsonb_contains now locked worker_id pool n token s old _ took in
      let same : old.uuid ≡ job.uuid = sym (ap (λ (r : JobRow Value). r.uuid) row) in
      let known : IsJob job (leased now worker_id token n old) =
        subst (λ j. IsJob j (leased now worker_id token n old)) (sym row) (refl, refl) in
      let held1 =
        claimed-IsHeldFor jsonb_contains job.uuid worker_id token (IsJob job) s now n old known
          listed same in
      (rw store held1, ap (λ (r : JobRow Value). r.lease_token) row)

  worked :
      (worker_id token : ℕ) (n : ℤ) (course : JobRow Value → Course) (job : JobRow Value)
      (s1 s2 : Store Value) (o : Option ℕ)
      → o ≡ some token
      → dispatch_with_lease jsonb_contains job.uuid worker_id token n
          (course job).rounds
          (course job).result
          s1
        ≡ (some (course job).result, s2)
      → let last =
          step jsonb_contains
            (run jsonb_contains s2 (course job).others)
            ((course job).at, settling_call J job worker_id token (course job).result) in
        last.0 ≡ true
        → work_on J jsonb_contains worker_id n course job s1 o ≡ some (settled true, last.1)
  worked worker_id token n course job s1 s2 o has_token dispatched answer =
      rw (has_token, dispatched, answer) refl

  -- A tick that claims a job and whose renewals are in time ends the job, whatever the other workers
  -- call meanwhile under their own leases, if no two jobs have the same uuid and a job has the columns
  -- of a lease exactly if it is running. The row stays the same job and has no lease; by the handler's
  -- result it is completed, or, where the job recurs, queued for its interval later with no attempts;
  -- failed, where the error is not to be retried; else queued again between 15 seconds and an hour
  -- later while the attempts are below their limit, and dead-lettered from there on. A failure is told
  -- with its class, and an event of the same kind is recorded for the lease.
  pub tick_settles :
      (now : ℕ) (locked : ℕ → Bool) (worker_id : ℕ) (pool : String) (n : ℤ) (token : ℕ)
      (course : JobRow Value → Course) (s s1 : Store Value) (job : JobRow Value)
      → IsValid s
      → claim_next_job_for_worker jsonb_contains now locked worker_id pool n token s
        ≡ ok (some job, s1)
      → in_time job.uuid worker_id token n
          (now + seconds (at_least_one n))
          (course job)
          (course job).rounds
        ≡ true
      → (r : JobRow Value) × (event : ClaimEventKind) × (earlier : List ClaimEvent) × (s' : Store
          Value)
        × (tick_for_worker J jsonb_contains now locked worker_id pool n token course s
            ≡ some (settled true, s'))
        × Memᴰ r s'.jobs
        × IsSameJob job r
        × IsUnleased r
        × IsOutcome J (course job).at job (course job).result r event
        × (s'.history
            ≡ (record {
              job_id = job.uuid;
              worker_id = worker_id;
              lease_token = token;
              event = event;
              occurred_at = (course job).at;
            })
              ∷ earlier)
  unfolding tick_for_worker
  tick_settles now locked worker_id pool n token course s s1 job v claimed t =
      let (held1, has_token) = claim_is_own now locked worker_id pool n token s s1 job claimed in
      let v1 =
        claimed-IsValid jsonb_contains s s1 now locked worker_id pool n token job claimed v in
      let (s2, d, dispatched, v2, h2, k) =
        dispatch-IsHeldFor jsonb_contains job.uuid worker_id token n (IsJob job) (IsJob-renewed job)
          (course job) (course job).rounds s1 (now + seconds (at_least_one n)) v1 held1 t in
      let others = (course job).others in
      let result = (course job).result in
      let c = settling_call J job worker_id token result in
      let s3 = run jsonb_contains s2 others in
      let h =
        run-IsHeldFor jsonb_contains job.uuid worker_id token (IsJob job) (IsJob-renewed job) s2 d
          others v2 k h2 in
      let v3 = run-IsValid jsonb_contains s2 others v2 in
      let (same, holds) = own_lease job.uuid worker_id token h.row h.held in
      let ending : ends h.row.uuid worker_id token c ≡ true =
        rw same (settling_call-ends job worker_id token result) in
      let (answer, (r, event, listed, job_is, unleased, end, history)) =
        holder_ends worker_id token s3 h.row h.listed holds v3 jsonb_contains (course job).at c
          ending in
      (
        r,
        event,
        s3.history,
        (step jsonb_contains s3 ((course job).at, c)).1,
        rw claimed
            (worked worker_id token n course job s1 s2 job.lease_token has_token dispatched answer),
        listed,
        job_is ∙ h.known.0,
        unleased,
        result-IsOutcome J (course job).at worker_id token job h.row r result event h.known end,
        rw same at history,
      )
