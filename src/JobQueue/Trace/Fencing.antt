-- ===== src/JobQueue/Trace/Fencing.antt =====
-- Leases that have ended or have been taken over, and the calls that still present them
-- (crates/beampipe-db/src/repo.rs).
use mathlib.Core.Path.{subst}
use beampipe_core_v.Common.{
  ℕ, ◌≡◌, ◌≢◌, refl, String, Bool, true, false, ◌||◌, none, some, ok, List, [], ◌∷◌, arith, eqb,
}
use beampipe_core_v.Common.Int.{ℤ}
use beampipe_core_v.JobQueue.{JobRow, ClaimEventKind, Store, holds_lease}
use beampipe_core_v.JobQueue.Claim.{has_uuid, leased, take, claim_next_job_for_worker}
use beampipe_core_v.JobQueue.Claim.Laws.{claimed-Takes}
use beampipe_core_v.JobQueue.Lease.Laws.{
  IsClosing, completed-IsClosing, rescheduled-IsClosing, failed-IsClosing, retried-IsClosing,
}
use beampipe_core_v.JobQueue.Lease.{
  renewable, renewed, retried, renew_job_lease, returned_status, finish, complete_job_with_lease,
  reschedule_recurring_job_with_lease, fail_job_permanently_with_lease,
  fail_or_retry_job_with_lease,
}
use beampipe_core_v.Common.Rows.{
  count, update_where, update_where-none, count-update_where_le, count-le, All-unit,
}
use beampipe_core_v.JobQueue.Trace.{
  Call, claims, renews, completes, reschedules, fails, retries, keeps, leases, extends, closes,
  step, step-Moves, run, same_lease, ends, presents,
}

-- A call that makes a lease with this token.
abbrev pub issues : ℕ → Call → Bool
issues token (claims _ _ _ _ t) = eqb t token
issues token _ = false

abbrev pub any_issues : ℕ → List (ℕ × Call) → Bool
any_issues token [] = false
any_issues token ((_, c) ∷ cs) = issues token c || any_issues token cs

module _ {V : Type 0} (jsonb_contains : V → V → Bool) (job_id worker_id token : ℕ) where
  -- No row is held under the lease.
  abbrev pub IsSpent : Store V → Type 0
  IsSpent s = count (holds_lease job_id worker_id token) s.jobs ≡ 0

  spent_by_update :
      (rows rows' : List (JobRow V)) (p : JobRow V → Bool) (f : JobRow V → JobRow V)
      → ((r : JobRow V)
          → p r ≡ true
          → holds_lease job_id worker_id token (f r) ≡ true
          → holds_lease job_id worker_id token r ≡ true)
      → rows' ≡ update_where p f rows
      → count (holds_lease job_id worker_id token) rows ≡ 0
      → count (holds_lease job_id worker_id token) rows' ≡ 0
  spent_by_update rows rows' p f keep e h =
      let held = holds_lease job_id worker_id token in
      let le =
        count-update_where_le (λ _. Unit {0}) held held p f (λ r k. k) (λ r _. keep r) rows
          (All-unit rows) in
      rw e (omega (arith, le, h))

  -- A spent lease stays spent under every call that does not issue its token again.
  step-IsSpent :
      (s : Store V) (now : ℕ) (c : Call)
      → issues token c ≡ false
      → IsSpent s
      → IsSpent (step jsonb_contains s (now, c)).1
  unfolding take leased renewed
  step-IsSpent s now c other h = elim (step-Moves jsonb_contains s now c) [
    | keeps _ _ _ _ _ _ e ↦ rw e h
    | leases locked w pool n t job same k e ↦
        let fresh : eqb t token ≡ false = subst (λ x. issues token x ≡ false) same other in
        spent_by_update s.jobs _ (has_uuid job.uuid) (leased now w t n) (λ r p q. ground arith) e h
    | extends j w t n _ e ↦
        spent_by_update s.jobs _ (renewable now j w t) (renewed now n) (λ r p q. q) e h
    | closes j w t g _ closing e ↦
        spent_by_update s.jobs _ (holds_lease j w t) g
          (λ r p q. ground (arith, closing.stopped r, closing.no_owner r)) e h
  ]

  pub run-IsSpent :
      (s : Store V) (cs : List (ℕ × Call))
      → any_issues token cs ≡ false
      → IsSpent s
      → IsSpent (run jsonb_contains s cs)
  unfolding run
  run-IsSpent s [] other h = h
  run-IsSpent s ((now, c) ∷ cs) other h =
      run-IsSpent (step jsonb_contains s (now, c)).1 cs (ground arith)
        (step-IsSpent s now c (ground arith) h)

  -- After an update of every row held under the lease, to rows that are not, it is spent.
  spent_by_end :
      (p : JobRow V → Bool) (f : JobRow V → JobRow V) (rows : List (JobRow V))
      → ((r : JobRow V) → p r ≡ true → holds_lease job_id worker_id token (f r) ≡ false)
      → ((r : JobRow V) → p r ≡ false → holds_lease job_id worker_id token r ≡ false)
      → count (holds_lease job_id worker_id token) (update_where p f rows) ≡ 0
  spent_by_end p f [] hit miss = refl
  spent_by_end p f (r ∷ rs) hit miss = ground (arith, spent_by_end p f rs hit miss, hit r, miss r)

  spent_by_closing :
      (g : JobRow V → JobRow V) (rows : List (JobRow V))
      → IsClosing g
      → count
          (holds_lease job_id worker_id token)
          (update_where (holds_lease job_id worker_id token) g rows)
        ≡ 0
  spent_by_closing g rows closing =
      spent_by_end _ g rows (λ r _. ground (arith, closing.stopped r)) (λ r h. h)

  take-IsSpent :
      (s : Store V) (now w new : ℕ) (n : ℤ) (old : JobRow V)
      → old.uuid ≡ job_id
      → new ≢ token
      → IsSpent (take now w new n old s)
  unfolding take leased
  take-IsSpent s now w new n old same differs =
      spent_by_end (has_uuid old.uuid) (leased now w new n) s.jobs (λ r _. ground (arith, differs))
        (λ r h. ground (arith, same))

  returned_status-none :
      (f : JobRow V → JobRow V) (rows : List (JobRow V))
      → count (holds_lease job_id worker_id token) rows ≡ 0
      → returned_status (holds_lease job_id worker_id token) f rows ≡ none
  returned_status-none f [] h = refl
  returned_status-none f (r ∷ rs) h = ground (arith, returned_status-none f rs)

  renewable-none :
      (now : ℕ) (rows : List (JobRow V))
      → count (holds_lease job_id worker_id token) rows ≡ 0
      → count (renewable now job_id worker_id token) rows ≡ 0
  renewable-none now rows h =
      let le =
        count-le (holds_lease job_id worker_id token) (renewable now job_id worker_id token)
          (λ r k. ground arith) rows in
      omega (arith, le, h)

  pub same_lease-eq :
      (j w t : ℕ)
      → same_lease job_id worker_id token j w t ≡ true
      → (j ≡ job_id) × (w ≡ worker_id) × (t ≡ token)
  same_lease-eq j w t h = (ground arith, ground arith, ground arith)

  finish-refused :
      (s : Store V) (now : ℕ) (change : JobRow V → JobRow V) (event : ClaimEventKind)
      → IsSpent s
      → finish now job_id worker_id token change event s ≡ (false, s)
  unfolding finish
  finish-refused s now change event h = rw (h, update_where-none _ change s.jobs h) refl

  retry-refused :
      (s : Store V) (now : ℕ) (error class : String) (delay : ℤ)
      → IsSpent s
      → fail_or_retry_job_with_lease now job_id worker_id token error class delay s ≡ (false, s)
  unfolding fail_or_retry_job_with_lease
  retry-refused s now error class delay h =
      let change = retried now error class delay in
      rw (returned_status-none change s.jobs h, update_where-none _ change s.jobs h) refl

  -- A call of the holder of a spent lease is refused: it answers false and changes nothing.
  step-refused :
      (s : Store V) (now : ℕ) (c : Call)
      → presents job_id worker_id token c ≡ true
      → IsSpent s
      → step jsonb_contains s (now, c) ≡ (false, s)
  unfolding step renew_job_lease complete_job_with_lease reschedule_recurring_job_with_lease
      fail_job_permanently_with_lease
  step-refused s now (claims _ _ _ _ _) p h = cc
  step-refused s now (renews j w t n) p h =
      let r = renewable-none now s.jobs h in
      let (a, b, c) = same_lease-eq j w t p in
      rw (a, b, c, r, update_where-none _ (renewed now n) s.jobs r) refl
  step-refused s now (completes j w t) p h =
      let (a, b, c) = same_lease-eq j w t p in rw (a, b, c) (finish-refused s now _ _ h)
  step-refused s now (reschedules j w t _) p h =
      let (a, b, c) = same_lease-eq j w t p in rw (a, b, c) (finish-refused s now _ _ h)
  step-refused s now (fails j w t _ _) p h =
      let (a, b, c) = same_lease-eq j w t p in rw (a, b, c) (finish-refused s now _ _ h)
  step-refused s now (retries j w t error class delay) p h =
      let (a, b, c) = same_lease-eq j w t p in
      rw (a, b, c) (retry-refused s now error class delay h)

  -- A call that ends the job leaves its lease spent.
  ends-IsSpent :
      (s : Store V) (now : ℕ) (c : Call)
      → ends job_id worker_id token c ≡ true
      → IsSpent (step jsonb_contains s (now, c)).1
  unfolding step complete_job_with_lease reschedule_recurring_job_with_lease
      fail_job_permanently_with_lease fail_or_retry_job_with_lease finish
  ends-IsSpent s now (claims _ _ _ _ _) e = cc
  ends-IsSpent s now (renews _ _ _ _) e = cc
  ends-IsSpent s now (completes j w t) e =
      let (a, b, c) = same_lease-eq j w t e in
      rw (a, b, c) (spent_by_closing _ s.jobs (completed-IsClosing now))
  ends-IsSpent s now (reschedules j w t delay) e =
      let (a, b, c) = same_lease-eq j w t e in
      rw (a, b, c) (spent_by_closing _ s.jobs (rescheduled-IsClosing now delay))
  ends-IsSpent s now (fails j w t error class) e =
      let (a, b, c) = same_lease-eq j w t e in
      rw (a, b, c) (spent_by_closing _ s.jobs (failed-IsClosing now error class))
  ends-IsSpent s now (retries j w t error class delay) e =
      let (a, b, c) = same_lease-eq j w t e in
      rw (a, b, c) (spent_by_closing _ s.jobs (retried-IsClosing now error class delay))

  -- Once a call has ended a job under a lease, every later call under the same lease, by which it
  -- would be renewed or ended again, answers false and changes nothing, whatever other calls come
  -- between, if no claim issues the token of the lease again.
  pub ended_once :
      (s : Store V) (now later : ℕ) (c c' : Call) (cs : List (ℕ × Call))
      → ends job_id worker_id token c ≡ true
      → any_issues token cs ≡ false
      → presents job_id worker_id token c' ≡ true
      → let s' = run jsonb_contains (step jsonb_contains s (now, c)).1 cs in
        step jsonb_contains s' (later, c') ≡ (false, s')
  ended_once s now later c c' cs e fresh p =
      step-refused _ later c' p (run-IsSpent _ cs fresh (ends-IsSpent s now c e))

  -- Once a job has been claimed under a new token, every call under an earlier lease of the job
  -- answers false and changes nothing, whatever other calls come between, if no claim issues the
  -- token of the earlier lease again.
  pub overtaken_is_fenced :
      (s s' : Store V) (now later : ℕ) (locked : ℕ → Bool) (w : ℕ) (pool : String) (seconds : ℤ)
      (new : ℕ) (job : JobRow V) (c : Call) (cs : List (ℕ × Call))
      → claim_next_job_for_worker jsonb_contains now locked w pool seconds new s ≡ ok (some job, s')
      → job.uuid ≡ job_id
      → new ≢ token
      → any_issues token cs ≡ false
      → presents job_id worker_id token c ≡ true
      → let s'' = run jsonb_contains s' cs in step jsonb_contains s'' (later, c) ≡ (false, s'')
  unfolding leased
  overtaken_is_fenced s s' now later locked w pool seconds new job c cs claimed same differs fresh
        p =
      step-refused _ later c p (run-IsSpent s' cs fresh taken)
    where
      taken : IsSpent s'
      taken =
          let (old, _, row, store) =
            claimed-Takes jsonb_contains now locked w pool seconds new s job s' claimed in
          rw store (take-IsSpent s now w new seconds old (rw row at same) differs)
