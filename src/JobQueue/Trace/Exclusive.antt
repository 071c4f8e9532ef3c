-- ===== src/JobQueue/Trace/Exclusive.antt =====
-- A job that is held under a lease, and the calls of other workers
-- (crates/beampipe-db/src/repo.rs).
use mathlib.Core.Path.{subst}
use mathlib.Core.List.{Memᴰ}
use beampipe_core_v.Common.{
  guard_parts, ℕ, ◌+◌, ◌<◌, ◌≡◌, ◌⊎◌, refl, String, Option, Result, Bool, true, false, not, ◌&&◌,
  some, List, [], ◌∷◌, arith, ltb, if◌then◌else◌, inl, inr, Bool-cases,
}
use beampipe_core_v.Common.Int.{ℤ}
use beampipe_core_v.JobQueue.{JobRow, Store, at_least_one, seconds, lease_active, holds_lease}
use beampipe_core_v.JobQueue.Claim.{SqlError, has_uuid, leased, take}
use beampipe_core_v.JobQueue.Claim.Contract.{eligible-inactive}
use beampipe_core_v.JobQueue.Claim.Laws.{Takes, taken-mem, taken-eligible}
use beampipe_core_v.JobQueue.Lease.{renewable, renewed, renew_job_lease}
use beampipe_core_v.Common.Rows.{
  count, update_where-mem, update_where-mem_other, count-le, count-pos, only_row, All-of_mem,
}
use beampipe_core_v.JobQueue.Trace.{
  Call, claims, renews, completes, reschedules, fails, retries, Moves, keeps, leases, extends,
  closes, same_lease, ends, step, step-Moves, run,
}
use beampipe_core_v.JobQueue.Trace.Validity.{IsValid, step-IsValid}

module _ (job_id worker_id token : ℕ) where
  -- The deadline of the lease after a call at a time.
  abbrev pub next_deadline : ℕ → ℕ → Call → ℕ
  next_deadline now d (renews j w t n) =
      if same_lease job_id worker_id token j w t then now + seconds (at_least_one n) else d
  next_deadline now d _ = d

  -- Every call comes before the deadline of the lease, as renewals move it, and none ends its job.
  abbrev pub kept_alive : ℕ → List (ℕ × Call) → Bool
  kept_alive d [] = true
  kept_alive d ((now, c) ∷ cs) =
      ltb now d && not (ends job_id worker_id token c) && kept_alive (next_deadline now d c) cs

  abbrev pub last_deadline : ℕ → List (ℕ × Call) → ℕ
  last_deadline d [] = d
  last_deadline d ((now, c) ∷ cs) = last_deadline (next_deadline now d c) cs

  ends-next_deadline :
      (j w k now d : ℕ) (c : Call) → ends j w k c ≡ true → next_deadline now d c ≡ d
  ends-next_deadline j w k now d (claims _ _ _ _ _) e = refl
  ends-next_deadline j w k now d (renews _ _ _ _) e = cc
  ends-next_deadline j w k now d (completes _ _ _) e = refl
  ends-next_deadline j w k now d (reschedules _ _ _ _) e = refl
  ends-next_deadline j w k now d (fails _ _ _ _ _) e = refl
  ends-next_deadline j w k now d (retries _ _ _ _ _ _) e = refl

module _ {V : Type 0} (jsonb_contains : V → V → Bool) (job_id worker_id token : ℕ) where
  -- The job is held under the lease, until the deadline.
  pub record IsHeld (d : ℕ) (s : Store V) : Type 0 where
    pub row : JobRow V
    pub listed : Memᴰ row s.jobs
    pub held : holds_lease job_id worker_id token row ≡ true
    pub until : row.lease_expires_at ≡ some d

  -- The same of a row of which something more is known.
  pub record IsHeldFor (P : JobRow V → Type 0) (d : ℕ) (s : Store V) : Type 0 where
    pub row : JobRow V
    pub listed : Memᴰ row s.jobs
    pub held : holds_lease job_id worker_id token row ≡ true
    pub until : row.lease_expires_at ≡ some d
    pub known : P row

  IsHeld-of_for : (P : JobRow V → Type 0) (d : ℕ) (s : Store V) → IsHeldFor P d s → IsHeld d s
  IsHeld-of_for P d s h = record { row = h.row; listed = h.listed; held = h.held; until = h.until }

  IsHeldFor-of_held : (d : ℕ) (s : Store V) → IsHeld d s → IsHeldFor (λ _. Unit {0}) d s
  IsHeldFor-of_held d s h = record {
    row = h.row;
    listed = h.listed;
    held = h.held;
    until = h.until;
    known = tt;
  }

  -- Renewals keep what is known of the row.
  abbrev pub KeptByRenewals : (JobRow V → Type 0) → Type 0
  KeptByRenewals P = (now : ℕ) (n : ℤ) (r : JobRow V) → P r → P (renewed now n r)

  held-active :
      (now d : ℕ) (r : JobRow V)
      → holds_lease job_id worker_id token r ≡ true
      → r.lease_expires_at ≡ some d
      → now < d
      → lease_active now r ≡ true
  held-active now d r h u early = ground arith

  -- A claim takes no row that is held.
  claim_spares :
      (s : Store V) (now d : ℕ) (locked : ℕ → Bool) (w : ℕ) (pool : String) (n : ℤ) (t : ℕ)
      (job row : JobRow V) (r : Result (Option (JobRow V) × Store V) SqlError)
      → IsValid s
      → Memᴰ row s.jobs
      → lease_active now row ≡ true
      → Takes jsonb_contains now locked w pool n t s job r
      → has_uuid job.uuid row ≡ false
  claim_spares s now d locked w pool n t job row r v listed active took =
      let m = taken-mem jsonb_contains now locked w pool n t s job r took in
      let only = only_row (has_uuid job.uuid) job s.jobs m (ground arith) (v.unique job.uuid) in
      let resting =
        eligible-inactive jsonb_contains now locked w pool n t s took.worker job
          (taken-eligible jsonb_contains now locked w pool n t s job r took) in
      elim (All-of_mem (λ x. (has_uuid job.uuid x ≡ false) ⊎ (x ≡ job)) listed only) [
        | inl other ↦ other
        | inr same ↦ absurd (clash (lease_active now row) active (rw same resting))
      ]
    where
      clash : (b : Bool) → b ≡ true → b ≡ false → ⊥
      clash b p q = cc

  renewed_here :
      (j w k : ℕ) (now : ℕ) (r : JobRow V)
      → renewable now j w k r ≡ true
      → holds_lease job_id worker_id token r ≡ true
      → same_lease job_id worker_id token j w k ≡ true
  renewed_here j w k now r p h = ground arith

  renewed_elsewhere :
      (j w k : ℕ) (now d : ℕ) (r : JobRow V)
      → renewable now j w k r ≡ false
      → holds_lease job_id worker_id token r ≡ true
      → r.lease_expires_at ≡ some d
      → now < d
      → same_lease job_id worker_id token j w k ≡ false
  renewed_elsewhere j w k now d r p h u early = ground arith

  one_lease :
      (j w k : ℕ) (r : JobRow V)
      → holds_lease j w k r ≡ true
      → holds_lease job_id worker_id token r ≡ true
      → (j ≡ job_id) × (w ≡ worker_id) × (k ≡ token)
  one_lease j w k r p q = (ground arith, ground arith, ground arith)

  Moves-IsHeldFor :
      (P : JobRow V → Type 0) (kept : KeptByRenewals P) (s s' : Store V) (now d : ℕ) (c : Call)
      → IsValid s
      → now < d
      → ends job_id worker_id token c ≡ false
      → IsHeldFor P d s
      → Moves jsonb_contains s now c s'
      → IsHeldFor P (next_deadline job_id worker_id token now d c) s'
  unfolding take renewed
  Moves-IsHeldFor P kept s s' now d c v early goes_on h (keeps locked w pool n t same e) =
      rw (same, next_deadline)
        (record {
          row = h.row;
          listed = rw e h.listed;
          held = h.held;
          until = h.until;
          known = h.known;
        })
  Moves-IsHeldFor P kept s s' now d c v early goes_on h (leases locked w pool n t job same took e) =
      let active = held-active now d h.row h.held h.until early in
      let spared = claim_spares s now d locked w pool n t job h.row _ v h.listed active took in
      rw (same, next_deadline)
        (record {
          row = h.row;
          listed = rw e (
              update_where-mem_other (has_uuid job.uuid) (leased now w t n) s.jobs h.listed spared);
          held = h.held;
          until = h.until;
          known = h.known;
        })
  Moves-IsHeldFor P kept s s' now d c v early goes_on h (extends j w k n same e) =
      elim (Bool-cases (renewable now j w k h.row)) [
        | inl hit ↦
            rw (same, next_deadline, renewed_here j w k now h.row hit h.held)
              (record {
                row = renewed now n h.row;
                listed =
                    rw e
                      (update_where-mem (renewable now j w k) (renewed now n) s.jobs h.listed hit);
                held = h.held;
                until = refl;
                known = kept now n h.row h.known;
              })
        | inr miss ↦
            let other = renewed_elsewhere j w k now d h.row miss h.held h.until early in
            rw (same, next_deadline, other)
              (record {
                row = h.row;
                listed = rw e (
                    update_where-mem_other (renewable now j w k) (renewed now n) s.jobs h.listed
                      miss);
                held = h.held;
                until = h.until;
                known = h.known;
              })
      ]
  Moves-IsHeldFor P kept s s' now d c v early goes_on h (closes j w k g ending closing e) =
      elim (Bool-cases (holds_lease j w k h.row)) [
        | inl hit ↦
            let (a, b, k_is) = one_lease j w k h.row hit h.held in
            let ended : ends job_id worker_id token c ≡ true = rw (a, b, k_is) at ending in
            absurd (cc (ended, goes_on))
        | inr miss ↦ rw (ends-next_deadline job_id worker_id token j w k now d c ending) (record {
          row = h.row;
          listed = rw e (update_where-mem_other (holds_lease j w k) g s.jobs h.listed miss);
          held = h.held;
          until = h.until;
          known = h.known;
        })
      ]

  pub run-IsHeldFor :
      (P : JobRow V → Type 0)
      → KeptByRenewals P
      → (s : Store V) (d : ℕ) (cs : List (ℕ × Call)) → IsValid s
      → kept_alive job_id worker_id token d cs ≡ true
      → IsHeldFor P d s
      → IsHeldFor P (last_deadline job_id worker_id token d cs) (run jsonb_contains s cs)
  unfolding run
  run-IsHeldFor P kept s d [] v alive h = h
  run-IsHeldFor P kept s d ((now, c) ∷ cs) v alive h =
      let s' = (step jsonb_contains s (now, c)).1 in
      let d' = next_deadline job_id worker_id token now d c in
      let (early, goes_on, later) =
        guard_parts (ltb now d) (ends job_id worker_id token c)
          (kept_alive job_id worker_id token d' cs) alive in
      run-IsHeldFor P kept s' d' cs (step-IsValid jsonb_contains s (now, c) v) later (
        Moves-IsHeldFor P kept s s' now d c v (ground arith) goes_on h
          (step-Moves jsonb_contains s now c))

  -- While every call comes before the deadline of a lease, as the holder's renewals move it, and the
  -- holder does not end the job, the lease stays as it is whatever the other workers call: the job is
  -- running under the same owner and token, with the deadline last set, if no two jobs have the same
  -- uuid and a job has the columns of a lease exactly if it is running.
  pub run-IsHeld :
      (s : Store V) (d : ℕ) (cs : List (ℕ × Call))
      → IsValid s
      → kept_alive job_id worker_id token d cs ≡ true
      → IsHeld d s
      → IsHeld (last_deadline job_id worker_id token d cs) (run jsonb_contains s cs)
  run-IsHeld s d cs v alive h =
      IsHeld-of_for (λ _. Unit {0}) (last_deadline job_id worker_id token d cs)
        (run jsonb_contains s cs)
        (run-IsHeldFor (λ _. Unit {0}) (λ _ _ _ _. tt) s d cs v alive (IsHeldFor-of_held d s h))

  -- The holder's renewal before the deadline succeeds.
  pub renewal_answers :
      (s : Store V) (now d : ℕ) (n : ℤ)
      → IsValid s
      → now < d
      → (P : JobRow V → Type 0) → IsHeldFor P d s
      → (step jsonb_contains s (now, renews job_id worker_id token n)).0 ≡ true
  unfolding step renew_job_lease
  renewal_answers s now d n v early P h =
      let p = renewable now job_id worker_id token in
      let most = count-le (has_uuid job_id) p (λ x k. ground arith) s.jobs in
      let least = count-pos p h.listed (held_renewable h.row h.held h.until) in
      let one : count p s.jobs ≡ 1 = omega (arith, most, least, v.unique job_id) in rw one refl
    where
      held_renewable :
          (r : JobRow V)
          → holds_lease job_id worker_id token r ≡ true
          → r.lease_expires_at ≡ some d
          → renewable now job_id worker_id token r ≡ true
      held_renewable r p q = ground arith

  -- A job that has just been claimed is held.
  pub claimed-IsHeldFor :
      (P : JobRow V → Type 0) (s : Store V) (now : ℕ) (n : ℤ) (old : JobRow V)
      → P (leased now worker_id token n old)
      → Memᴰ old s.jobs
      → old.uuid ≡ job_id
      → IsHeldFor P (now + seconds (at_least_one n)) (take now worker_id token n old s)
  unfolding take leased
  claimed-IsHeldFor P s now n old known listed same = record {
    row = leased now worker_id token n old;
    listed =
        update_where-mem (has_uuid old.uuid) (leased now worker_id token n) s.jobs listed
          (ground arith);
    held = ground arith;
    until = refl;
    known = known;
  }

  pub step_renewed-IsHeldFor :
      (P : JobRow V → Type 0)
      → KeptByRenewals P
      → (s : Store V) (now d : ℕ) (n : ℤ) → IsValid s
      → now < d
      → IsHeldFor P d s
      → IsHeldFor P
          (now + seconds (at_least_one n))
          (step jsonb_contains s (now, renews job_id worker_id token n)).1
  step_renewed-IsHeldFor P kept s now d n v early h =
      let c = renews job_id worker_id token n in
      subst (λ x. IsHeldFor P x (step jsonb_contains s (now, c)).1) own_deadline
        (Moves-IsHeldFor P kept s (step jsonb_contains s (now, c)).1 now d c v early refl h
          (step-Moves jsonb_contains s now c))
    where
      own_deadline :
          next_deadline job_id worker_id token now d (renews job_id worker_id token n)
          ≡ now + seconds (at_least_one n)
      own_deadline = ground arith
