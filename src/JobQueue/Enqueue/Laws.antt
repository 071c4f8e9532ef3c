-- ===== src/JobQueue/Enqueue/Laws.antt =====
-- The rows of `jobs` before and after a recurring job is enqueued
-- (crates/beampipe-db/src/repo.rs).
use mathlib.Core.List.{Memᴰ}
use mathlib.Core.Path.{subst}
use beampipe_core_v.Common.{
  ◌⊎◌, none, ℕ, ◌≤◌, ◌≡◌, refl, ◌∙◌, inl, inr, String, Bool, true, false, List, [], ◌∷◌, ◌==◌,
  arith, Bool-cases, eqb, eq_iff,
}
use beampipe_core_v.Common.Int.{ℤ}
use beampipe_core_v.Common.Lists.{All}
use beampipe_core_v.Common.Rows.{
  count, update_where, select_where, update_where-All, All-mem, select_where-All,
  select_where-picked, update_where-mem, count-pos,
}
use beampipe_core_v.JobQueue.{JobRow, JobStatus, is_running}
use beampipe_core_v.JobQueue.Claim.{has_uuid, leased_to}
use beampipe_core_v.JobQueue.Enqueue.{has_ended, has_key, inserted, requeued, upserted}
use beampipe_core_v.JobQueue.Trace.Validity.{IsWellLeased}

-- Where no changed row changes in `q`, the count stays.
count-update_where :
    {A : Type 0} (q p : A → Bool) (f : A → A)
    → ((x : A) → q (f x) ≡ q x)
    → (xs : List A) → count q (update_where p f xs) ≡ count q xs
count-update_where q p f same [] = refl
count-update_where q p f same (x ∷ xs) = elim (Bool-cases (p x)) [
  | inl e ↦ rw (e, same x, count-update_where q p f same xs) refl
  | inr e ↦ rw (e, count-update_where q p f same xs) refl
]

ended_stopped : (status : JobStatus) → has_ended status ≡ true → is_running status ≡ false
ended_stopped JobStatus.queued h = refl
ended_stopped JobStatus.running h = cc
ended_stopped JobStatus.completed h = refl
ended_stopped JobStatus.failed h = refl
ended_stopped JobStatus.dead_letter h = refl
ended_stopped JobStatus.cancelled h = refl

pub key_refl : (k : String) → (k == k) ≡ true
key_refl k = (eq_iff k k).1 refl

pub select_where-none :
    {A : Type 0} (p : A → Bool) (xs : List A) → select_where p xs ≡ [] → count p xs ≡ 0
select_where-none p [] h = refl
select_where-none p (x ∷ xs) h = elim (Bool-cases (p x)) [
  | inl e ↦ cc (rw e at h)
  | inr e ↦ rw e (select_where-none p xs (rw e at h))
]

module _ {V : Type 0} where
  requeued_leased :
      (now w at : ℕ) (new r : JobRow V) → leased_to at w (requeued now new r) ≡ leased_to at w r
  unfolding requeued
  requeued_leased now w at new r = elim (Bool-cases (has_ended r.status)) [
    | inl e ↦ rw e (ground (arith, ended_stopped r.status e))
    | inr e ↦ rw e refl
  ]

  requeued-IsWellLeased :
      (now : ℕ) (new r : JobRow V) → IsWellLeased r → IsWellLeased (requeued now new r)
  unfolding requeued
  requeued-IsWellLeased now new r h = elim (Bool-cases (has_ended r.status)) [
    | inl e ↦ rw e refl
    | inr e ↦ rw e h
  ]

  inserted-IsWellLeased :
      (now id : ℕ) (kind : String) (payload : V) (key pool : String) (cs : List String) (labels : V)
      (p : ℤ)
      → IsWellLeased (inserted now id kind payload key pool cs labels p)
  unfolding inserted
  inserted-IsWellLeased now id kind payload key pool cs labels p = refl

  requeued_key :
      (now : ℕ) (key : String) (new r : JobRow V) → has_key key (requeued now new r) ≡ has_key key r
  unfolding requeued
  requeued_key now key new r = refl

  requeued_uuid : (now id : ℕ) (new r : JobRow V) → has_uuid id (requeued now new r) ≡ has_uuid id r
  unfolding requeued
  requeued_uuid now id new r = refl

  unique_with :
      (new : JobRow V) (rows : List (JobRow V))
      → count (has_uuid new.uuid) rows ≡ 0
      → ((id : ℕ) → count (has_uuid id) rows ≤ 1)
      → (id : ℕ) → count (has_uuid id) (new ∷ rows) ≤ 1
  unique_with new rows fresh u id = elim (Bool-cases (eqb new.uuid id)) [
    | inl e ↦
        let same : new.uuid ≡ id = ground arith in
        rw (e, subst (λ i. count (has_uuid i) rows ≡ 0) same fresh) (omega arith)
    | inr e ↦ rw e (u id)
  ]

  -- A job that starts from the beginning at a time, and one that is left where it stands.
  abbrev pub StartsAgain : ℕ → JobRow V → Type 0
  StartsAgain now job =
      (job.status ≡ JobStatus.queued)
      × (job.attempts ≡ 0)
      × (job.next_run_at ≡ now)
      × (job.lease_owner ≡ none)
      × (job.lease_token ≡ none)
      × (job.last_error ≡ none)

  abbrev pub StandsAs : JobRow V → JobRow V → Type 0
  StandsAs r job =
      (job.status ≡ r.status)
      × (job.attempts ≡ r.attempts)
      × (job.next_run_at ≡ r.next_run_at)
      × (job.lease_owner ≡ r.lease_owner)
      × (job.lease_token ≡ r.lease_token)
      × (job.lease_expires_at ≡ r.lease_expires_at)

  -- What becomes of a row `r` that had the key, by its status: a cancelled job stays cancelled.
  abbrev pub Fate : ℕ → JobStatus → JobRow V → JobRow V → Type 0
  Fate now JobStatus.completed r job = StartsAgain now job
  Fate now JobStatus.failed r job = StartsAgain now job
  Fate now JobStatus.dead_letter r job = StartsAgain now job
  Fate now JobStatus.queued r job = StandsAs r job
  Fate now JobStatus.running r job = StandsAs r job
  Fate now JobStatus.cancelled r job = StandsAs r job

  -- Whence the job comes that is returned: there was none with the key, and it is new, or there was.
  abbrev pub Origin : ℕ → String → List (JobRow V) → JobRow V → Type 0
  Origin now key rows job =
      ((count (has_key key) rows ≡ 0) × StartsAgain now job)
      ⊎ ((r : JobRow V) × Memᴰ r rows
          × (has_key key r ≡ true)
          × (job.uuid ≡ r.uuid)
          × Fate now r.status r job)

  -- What the statement returns, and the rows `after` it, the rows before it being given: one row has
  -- the key and is the one that is returned, with its origin; no two rows have the same uuid; the
  -- running rows are those that have a lease; and a worker has as many leases as before.
  pub record IsEnqueued (now : ℕ) (key : String) (w at : ℕ) (rows : List (JobRow V))
      (job : JobRow V) (after : List (JobRow V)) : Type 0 where
    pub one : count (has_key key) after ≡ 1
    pub keyed : has_key key job ≡ true
    pub listed : Memᴰ job after
    pub origin : Origin now key rows job
    pub unique : (id : ℕ) → count (has_uuid id) after ≤ 1
    pub leased_well : All IsWellLeased after
    pub leases : count (leased_to at w) after ≡ count (leased_to at w) rows

  -- What an assignment of `DO UPDATE` keeps of every row, and what it makes of it.
  pub record IsRequeue (now : ℕ) (f : JobRow V → JobRow V) : Type 0 where
    pub same_key : (key : String) (r : JobRow V) → has_key key (f r) ≡ has_key key r
    pub same_uuid : (id : ℕ) (r : JobRow V) → has_uuid id (f r) ≡ has_uuid id r
    pub same_lease : (w at : ℕ) (r : JobRow V) → leased_to at w (f r) ≡ leased_to at w r
    pub well : (r : JobRow V) → IsWellLeased r → IsWellLeased (f r)
    pub row_uuid : (r : JobRow V) → (f r).uuid ≡ r.uuid
    pub fate : (r : JobRow V) → Fate now r.status r (f r)

  pub Fate-of :
      (now : ℕ) (r job : JobRow V) (status : JobStatus)
      → (has_ended status ≡ true → StartsAgain now job)
      → (has_ended status ≡ false → StandsAs r job)
      → Fate now status r job
  Fate-of now r job JobStatus.completed h k = h refl
  Fate-of now r job JobStatus.failed h k = h refl
  Fate-of now r job JobStatus.dead_letter h k = h refl
  Fate-of now r job JobStatus.queued h k = k refl
  Fate-of now r job JobStatus.running h k = k refl
  Fate-of now r job JobStatus.cancelled h k = k refl

  requeued_row_uuid : (now : ℕ) (new r : JobRow V) → (requeued now new r).uuid ≡ r.uuid
  unfolding requeued
  requeued_row_uuid now new r = refl

  requeued-Fate : (now : ℕ) (new r : JobRow V) → Fate now r.status r (requeued now new r)
  unfolding requeued
  requeued-Fate now new r =
      Fate-of now r (requeued now new r) r.status (λ e. rw e (refl, refl, refl, refl, refl, refl))
        λ e. rw e (refl, refl, refl, refl, refl, refl)

  pub requeued-IsRequeue : (now : ℕ) (new : JobRow V) → IsRequeue now (requeued now new)
  requeued-IsRequeue now new = record {
    same_key = λ key r. requeued_key now key new r;
    same_uuid = λ id r. requeued_uuid now id new r;
    same_lease = λ w at r. requeued_leased now w at new r;
    well = λ r h. requeued-IsWellLeased now new r h;
    row_uuid = λ r. requeued_row_uuid now new r;
    fate = λ r. requeued-Fate now new r;
  }

  pub upserted-IsEnqueued :
      (now : ℕ) (f : JobRow V → JobRow V) (key : String) (w at : ℕ) (new : JobRow V)
      (rows sel : List (JobRow V))
      → IsRequeue now f
      → select_where (has_key key) rows ≡ sel
      → count (has_key key) rows ≤ 1
      → ((id : ℕ) → count (has_uuid id) rows ≤ 1)
      → All IsWellLeased rows
      → count (has_uuid new.uuid) rows ≡ 0
      → IsWellLeased new
      → has_key key new ≡ true
      → StartsAgain now new
      → let (job, after) = upserted (has_key key) f new rows sel in
        IsEnqueued now key w at rows job after
  upserted-IsEnqueued now f key w at new rows [] g e c u v fresh l k q = record {
    one = rw (k, select_where-none (has_key key) rows e) refl;
    keyed = k;
    listed = Memᴰ.head refl;
    origin = inl (select_where-none (has_key key) rows e, q);
    unique = unique_with new rows fresh u;
    leased_well = (l, v);
    leases = rw (q.0) (ground arith);
  }
  upserted-IsEnqueued now f key w at new rows (r ∷ rs) g e c u v fresh l k q =
      let p : JobRow V → Bool = has_key key in
      let m = (rw e at (select_where-All (λ x. Memᴰ x rows) p rows (All-mem rows))).0 in
      let picked = (rw e at (select_where-picked p rows)).0 in
      record {
        one =
            rw (count-update_where p p f (g.same_key key) rows)
              (omega (arith, c, count-pos p m picked));
        keyed = g.same_key key r ∙ picked;
        listed = update_where-mem p f rows m picked;
        origin = inr (r, m, picked, g.row_uuid r, g.fate r);
        unique = λ id. rw (count-update_where (has_uuid id) p f (g.same_uuid id) rows) (u id);
        leased_well = update_where-All IsWellLeased p f (λ x h _. g.well x h) rows v;
        leases = count-update_where (leased_to at w) p f (g.same_lease w at) rows;
      }
