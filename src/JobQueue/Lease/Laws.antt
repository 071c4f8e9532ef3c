-- ===== src/JobQueue/Lease/Laws.antt =====
-- The rows that the ends of a job leave (crates/beampipe-db/src/repo.rs).
use beampipe_core_v.Common.{ℕ, String, ◌≡◌, refl, false, none, arith}
use beampipe_core_v.Common.Int.{ℤ}
use beampipe_core_v.JobQueue.{JobRow, is_running}
use beampipe_core_v.JobQueue.Lease.{released, completed, rescheduled, failed, retried}

module _ {V : Type 0} where
  -- What every end of a job does to its row.
  pub record IsClosing (g : JobRow V → JobRow V) : Type 0 where
    pub stopped : (r : JobRow V) → is_running (g r).status ≡ false
    pub no_owner : (r : JobRow V) → (g r).lease_owner ≡ none
    pub no_token : (r : JobRow V) → (g r).lease_token ≡ none
    pub no_expiry : (r : JobRow V) → (g r).lease_expires_at ≡ none
    pub no_lock : (r : JobRow V) → (g r).locked_until ≡ none
    pub same_uuid : (r : JobRow V) → (g r).uuid ≡ r.uuid

  pub completed-IsClosing : (now : ℕ) → IsClosing (completed {V = V} now)
  unfolding completed released
  completed-IsClosing now = record {
    stopped = λ r. refl;
    no_owner = λ r. refl;
    no_token = λ r. refl;
    no_expiry = λ r. refl;
    no_lock = λ r. refl;
    same_uuid = λ r. refl;
  }

  pub rescheduled-IsClosing : (now : ℕ) (delay : ℤ) → IsClosing (rescheduled {V = V} now delay)
  unfolding rescheduled released
  rescheduled-IsClosing now delay = record {
    stopped = λ r. refl;
    no_owner = λ r. refl;
    no_token = λ r. refl;
    no_expiry = λ r. refl;
    no_lock = λ r. refl;
    same_uuid = λ r. refl;
  }

  pub failed-IsClosing :
      (now : ℕ) (error class : String) → IsClosing (failed {V = V} now error class)
  unfolding failed released
  failed-IsClosing now error class = record {
    stopped = λ r. refl;
    no_owner = λ r. refl;
    no_token = λ r. refl;
    no_expiry = λ r. refl;
    no_lock = λ r. refl;
    same_uuid = λ r. refl;
  }

  pub retried-IsClosing :
      (now : ℕ) (error class : String) (delay : ℤ)
      → IsClosing (retried {V = V} now error class delay)
  unfolding retried released
  retried-IsClosing now error class delay = record {
    stopped = λ r. ground arith;
    no_owner = λ r. refl;
    no_token = λ r. refl;
    no_expiry = λ r. refl;
    no_lock = λ r. refl;
    same_uuid = λ r. refl;
  }
