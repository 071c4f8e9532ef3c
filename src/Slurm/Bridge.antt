-- ===== src/Slurm/Bridge.antt =====
-- From what Slurm reports to the scheduler axis: `normalize_state` of
-- crates/beampipe-domain/src/slurm.rs and `SchedulerState::from_normalized` of
-- crates/beampipe-domain/src/external_state.rs.
use Prim.Native.Char.{Char}
use beampipe_core_v.Common.{String, ◌≢◌, inl, inr}
use beampipe_core_v.ExternalState.SchedulerState.{SchedulerState, from_normalized}
use beampipe_core_v.Slurm.State.{normalize_state}
use beampipe_core_v.Slurm.State.Laws.{IsToken, normalize_state-IsToken}

of_token : (s : String) → IsToken s → from_normalized s ≢ SchedulerState.not_submitted
unfolding from_normalized
of_token s (inl e) = rw e (λ c. cc)
of_token s (inr (inl e)) = rw e (λ c. cc)
of_token s (inr (inr (inl e))) = rw e (λ c. cc)
of_token s (inr (inr (inr (inl e)))) = rw e (λ c. cc)
of_token s (inr (inr (inr (inr (inl e))))) = rw e (λ c. cc)
of_token s (inr (inr (inr (inr (inr (inl e)))))) = rw e (λ c. cc)
of_token s (inr (inr (inr (inr (inr (inr (inl e))))))) = rw e (λ c. cc)
of_token s (inr (inr (inr (inr (inr (inr (inr e))))))) = absurd e

-- Whatever text Slurm reports as a state, its normal form is not read as a job that was never
-- submitted.
pub observed_is_submitted :
    (upper : Char → String) (raw : String)
    → from_normalized (normalize_state upper raw) ≢ SchedulerState.not_submitted
observed_is_submitted upper raw =
    of_token (normalize_state upper raw) (normalize_state-IsToken upper raw)
