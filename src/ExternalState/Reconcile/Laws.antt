-- ===== src/ExternalState/Reconcile/Laws.antt =====
-- Reconciliation decisions and the axes that they are made from
-- (`ExecutionAxes::reconcile` of crates/beampipe-domain/src/external_state.rs).
use beampipe_core_v.Common.{
  ◌≡◌, ◌≢◌, ◌↔◌, ◌⊎◌, inl, inr, refl, true, false, not, ◌&&◌, ◌||◌, none, arith,
}
use beampipe_core_v.Execution.Status.{ExecutionStatus}
use beampipe_core_v.ExternalState.DaliugeState.{DaliugeState}
use beampipe_core_v.ExternalState.OutputState.{OutputState}
use beampipe_core_v.ExternalState.SchedulerState.{SchedulerState}
use beampipe_core_v.ExternalState.SubmissionState.{SubmissionState}
use beampipe_core_v.ExternalState.Reconcile.{
  ExecutionAxes, ReconciliationDecision, reconcile, wait, verify_outputs, output_failed,
  output_verified, submission_failed, submission_uncertain, daliuge_finished, scheduler_settled,
  active, terminal,
}
use beampipe_core_v.ExternalState.Reconcile.Cases.{IsSound, IsIdle, reconcile_cases}

-- The evidence that an execution is complete, axis by axis.
pub record IsComplete (a : ExecutionAxes) : Type 0 where
  pub outputs_intact : a.outputs ≢ OutputState.failed
  pub submission_intact : a.submission ≢ SubmissionState.failed
  pub session_finished : a.daliuge ≡ DaliugeState.finished
  pub allocation_settled :
      (a.scheduler ≡ SchedulerState.succeeded) ⊎ (a.scheduler ≡ SchedulerState.not_submitted)
  pub verified_if_required :
      a.output_verification_required && not (output_verified a.outputs) ≡ false

IsComplete-of_tests :
    (a : ExecutionAxes)
    → IsSound a
    → daliuge_finished a.daliuge && scheduler_settled a.scheduler ≡ true
    → a.output_verification_required && not (output_verified a.outputs) ≡ false
    → IsComplete a
IsComplete-of_tests a sound finished verified =
    let intact = sound.intact in
    record {
      outputs_intact = λ e. ground arith;
      submission_intact = λ e. ground arith;
      session_finished = ground arith;
      allocation_settled = ground arith;
      verified_if_required = verified;
    }

IsComplete-of_status :
    (a : ExecutionAxes) → (reconcile a).status ≡ ExecutionStatus.completed → IsComplete a
unfolding active terminal
IsComplete-of_status a =
    reconcile_cases (λ d. d.status ≡ ExecutionStatus.completed → IsComplete a) a
      (λ d other h. absurd (other.incomplete h)) (λ sound finished unverified h. cc)
      (λ sound finished verified h. IsComplete-of_tests a sound finished verified) λ idle h. cc

intact_test :
    (a : ExecutionAxes)
    → a.outputs ≢ OutputState.failed
    → a.submission ≢ SubmissionState.failed
    → output_failed a.outputs || submission_failed a.submission ≡ false
intact_test a h k = ground arith

status_of_complete :
    (a : ExecutionAxes) → IsComplete a → (reconcile a).status ≡ ExecutionStatus.completed
unfolding reconcile
status_of_complete a h =
    let intact = intact_test a h.outputs_intact h.submission_intact in
    let verified = h.verified_if_required in
    elim h.allocation_settled [
      | inl e ↦ rw (intact, h.session_finished, e, verified) refl
      | inr e ↦ rw (intact, h.session_finished, e, verified) refl
    ]

-- Reconciliation reports completion exactly for the axes that are evidence of it: no failed output or
-- submission, a finished session, an allocation that succeeded or was never submitted, and verified
-- outputs where verification is required.
pub reconcile-completed :
    (a : ExecutionAxes) → ((reconcile a).status ≡ ExecutionStatus.completed) ↔ IsComplete a
reconcile-completed a = (IsComplete-of_status a, status_of_complete a)

-- Nothing external is known of: no allocation, no session that reports anything, no uncertain or
-- failed submission and no failed output.
pub record IsUntouched (a : ExecutionAxes) : Type 0 where
  pub no_allocation : a.scheduler ≡ SchedulerState.not_submitted
  pub no_session :
      (a.daliuge ≡ DaliugeState.not_created)
      ⊎ (a.daliuge ≡ DaliugeState.unknown)
      ⊎ (a.daliuge ≡ DaliugeState.unreachable)
  pub no_uncertainty : a.submission ≢ SubmissionState.uncertain
  pub no_failed_submission : a.submission ≢ SubmissionState.failed
  pub no_failed_outputs : a.outputs ≢ OutputState.failed

IsUntouched-of_tests : (a : ExecutionAxes) → IsIdle a → IsUntouched a
IsUntouched-of_tests a idle =
    let sound = idle.sound in
    let intact = sound.intact in
    record {
      no_allocation = ground arith;
      no_session = ground arith;
      no_uncertainty = λ e. ground arith;
      no_failed_submission = λ e. ground arith;
      no_failed_outputs = λ e. ground arith;
    }

IsUntouched-of_wait : (a : ExecutionAxes) → (reconcile a).next_action ≡ wait → IsUntouched a
unfolding active terminal
IsUntouched-of_wait a =
    reconcile_cases (λ d. d.next_action ≡ wait → IsUntouched a) a
      (λ d other h. absurd (other.no_wait h)) (λ sound finished unverified h. cc)
      (λ sound finished verified h. cc) λ idle h. IsUntouched-of_tests a idle

certain_test :
    (a : ExecutionAxes)
    → a.submission ≢ SubmissionState.uncertain
    → submission_uncertain a.submission ≡ false
certain_test a h = ground arith

wait_of_untouched : (a : ExecutionAxes) → IsUntouched a → (reconcile a).next_action ≡ wait
unfolding reconcile
wait_of_untouched a h =
    let intact = intact_test a h.no_failed_outputs h.no_failed_submission in
    let certain = certain_test a h.no_uncertainty in
    elim h.no_session [
      | inl e ↦ rw (intact, e, h.no_allocation, certain) refl
      | inr (inl e) ↦ rw (intact, e, h.no_allocation, certain) refl
      | inr (inr e) ↦ rw (intact, e, h.no_allocation, certain) refl
    ]

-- The decision is to wait exactly where no allocation was submitted, the session is not created,
-- unknown or unreachable, the submission neither uncertain nor failed, and the outputs have not
-- failed.
pub reconcile-wait : (a : ExecutionAxes) → ((reconcile a).next_action ≡ wait) ↔ IsUntouched a
reconcile-wait a = (IsUntouched-of_wait a, wait_of_untouched a)

-- The axes after the outputs were examined, with the result that is given.
abbrev pub examined : OutputState → ExecutionAxes → ExecutionAxes
examined result a = record a { outputs = result }

-- What a decision that asks for the outputs rests on.
record IsFinished (a : ExecutionAxes) (d : ReconciliationDecision) : Type 0 where
  pub undecided : d.terminal_outcome ≡ none
  pub sound : IsSound a
  pub finished : daliuge_finished a.daliuge && scheduler_settled a.scheduler ≡ true

IsFinished-of_action :
    (a : ExecutionAxes) → (reconcile a).next_action ≡ verify_outputs → IsFinished a (reconcile a)
unfolding active terminal
IsFinished-of_action a =
    reconcile_cases (λ d. d.next_action ≡ verify_outputs → IsFinished a d) a
      (λ d other h. absurd (other.no_verification h))
      (λ sound finished unverified h. record {
        undecided = refl;
        sound = sound;
        finished = finished;
      })
      (λ sound finished verified h. cc) λ idle h. cc

examined-IsComplete :
    (a : ExecutionAxes)
    → IsSound a
    → daliuge_finished a.daliuge && scheduler_settled a.scheduler ≡ true
    → IsComplete (examined OutputState.verified a)
examined-IsComplete a sound finished =
    let intact = sound.intact in
    record {
      outputs_intact = λ e. cc;
      submission_intact = λ e. ground arith;
      session_finished = ground arith;
      allocation_settled = ground arith;
      verified_if_required = ground arith;
    }

-- A decision that asks for the outputs has no terminal outcome, and is settled by their
-- examination: verified outputs complete the execution, and failed ones fail it.
pub verify_settles :
    (a : ExecutionAxes)
    → (reconcile a).next_action ≡ verify_outputs
    → ((reconcile a).terminal_outcome ≡ none)
      × ((reconcile (examined OutputState.verified a)).status ≡ ExecutionStatus.completed)
      × ((reconcile (examined OutputState.failed a)).status ≡ ExecutionStatus.failed)
unfolding reconcile
verify_settles a h =
    let f = IsFinished-of_action a h in
    (
      f.undecided,
      status_of_complete (examined OutputState.verified a)
          (examined-IsComplete a f.sound f.finished),
      refl,
    )
