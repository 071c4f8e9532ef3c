-- ===== src/ExternalState/Reconcile/Cases.antt =====
-- The cases of `ExecutionAxes::reconcile`, with the tests that lead to them
-- (crates/beampipe-domain/src/external_state.rs).
use beampipe_core_v.Common.{
  ◌≡◌, ◌≢◌, ◌⊎◌, inl, inr, refl, Bool, true, false, ◌&&◌, ◌||◌, not, Option, by_test, arith,
}
use beampipe_core_v.Execution.Status.{ExecutionStatus}
use beampipe_core_v.ExternalState.DaliugeState
use beampipe_core_v.ExternalState.TerminalOutcome.{TerminalOutcome}
use beampipe_core_v.ExternalState.Reconcile.{
  ReconciliationAction, ReconciliationMismatch, ReconciliationDecision, ExecutionAxes, wait,
  verify_outputs, poll_scheduler, poll_daliuge, operator_review, none_action, failed_with,
  partial_cancellation, reconcile_sound, output_failed, output_verified, submission_failed,
  submission_uncertain, daliuge_failed, daliuge_cancelled, daliuge_finished, daliuge_unconfirmed,
  scheduler_unsuccessful, scheduler_succeeded, scheduler_cancelled, scheduler_settled,
  scheduler_pending, scheduler_running, scheduler_unknown, active, terminal, reconcile,
}

-- The tests for failure, inconsistency and cancellation have all failed.
pub record IsSound (a : ExecutionAxes) : Type 0 where
  pub intact : output_failed a.outputs || submission_failed a.submission ≡ false
  pub session : daliuge_failed a.daliuge ≡ false
  pub allocation : scheduler_unsuccessful a.scheduler ≡ false
  pub consistent : scheduler_succeeded a.scheduler && DaliugeState.is_active a.daliuge ≡ false
  pub wanted : scheduler_cancelled a.scheduler || daliuge_cancelled a.daliuge ≡ false

-- So have the tests for work that is finished, uncertain, waiting or running.
pub record IsIdle (a : ExecutionAxes) : Type 0 where
  pub sound : IsSound a
  pub unfinished : daliuge_finished a.daliuge && scheduler_settled a.scheduler ≡ false
  pub certain : submission_uncertain a.submission ≡ false
  pub not_pending : scheduler_pending a.scheduler ≡ false
  pub not_running : scheduler_running a.scheduler || DaliugeState.is_active a.daliuge ≡ false
  pub confirmed : scheduler_succeeded a.scheduler && daliuge_unconfirmed a.daliuge ≡ false
  pub known : scheduler_unknown a.scheduler ≡ false

-- A decision that is not complete, does not ask for the outputs and does not wait.
pub record IsOther (d : ReconciliationDecision) : Type 0 where
  pub incomplete : d.status ≢ ExecutionStatus.completed
  pub no_wait : d.next_action ≢ wait
  pub no_verification : d.next_action ≢ verify_outputs

failed_with-IsOther :
    (m : Option ReconciliationMismatch) (poll : ReconciliationAction)
    → (poll ≡ poll_scheduler) ⊎ (poll ≡ poll_daliuge)
    → IsOther (failed_with m poll)
failed_with-IsOther m poll h = ground arith

partial_cancellation-IsOther : (b : Bool) → IsOther (partial_cancellation b)
partial_cancellation-IsOther b = ground arith

poll-IsOther :
    (d : ReconciliationDecision)
    → (d.status ≡ ExecutionStatus.awaiting_scheduler) ⊎ (d.status ≡ ExecutionStatus.running)
    → (d.next_action ≡ poll_scheduler) ⊎ (d.next_action ≡ poll_daliuge)
    → IsOther d
poll-IsOther d h k = ground arith

failed-IsOther :
    (d : ReconciliationDecision)
    → d.status ≡ ExecutionStatus.failed
    → (d.next_action ≡ operator_review) ⊎ (d.next_action ≡ none_action)
    → IsOther d
failed-IsOther d h k = ground arith

module _ {ℓ} (P : ReconciliationDecision → Type ℓ) (a : ExecutionAxes)
    (other : (d : ReconciliationDecision) → IsOther d → P d)
    (verify : IsSound a
      → daliuge_finished a.daliuge && scheduler_settled a.scheduler ≡ true
      → a.output_verification_required && not (output_verified a.outputs) ≡ true
      → P (active ExecutionStatus.running verify_outputs))
    (complete : IsSound a
      → daliuge_finished a.daliuge && scheduler_settled a.scheduler ≡ true
      → a.output_verification_required && not (output_verified a.outputs) ≡ false
      → P (terminal ExecutionStatus.completed TerminalOutcome.succeeded))
    (idle : IsIdle a → P (active ExecutionStatus.pending wait)) where
  sound_cases : IsSound a → P (reconcile_sound a)
  unfolding reconcile_sound active terminal
  sound_cases sound =
      by_test P (daliuge_finished a.daliuge && scheduler_settled a.scheduler)
        (λ finished.
          by_test P (a.output_verification_required && not (output_verified a.outputs))
            (verify sound finished) (complete sound finished))
        λ unfinished.
          by_test P (submission_uncertain a.submission)
            (λ _. other _ (poll-IsOther _ (inl refl) (inl refl)))
            λ certain.
              by_test P (scheduler_pending a.scheduler)
                (λ _. other _ (poll-IsOther _ (inl refl) (inl refl)))
                λ not_pending.
                  by_test P (scheduler_running a.scheduler || DaliugeState.is_active a.daliuge)
                    (λ _. other _ (poll-IsOther _ (inr refl) (inr refl)))
                    λ not_running.
                      by_test P (scheduler_succeeded a.scheduler && daliuge_unconfirmed a.daliuge)
                        (λ _. other _ (poll-IsOther _ (inl refl) (inr refl)))
                        λ confirmed.
                          by_test P (scheduler_unknown a.scheduler)
                            (λ _. other _ (poll-IsOther _ (inl refl) (inl refl)))
                            λ known. idle (record {
                              sound = sound;
                              unfinished = unfinished;
                              certain = certain;
                              not_pending = not_pending;
                              not_running = not_running;
                              confirmed = confirmed;
                              known = known;
                            })

  -- A property of the decisions to complete, to verify and to wait, each where its tests hold, and of
  -- every decision of another kind, is one of the decision that is made.
  pub reconcile_cases : P (reconcile a)
  unfolding reconcile active terminal
  reconcile_cases =
      by_test P (output_failed a.outputs || submission_failed a.submission)
        (λ _. other _ (failed-IsOther _ refl (inr refl)))
        λ intact.
          by_test P (daliuge_failed a.daliuge) (λ _. other _ (failed_with-IsOther _ _ (inl refl)))
            λ session.
              by_test P (scheduler_unsuccessful a.scheduler)
                (λ _. other _ (failed_with-IsOther _ _ (inr refl)))
                λ allocation.
                  by_test P (scheduler_succeeded a.scheduler && DaliugeState.is_active a.daliuge)
                    (λ _. other _ (failed-IsOther _ refl (inl refl)))
                    λ consistent.
                      by_test P (scheduler_cancelled a.scheduler || daliuge_cancelled a.daliuge)
                        (λ _. other _ (partial_cancellation-IsOther _))
                        λ wanted. sound_cases (record {
                          intact = intact;
                          session = session;
                          allocation = allocation;
                          consistent = consistent;
                          wanted = wanted;
                        })
