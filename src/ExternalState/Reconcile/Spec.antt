-- ===== src/ExternalState/Reconcile/Spec.antt =====
-- The shapes of reconciliation decisions
-- (`ExecutionAxes::reconcile` of crates/beampipe-domain/src/external_state.rs).
use beampipe_core_v.Common.{
  String, ◌≡◌, refl, inl, inr, ◌↔◌, ◌⊎◌, Bool, true, false, none, some, arith, is_some, Option,
  by_test, when, ◌||◌, ◌&&◌, not,
}
use beampipe_core_v.Execution.Status
use beampipe_core_v.Execution.Status.{ExecutionStatus}
use beampipe_core_v.ExternalState.DaliugeState
use beampipe_core_v.ExternalState.TerminalOutcome.{TerminalOutcome}
use beampipe_core_v.ExternalState.Reconcile.{
  ReconciliationAction, ReconciliationMismatch, ReconciliationDecision, ExecutionAxes, reconcile,
  wait, poll_scheduler, poll_daliuge, operator_review, none_action, daliuge_failed,
  scheduler_unsuccessful, scheduler_succeeded, scheduler_cancelled, daliuge_cancelled,
  daliuge_finished, scheduler_settled, submission_uncertain, scheduler_pending, scheduler_running,
  daliuge_unconfirmed, scheduler_unknown, output_verified, output_failed, submission_failed,
  failed_with, partial_cancellation,
}

abbrev needs_operator : Option ReconciliationMismatch → Bool
needs_operator none = false
needs_operator (some m) = m.requires_operator

-- A decision that holds together: an outcome is there exactly with a terminal status; completion is
-- the outcome `succeeded`; an inconsistent outcome, a mismatch that needs the operator and the
-- operator's review come together; a decision with nothing to do is terminal and has no mismatch,
-- and one that waits is the pending one.
pub record IsCoherent (d : ReconciliationDecision) : Type 0 where
  pub outcome_terminal : is_some d.terminal_outcome ≡ Status.is_terminal d.status
  pub succeeded_completed :
      (d.terminal_outcome ≡ some TerminalOutcome.succeeded) ↔ (d.status ≡ ExecutionStatus.completed)
  pub inconsistent_review :
      (d.terminal_outcome ≡ some TerminalOutcome.inconsistent) ↔ (d.next_action ≡ operator_review)
  pub review_mismatch : (d.next_action ≡ operator_review) ↔ (needs_operator d.mismatch ≡ true)
  pub idle_terminal :
      (d.next_action ≡ none_action)
      ↔ ((Status.is_terminal d.status ≡ true) × (is_some d.mismatch ≡ false))
  pub waiting_pending : (d.next_action ≡ wait) ↔ (d.status ≡ ExecutionStatus.pending)

failed_with-IsCoherent :
    (b : Bool) (code message : String) (poll : ReconciliationAction)
    → (poll ≡ poll_scheduler) ⊎ (poll ≡ poll_daliuge)
    → IsCoherent (
        failed_with
          (when b (record { code = code; message = message; requires_operator = false }))
          poll)
failed_with-IsCoherent b code message poll h = ground arith

partial_cancellation-IsCoherent : (b : Bool) → IsCoherent (partial_cancellation b)
partial_cancellation-IsCoherent b = ground arith

-- Every decision is coherent: it has an outcome exactly with a terminal status and succeeds exactly
-- if it is complete; an inconsistent outcome, the operator's review and a mismatch that needs the
-- operator come together; it has nothing to do exactly if it is terminal without a mismatch, and
-- waits exactly if it is pending.
pub reconcile-IsCoherent : (a : ExecutionAxes) → IsCoherent (reconcile a)
unfolding reconcile
reconcile-IsCoherent a =
    by_test IsCoherent (output_failed a.outputs || submission_failed a.submission)
      (λ _. ground arith)
      λ _.
        by_test IsCoherent (daliuge_failed a.daliuge)
          (λ _. failed_with-IsCoherent _ _ _ _ (inl refl))
          λ _.
            by_test IsCoherent (scheduler_unsuccessful a.scheduler)
              (λ _. failed_with-IsCoherent _ _ _ _ (inr refl))
              λ _.
                by_test IsCoherent
                  (scheduler_succeeded a.scheduler && DaliugeState.is_active a.daliuge)
                  (λ _. ground arith)
                  λ _.
                    by_test IsCoherent
                      (scheduler_cancelled a.scheduler || daliuge_cancelled a.daliuge)
                      (λ _. partial_cancellation-IsCoherent _)
                      λ _.
                        by_test IsCoherent
                          (daliuge_finished a.daliuge && scheduler_settled a.scheduler)
                          (λ _.
                            by_test IsCoherent
                              (a.output_verification_required && not (output_verified a.outputs))
                              (λ _. ground arith) λ _. ground arith)
                          λ _.
                            by_test IsCoherent (submission_uncertain a.submission)
                              (λ _. ground arith)
                              λ _.
                                by_test IsCoherent (scheduler_pending a.scheduler)
                                  (λ _. ground arith)
                                  λ _.
                                    by_test IsCoherent
                                      (scheduler_running a.scheduler
                                        || DaliugeState.is_active a.daliuge)
                                      (λ _. ground arith)
                                      λ _.
                                        by_test IsCoherent
                                          (scheduler_succeeded a.scheduler
                                            && daliuge_unconfirmed a.daliuge)
                                          (λ _. ground arith)
                                          λ _.
                                            by_test IsCoherent (scheduler_unknown a.scheduler)
                                              (λ _. ground arith) λ _. ground arith
