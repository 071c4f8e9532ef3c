-- ===== src/StatePatch/Laws.antt =====
-- One patch of an execution's row
-- (`apply_execution_state_patch_with_transition` of crates/beampipe-db/src/repo.rs).
use mathlib.Core.Path.{subst}
use beampipe_core_v.Common.{
  ℕ, String, ◌≡◌, ◌≢◌, ◌⊎◌, refl, sym, Bool, true, false, not, ◌&&◌, Option, none, some, is_some,
  Result, ok, List, [], ◌∷◌, arith, ◌==◌, eq_iff, if◌then◌else◌, inl, inr, by_test, Bool-cases,
}
use beampipe_core_v.Execution.Status
use beampipe_core_v.Execution.Status.{ExecutionStatus}
use beampipe_core_v.ExternalState.Reconcile.{reconcile}
use beampipe_core_v.ExternalState.Reconcile.Laws.{IsComplete, reconcile-completed}
use beampipe_core_v.ExternalState.Reconcile.Spec.{reconcile-IsCoherent}
use beampipe_core_v.ExternalState.TerminalOutcome
use beampipe_core_v.ExternalState.TerminalOutcome.{TerminalOutcome}
use beampipe_core_v.StatePatch.{
  ExecutionRow, ExecutionStatePatch, Applied, PatchError, status_enum, status_str, put, has_key,
  current_status, axes, projected, settled, aggregate_status, committed,
  apply_execution_state_patch_with_transition,
}

status_enum-status_str : (s : ExecutionStatus) → status_enum (status_str s) ≡ some s
unfolding status_enum status_str
status_enum-status_str ExecutionStatus.pending = refl
status_enum-status_str ExecutionStatus.running = refl
status_enum-status_str ExecutionStatus.awaiting_scheduler = refl
status_enum-status_str ExecutionStatus.not_submitted = refl
status_enum-status_str ExecutionStatus.completed = refl
status_enum-status_str ExecutionStatus.failed = refl
status_enum-status_str ExecutionStatus.retrying = refl
status_enum-status_str ExecutionStatus.cancelled = refl

has_key-put : (k : String) (t : ℕ) (stamps : List (String × ℕ)) → has_key k (put k t stamps) ≡ true
has_key-put k t [] = rw ((eq_iff k k).1 refl) refl
has_key-put k t ((j, u) ∷ rest) = elim (Bool-cases (j == k)) [
  | inl e ↦ rw (e, e) refl
  | inr e ↦ rw (e, e) (has_key-put k t rest)
]

stamped_once :
    (b : Bool) (now : ℕ) (stamps : List (String × ℕ))
    → b ≡ true
    → has_key "terminal"
        (if b && not (has_key "terminal" stamps) then put "terminal" now stamps else stamps)
      ≡ true
stamped_once b now stamps h = elim (Bool-cases (has_key "terminal" stamps)) [
  | inl e ↦ rw (h, e) e
  | inr e ↦ rw (h, e) (has_key-put "terminal" now stamps)
]

module _ {V : Type 0} where
  current_status-settled :
      (now : ℕ) (s : ExecutionStatus) (o : Option TerminalOutcome) (row : ExecutionRow V)
      → current_status (settled now s o row) ≡ s
  unfolding current_status settled
  current_status-settled now s o row = rw (status_enum-status_str s, current_status) refl

  -- What the row of a completed execution says.
  pub record IsCompleted (row : ExecutionRow V) : Type 0 where
    pub outcome : row.terminal_outcome ≡ some "succeeded"
    pub no_error : row.last_error ≡ none
    pub no_failure : row.failure_class ≡ none
    pub evidence : IsComplete (axes row)

  -- What the row of an execution with a terminal status says.
  pub record IsClosed (row : ExecutionRow V) : Type 0 where
    pub phase : row.control_phase ≡ some "terminal"
    pub completed_at : is_some row.completed_at ≡ true
    pub stamped : has_key "terminal" row.phase_timestamps ≡ true
    pub completion : (current_status row ≢ ExecutionStatus.completed) ⊎ IsCompleted row

  abbrev pub IsSettled : ExecutionRow V → Type 0
  IsSettled row = (Status.is_terminal (current_status row) ≡ false) ⊎ IsClosed row

  completed-IsCompleted :
      (now : ℕ) (row : ExecutionRow V)
      → IsComplete (axes row)
      → IsCompleted (settled now ExecutionStatus.completed (some TerminalOutcome.succeeded) row)
  unfolding settled axes TerminalOutcome.as_str
  completed-IsCompleted now row c = record {
    outcome = refl;
    no_error = refl;
    no_failure = refl;
    evidence = record {
      outputs_intact = c.outputs_intact;
      submission_intact = c.submission_intact;
      session_finished = c.session_finished;
      allocation_settled = c.allocation_settled;
      verified_if_required = c.verified_if_required;
    };
  }

  settled-IsClosed :
      (now : ℕ) (s : ExecutionStatus) (o : Option TerminalOutcome) (row : ExecutionRow V)
      → Status.is_terminal s ≡ true
      → (s ≢ ExecutionStatus.completed) ⊎ IsCompleted (settled now s o row)
      → IsClosed (settled now s o row)
  unfolding settled
  settled-IsClosed now s o row h c = record {
    phase = rw h refl;
    completed_at = ground arith;
    stamped = stamped_once (Status.is_terminal s) now row.phase_timestamps h;
    completion = rw (current_status-settled now s o row) c;
  }

  settled-IsSettled :
      (now : ℕ) (current s : ExecutionStatus) (o : Option TerminalOutcome) (row : ExecutionRow V)
      → Status.is_terminal current ≡ false
      → (s ≢ ExecutionStatus.completed)
        ⊎ ((o ≡ some TerminalOutcome.succeeded) × IsComplete (axes row))
      → IsSettled (settled now (aggregate_status current s) o row)
  settled-IsSettled now current ExecutionStatus.pending o row active c =
      inl (rw (current_status-settled now current o row) active)
  settled-IsSettled now current ExecutionStatus.running o row active c =
      inl (rw (current_status-settled now ExecutionStatus.running o row) refl)
  settled-IsSettled now current ExecutionStatus.awaiting_scheduler o row active c =
      inl (rw (current_status-settled now ExecutionStatus.awaiting_scheduler o row) refl)
  settled-IsSettled now current ExecutionStatus.retrying o row active c =
      inl (rw (current_status-settled now ExecutionStatus.retrying o row) refl)
  settled-IsSettled now current ExecutionStatus.failed o row active c =
      inr (settled-IsClosed now ExecutionStatus.failed o row refl (inl λ e. cc))
  settled-IsSettled now current ExecutionStatus.not_submitted o row active c =
      inr (settled-IsClosed now ExecutionStatus.not_submitted o row refl (inl λ e. cc))
  settled-IsSettled now current ExecutionStatus.cancelled o row active c =
      inr (settled-IsClosed now ExecutionStatus.cancelled o row refl (inl λ e. cc))
  settled-IsSettled now current ExecutionStatus.completed o row active (inl differs) =
      absurd (differs refl)
  settled-IsSettled now current ExecutionStatus.completed o row active (inr (e, complete)) =
      subst (λ x. IsSettled (settled now ExecutionStatus.completed x row)) (sym e)
        (inr (
          settled-IsClosed now ExecutionStatus.completed (some TerminalOutcome.succeeded) row refl
            (inr (completed-IsCompleted now row complete))))

  -- The completion of a decision rests on the axes.
  decision_evidence :
      (row : ExecutionRow V)
      → let d = reconcile (axes row) in
        (d.status ≢ ExecutionStatus.completed)
        ⊎ ((d.terminal_outcome ≡ some TerminalOutcome.succeeded) × IsComplete (axes row))
  decision_evidence row =
      let d = reconcile (axes row) in
      let coherent = reconcile-IsCoherent (axes row) in
      elim (completed-cases d.status) [
        | inl e ↦ inr (coherent.succeeded_completed.1 e, (reconcile-completed (axes row)).0 e)
        | inr n ↦ inl n
      ]
    where
      completed-cases :
          (s : ExecutionStatus) → (s ≡ ExecutionStatus.completed) ⊎ (s ≢ ExecutionStatus.completed)
      completed-cases ExecutionStatus.completed = inl refl
      completed-cases ExecutionStatus.pending = inr λ e. cc
      completed-cases ExecutionStatus.running = inr λ e. cc
      completed-cases ExecutionStatus.awaiting_scheduler = inr λ e. cc
      completed-cases ExecutionStatus.not_submitted = inr λ e. cc
      completed-cases ExecutionStatus.failed = inr λ e. cc
      completed-cases ExecutionStatus.retrying = inr λ e. cc
      completed-cases ExecutionStatus.cancelled = inr λ e. cc

  -- The status and the row that a patch of a row that is not terminal leads to.
  abbrev pub next_status : ℕ → ExecutionStatePatch V → ExecutionRow V → ExecutionStatus
  next_status now p locked =
      aggregate_status (current_status locked) (reconcile (axes (projected now p locked))).status

  abbrev pub next_row : ℕ → ExecutionStatePatch V → ExecutionRow V → ExecutionRow V
  next_row now p locked =
      settled now (next_status now p locked)
        (reconcile (axes (projected now p locked))).terminal_outcome (projected now p locked)

  pub current_status-next_row :
      (now : ℕ) (p : ExecutionStatePatch V) (locked : ExecutionRow V)
      → current_status (next_row now p locked) ≡ next_status now p locked
  current_status-next_row now p locked =
      current_status-settled now (next_status now p locked)
        (reconcile (axes (projected now p locked))).terminal_outcome (projected now p locked)

  pub next_row-IsSettled :
      (now : ℕ) (p : ExecutionStatePatch V) (locked : ExecutionRow V)
      → Status.is_terminal (current_status locked) ≡ false
      → IsSettled (next_row now p locked)
  next_row-IsSettled now p locked active =
      let d = reconcile (axes (projected now p locked)) in
      settled-IsSettled now (current_status locked) d.status d.terminal_outcome
        (projected now p locked) active (decision_evidence (projected now p locked))

module _ {V A : Type 0} (finalize : ExecutionRow V → A → Bool) where
  -- How a patch of a locked row ends: the row is terminal and kept, or it is updated by a decision and
  -- the update is committed, or the patch fails.
  pub data PatchCase (now : ℕ) (artifact : Option A) (locked : ExecutionRow V)
      (p : ExecutionStatePatch V) (r : Result (Option (Applied V)) PatchError) : Type 0 where
    keeps :
        Status.is_terminal (current_status locked) ≡ true
        → (a : Applied V) → a.row ≡ locked
        → a.entered_terminal ≡ false
        → r ≡ ok (some a)
        → PatchCase now artifact locked p r
    updates :
        Status.is_terminal (current_status locked) ≡ false
        → (a : Applied V) → a.row ≡ next_row now p locked
        → a.entered_terminal ≡ Status.is_terminal (next_status now p locked)
        → r ≡ committed finalize artifact (next_status now p locked) a
        → PatchCase now artifact locked p r

  pub patch-cases :
      (now : ℕ) (artifact : Option A) (locked : ExecutionRow V) (p : ExecutionStatePatch V)
      → PatchCase now artifact locked p
          (apply_execution_state_patch_with_transition finalize now artifact (some locked) p)
  unfolding apply_execution_state_patch_with_transition
  patch-cases now artifact locked p =
      by_test (PatchCase now artifact locked p) (Status.is_terminal (current_status locked))
        (λ h. keeps h _ refl refl refl) λ h. updates h _ refl (rw h refl) refl
