-- ===== src/StatePatch/Traces.antt =====
-- Single patches of an execution, and any sequence of them
-- (`apply_execution_state_patch_with_transition` of crates/beampipe-db/src/repo.rs).
use mathlib.Core.Path.{subst}
use beampipe_core_v.Common.{
  ℕ, ◌≡◌, ◌⊎◌, ◌↔◌, refl, sym, Bool, true, false, not, Option, none, some, Result, ok, err, List,
  [], ◌∷◌, inl, inr, ◌∙◌, Bool-cases, Option-cases,
}
use beampipe_core_v.Execution.Status
use beampipe_core_v.Execution.Status.{ExecutionStatus}
use beampipe_core_v.ExternalState.OutputState
use beampipe_core_v.ExternalState.OutputState.{OutputState}
use beampipe_core_v.ExternalState.Reconcile.{output_verified}
use beampipe_core_v.StatePatch.{
  ExecutionRow, ExecutionStatePatch, Applied, PatchError, current_status, committed, finalizes,
  settled, projected, axes, read_or, apply_execution_state_patch_with_transition,
}
use beampipe_core_v.StatePatch.Laws.{
  IsSettled, keeps, updates, patch-cases, next_row, next_row-IsSettled, next_status,
  current_status-next_row,
}

module _ {V A : Type 0} (finalize : ExecutionRow V → A → Bool) where
  committed-ok :
      (artifact : Option A) (s : ExecutionStatus) (a b : Applied V)
      → committed finalize artifact s a ≡ ok (some b)
      → (b ≡ a)
        × ((finalizes finalize a.entered_terminal s a.row ≡ false)
            ⊎ ((x : A) × (artifact ≡ some x) × (finalize a.row x ≡ true)))
  committed-ok artifact s a b h =
      elim (Bool-cases (finalizes finalize a.entered_terminal s a.row)) [
        | inr skipped ↦ let same : b ≡ a = cc (rw skipped at h) in (same, inl skipped)
        | inl needed ↦ elim (Option-cases artifact) [
          | inl n ↦ absurd (cc (rw (needed, n) at h))
          | inr (x, e) ↦ elim (Bool-cases (finalize a.row x)) [
            | inl done ↦
                let same : b ≡ a = cc (rw (needed, e, done) at h) in (same, inr (x, e, done))
            | inr broken ↦ absurd (cc (rw (needed, e, broken) at h))
          ]
        ]
      ]

  abbrev patch :
      ℕ × Option A × ExecutionStatePatch V → ExecutionRow V → Result (Option (Applied V)) PatchError
  patch (now, artifact, p) row =
      apply_execution_state_patch_with_transition finalize now artifact (some row) p

  -- A successful patch leaves the row as it is, if it is terminal, and else makes the update.
  successful :
      (now : ℕ) (artifact : Option A) (p : ExecutionStatePatch V) (row : ExecutionRow V)
      (a : Applied V)
      → patch (now, artifact, p) row ≡ ok (some a)
      → ((Status.is_terminal (current_status row) ≡ true)
          × (a.row ≡ row)
          × (a.entered_terminal ≡ false))
        ⊎ ((Status.is_terminal (current_status row) ≡ false)
            × (a.row ≡ next_row now p row)
            × (a.entered_terminal ≡ Status.is_terminal (next_status now p row))
            × ((finalizes finalize a.entered_terminal (next_status now p row) a.row ≡ false)
                ⊎ ((x : A) × (artifact ≡ some x) × (finalize a.row x ≡ true))))
  successful now artifact p row a h = elim (patch-cases finalize now artifact row p) [
    | keeps terminal b same flag e ↦
        let is_b : a ≡ b = cc (e, h) in inl (terminal, rw is_b same, rw is_b flag)
    | updates active b same flag e ↦
        let (is_b, done) = committed-ok artifact (next_status now p row) b a (sym e ∙ h) in
        inr (active, rw is_b same, rw is_b flag, rw is_b done)
  ]

  -- A patch reports that it has entered a terminal status exactly if the stored status was not
  -- terminal before it and is terminal after it.
  pub entered_terminal_iff :
      (now : ℕ) (artifact : Option A) (p : ExecutionStatePatch V) (row : ExecutionRow V)
      (a : Applied V)
      → apply_execution_state_patch_with_transition finalize now artifact (some row) p ≡ ok (some a)
      → (a.entered_terminal ≡ true) ↔ (
          (Status.is_terminal (current_status row) ≡ false)
          × (Status.is_terminal (current_status a.row) ≡ true))
  entered_terminal_iff now artifact p row a h = elim (successful now artifact p row a h) [
    | inl (terminal, same, flag) ↦
        (λ e. absurd (cc (e, flag)), λ (active, _). absurd (cc (terminal, active)))
    | inr (active, same, flag, _) ↦
        let after : current_status a.row ≡ next_status now p row =
          rw same (current_status-next_row now p row) in
        (λ e. (active, rw after (sym flag ∙ e)), λ (_, e). flag ∙ rw after at e)
  ]

  next_row-required :
      (now : ℕ) (p : ExecutionStatePatch V) (row : ExecutionRow V)
      → row.output_verification_required ≡ true
      → (next_row now p row).output_verification_required ≡ true
  unfolding settled projected
  next_row-required now p row h = h

  must_finalize :
      (a : Applied V) (s : ExecutionStatus)
      → s ≡ ExecutionStatus.completed
      → a.entered_terminal ≡ true
      → a.row.output_verification_required ≡ true
      → current_status a.row ≡ ExecutionStatus.completed
      → IsSettled a.row
      → finalizes finalize a.entered_terminal s a.row ≡ false
      → ⊥
  unfolding axes
  must_finalize a s status flag required done (inl active) skipped = absurd (cc (rw done at active))
  must_finalize a s status flag required done (inr closed) skipped = elim closed.completion [
    | inl differs ↦ differs done
    | inr c ↦
        let verified = c.evidence.verified_if_required in
        let conflict = rw (status, flag, required) at skipped in
        clash
          (output_verified (read_or OutputState.parse OutputState.not_started a.row.output_state))
          conflict (rw required at verified)
  ]
    where
      clash : (b : Bool) → b ≡ false → not b ≡ false → ⊥
      clash b h k = cc

  -- A patch that completes an execution whose outputs have to be verified has found an inventory of
  -- verified outputs, and the updates of other tables that follow have succeeded.
  pub completed_is_finalized :
      (now : ℕ) (artifact : Option A) (p : ExecutionStatePatch V) (row : ExecutionRow V)
      (a : Applied V)
      → apply_execution_state_patch_with_transition finalize now artifact (some row) p ≡ ok (some a)
      → Status.is_terminal (current_status row) ≡ false
      → current_status a.row ≡ ExecutionStatus.completed
      → row.output_verification_required ≡ true
      → (x : A) × (artifact ≡ some x) × (finalize a.row x ≡ true)
  completed_is_finalized now artifact p row a h active done required =
      elim (successful now artifact p row a h) [
        | inl (terminal, _, _) ↦ absurd (cc (terminal, active))
        | inr (_, same, flag, inr found) ↦ found
        | inr (_, same, flag, inl skipped) ↦
            let status : next_status now p row ≡ ExecutionStatus.completed =
              rw (current_status-next_row now p row) at (rw same at done) in
            let needs = next_row-required now p row required in
            let settles : IsSettled a.row = rw same (next_row-IsSettled now p row active) in
            absurd (
              must_finalize a (next_status now p row) status (rw status at flag) (rw same needs)
                done settles skipped)
      ]

  abbrev after : Result (Option (Applied V)) PatchError → ExecutionRow V → ExecutionRow V
  after (err e) row = row
  after (ok none) row = row
  after (ok (some a)) row = a.row

  -- The row after each of a list of patches; one that fails is rolled back.
  pub run : ExecutionRow V → List (ℕ × Option A × ExecutionStatePatch V) → ExecutionRow V
  run row [] = row
  run row (p ∷ ps) = run (after (patch p row) row) ps

  after-cases :
      (P : ExecutionRow V → Type 0) (now : ℕ) (artifact : Option A) (p : ExecutionStatePatch V)
      (row : ExecutionRow V)
      → P row
      → (Status.is_terminal (current_status row) ≡ false → P (next_row now p row))
      → P (after (patch (now, artifact, p) row) row)
  after-cases P now artifact p row same changed =
      elim (Option-cases-of (patch (now, artifact, p) row)) [
        | inl e ↦ e P same
        | inr (a, e) ↦ rw e (elim (successful now artifact p row a e) [
          | inl (_, kept, _) ↦ rw kept same
          | inr (active, moved, _, _) ↦ rw moved (changed active)
        ])
      ]
    where
      Option-cases-of :
          (r : Result (Option (Applied V)) PatchError)
          → ((Q : ExecutionRow V → Type 0) → Q row → Q (after r row))
            ⊎ ((a : Applied V) × (r ≡ ok (some a)))
      Option-cases-of (err e) = inl λ Q q. q
      Option-cases-of (ok none) = inl λ Q q. q
      Option-cases-of (ok (some a)) = inr (a, refl)

  -- After any patches an execution with a terminal status is in the phase `terminal`, with the time of
  -- that phase and a time of completion; and a completed one has the outcome `succeeded`, no failure
  -- recorded, and axes that are evidence of its completion, if this holds of the row at first.
  pub run-IsSettled :
      (row : ExecutionRow V) (ps : List (ℕ × Option A × ExecutionStatePatch V))
      → IsSettled row
      → IsSettled (run row ps)
  unfolding run
  run-IsSettled row [] h = h
  run-IsSettled row ((now, artifact, p) ∷ ps) h =
      run-IsSettled (after (patch (now, artifact, p) row) row) ps
        (after-cases IsSettled now artifact p row h (next_row-IsSettled now p row))

  -- No patch changes anything in the row of an execution with a terminal status.
  pub run_terminal :
      (row : ExecutionRow V) (ps : List (ℕ × Option A × ExecutionStatePatch V))
      → Status.is_terminal (current_status row) ≡ true
      → run row ps ≡ row
  unfolding run
  run_terminal row [] h = refl
  run_terminal row ((now, artifact, p) ∷ ps) h =
      let kept =
        after-cases (λ r. r ≡ row) now artifact p row refl (λ active. absurd (cc (h, active))) in
      subst (λ r. run r ps ≡ row) (sym kept) (run_terminal row ps h)
