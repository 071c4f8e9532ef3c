-- ===== src/Execution/Ledger/Traces.antt =====
-- Sequences of patches of a ledger row
-- (`LedgerState::apply_patch` of crates/beampipe-domain/src/execution.rs).
use mathlib.Core.Path.{subst}
use beampipe_core_v.Common.{
  ℕ, suc, ◌+◌, ◌<◌, ◌≡◌, refl, true, some, List, [], ◌∷◌, arith, if◌then◌else◌, ◌∙◌, inl, inr,
}
use beampipe_core_v.Common.Int.{pos}
use beampipe_core_v.Common.Lists.{length}
use beampipe_core_v.Execution.Status.{is_locked_terminal}
use beampipe_core_v.Execution.Status.Laws.{Reach, here, next, Reach-trans}
use beampipe_core_v.Execution.Ledger.{LedgerPatch, LedgerState, starts_retry, apply_patch}
use beampipe_core_v.Execution.Ledger.Laws.{
  status-apply_patch, apply_patch_stamps, retry_count-apply_patch, locked-apply_patch, IsStamped,
  apply_patch-IsStamped,
}

module _ {Time Json : Type 0} where
  -- The row after one patch, and after each of a list of patches, refused ones included.
  abbrev patched : LedgerState Time Json → LedgerPatch Json × Time → LedgerState Time Json
  patched s (p, now) = (apply_patch s p now).0

  unfoldable pub run :
      LedgerState Time Json → List (LedgerPatch Json × Time) → LedgerState Time Json
  run s [] = s
  run s (p ∷ ps) = run (patched s p) ps

  -- How many patches of the list move the row from `failed` to `retrying`.
  pub retries : LedgerState Time Json → List (LedgerPatch Json × Time) → ℕ
  retries s [] = 0
  retries s (p ∷ ps) =
      let rest = retries (patched s p) ps in
      if starts_retry s.status (patched s p).status then suc rest else rest

  -- The status after any patches is reached from the first one along edges of the state machine.
  pub run-Reach :
      (s : LedgerState Time Json) (ps : List (LedgerPatch Json × Time))
      → Reach s.status (run s ps).status
  unfolding run
  run-Reach s [] = here
  run-Reach s ((p, now) ∷ ps) = elim (status-apply_patch s p now) [
    | inl same ↦
        subst (λ x. Reach x (run (apply_patch s p now).0 ps).status) same
          (run-Reach (apply_patch s p now).0 ps)
    | inr edge ↦ Reach-trans (next here edge) (run-Reach (apply_patch s p now).0 ps)
  ]

  -- A locked status stays as it is over any patches.
  pub run_locked :
      (s : LedgerState Time Json) (ps : List (LedgerPatch Json × Time))
      → is_locked_terminal s.status ≡ true
      → (run s ps).status ≡ s.status
  unfolding run
  run_locked s [] h = refl
  run_locked s ((p, now) ∷ ps) h =
      let l = (locked-apply_patch s p now h).0 in run_locked (apply_patch s p now).0 ps (rw l h) ∙ l

  -- Where a row has a time of start if it runs and a time of completion if its status is terminal,
  -- this holds after any patches, too.
  pub run-IsStamped :
      (s : LedgerState Time Json) (ps : List (LedgerPatch Json × Time))
      → IsStamped s
      → IsStamped (run s ps)
  unfolding run
  run-IsStamped s [] h = h
  run-IsStamped s ((p, now) ∷ ps) h =
      run-IsStamped (apply_patch s p now).0 ps (apply_patch-IsStamped s p now h)

  -- A time of completion stays as it is over any patches.
  pub run_stamps :
      (s : LedgerState Time Json) (ps : List (LedgerPatch Json × Time)) (t : Time)
      → s.completed_at ≡ some t
      → (run s ps).completed_at ≡ some t
  unfolding run
  run_stamps s [] t h = h
  run_stamps s ((p, now) ∷ ps) t h =
      run_stamps (apply_patch s p now).0 ps t ((apply_patch_stamps s p now t).1 h)

  -- From a count that is not negative and that, with the number of patches, stays below 2 ^ 31, the
  -- row's count grows by exactly the number of moves from `failed` to `retrying`.
  pub run-retry_count :
      (s : LedgerState Time Json) (ps : List (LedgerPatch Json × Time)) (n : ℕ)
      → s.retry_count ≡ pos n
      → n + length ps < 2147483648
      → (run s ps).retry_count ≡ pos (n + retries s ps)
  unfolding run retries
  run-retry_count s [] n h k = ground arith
  run-retry_count s ((p, now) ∷ ps) n h k =
      let s' = (apply_patch s p now).0 in
      ground (
        arith,
        retry_count-apply_patch s p now,
        run-retry_count s' ps (n + 1),
        run-retry_count s' ps n,
      )
