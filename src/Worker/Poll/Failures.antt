-- ===== src/Worker/Poll/Failures.antt =====
-- Polls that fail, one after another: `record_slurm_poll_failure` of crates/beampipe-jobs/src/lib.rs.
use beampipe_core_v.Common.{
  ℕ, suc, ◌+◌, ◌≤◌, ◌<◌, ◌≡◌, String, Bool, ◌||◌, some, List, [], ◌∷◌, arith, ◌∙◌, ap,
}
use beampipe_core_v.Common.Int.{ℤ, pos}
use beampipe_core_v.Json.{Json}
use beampipe_core_v.RunRecord.Rounds.{slurm_poll_round_from_manifest}
use beampipe_core_v.Worker.Poll.{
  slurm_active_poll_budget_reached, saturating_succ, i64_max, slurm_poll_operator_escalated,
  failed_poll,
}
use beampipe_core_v.Worker.Poll.Laws.{failed_poll_lem}

abbrev pub length {ℓ} : {A : Type ℓ} → List A → ℕ
length [] = 0
length (x ∷ xs) = suc (length xs)

saturating_pos : (r : ℕ) → r < i64_max → saturating_succ (pos r) ≡ pos (suc r)
saturating_pos r h = ground arith

-- A budget that is reached stays reached.
reached_or :
    (a b : ℕ) (max_rounds : ℤ)
    → a ≤ b
    → (slurm_active_poll_budget_reached (pos a) max_rounds
        || slurm_active_poll_budget_reached (pos b) max_rounds)
      ≡ slurm_active_poll_budget_reached (pos b) max_rounds
reached_or a b max_rounds h = ground arith

escalated_later :
    (before a after b last : Bool)
    → after ≡ (before || a)
    → last ≡ (after || b)
    → (a || b) ≡ b
    → last ≡ (before || b)
escalated_later before a after b last h k e = ground arith

module _ (J : Json) where
  open J use {Value}

  -- The manifest after polls at these times that all fail.
  pub failures : ℤ → Value → List String → Value
  failures max_rounds v [] = v
  failures max_rounds v (now ∷ rest) =
      failures max_rounds (failed_poll J now max_rounds (some v)).manifest rest

  -- Polls that fail count on from the round in the manifest, one by one, and there is an escalation
  -- in the manifest exactly if there was one before or the last round has reached the budget; the
  -- rounds being within an `i64`.
  pub failures_escalate :
      (max_rounds : ℤ) (v : Value) (r : ℕ) (now : String) (rest : List String)
      → slurm_poll_round_from_manifest J (some v) ≡ pos r
      → r + suc (length rest) ≤ i64_max
      → let last = failures max_rounds v (now ∷ rest) in
        let round = pos (r + suc (length rest)) in
        (slurm_poll_round_from_manifest J (some last) ≡ round)
        × (slurm_poll_operator_escalated J (some last) ≡ (
            slurm_poll_operator_escalated J (some v)
            || slurm_active_poll_budget_reached round max_rounds))
  unfolding failures
  failures_escalate max_rounds v r now [] h fits =
      let (round, escalated) = failed_poll_lem J now max_rounds (some v) in
      let same : suc r ≡ r + 1 = omega arith in
      let e = ap saturating_succ h ∙ saturating_pos r (omega arith) in
      (
        round ∙ e ∙ ap pos same,
        escalated
            ∙ ap
                (λ k.
                  slurm_poll_operator_escalated J (some v)
                  || slurm_active_poll_budget_reached k max_rounds)
                (e ∙ ap pos same),
      )
  failures_escalate max_rounds v r now (next ∷ rest) h fits =
      let (round, escalated) = failed_poll_lem J now max_rounds (some v) in
      let n = length rest in
      let same : suc r + suc n ≡ r + suc (suc n) = omega arith in
      let e = ap saturating_succ h ∙ saturating_pos r (omega arith) in
      let v' = (failed_poll J now max_rounds (some v)).manifest in
      let (round', escalated') =
        failures_escalate max_rounds v' (suc r) next rest (round ∙ e) (omega arith) in
      (
        round' ∙ ap pos same,
        escalated_later _ _ _ _ _
            (escalated
              ∙ ap
                  (λ k.
                    slurm_poll_operator_escalated J (some v)
                    || slurm_active_poll_budget_reached k max_rounds)
                  e)
            (escalated'
              ∙ ap
                  (λ k.
                    slurm_poll_operator_escalated J (some v')
                    || slurm_active_poll_budget_reached k max_rounds)
                  (ap pos same))
            (reached_or (suc r) (r + suc (suc (length rest))) max_rounds (omega arith)),
      )
