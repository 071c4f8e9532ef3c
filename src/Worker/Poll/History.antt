-- ===== src/Worker/Poll/History.antt =====
-- Any number of Slurm polls of one execution, and their escalation
-- (crates/beampipe-jobs/src/lib.rs).
use beampipe_core_v.Common.{
  ℕ, suc, ◌+◌, ◌≡◌, refl, String, Bool, true, false, not, ◌&&◌, Option, none, some, is_some, List,
  [], ◌∷◌, if◌then◌else◌, arith, Bool-cases, inl, inr, ◌∙◌, sym, ap,
}
use beampipe_core_v.Common.Int.{ℤ}
use beampipe_core_v.Json.{Json}
use beampipe_core_v.RunRecord.Rounds.Laws.{section_of}
use beampipe_core_v.Worker.Poll.{
  slurm_active_poll_budget_reached, saturating_succ, escalation, slurm_poll_operator_escalated,
  advance_slurm_poll_progress,
}
use beampipe_core_v.Worker.Poll.Laws.{operator_escalated_lem, advance_slurm_poll_progress_lem}

abbrev pub one_if : Bool → ℕ
one_if true = 1
one_if false = 0

module _ (J : Json) where
  open J use {Value, get}

  -- Polls of one execution: each has its time, its round, its budget and the reason it would give.
  -- The manifest after them, and how often an operator is told.
  unfoldable pub polls : Option Value → List (String × ℤ × ℤ × String) → Option Value × ℕ
  polls existing [] = (existing, 0)
  polls existing ((now, round, max_rounds, reason) ∷ rest) =
      let progress = advance_slurm_poll_progress J now existing round max_rounds reason in
      let (last, told) = polls (some progress.manifest) rest in
      (last, (if progress.operator_escalated then suc told else told))

  abbrev pub recorded : Option Value → Option Value
  recorded v = get "operator_escalation" (section_of J "slurm_poll" v)

  -- The escalation that was recorded, or else that of the first poll that reaches its budget.
  pub first_escalation : Option Value → List (String × ℤ × ℤ × String) → Option Value
  first_escalation (some e) ps = some e
  first_escalation none [] = none
  first_escalation none ((now, round, max_rounds, reason) ∷ rest) =
      let first = first_escalation none rest in
      if slurm_active_poll_budget_reached (saturating_succ round) max_rounds
      then some (escalation J now reason (saturating_succ round) max_rounds)
      else first

  first-some :
      (e : Value) (ps : List (String × ℤ × ℤ × String)) → first_escalation (some e) ps ≡ some e
  unfolding first_escalation
  first-some e ps = refl

  first-none : (o : Option Value) → o ≡ first_escalation o []
  unfolding first_escalation
  first-none none = refl
  first-none (some e) = refl

  first-step :
      (o : Option Value) (now reason : String) (round max_rounds : ℤ)
      (rest : List (String × ℤ × ℤ × String))
      → first_escalation
          (if slurm_active_poll_budget_reached (saturating_succ round) max_rounds && not (is_some o)
            then some (escalation J now reason (saturating_succ round) max_rounds)
            else o)
          rest
        ≡ first_escalation o ((now, round, max_rounds, reason) ∷ rest)
  unfolding first_escalation
  first-step none now reason round max_rounds rest =
      elim (Bool-cases (slurm_active_poll_budget_reached (saturating_succ round) max_rounds)) [
        | inl e ↦ simp (e, first-some)
        | inr e ↦ simp e
      ]
  first-step (some x) now reason round max_rounds rest =
      elim (Bool-cases (slurm_active_poll_budget_reached (saturating_succ round) max_rounds)) [
        | inl e ↦ simp e
        | inr e ↦ simp e
      ]

  -- What one poll adds to the count.
  told_once :
      (b r : Bool) (o o' : Option Value) (entry : Value) (n m : ℕ)
      → b ≡ (r && not (is_some o))
      → o' ≡ (if b then some entry else o)
      → n + one_if (is_some o') ≡ m
      → (if b then suc n else n) + one_if (is_some o) ≡ m
  told_once b r none o' entry n m h k e = ground arith
  told_once b r (some x) o' entry n m h k e = ground arith

  -- Over any polls of an execution, the escalation in the last manifest is the one that was recorded
  -- before, or else that of the first poll whose round reaches its budget; and an operator is told
  -- once if it is recorded by these polls, and never otherwise.
  pub polls_escalate_once :
      (existing : Option Value) (ps : List (String × ℤ × ℤ × String))
      → let (last, told) = polls existing ps in
        (recorded last ≡ first_escalation (recorded existing) ps)
        × (told + one_if (slurm_poll_operator_escalated J existing)
            ≡ one_if (slurm_poll_operator_escalated J last))
  unfolding polls
  polls_escalate_once existing [] = (first-none (recorded existing), ground arith)
  polls_escalate_once existing ((now, round, max_rounds, reason) ∷ rest) =
      let progress = advance_slurm_poll_progress J now existing round max_rounds reason in
      let v = some progress.manifest in
      let next = saturating_succ round in
      let reached = slurm_active_poll_budget_reached next max_rounds in
      let entry = escalation J now reason next max_rounds in
      let (_, _, b, o) = advance_slurm_poll_progress_lem J now existing round max_rounds reason in
      let (first, told) = polls_escalate_once v rest in
      let b' = b ∙ ap (λ r. reached && not r) (operator_escalated_lem J existing) in
      (
        first
            ∙ ap (λ r. first_escalation r rest)
                (o ∙ ap (λ r. if r then some entry else recorded existing) b')
            ∙ first-step (recorded existing) now reason round max_rounds rest,
        rw (operator_escalated_lem J existing) (
            told_once progress.operator_escalated reached (recorded existing) (recorded v) entry
              (polls v rest).1 (one_if (slurm_poll_operator_escalated J (polls v rest).0)) b' o
              (ap (λ r. (polls v rest).1 + one_if r) (sym (operator_escalated_lem J v)) ∙ told)),
      )
