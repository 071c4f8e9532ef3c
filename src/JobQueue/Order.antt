-- ===== src/JobQueue/Order.antt =====
-- The order in which `claim_next_job_for_worker` of crates/beampipe-db/src/repo.rs offers jobs: by
-- priority with a bonus for the time waited, then by due time, then by age.
use Prim.Native.Nat.{◌/◌}
use mathlib.Core.Path.{subst}
use beampipe_core_v.Common.{
  ℕ, ◌-◌, ◌<◌, ◌≡◌, refl, sym, Bool, true, false, Option, none, some, List, [], ◌∷◌, arith, ltb,
  leb, if◌then◌else◌, ◌&&◌, Option-cases, inl, inr, Bool-cases,
}
use beampipe_core_v.Common.Int.{ℤ, pos, negsuc, ltb_ℤ, ◌+ℤ◌, in_i32, ltb_ℤ_asym}
use beampipe_core_v.Common.Lists.{All, length}
use beampipe_core_v.JobQueue.{JobRow, seconds}

-- `LEAST(1000, n)`.
abbrev at_most_1000 : ℤ → ℤ
at_most_1000 n = if ltb_ℤ n (pos 1000) then n else pos 1000

abbrev before_by : ℤ → ℤ → ℕ → ℕ → ℕ → ℕ → Bool
before_by s s' n n' c c' =
    if ltb_ℤ s' s
    then true
    else if ltb_ℤ s s'
    then false
    else if ltb n n'
    then true
    else if ltb n' n
    then false
    else ltb c c'

-- Rows are compared by score first, by the three parts of the key.
before_by-asym :
    (s s' : ℤ) (n n' c c' : ℕ) → before_by s s' n n' c c' ≡ true → before_by s' s n' n c' c ≡ false
before_by-asym s s' n n' c c' h = ground (arith, ltb_ℤ_asym s s')

before_by_trans :
    (s s' t : ℤ) (n n' m c c' d : ℕ)
    → before_by s s' n n' c c' ≡ false
    → before_by s' t n' m c' d ≡ false
    → before_by s t n m c d ≡ false
before_by_trans s s' t n n' m c c' d h k = ground arith

module _ {V : Type 0} (now : ℕ) where
  -- `FLOOR(EXTRACT(EPOCH FROM (now() - created_at)) / 300)`, negative for a row from the future.
  periods_waited : JobRow V → ℤ
  periods_waited r =
      if leb r.created_at now
      then pos ((now - r.created_at) / seconds 300)
      else negsuc ((r.created_at - now - 1) / seconds 300)

  sort_score : JobRow V → ℤ
  unfolding periods_waited
  sort_score r = r.priority +ℤ at_most_1000 (periods_waited r)

  -- The cast to INTEGER and the INTEGER sum do not overflow.
  score_in_range : JobRow V → Bool
  unfolding periods_waited sort_score
  score_in_range r = in_i32 (periods_waited r) && in_i32 (sort_score r)

  -- `ORDER BY score DESC, next_run_at ASC, created_at ASC`: the first row comes strictly before the second.
  pub before : JobRow V → JobRow V → Bool
  unfolding sort_score
  before a b =
      before_by (sort_score a) (sort_score b) a.next_run_at b.next_run_at a.created_at b.created_at

  -- `LIMIT 1`.
  unfoldable pub first_in_order : List (JobRow V) → Option (JobRow V)
  unfolding before
  first_in_order [] = none
  first_in_order (r ∷ rs) = elim (first_in_order rs) [
    | none ↦ some r
    | some best ↦ if before best r then some best else some r
  ]

  unfoldable pub all_in_range : List (JobRow V) → Bool
  unfolding score_in_range
  all_in_range [] = true
  all_in_range (r ∷ rs) = score_in_range r && all_in_range rs

  before-asym : (a b : JobRow V) → before a b ≡ true → before b a ≡ false
  unfolding before
  before-asym a b h =
      before_by-asym (sort_score a) (sort_score b) a.next_run_at b.next_run_at a.created_at
        b.created_at h

  before_trans : (a b c : JobRow V) → before a b ≡ false → before b c ≡ false → before a c ≡ false
  unfolding before
  before_trans a b c h k =
      before_by_trans (sort_score a) (sort_score b) (sort_score c) a.next_run_at b.next_run_at
        c.next_run_at a.created_at b.created_at c.created_at h k

  before_irrefl : (a : JobRow V) → before a a ≡ false
  unfolding before
  before_irrefl a = irrefl (sort_score a) a.next_run_at a.created_at
    where
      irrefl : (s : ℤ) (n c : ℕ) → before_by s s n n c c ≡ false
      irrefl s n c = ground arith

  abbrev pub IsFirst : JobRow V → List (JobRow V) → Type 0
  IsFirst a = All (λ r. before r a ≡ false)

  All-not_before :
      (a b : JobRow V) (rs : List (JobRow V)) → before a b ≡ false → IsFirst a rs → IsFirst b rs
  All-not_before a b [] h all = tt
  All-not_before a b (r ∷ rs) h all = (before_trans r a b all.0 h, All-not_before a b rs h all.1)

  -- No row comes before the one that is taken.
  pub first_in_order-IsFirst :
      (rs : List (JobRow V)) (a : JobRow V) → first_in_order rs ≡ some a → IsFirst a rs
  unfolding first_in_order
  first_in_order-IsFirst [] a e = cc
  first_in_order-IsFirst (r ∷ rs) a e = elim (Option-cases (first_in_order rs)) [
    | inl n ↦
        let same : r ≡ a = ground (arith, n) in
        let empty : rs ≡ [] = first_in_order-nil rs n in
        subst (λ x. IsFirst x (r ∷ rs)) same (before_irrefl r, subst (IsFirst r) (sym empty) tt)
    | inr (best, b) ↦ elim (Bool-cases (before best r)) [
      | inl lower ↦
          let same : best ≡ a = ground (arith, b, lower) in
          subst (λ x. IsFirst x (r ∷ rs)) same
            (before-asym best r lower, first_in_order-IsFirst rs best b)
      | inr first ↦
          let same : r ≡ a = ground (arith, b, first) in
          subst (λ x. IsFirst x (r ∷ rs)) same
            (before_irrefl r, All-not_before best r rs first (first_in_order-IsFirst rs best b))
    ]
  ]
    where
      first_in_order-nil : (l : List (JobRow V)) → first_in_order l ≡ none → l ≡ []
      first_in_order-nil [] h = refl
      first_in_order-nil (x ∷ l) h = ground arith

  -- The row that is taken is one of the rows: what holds of all of them holds of it.
  pub first_in_order-All {κ} :
      (P : JobRow V → Type κ) (rs : List (JobRow V)) (a : JobRow V)
      → All P rs
      → first_in_order rs ≡ some a
      → P a
  unfolding first_in_order
  first_in_order-All P [] a h e = cc
  first_in_order-All P (r ∷ rs) a h e = elim (Option-cases (first_in_order rs)) [
    | inl n ↦ let same : r ≡ a = ground (arith, n) in subst P same h.0
    | inr (best, b) ↦ elim (Bool-cases (before best r)) [
      | inl lower ↦
          let same : best ≡ a = ground (arith, b, lower) in
          subst P same (first_in_order-All P rs best h.1 b)
      | inr first ↦ let same : r ≡ a = ground (arith, b, first) in subst P same h.0
    ]
  ]

  pub first_in_order-some :
      (rs : List (JobRow V)) → 0 < length rs → (a : JobRow V) × (first_in_order rs ≡ some a)
  unfolding first_in_order
  first_in_order-some [] h = absurd (omega arith)
  first_in_order-some (r ∷ rs) h = elim (Option-cases (first_in_order rs)) [
    | inl n ↦ (r, rw n refl)
    | inr (best, b) ↦ elim (Bool-cases (before best r)) [
      | inl lower ↦ (best, rw (b, lower) refl)
      | inr first ↦ (r, rw (b, first) refl)
    ]
  ]
