-- ===== src/SourceClaims/Laws.antt =====
-- The rows that a claim selects (crates/beampipe-db/src/repo.rs).
use mathlib.Core.List.{◌++◌, Perm}
use mathlib.Core.List.Perm
use beampipe_core_v.Common.{
  ℕ, zero, suc, ◌≤◌, ◌≡◌, ◌⊎◌, refl, sym, String, Bool, true, false, not, Option, none, some, List,
  [], ◌∷◌, map, arith, inl, inr, Bool-cases, if◌then◌else◌,
}
use beampipe_core_v.Common.Int.{ℤ, pos, negsuc}
use beampipe_core_v.Common.Lists.{All, length}
use beampipe_core_v.Common.Rows.{
  count, update_where, update_where-none, select_where, select_where-All, All-map,
}
use beampipe_core_v.SourceClaims.{
  SourceRow, insert, sort, take, selected, has_any_uuid, is_nil, longer_pending, claim,
  claimable_for_workflow, claimed_for_workflow, claim_pending_sources_for_workflow_run,
}

drop : ℕ → List SourceRow → List SourceRow
drop zero rs = rs
drop (suc n) [] = []
drop (suc n) (r ∷ rs) = drop n rs

take-drop : (n : ℕ) (rs : List SourceRow) → take n rs ++ drop n rs ≡ rs
unfolding drop
take-drop zero rs = refl
take-drop (suc n) [] = refl
take-drop (suc n) (r ∷ rs) = rw (take-drop n rs)

length-take-le : (n : ℕ) (rs : List SourceRow) → length (take n rs) ≤ n
length-take-le zero rs = omega arith
length-take-le (suc n) [] = omega arith
length-take-le (suc n) (r ∷ rs) = omega (arith, length-take-le n rs)

drop_or_full : (n : ℕ) (rs : List SourceRow) → (drop n rs ≡ []) ⊎ (length (take n rs) ≡ n)
unfolding drop
drop_or_full zero rs = inr refl
drop_or_full (suc n) [] = inl refl
drop_or_full (suc n) (r ∷ rs) = ground (arith, drop_or_full n rs)

module _ (before : SourceRow → SourceRow → Bool) where
  -- No row of the list comes before the one that is given.
  abbrev pub IsBefore : SourceRow → List SourceRow → Type 0
  IsBefore r = All (λ x. before r x ≡ true)

  abbrev pub IsSorted : List SourceRow → Type 0
  IsSorted [] = Unit
  IsSorted (r ∷ rs) = IsBefore r rs × IsSorted rs

  insert-perm : (r : SourceRow) (rs : List SourceRow) → Perm (insert before r rs) (r ∷ rs)
  unfolding insert
  insert-perm r [] = Perm.refl (r ∷ [])
  insert-perm r (x ∷ xs) = elim (Bool-cases (before r x)) [
    | inl e ↦ rw e (Perm.refl (r ∷ x ∷ xs))
    | inr e ↦ rw e (Perm.trans (Perm.cons x (insert-perm r xs)) (Perm.swap r x xs))
  ]

  sort-perm : (rs : List SourceRow) → Perm (sort before rs) rs
  unfolding sort
  sort-perm [] = Perm.nil
  sort-perm (r ∷ rs) = Perm.trans (insert-perm r (sort before rs)) (Perm.cons r (sort-perm rs))

  insert-All {κ} :
      (P : SourceRow → Type κ) (r : SourceRow) (rs : List SourceRow)
      → P r
      → All P rs
      → All P (insert before r rs)
  unfolding insert
  insert-All P r [] p h = (p, tt)
  insert-All P r (x ∷ xs) p h = elim (Bool-cases (before r x)) [
    | inl e ↦ rw e (p, h)
    | inr e ↦ rw e (h.0, insert-All P r xs p h.1)
  ]

  sort-All {κ} : (P : SourceRow → Type κ) (rs : List SourceRow) → All P rs → All P (sort before rs)
  unfolding sort
  sort-All P [] h = tt
  sort-All P (r ∷ rs) h = insert-All P r (sort before rs) h.0 (sort-All P rs h.1)

  take-All {κ} :
      (P : SourceRow → Type κ) (n : ℕ) (rs : List SourceRow) → All P rs → All P (take n rs)
  take-All P zero rs h = tt
  take-All P (suc n) [] h = tt
  take-All P (suc n) (r ∷ rs) h = (h.0, take-All P n rs h.1)

  drop-All {κ} :
      (P : SourceRow → Type κ) (n : ℕ) (rs : List SourceRow) → All P rs → All P (drop n rs)
  unfolding drop
  drop-All P zero rs h = h
  drop-All P (suc n) [] h = tt
  drop-All P (suc n) (r ∷ rs) h = drop-All P n rs h.1

  -- What holds of every row that can be claimed holds of those that are selected.
  pub selected-All {κ} :
      (P : SourceRow → Type κ) (locked : ℕ → Bool) (claimable : SourceRow → Bool) (n : ℕ)
      (rows : List SourceRow)
      → All P (select_where claimable rows)
      → All P (selected locked claimable before n rows)
  unfolding selected
  selected-All P locked claimable n rows h =
      take-All P n _ (sort-All P _ (select_where-All P (λ r. not (locked r.uuid)) _ h))

  -- The first rows in the order, at most so many.
  pub record IsSelection (limit : ℕ) (offered picked : List SourceRow) : Type 0 where
    pub within : length picked ≤ limit
    pub rest : List SourceRow
    pub same : Perm (picked ++ rest) offered
    pub first : All (λ p. IsBefore p rest) picked
    pub full : (rest ≡ []) ⊎ (length picked ≡ limit)

  -- For an order that is total and transitive.
  module _ (total : (a b : SourceRow) → before a b ≡ false → before b a ≡ true)
      (transitive : (a b c : SourceRow)
        → before a b ≡ true
        → before b c ≡ true
        → before a c ≡ true) where
    insert-IsSorted :
        (r : SourceRow) (rs : List SourceRow) → IsSorted rs → IsSorted (insert before r rs)
    unfolding insert
    insert-IsSorted r [] h = (tt, tt)
    insert-IsSorted r (x ∷ xs) h = elim (Bool-cases (before r x)) [
      | inl e ↦ rw e ((e, All-map (λ y k. transitive r x y e k) xs h.0), h)
      | inr e ↦
          rw e
            (insert-All (λ y. before x y ≡ true) r xs (total r x e) h.0, insert-IsSorted r xs h.1)
    ]

    sort-IsSorted : (rs : List SourceRow) → IsSorted (sort before rs)
    unfolding sort
    sort-IsSorted [] = tt
    sort-IsSorted (r ∷ rs) = insert-IsSorted r (sort before rs) (sort-IsSorted rs)

    take-IsBefore-drop :
        (n : ℕ) (rs : List SourceRow) → IsSorted rs → All (λ p. IsBefore p (drop n rs)) (take n rs)
    unfolding drop
    take-IsBefore-drop zero rs h = tt
    take-IsBefore-drop (suc n) [] h = tt
    take-IsBefore-drop (suc n) (r ∷ rs) h =
        (drop-All (λ x. before r x ≡ true) n rs h.0, take-IsBefore-drop n rs h.1)

    selected-IsSelection :
        (locked : ℕ → Bool) (claimable : SourceRow → Bool) (n : ℕ) (rows : List SourceRow)
        → IsSelection n
            (select_where (λ r. not (locked r.uuid)) (select_where claimable rows))
            (selected locked claimable before n rows)
    unfolding selected
    selected-IsSelection locked claimable n rows =
        let offered = select_where (λ r. not (locked r.uuid)) (select_where claimable rows) in
        let ordered = sort before offered in
        record {
          within = length-take-le n ordered;
          rest = drop n ordered;
          same = rw (take-drop n ordered) (sort-perm offered);
          first = take-IsBefore-drop n ordered (sort-IsSorted offered);
          full = drop_or_full n ordered;
        }

longer_pending_total : (a b : SourceRow) → longer_pending a b ≡ false → longer_pending b a ≡ true
longer_pending_total a b h = ground arith

longer_pending_trans :
    (a b c : SourceRow)
    → longer_pending a b ≡ true
    → longer_pending b c ≡ true
    → longer_pending a c ≡ true
longer_pending_trans a b c h k = ground arith

-- What a claim does, whatever it tells of the rows.
pub record IsGranted {A : Type 0} (token : String) (told : SourceRow → A)
    (claimed : SourceRow → SourceRow) (rows picked : List SourceRow)
    (r : (Option String × List A) × List SourceRow) : Type 0 where
  pub token_given : r.0.0 ≡ (if is_nil picked then none else some token)
  pub names : r.0.1 ≡ map told picked
  pub stored : r.1 ≡ update_where (has_any_uuid picked) claimed rows

pub claim-IsGranted :
    {A : Type 0} (token : String) (told : SourceRow → A) (claimed : SourceRow → SourceRow)
    (rows picked : List SourceRow)
    → IsGranted token told claimed rows picked (claim token told claimed rows picked)
claim-IsGranted token told claimed rows [] = record {
  token_given = refl;
  names = refl;
  stored = sym (update_where-none (has_any_uuid []) claimed rows (none_counted rows));
}
  where
    none_counted : (rs : List SourceRow) → count (has_any_uuid []) rs ≡ 0
    none_counted [] = refl
    none_counted (r ∷ rs) = none_counted rs
claim-IsGranted token told claimed rows (p ∷ ps) = record {
  token_given = refl;
  names = refl;
  stored = refl;
}

-- A limit of zero or less selects nothing.
abbrev pub limit_of : ℤ → ℕ
limit_of (pos n) = n
limit_of (negsuc n) = 0

none_selected :
    (before : SourceRow → SourceRow → Bool) (offered : List SourceRow)
    → IsSelection before 0 offered []
none_selected before offered = record {
  within = omega arith;
  rest = offered;
  same = Perm.refl offered;
  first = tt;
  full = inr refl;
}

-- The rows that a workflow run claims are those that have been pending longest, and the older among
-- these, at most `limit` of them and fewer only if there are no more, of the project's rows that are
-- enabled, pending, without a claim that has not run out, and not locked by another transaction;
-- exactly these get the token and a new deadline, exactly these are returned, and the token is returned
-- if there are any.
pub workflow_claim_takes :
    (now : ℕ) (locked : ℕ → Bool) (project : String) (limit ttl : ℤ) (token : String)
    (rows : List SourceRow)
    → (picked : List SourceRow) × IsSelection longer_pending
        (limit_of limit)
        (select_where
          (λ r. not (locked r.uuid))
          (select_where (claimable_for_workflow now project) rows))
        picked
      × IsGranted token
          (λ r. r.source_identifier)
          (claimed_for_workflow now ttl token)
          rows
          picked
          (claim_pending_sources_for_workflow_run now locked project limit ttl token rows)
unfolding claim_pending_sources_for_workflow_run
workflow_claim_takes now locked project (pos zero) ttl token rows =
    ([], none_selected longer_pending _, claim-IsGranted token _ _ rows [])
workflow_claim_takes now locked project (negsuc n) ttl token rows =
    ([], none_selected longer_pending _, claim-IsGranted token _ _ rows [])
workflow_claim_takes now locked project (pos (suc n)) ttl token rows =
    let claimable = claimable_for_workflow now project in
    let picked = selected locked claimable longer_pending (suc n) rows in
    (
      picked,
      selected-IsSelection longer_pending longer_pending_total longer_pending_trans locked claimable
          (suc n) rows,
      claim-IsGranted token _ _ rows picked,
    )
