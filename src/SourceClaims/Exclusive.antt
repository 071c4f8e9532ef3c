-- ===== src/SourceClaims/Exclusive.antt =====
-- A source that is claimed for discovery, and the calls of others
-- (crates/beampipe-db/src/repo.rs).
use mathlib.Core.Path.{subst}
use mathlib.Core.List.{Memᴰ}
use beampipe_core_v.Common.{
  guard_parts, ℕ, zero, suc, ◌≤◌, ◌<◌, ◌≡◌, ◌⊎◌, refl, sym, String, Bool, true, false, not, ◌&&◌,
  Option, some, List, [], ◌∷◌, arith, ltb, eqb, ◌==◌, eq_iff, inl, inr, Bool-cases, ◌∙◌,
}
use beampipe_core_v.Common.Int.{ℤ, pos, negsuc}
use beampipe_core_v.Common.Lists.{All}
use beampipe_core_v.Common.Rows.{
  count, update_where, update_where-mem, update_where-mem_other, count-update_where_le, All-unit,
  only_row, select_where, select_where-All, select_where-picked, All-zip,
}
use beampipe_core_v.SourceClaims.{
  SourceRow, selected, has_any_uuid, older, claimable_for_discovery, claimed_for_discovery,
  claimed_for_workflow, claimed_by, any_text, guarded, released, checked, attempted,
  workflow_released, cleared, pending_again, claim_source_rows_for_discovery,
  claim_pending_sources_for_workflow_run, release_discovery_claim, mark_sources_checked_if_claimed,
  mark_sources_attempted_if_claimed, release_workflow_claim, clear_workflow_pending_for_sources,
  mark_sources_pending_workflow_run,
}
use beampipe_core_v.SourceClaims.Laws.{claim-IsGranted, workflow_claim_takes, selected-All}

-- A call on the table, with its arguments in the order of the functions.
pub data Call : Type 0 where
  claims : (ℕ → Bool) → Option String → ℤ → ℤ → ℤ → String → Call
  claims_workflow : (ℕ → Bool) → String → ℤ → ℤ → String → Call
  releases : String → List String → String → Call
  checks : String → List String → String → Call
  attempts : String → List String → String → Call
  releases_workflow : String → List String → String → Call
  clears : String → List String → Call
  marks_pending : String → List String → Call

pub step : List SourceRow → ℕ × Call → List SourceRow
unfolding claim_source_rows_for_discovery claim_pending_sources_for_workflow_run
    release_discovery_claim mark_sources_checked_if_claimed mark_sources_attempted_if_claimed
    release_workflow_claim clear_workflow_pending_for_sources mark_sources_pending_workflow_run
step rows (now, claims locked project hours limit ttl token) =
    (claim_source_rows_for_discovery now locked project hours limit ttl token rows).1
step rows (now, claims_workflow locked project limit ttl token) =
    (claim_pending_sources_for_workflow_run now locked project limit ttl token rows).1
step rows (now, releases project sources token) =
    (release_discovery_claim project sources token rows).1
step rows (now, checks project sources token) =
    (mark_sources_checked_if_claimed now project sources token rows).1
step rows (now, attempts project sources token) =
    (mark_sources_attempted_if_claimed now project sources token rows).1
step rows (now, releases_workflow project sources token) =
    (release_workflow_claim project sources token rows).1
step rows (now, clears project sources) =
    (clear_workflow_pending_for_sources project sources rows).1
step rows (now, marks_pending project sources) =
    (mark_sources_pending_workflow_run now project sources rows).1

pub run : List SourceRow → List (ℕ × Call) → List SourceRow
unfolding step
run rows [] = rows
run rows (c ∷ cs) = run (step rows c) cs

-- No two rows have the same uuid.
abbrev pub IsUnique : List SourceRow → Type 0
IsUnique rows = (id : ℕ) → count (λ r. eqb r.uuid id) rows ≤ 1

-- A release under this token.
abbrev pub gives_up : String → Call → Bool
gives_up token (releases _ _ t) = t == token
gives_up token _ = false

-- Every call comes before the deadline, and none gives the claim up.
abbrev pub before_deadline : String → ℕ → List (ℕ × Call) → Bool
before_deadline token d [] = true
before_deadline token d ((now, c) ∷ cs) =
    ltb now d && not (gives_up token c) && before_deadline token d cs

-- The source is claimed under the token until the deadline.
pub record IsClaimed (id : ℕ) (token : String) (d : ℕ) (rows : List SourceRow) : Type 0 where
  pub row : SourceRow
  pub listed : Memᴰ row rows
  pub same : row.uuid ≡ id
  pub holder : row.discovery_claim_token ≡ some token
  pub until : row.discovery_claim_expires_at ≡ some d

-- The rows that a claim changes satisfy what all claimable rows do.
discovery_claim_rows :
    (P : SourceRow → Type 0) (now : ℕ) (locked : ℕ → Bool) (project : Option String)
    (hours limit ttl : ℤ) (token : String) (rows : List SourceRow)
    → All P (select_where (claimable_for_discovery now project hours) rows)
    → (picked : List SourceRow) × All P picked
      × ((claim_source_rows_for_discovery now locked project hours limit ttl token rows).1
          ≡ update_where (has_any_uuid picked) (claimed_for_discovery now ttl token) rows)
unfolding claim_source_rows_for_discovery
discovery_claim_rows P now locked project hours (pos zero) ttl token rows h =
    ([], tt, (claim-IsGranted token (λ r. r) (claimed_for_discovery now ttl token) rows []).stored)
discovery_claim_rows P now locked project hours (negsuc n) ttl token rows h =
    ([], tt, (claim-IsGranted token (λ r. r) (claimed_for_discovery now ttl token) rows []).stored)
discovery_claim_rows P now locked project hours (pos (suc n)) ttl token rows h =
    let claimable = claimable_for_discovery now project hours in
    let picked = selected locked claimable older (suc n) rows in
    (
      picked,
      selected-All older P locked claimable (suc n) rows h,
      (claim-IsGranted token _ (claimed_for_discovery now ttl token) rows picked).stored,
    )

workflow_claim_rows :
    (now : ℕ) (locked : ℕ → Bool) (project : String) (limit ttl : ℤ) (token : String)
    (rows : List SourceRow)
    → (picked : List SourceRow) × ((claim_pending_sources_for_workflow_run now locked project limit
          ttl token rows).1
        ≡ update_where (has_any_uuid picked) (claimed_for_workflow now ttl token) rows)
workflow_claim_rows now locked project limit ttl token rows =
    let (picked, _, c) = workflow_claim_takes now locked project limit ttl token rows in
    (picked, c.stored)

module _ (id : ℕ) (token : String) (d : ℕ) where
  -- What an update may do to a row that is claimed.
  record Leaves (p : SourceRow → Bool) (f : SourceRow → SourceRow) (r : SourceRow) : Type 0 where
    effect :
        (p r ≡ false)
        ⊎ (((f r).uuid ≡ r.uuid)
            × ((f r).discovery_claim_token ≡ r.discovery_claim_token)
            × ((f r).discovery_claim_expires_at ≡ r.discovery_claim_expires_at))

  update-IsClaimed :
      (rows : List SourceRow) (p : SourceRow → Bool) (f : SourceRow → SourceRow)
      (h : IsClaimed id token d rows)
      → Leaves p f h.row
      → IsClaimed id token d (update_where p f rows)
  update-IsClaimed rows p f h l = elim (Bool-cases (p h.row)) [
    | inr miss ↦ record {
      row = h.row;
      listed = update_where-mem_other p f rows h.listed miss;
      same = h.same;
      holder = h.holder;
      until = h.until;
    }
    | inl hit ↦ elim l.effect [
      | inl miss ↦ absurd (cc (hit, miss))
      | inr (uuid, tok, exp) ↦ record {
        row = f h.row;
        listed = update_where-mem p f rows h.listed hit;
        same = uuid ∙ h.same;
        holder = tok ∙ h.holder;
        until = exp ∙ h.until;
      }
    ]
  ]

  guarded-IsClaimed :
      (rows : List SourceRow) (b : Bool) (p : SourceRow → Bool) (f : SourceRow → SourceRow)
      (h : IsClaimed id token d rows)
      → Leaves p f h.row
      → IsClaimed id token d (guarded b p f rows).1
  guarded-IsClaimed rows true p f h l = h
  guarded-IsClaimed rows false p f h l = update-IsClaimed rows p f h l

  -- A claim for discovery spares a row whose claim has not run out.
  spared :
      (rows : List SourceRow) (now : ℕ) (project : Option String) (hours : ℤ)
      (h : IsClaimed id token d rows)
      → IsUnique rows
      → now < d
      → All
          (λ p. eqb p.uuid h.row.uuid ≡ false)
          (select_where (claimable_for_discovery now project hours) rows)
  spared rows now project hours h u early =
      let claimable = claimable_for_discovery now project hours in
      let only =
        only_row (λ r. eqb r.uuid h.row.uuid) h.row rows h.listed (ground arith) (u h.row.uuid) in
      All-zip (λ r a b. distinct r a b) (select_where claimable rows)
        (select_where-All (λ r. (eqb r.uuid h.row.uuid ≡ false) ⊎ (r ≡ h.row)) claimable rows only)
        (select_where-picked claimable rows)
    where
      distinct :
          (r : SourceRow)
          → (eqb r.uuid h.row.uuid ≡ false) ⊎ (r ≡ h.row)
          → claimable_for_discovery now project hours r ≡ true
          → eqb r.uuid h.row.uuid ≡ false
      distinct r (inl other) b = other
      distinct r (inr same) b =
          let held : r.discovery_claim_expires_at ≡ some d = rw same h.until in
          absurd (ground arith)

  has_any_uuid-none :
      (r : SourceRow) (ps : List SourceRow)
      → All (λ p. eqb p.uuid r.uuid ≡ false) ps
      → has_any_uuid ps r ≡ false
  has_any_uuid-none r [] h = refl
  has_any_uuid-none r (p ∷ ps) h = rw (h.0) (has_any_uuid-none r ps h.1)

  -- A release under another token does not touch the row.
  other_release :
      (rows : List SourceRow) (project : String) (sources : List String) (t : String)
      (h : IsClaimed id token d rows)
      → (t == token) ≡ false
      → claimed_by project sources t h.row ≡ false
  other_release rows project sources t h other = elim (Bool-cases (token == t)) [
    | inl same ↦
        let t_is : token ≡ t = (eq_iff token t).0 same in
        absurd (cc (other, (eq_iff t token).1 (sym t_is)))
    | inr miss ↦
        rw (h.holder, miss)
          (never (h.row.project_module == project) (any_text sources h.row.source_identifier))
  ]
    where
      never : (a b : Bool) → (a && b) && false ≡ false
      never a b = ground arith

  step-IsClaimed :
      (rows : List SourceRow) (now : ℕ) (c : Call)
      → IsUnique rows
      → now < d
      → gives_up token c ≡ false
      → IsClaimed id token d rows
      → IsClaimed id token d (step rows (now, c))
  unfolding step claimed_for_workflow released checked attempted workflow_released cleared
      pending_again release_discovery_claim mark_sources_checked_if_claimed
      mark_sources_attempted_if_claimed release_workflow_claim clear_workflow_pending_for_sources
      mark_sources_pending_workflow_run
  step-IsClaimed rows now (claims locked project hours limit ttl t) u early keeps h =
      let (picked, other, e) =
        discovery_claim_rows (λ p. eqb p.uuid h.row.uuid ≡ false) now locked project hours limit ttl
          t rows (spared rows now project hours h u early) in
      subst (IsClaimed id token d) (sym e) (
        update-IsClaimed rows (has_any_uuid picked) (claimed_for_discovery now ttl t) h
          (record { effect = inl (has_any_uuid-none h.row picked other) }))
  step-IsClaimed rows now (claims_workflow locked project limit ttl t) u early keeps h =
      let (picked, e) = workflow_claim_rows now locked project limit ttl t rows in
      subst (IsClaimed id token d) (sym e) (
        update-IsClaimed rows (has_any_uuid picked) (claimed_for_workflow now ttl t) h
          (record { effect = inr (refl, refl, refl) }))
  step-IsClaimed rows now (releases project sources t) u early keeps h =
      guarded-IsClaimed rows _ (claimed_by project sources t) released h
        (record { effect = inl (other_release rows project sources t h keeps) })
  step-IsClaimed rows now (checks project sources t) u early keeps h =
      guarded-IsClaimed rows _ _ (checked now) h (record { effect = inr (refl, refl, refl) })
  step-IsClaimed rows now (attempts project sources t) u early keeps h =
      guarded-IsClaimed rows _ _ (attempted now) h (record { effect = inr (refl, refl, refl) })
  step-IsClaimed rows now (releases_workflow project sources t) u early keeps h =
      guarded-IsClaimed rows _ _ workflow_released h (record { effect = inr (refl, refl, refl) })
  step-IsClaimed rows now (clears project sources) u early keeps h =
      guarded-IsClaimed rows _ _ cleared h (record { effect = inr (refl, refl, refl) })
  step-IsClaimed rows now (marks_pending project sources) u early keeps h =
      guarded-IsClaimed rows _ _ (pending_again now) h (record { effect = inr (refl, refl, refl) })

-- No update changes a uuid.
update-IsUnique :
    (rows : List SourceRow) (p : SourceRow → Bool) (f : SourceRow → SourceRow)
    → ((r : SourceRow) → (f r).uuid ≡ r.uuid)
    → IsUnique rows
    → IsUnique (update_where p f rows)
update-IsUnique rows p f same u id =
    let le =
      count-update_where_le (λ _. Unit {0}) (λ r. eqb r.uuid id) (λ r. eqb r.uuid id) p f (λ r h. h)
        (λ r _ _ h. rw (← same r) h) rows (All-unit rows) in
    omega (arith, le, u id)

guarded-IsUnique :
    (rows : List SourceRow) (b : Bool) (p : SourceRow → Bool) (f : SourceRow → SourceRow)
    → ((r : SourceRow) → (f r).uuid ≡ r.uuid)
    → IsUnique rows
    → IsUnique (guarded b p f rows).1
guarded-IsUnique rows true p f same u = u
guarded-IsUnique rows false p f same u = update-IsUnique rows p f same u

step-IsUnique : (rows : List SourceRow) (c : ℕ × Call) → IsUnique rows → IsUnique (step rows c)
unfolding step claimed_for_discovery claimed_for_workflow released checked attempted
    workflow_released cleared pending_again release_discovery_claim mark_sources_checked_if_claimed
    mark_sources_attempted_if_claimed release_workflow_claim clear_workflow_pending_for_sources
    mark_sources_pending_workflow_run
step-IsUnique rows (now, claims locked project hours limit ttl t) u =
    let (picked, _, e) =
      discovery_claim_rows (λ _. Unit {0}) now locked project hours limit ttl t rows (All-unit _) in
    subst IsUnique (sym e) (update-IsUnique rows (has_any_uuid picked) _ (λ r. refl) u)
step-IsUnique rows (now, claims_workflow locked project limit ttl t) u =
    let (picked, e) = workflow_claim_rows now locked project limit ttl t rows in
    subst IsUnique (sym e) (update-IsUnique rows (has_any_uuid picked) _ (λ r. refl) u)
step-IsUnique rows (now, releases project sources t) u =
    guarded-IsUnique rows _ _ released (λ r. refl) u
step-IsUnique rows (now, checks project sources t) u =
    guarded-IsUnique rows _ _ (checked now) (λ r. refl) u
step-IsUnique rows (now, attempts project sources t) u =
    guarded-IsUnique rows _ _ (attempted now) (λ r. refl) u
step-IsUnique rows (now, releases_workflow project sources t) u =
    guarded-IsUnique rows _ _ workflow_released (λ r. refl) u
step-IsUnique rows (now, clears project sources) u = guarded-IsUnique rows _ _ cleared (λ r. refl) u
step-IsUnique rows (now, marks_pending project sources) u =
    guarded-IsUnique rows _ _ (pending_again now) (λ r. refl) u

-- A source that is claimed for discovery stays claimed under the same token until the same deadline,
-- whatever claims, releases under other tokens, checks, attempts and workflow updates are made before
-- it, if no two sources have the same uuid.
pub run-IsClaimed :
    (id : ℕ) (token : String) (d : ℕ) (rows : List SourceRow) (cs : List (ℕ × Call))
    → IsUnique rows
    → before_deadline token d cs ≡ true
    → IsClaimed id token d rows
    → IsClaimed id token d (run rows cs)
unfolding run
run-IsClaimed id token d rows [] u b h = h
run-IsClaimed id token d rows ((now, c) ∷ cs) u b h =
    let (early, keeps, later) =
      guard_parts (ltb now d) (gives_up token c) (before_deadline token d cs) b in
    run-IsClaimed id token d (step rows (now, c)) cs (step-IsUnique rows (now, c) u) later
      (step-IsClaimed id token d rows now c u (ground arith) keeps h)
