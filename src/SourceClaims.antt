-- ===== src/SourceClaims.antt =====
-- Claims on the rows of `source_registry`, for discovery and for workflow runs:
-- `claim_source_rows_for_discovery`, `claim_pending_sources_for_workflow_run` and the updates between
-- them in crates/beampipe-db/src/repo.rs. A time is a count of seconds, a uuid is a number, NULL is
-- `none`, and the new token of a claim is an argument. Each function returns the rows of the table
-- after it; an update returns the count of rows, too.
pub mod Laws
pub mod Exclusive
mod Examples
use beampipe_core_v.Common.{
  ℕ, zero, suc, ◌+◌, ◌-◌, ◌*◌, String, Bool, true, false, not, ◌&&◌, ◌||◌, Option, none, some,
  is_none, List, [], ◌∷◌, map, ltb, leb, eqb, ◌==◌, if◌then◌else◌,
}
use beampipe_core_v.Common.Int.{ℤ, pos, negsuc}
use beampipe_core_v.Common.Rows.{count, update_where, select_where, passed}
use beampipe_core_v.Common.Text.{is_empty}

-- The columns that claims read or write.
pub record SourceRow : Type 0 where
  pub uuid : ℕ
  pub project_module : String
  pub source_identifier : String
  pub enabled : Bool
  pub last_checked_at : Option ℕ
  pub last_attempted_at : Option ℕ
  pub discovery_claim_token : Option String
  pub discovery_claim_expires_at : Option ℕ
  pub workflow_run_pending : Bool
  pub workflow_run_pending_at : Option ℕ
  pub workflow_claim_token : Option String
  pub workflow_claimed_at : Option ℕ
  pub workflow_claim_expires_at : Option ℕ
  pub created_at : ℕ

-- `now() + n` and `t <= now() - n`, for an interval of so many seconds per unit.
abbrev shifted : ℕ → ℕ → ℤ → ℕ
shifted now unit (pos n) = now + n * unit
shifted now unit (negsuc n) = now - suc n * unit

abbrev not_after : ℕ → ℕ → ℤ → ℕ → Bool
not_after now unit (pos n) t = leb (t + n * unit) now
not_after now unit (negsuc n) t = leb t (now + suc n * unit)

-- `last_checked_at IS NULL OR last_checked_at <= now() - hours`.
abbrev is_stale : ℕ → ℤ → Option ℕ → Bool
is_stale now hours none = true
is_stale now hours (some t) = not_after now 3600 hours t

-- A condition that is only there with a project module.
abbrev in_module : Option String → SourceRow → Bool
in_module none r = true
in_module (some project) r = r.project_module == project

abbrev pub claimable_for_discovery : ℕ → Option String → ℤ → SourceRow → Bool
claimable_for_discovery now project hours r =
    r.enabled
    && passed now r.discovery_claim_expires_at
    && is_stale now hours r.last_checked_at
    && in_module project r

abbrev pub claimable_for_workflow : ℕ → String → SourceRow → Bool
claimable_for_workflow now project r =
    (r.project_module == project)
    && r.enabled
    && r.workflow_run_pending
    && passed now r.workflow_claim_expires_at

-- `ORDER BY created_at ASC`, and `workflow_run_pending_at ASC NULLS LAST, created_at ASC`: the first
-- row does not come after the second.
abbrev pub older : SourceRow → SourceRow → Bool
older a b = leb a.created_at b.created_at

abbrev pending_longer : Option ℕ → Option ℕ → Bool → Bool
pending_longer none none tie = tie
pending_longer none (some u) tie = false
pending_longer (some t) none tie = true
pending_longer (some t) (some u) tie = if ltb t u then true else if ltb u t then false else tie

abbrev pub longer_pending : SourceRow → SourceRow → Bool
longer_pending a b = pending_longer a.workflow_run_pending_at b.workflow_run_pending_at (older a b)

module _ (before : SourceRow → SourceRow → Bool) where
  insert : SourceRow → List SourceRow → List SourceRow
  insert r [] = r ∷ []
  insert r (x ∷ xs) = let rest = insert r xs in if before r x then r ∷ x ∷ xs else x ∷ rest

  unfoldable pub sort : List SourceRow → List SourceRow
  unfolding insert
  sort [] = []
  sort (r ∷ rs) = insert r (sort rs)

-- `LIMIT`.
abbrev pub take : ℕ → List SourceRow → List SourceRow
take zero rs = []
take (suc n) [] = []
take (suc n) (r ∷ rs) = r ∷ take n rs

-- The rows that a claim selects: `locked` tells which are locked by other transactions.
unfoldable pub selected :
    (ℕ → Bool)
    → (SourceRow → Bool)
    → (SourceRow → SourceRow → Bool)
    → ℕ
    → List SourceRow
    → List SourceRow
unfolding sort
selected locked claimable before limit rows =
    take limit (sort before (select_where (λ r. not (locked r.uuid)) (select_where claimable rows)))

-- `uuid = ANY(ids)`.
abbrev pub has_any_uuid : List SourceRow → SourceRow → Bool
has_any_uuid [] r = false
has_any_uuid (x ∷ xs) r = eqb x.uuid r.uuid || has_any_uuid xs r

abbrev pub any_text : List String → String → Bool
any_text [] s = false
any_text (x ∷ xs) s = (x == s) || any_text xs s

abbrev is_text : Option String → String → Bool
is_text none t = false
is_text (some s) t = s == t

abbrev is_nil {ℓ} : {A : Type ℓ} → List A → Bool
is_nil [] = true
is_nil (x ∷ xs) = false

-- The token of a claim, if any row was selected, what is told of the rows, and the rows after it.
abbrev claim :
    {A : Type 0}
    → String
    → (SourceRow → A)
    → (SourceRow → SourceRow)
    → List SourceRow
    → List SourceRow
    → (Option String × List A) × List SourceRow
claim token told claimed rows [] = ((none, []), rows)
claim token told claimed rows (p ∷ ps) =
    ((some token, map told (p ∷ ps)), update_where (has_any_uuid (p ∷ ps)) claimed rows)

-- `if limit <= 0 { return Ok((None, Vec::new())) }`.
abbrev unless_zero :
    {A : Type 0}
    → ℤ
    → List SourceRow
    → (ℕ → (Option String × List A) × List SourceRow)
    → (Option String × List A) × List SourceRow
unless_zero (pos zero) rows claims = ((none, []), rows)
unless_zero (pos (suc n)) rows claims = claims (suc n)
unless_zero (negsuc n) rows claims = ((none, []), rows)

unfoldable pub claimed_for_discovery : ℕ → ℤ → String → SourceRow → SourceRow
claimed_for_discovery now ttl token r = record r {
  discovery_claim_token = some token;
  discovery_claim_expires_at = some (shifted now 60 ttl);
}

unfoldable pub claim_source_rows_for_discovery :
    ℕ
    → (ℕ → Bool)
    → Option String
    → ℤ
    → ℤ
    → ℤ
    → String
    → List SourceRow
    → (Option String × List (String × String)) × List SourceRow
unfolding selected claimed_for_discovery
claim_source_rows_for_discovery now locked project hours limit ttl token rows =
    unless_zero limit rows λ n.
      claim token (λ r. (r.project_module, r.source_identifier))
        (claimed_for_discovery now ttl token) rows
        (selected locked (claimable_for_discovery now project hours) older n rows)

unfoldable pub claimed_for_workflow : ℕ → ℤ → String → SourceRow → SourceRow
claimed_for_workflow now ttl token r = record r {
  workflow_claim_token = some token;
  workflow_claimed_at = some now;
  workflow_claim_expires_at = some (shifted now 60 ttl);
}

unfoldable pub claim_pending_sources_for_workflow_run :
    ℕ
    → (ℕ → Bool)
    → String
    → ℤ
    → ℤ
    → String
    → List SourceRow
    → (Option String × List String) × List SourceRow
unfolding selected claimed_for_workflow
claim_pending_sources_for_workflow_run now locked project limit ttl token rows =
    unless_zero limit rows λ n.
      claim token (λ r. r.source_identifier) (claimed_for_workflow now ttl token) rows
        (selected locked (claimable_for_workflow now project) longer_pending n rows)

-- `project_module = $1 AND source_identifier = ANY($2)`.
abbrev pub of_project : String → List String → SourceRow → Bool
of_project project sources r = (r.project_module == project) && any_text sources r.source_identifier

abbrev pub claimed_by : String → List String → String → SourceRow → Bool
claimed_by project sources token r =
    of_project project sources r && is_text r.discovery_claim_token token

abbrev pub workflow_claimed_by : String → List String → String → SourceRow → Bool
workflow_claimed_by project sources token r =
    of_project project sources r && is_text r.workflow_claim_token token

-- An update of the rows that the condition picks, unless there are no sources or no token.
abbrev pub guarded :
    Bool → (SourceRow → Bool) → (SourceRow → SourceRow) → List SourceRow → ℕ × List SourceRow
guarded skipped picks change rows =
    if skipped then (0, rows) else (count picks rows, update_where picks change rows)

unfoldable pub released : SourceRow → SourceRow
released r = record r { discovery_claim_token = none; discovery_claim_expires_at = none }

unfoldable pub checked : ℕ → SourceRow → SourceRow
checked now r = record r { last_checked_at = some now }

unfoldable pub attempted : ℕ → SourceRow → SourceRow
attempted now r = record r { last_attempted_at = some now }

unfoldable pub workflow_released : SourceRow → SourceRow
workflow_released r = record r {
  workflow_claim_token = none;
  workflow_claimed_at = none;
  workflow_claim_expires_at = none;
}

unfoldable pub cleared : SourceRow → SourceRow
unfolding workflow_released
cleared r = record (workflow_released r) {
  workflow_run_pending = false;
  workflow_run_pending_at = none;
}

unfoldable pub pending_again : ℕ → SourceRow → SourceRow
unfolding workflow_released
pending_again now r = record (workflow_released r) {
  workflow_run_pending = true;
  workflow_run_pending_at = some now;
}

unfoldable pub release_discovery_claim :
    String → List String → String → List SourceRow → ℕ × List SourceRow
unfolding released
release_discovery_claim project sources token =
    guarded (is_nil sources || is_empty token) (claimed_by project sources token) released

unfoldable pub mark_sources_checked_if_claimed :
    ℕ → String → List String → String → List SourceRow → ℕ × List SourceRow
unfolding checked
mark_sources_checked_if_claimed now project sources token =
    guarded (is_nil sources || is_empty token) (claimed_by project sources token) (checked now)

unfoldable pub mark_sources_attempted_if_claimed :
    ℕ → String → List String → String → List SourceRow → ℕ × List SourceRow
unfolding attempted
mark_sources_attempted_if_claimed now project sources token =
    guarded (is_nil sources || is_empty token) (claimed_by project sources token) (attempted now)

unfoldable pub release_workflow_claim :
    String → List String → String → List SourceRow → ℕ × List SourceRow
unfolding workflow_released
release_workflow_claim project sources token =
    guarded (is_nil sources || is_empty token) (workflow_claimed_by project sources token)
      workflow_released

unfoldable pub clear_workflow_pending_for_sources :
    String → List String → List SourceRow → ℕ × List SourceRow
unfolding cleared
clear_workflow_pending_for_sources project sources =
    guarded (is_nil sources) (of_project project sources) cleared

unfoldable pub mark_sources_pending_workflow_run :
    ℕ → String → List String → List SourceRow → ℕ × List SourceRow
unfolding pending_again
mark_sources_pending_workflow_run now project sources =
    guarded (is_nil sources) (of_project project sources) (pending_again now)
