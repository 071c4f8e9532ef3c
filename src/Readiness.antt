-- ===== src/Readiness.antt =====
-- Whether a source can be executed: crates/beampipe-domain/src/readiness.rs. What Rust's `Debug`
-- prints of a list of texts is a parameter, `debug`; timestamps are seconds, and the current time is
-- an argument.
pub mod Laws
mod Examples
use Prim.Native.String.{◌++◌, compare}
use Prim.Native.Nat.{Ordering}
use beampipe_core_v.Common.{
  String, Bool, true, false, ◌&&◌, ◌||◌, not, Option, none, some, is_some, is_none, List, [], ◌∷◌,
  ◌==◌, if◌then◌else◌,
}
use beampipe_core_v.Common.Int.{ℤ, max_zero}
use beampipe_core_v.Common.Text.{is_empty, trim}
use beampipe_core_v.Json.{Json, null, bool, number, string, array, object, as_object}

pub record RegisteredSourceReadiness : Type 0 where
  pub enabled : Bool
  pub last_checked_at_present : Bool
  pub discovery_signature : Option String
  pub discovery_claim_token : Option String

pub record ArchiveMetadataReadiness (Value : Type 0) : Type 0 where
  pub group_key : String
  pub metadata_json : Option Value

pub record SourceExecutionStatus : Type 0 where
  pub ready_for_execution : Bool
  pub discovery_complete : Bool
  pub workflow_run_pending : Bool
  pub discovery_signature : Option String
  pub last_executed_discovery_signature : Option String
  pub signature_matches_last_execution : Bool
  pub blockers : List String
  pub pending_age_seconds : Option ℤ

-- `groups.contains(&row.group_key)`.
pub contains : List String → String → Bool
contains [] key = false
contains (g ∷ groups) key = g == key || contains groups key

abbrev pub is_nil {ℓ} : {A : Type ℓ} → List A → Bool
is_nil [] = true
is_nil (x ∷ xs) = false

module _ {Value : Type 0} where
  -- `rows.iter().filter(|row| groups.contains(&row.group_key)).collect()`.
  rows_of :
      List String → List (ArchiveMetadataReadiness Value) → List (ArchiveMetadataReadiness Value)
  unfolding contains
  rows_of groups [] = []
  rows_of groups (row ∷ rows) =
      let rest = rows_of groups rows in if contains groups row.group_key then row ∷ rest else rest

  pub filter_archive_rows_by_groups :
      List (ArchiveMetadataReadiness Value)
      → Option (List String)
      → List (ArchiveMetadataReadiness Value)
  unfolding rows_of
  filter_archive_rows_by_groups rows none = rows
  filter_archive_rows_by_groups rows (some groups) =
      if is_nil groups then rows else rows_of groups rows

-- `.as_deref().unwrap_or("").is_empty()`.
abbrev pub missing : Option String → Bool
missing none = true
missing (some s) = is_empty s

-- `.filter(|s| !s.is_empty())`.
abbrev pub non_empty : Option String → Option String
non_empty none = none
non_empty (some s) = if is_empty s then none else some s

abbrev pub same_signature : Option String → Option String → Bool
same_signature none last = false
same_signature (some current) none = false
same_signature (some current) (some last) = current == last

-- `blockers.sort(); blockers.dedup();`, on at most two texts.
abbrev str_le : String → String → Bool
str_le a b = elim (compare a b) [ Ordering.gt ↦ false | _ ↦ true ]

insert_sorted : String → List String → List String
insert_sorted a [] = a ∷ []
insert_sorted a (b ∷ bs) =
    let rest = insert_sorted a bs in if str_le a b then a ∷ b ∷ bs else b ∷ rest

sort : List String → List String
unfolding insert_sorted
sort [] = []
sort (a ∷ bs) = insert_sorted a (sort bs)

dedup : List String → List String
dedup [] = []
dedup (a ∷ []) = a ∷ []
dedup (a ∷ b ∷ bs) = let rest = dedup (b ∷ bs) in if a == b then rest else a ∷ rest

-- A blocker, if there is one, before others.
abbrev push_some : Option String → List String → List String
push_some none bs = bs
push_some (some b) bs = b ∷ bs

module _ (J : Json) (debug : List String → String) where
  open J use {Value, Map, view, get, entries, is_nonzero}

  -- Python's `bool(v)`, except that a blank text is false.
  pub discovery_flag_passes : Value → Bool
  unfolding trim
  discovery_flag_passes value = elim (view value) [
    | null ↦ false
    | bool b ↦ b
    | string s ↦ not (is_empty (trim s))
    | number n ↦ is_nonzero n
    | array items ↦ not (is_nil items)
    | object map ↦ not (is_nil (entries map))
  ]

  -- The keys of the flags that have not passed.
  failed_keys : List (String × Value) → List String
  unfolding discovery_flag_passes
  failed_keys [] = []
  failed_keys ((k, v) ∷ flags) =
      let rest = failed_keys flags in if discovery_flag_passes v then rest else k ∷ rest

  -- The object under `discovery_flags`, where the metadata is an object that has one.
  pub discovery_flags : Option Value → Option Map
  unfolding as_object
  discovery_flags none = none
  discovery_flags (some v) = elim (as_object J v) [
    | none ↦ none
    | some meta ↦ elim (get "discovery_flags" meta) [ none ↦ none | some f ↦ as_object J f ]
  ]

  failed_flags : Option Map → List String
  unfolding failed_keys
  failed_flags none = []
  failed_flags (some flags) = failed_keys (entries flags)

  pub bad_keys : ArchiveMetadataReadiness Value → List String
  unfolding discovery_flags failed_flags
  bad_keys row = failed_flags (discovery_flags row.metadata_json)

  not_passed : String → List String → String
  not_passed sid bad =
      "Source "
      ++ (sid
          ++ (" metadata has discovery_flags that have not passed (failed keys: "
              ++ (debug bad ++ "). Re-run discovery.")))

  -- The loop over the selected rows.
  flags_error : String → List (ArchiveMetadataReadiness Value) → Option String
  unfolding bad_keys not_passed
  flags_error sid [] = none
  flags_error sid (row ∷ rows) =
      let rest = flags_error sid rows in
      if not (is_nil (bad_keys row)) then some (not_passed sid (bad_keys row)) else rest

  hint : Option (List String) → String
  hint none = ""
  hint (some selected) = " (groups: " ++ (debug selected ++ ")")

  registered_error :
      String
      → Option (List String)
      → RegisteredSourceReadiness
      → List (ArchiveMetadataReadiness Value)
      → Option String
  unfolding filter_archive_rows_by_groups flags_error hint
  registered_error sid groups registered rows =
      let metadata = filter_archive_rows_by_groups rows groups in
      if not registered.enabled
      then some ("Source " ++ (sid ++ " is disabled"))
      else if not registered.last_checked_at_present
      then some (
          "Source "
          ++ (sid
              ++ ": Discovery has not yet run for this source (last_checked_at is unset). Run discovery first (POST /api/v2/sources/discover)."))
      else if missing registered.discovery_signature
      then some (
          "Source "
          ++ (sid
              ++ ": Discovery signature is missing. Run discovery first (POST /api/v2/sources/discover)."))
      else if is_some registered.discovery_claim_token
      then some (
          "Source "
          ++ (sid
              ++ ": Discovery is still in progress for this source (active lease). Wait and retry."))
      else if is_nil metadata
      then some (
          "Source "
          ++ (sid
              ++ (" has no discovered metadata"
                  ++ (hint groups ++ ". Run discovery first (POST /api/v2/sources/discover)."))))
      else flags_error sid metadata

  pub parsed_source_readiness_error :
      String
      → Option (List String)
      → Option RegisteredSourceReadiness
      → List (ArchiveMetadataReadiness Value)
      → Option String
  unfolding registered_error
  parsed_source_readiness_error sid groups none rows = some (
      "Source "
      ++ (sid ++ " is not registered. Register and discover the source before execution."))
  parsed_source_readiness_error sid groups (some registered) rows =
      registered_error sid groups registered rows

  already_executed : String → String
  already_executed sid =
      "Source "
      ++ (sid
          ++ ": Discovery signature matches last executed run (already executed for current metadata).")

  -- The blockers, in order and each once.
  pub blockers_of : String → Option String → Bool → List String
  unfolding already_executed sort dedup
  blockers_of sid error matches =
      dedup (sort (push_some error (if matches then already_executed sid ∷ [] else [])))

  abbrev age : {Time : Type 0} → (Time → ℤ) → Option Time → Option ℤ
  age seconds_since none = none
  age seconds_since (some at) = some (max_zero (seconds_since at))

  -- `seconds_since at` is `(Utc::now() - at).num_seconds()`.
  pub source_execution_status :
      {Time : Type 0} (seconds_since : Time → ℤ) (sid : String) (enabled : Bool)
      (last_checked_at : Option Time)
      (discovery_signature last_executed_discovery_signature discovery_claim_token : Option String)
      (workflow_run_pending : Bool) (workflow_run_pending_at : Option Time)
      (metadata_rows : List (ArchiveMetadataReadiness Value)) (groups : Option (List String))
      → SourceExecutionStatus
  unfolding parsed_source_readiness_error blockers_of
  source_execution_status seconds_since sid enabled checked signature executed token pending
        pending_at rows groups =
      let registered : RegisteredSourceReadiness = record {
        enabled = enabled;
        last_checked_at_present = is_some checked;
        discovery_signature = signature;
        discovery_claim_token = token;
      } in
      let matches = same_signature (non_empty signature) (non_empty executed) in
      let blockers =
        blockers_of sid (parsed_source_readiness_error sid groups (some registered) rows) matches in
      record {
        ready_for_execution = is_nil blockers;
        discovery_complete = is_some checked && not (missing signature) && is_none token;
        workflow_run_pending = pending;
        discovery_signature = signature;
        last_executed_discovery_signature = executed;
        signature_matches_last_execution = matches;
        blockers = blockers;
        pending_age_seconds = if pending then age seconds_since pending_at else none;
      }
