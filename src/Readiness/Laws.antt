-- ===== src/Readiness/Laws.antt =====
-- What is asked of a source that is ready (crates/beampipe-domain/src/readiness.rs).
use mathlib.Core.Path.{subst}
use beampipe_core_v.Common.{
  String, ◌≡◌, ◌≢◌, ◌↔◌, refl, Bool, true, false, not, Option, none, some, is_some, List, [], ◌∷◌,
  arith, Bool-cases, inl, inr,
}
use beampipe_core_v.Common.Int.{ℤ}
use beampipe_core_v.Common.Lists.{All}
use beampipe_core_v.Common.Text.{is_empty, trim}
use beampipe_core_v.Json.{Json, Shape, null, bool, string, number, array, object}
use beampipe_core_v.Readiness.{
  RegisteredSourceReadiness, ArchiveMetadataReadiness, filter_archive_rows_by_groups, missing,
  non_empty, same_signature, discovery_flag_passes, failed_keys, discovery_flags, bad_keys,
  failed_flags, not_passed, flags_error, registered_error, parsed_source_readiness_error,
  blockers_of, source_execution_status, is_nil,
}

true_of_not : (b : Bool) → not b ≡ true → b ≡ false
true_of_not b h = ground arith

list_solid {ℓ} : {A : Type ℓ} (xs : List A) → not (is_nil xs) ≡ true → xs ≢ []
list_solid [] h e = cc
list_solid (x ∷ xs) h e = cc

solid_list {ℓ} : {A : Type ℓ} (xs : List A) → xs ≢ [] → not (is_nil xs) ≡ true
solid_list [] h = absurd (h refl)
solid_list (x ∷ xs) h = refl

module _ (J : Json) (debug : List String → String) where
  open J use {Value, Map, Number, view, entries, is_nonzero}

  -- A flag counts as passed unless it is null, false, zero, empty, or a text of white space alone.
  abbrev IsPassingShape : Shape Value Map Number → Type 0
  IsPassingShape null = ⊥
  IsPassingShape (bool b) = b ≡ true
  IsPassingShape (string s) = is_empty (trim s) ≡ false
  IsPassingShape (number n) = is_nonzero n ≡ true
  IsPassingShape (array items) = items ≢ []
  IsPassingShape (object map) = entries map ≢ []

  abbrev pub IsPassing : Value → Type 0
  IsPassing value = IsPassingShape (view value)

  passing-of_passes :
      (value : Value) (shape : Shape Value Map Number)
      → view value ≡ shape
      → discovery_flag_passes J debug value ≡ true
      → IsPassingShape shape
  unfolding discovery_flag_passes
  passing-of_passes value null e h = cc (rw (discovery_flag_passes, e) at h)
  passing-of_passes value (bool b) e h = rw (discovery_flag_passes, e) at h
  passing-of_passes value (string s) e h =
      true_of_not (is_empty (trim s)) (rw (discovery_flag_passes, e) at h)
  passing-of_passes value (number n) e h = rw (discovery_flag_passes, e) at h
  passing-of_passes value (array items) e h = list_solid items (rw (discovery_flag_passes, e) at h)
  passing-of_passes value (object map) e h =
      list_solid (entries map) (rw (discovery_flag_passes, e) at h)

  passes-of_passing :
      (value : Value) (shape : Shape Value Map Number)
      → view value ≡ shape
      → IsPassingShape shape
      → discovery_flag_passes J debug value ≡ true
  unfolding discovery_flag_passes
  passes-of_passing value null e h = absurd h
  passes-of_passing value (bool b) e h = rw (discovery_flag_passes, e) h
  passes-of_passing value (string s) e h = rw (discovery_flag_passes, e, h) refl
  passes-of_passing value (number n) e h = rw (discovery_flag_passes, e) h
  passes-of_passing value (array items) e h = rw (discovery_flag_passes, e) (solid_list items h)
  passes-of_passing value (object map) e h =
      rw (discovery_flag_passes, e) (solid_list (entries map) h)

  -- Every flag has passed, if there are flags.
  abbrev pub AllPass : Option Map → Type 0
  AllPass none = Unit
  AllPass (some flags) = All (λ e. IsPassing (e.1)) (entries flags)

  abbrev pub FlagsPass : ArchiveMetadataReadiness Value → Type 0
  FlagsPass row = AllPass (discovery_flags J debug row.metadata_json)

  failed_keys_nil :
      (flags : List (String × Value))
      → failed_keys J debug flags ≡ []
      → All (λ e. IsPassing (e.1)) flags
  unfolding failed_keys
  failed_keys_nil [] h = tt
  failed_keys_nil ((k, v) ∷ flags) h = elim (Bool-cases (discovery_flag_passes J debug v)) [
    | inl e ↦
        (passing-of_passes v (view v) refl e, failed_keys_nil flags (rw (e, failed_keys) at h))
    | inr e ↦ let c : k ∷ failed_keys J debug flags ≡ [] = rw (e, failed_keys) at h in cc
  ]

  nil_failed_keys :
      (flags : List (String × Value))
      → All (λ e. IsPassing (e.1)) flags
      → failed_keys J debug flags ≡ []
  unfolding failed_keys
  nil_failed_keys [] h = refl
  nil_failed_keys ((k, v) ∷ flags) h =
      rw (passes-of_passing v (view v) refl h.0) (nil_failed_keys flags h.1)

  failed_flags_nil : (flags : Option Map) → failed_flags J debug flags ≡ [] → AllPass flags
  unfolding failed_flags
  failed_flags_nil none h = tt
  failed_flags_nil (some flags) h = failed_keys_nil (entries flags) h

  nil_failed_flags : (flags : Option Map) → AllPass flags → failed_flags J debug flags ≡ []
  unfolding failed_flags
  nil_failed_flags none h = refl
  nil_failed_flags (some flags) h = nil_failed_keys (entries flags) h

  pass_of_nil :
      (row : ArchiveMetadataReadiness Value) → is_nil (bad_keys J debug row) ≡ true → FlagsPass row
  unfolding bad_keys
  pass_of_nil row h = failed_flags_nil (discovery_flags J debug row.metadata_json) (ground arith)

  nil_of_pass :
      (row : ArchiveMetadataReadiness Value) → FlagsPass row → is_nil (bad_keys J debug row) ≡ true
  unfolding bad_keys
  nil_of_pass row h = rw (nil_failed_flags (discovery_flags J debug row.metadata_json) h)

  flags_error-none :
      (sid : String) (rows : List (ArchiveMetadataReadiness Value))
      → flags_error J debug sid rows ≡ none
      → All FlagsPass rows
  unfolding flags_error
  flags_error-none sid [] h = tt
  flags_error-none sid (row ∷ rows) h = elim (Bool-cases (is_nil (bad_keys J debug row))) [
    | inl e ↦ (pass_of_nil row e, flags_error-none sid rows (rw e at h))
    | inr e ↦ let c : some (not_passed J debug sid (bad_keys J debug row)) ≡ none = rw e at h in cc
  ]

  flags_error-of_passing :
      (sid : String) (rows : List (ArchiveMetadataReadiness Value))
      → All FlagsPass rows
      → flags_error J debug sid rows ≡ none
  unfolding flags_error
  flags_error-of_passing sid [] h = refl
  flags_error-of_passing sid (row ∷ rows) h =
      rw (nil_of_pass row h.0) (flags_error-of_passing sid rows h.1)

  -- Discovery is complete for a source, it is enabled, and every selected archive row has passed.
  pub record IsReady (r : RegisteredSourceReadiness)
      (selected : List (ArchiveMetadataReadiness Value)) : Type 0 where
    pub enabled : r.enabled ≡ true
    pub checked : r.last_checked_at_present ≡ true
    pub signed : missing r.discovery_signature ≡ false
    pub unclaimed : r.discovery_claim_token ≡ none
    pub has_rows : selected ≢ []
    pub flags_pass : All FlagsPass selected

  IsReady-of_none :
      (sid : String) (groups : Option (List String)) (r : RegisteredSourceReadiness)
      (rows : List (ArchiveMetadataReadiness Value))
      → registered_error J debug sid groups r rows ≡ none
      → IsReady r (filter_archive_rows_by_groups rows groups)
  unfolding registered_error
  IsReady-of_none sid groups r rows h =
      let selected = filter_archive_rows_by_groups rows groups in
      record {
        enabled = ground arith;
        checked = ground arith;
        signed = ground arith;
        unclaimed = ground arith;
        has_rows = λ e. ground arith;
        flags_pass = flags_error-none sid selected (ground arith);
      }

  none_of_ready :
      (sid : String) (groups : Option (List String)) (r : RegisteredSourceReadiness)
      (rows : List (ArchiveMetadataReadiness Value))
      → IsReady r (filter_archive_rows_by_groups rows groups)
      → registered_error J debug sid groups r rows ≡ none
  unfolding registered_error
  none_of_ready sid groups r rows h =
      ground
        (arith, flags_error-of_passing sid (filter_archive_rows_by_groups rows groups) h.flags_pass)

  -- No reason is given against a source exactly if it is registered, enabled, discovered and not
  -- claimed, and has selected rows, all of whose flags have passed.
  pub readiness_error_none :
      (sid : String) (groups : Option (List String)) (registered : Option RegisteredSourceReadiness)
      (rows : List (ArchiveMetadataReadiness Value))
      → (parsed_source_readiness_error J debug sid groups registered rows ≡ none) ↔ (
          (r : RegisteredSourceReadiness) × (registered ≡ some r)
          × IsReady r (filter_archive_rows_by_groups rows groups))
  unfolding parsed_source_readiness_error
  readiness_error_none sid groups none rows = (λ h. cc, λ h. cc (h.1))
  readiness_error_none sid groups (some r) rows = (
    λ h. (r, refl, IsReady-of_none sid groups r rows h),
    λ h.
        let e : h.0 ≡ r = cc (h.1) in
        none_of_ready sid groups r rows
          (subst (λ q. IsReady q (filter_archive_rows_by_groups rows groups)) e h.2),
  )

  no_blockers :
      (sid : String) (error : Option String) (matches : Bool)
      → (is_nil (blockers_of J debug sid error matches) ≡ true)
        ↔ ((error ≡ none) × (matches ≡ false))
  unfolding blockers_of
  no_blockers sid none false = (λ h. (refl, refl), λ h. refl)
  no_blockers sid none true = (λ h. cc, λ h. cc (h.1))
  no_blockers sid (some e) false = (λ h. cc, λ h. cc (h.0))
  no_blockers sid (some e) true = (λ h. ground arith, λ h. cc (h.0))

  -- A source is reported as ready exactly if it is enabled, was checked, has a signature and no
  -- claim, was not executed with that signature before, and has selected rows, every flag of which
  -- passes: a flag passes unless it is null, false, zero, an empty array or object, or a text that is
  -- empty or of white space alone. (So it is not Python's `bool`, by which a text of white space would
  -- pass.) And discovery is reported as complete exactly if it ran, left a signature and holds no
  -- claim.
  pub source_execution_status_lem :
      {Time : Type 0} (seconds_since : Time → ℤ) (sid : String) (enabled : Bool)
      (checked : Option Time) (signature executed token : Option String) (pending : Bool)
      (pending_at : Option Time) (rows : List (ArchiveMetadataReadiness Value))
      (groups : Option (List String))
      → let status =
          source_execution_status J debug seconds_since sid enabled checked signature executed token
            pending pending_at rows groups in
        ((status.ready_for_execution ≡ true) ↔ (
          IsReady
            (record {
              enabled = enabled;
              last_checked_at_present = is_some checked;
              discovery_signature = signature;
              discovery_claim_token = token;
            })
            (filter_archive_rows_by_groups rows groups)
          × (same_signature (non_empty signature) (non_empty executed) ≡ false)))
        × ((status.discovery_complete ≡ true)
            ↔ ((is_some checked ≡ true) × (missing signature ≡ false) × (token ≡ none)))
  unfolding source_execution_status parsed_source_readiness_error
  source_execution_status_lem seconds_since sid enabled checked signature executed token pending
        pending_at rows groups =
      let r : RegisteredSourceReadiness = record {
        enabled = enabled;
        last_checked_at_present = is_some checked;
        discovery_signature = signature;
        discovery_claim_token = token;
      } in
      let matches = same_signature (non_empty signature) (non_empty executed) in
      let (to, from) = no_blockers sid (registered_error J debug sid groups r rows) matches in
      (
        (
          λ h. (IsReady-of_none sid groups r rows (to h).0, (to h).1),
          λ h. from (none_of_ready sid groups r rows h.0, h.1),
        ),
        (λ h. ground arith, λ h. ground arith),
      )
