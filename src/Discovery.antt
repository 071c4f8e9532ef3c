-- ===== src/Discovery.antt =====
-- The identities of prepared discovery records: their normal form and their validation,
-- crates/beampipe-domain/src/discovery.rs. The name of an identity field, a `&'static str` that is
-- one of three, is one of three constructors, so that the `unreachable!` arm has no counterpart.
pub mod Laws
pub mod Canonical
mod Examples
use Prim.Native.Nat.{suc}
use beampipe_core_v.Common.{
  ℕ, String, Bool, true, false, ◌&&◌, not, Option, none, some, List, [], ◌∷◌, ◌==◌, Result, ok, err,
  if◌then◌else◌,
}
use beampipe_core_v.Common.Text.{is_empty, trim}
use beampipe_core_v.Json.{Json, Shape, string, number, bool, as_object, as_str, map_value, text}

pub data IdentityField : Type 0 where
  source_identifier group_key record_id : IdentityField

pub name : IdentityField → String
name source_identifier = "source_identifier"
name group_key = "group_key"
name record_id = "record_id"

abbrev pub prepared_identity_fields : List IdentityField
prepared_identity_fields = source_identifier ∷ group_key ∷ record_id ∷ []

pub data PreparedMetadataError : Type 0 where
  not_object : (index : ℕ) → PreparedMetadataError
  missing_source_identifier : (index : ℕ) → PreparedMetadataError
  missing_group_key : (index : ℕ) → PreparedMetadataError
  missing_record_identity : (index : ℕ) → PreparedMetadataError
  unsupported_identity_type : (index : ℕ) (field : IdentityField) → PreparedMetadataError
  non_canonical_identity : (index : ℕ) (field : IdentityField) → PreparedMetadataError
  source_identifier_mismatch : (index : ℕ) (expected actual : String) → PreparedMetadataError

pub missing_identity_error : ℕ → IdentityField → PreparedMetadataError
missing_identity_error index source_identifier = missing_source_identifier index
missing_identity_error index group_key = missing_group_key index
missing_identity_error index record_id = missing_record_identity index

-- `Result<(), PreparedMetadataError>`.
abbrev pub Checked : Type 0
Checked = Result {0, 0} Unit PreparedMetadataError

-- `bool::to_string`.
abbrev bool_text : Bool → String
bool_text true = "true"
bool_text false = "false"

module _ (J : Json) where
  open J use {Value, Map, view, get, insert, number_text}

  -- The `match` on a field, and the test for an empty text.
  scalar_text : ℕ → IdentityField → Shape Value Map J.Number → Result String PreparedMetadataError
  unfolding trim
  scalar_text index field (string s) = ok (trim s)
  scalar_text index field (number n) = ok (number_text n)
  scalar_text index field (bool b) = ok (bool_text b)
  scalar_text index field _ = err (unsupported_identity_type index field)

  abbrev non_empty_text :
      ℕ → IdentityField → Result String PreparedMetadataError → Result String PreparedMetadataError
  non_empty_text index field (err e) = err e
  non_empty_text index field (ok canonical) =
      if is_empty canonical then err (missing_identity_error index field) else ok canonical

  canonical_text : ℕ → IdentityField → Option Value → Result String PreparedMetadataError
  unfolding scalar_text
  canonical_text index field none = err (missing_identity_error index field)
  canonical_text index field (some v) =
      non_empty_text index field (scalar_text index field (view v))

  -- The loop over the fields of one record: the record after it, also where a field is refused.
  canonicalize_fields : ℕ → List IdentityField → Map → Map × Checked
  unfolding canonical_text name
  canonicalize_fields index [] object = (object, ok tt)
  canonicalize_fields index (field ∷ fields) object =
      elim (canonical_text index field (get (name field) object)) [
        | err e ↦ (object, err e)
        | ok canonical ↦
            canonicalize_fields index fields (insert (name field) (text J canonical) object)
      ]

  -- The records after one record, given what the loop does with the rest of them.
  abbrev pub after_record :
      Map × Checked → (rest : List Value) → List Value × Checked → List Value × Checked
  after_record (object, err e) rest done = (map_value J object ∷ rest, err e)
  after_record (object, ok _) rest (records, result) = (map_value J object ∷ records, result)

  -- The loop over the records, from an index: the records after it, and its result.
  canonicalize_from : ℕ → List Value → List Value × Checked
  unfolding as_object canonicalize_fields
  canonicalize_from index [] = ([], ok tt)
  canonicalize_from index (record_ ∷ rest) =
      let done = canonicalize_from (suc index) rest in
      elim (as_object J record_) [
        | none ↦ (record_ ∷ rest, err (not_object index))
        | some object ↦
            after_record (canonicalize_fields index prepared_identity_fields object) rest done
      ]

  pub canonicalize_prepared_metadata_identities : List Value → List Value × Checked
  unfolding canonicalize_from
  canonicalize_prepared_metadata_identities metadata = canonicalize_from 0 metadata

  -- The `match` on a field: the error that it returns, if it does.
  text_error : ℕ → IdentityField → String → Option PreparedMetadataError
  unfolding trim missing_identity_error
  text_error index field value =
      if not (is_empty value) && (value == trim value)
      then none
      else if is_empty (trim value)
      then some (missing_identity_error index field)
      else some (non_canonical_identity index field)

  field_error : ℕ → IdentityField → Option Value → Option PreparedMetadataError
  unfolding text_error as_str
  field_error index field none = some (missing_identity_error index field)
  field_error index field (some v) = elim (as_str J v) [
    | some value ↦ text_error index field value
    | none ↦ some (non_canonical_identity index field)
  ]

  fields_error : ℕ → List IdentityField → Map → Option PreparedMetadataError
  unfolding field_error name
  fields_error index [] object = none
  fields_error index (field ∷ fields) object =
      let rest = fields_error index fields object in
      elim (field_error index field (get (name field) object)) [ some e ↦ some e | none ↦ rest ]

  record_error : ℕ → Value → Option PreparedMetadataError
  unfolding as_object fields_error
  record_error index rec = elim (as_object J rec) [
    | none ↦ some (not_object index)
    | some object ↦ fields_error index prepared_identity_fields object
  ]

  validate_from : ℕ → List Value → Checked
  unfolding record_error
  validate_from index [] = ok tt
  validate_from index (rec ∷ rest) =
      let later = validate_from (suc index) rest in
      elim (record_error index rec) [ some e ↦ err e | none ↦ later ]

  pub validate_prepared_metadata_records : List Value → Checked
  unfolding validate_from
  validate_prepared_metadata_records metadata = validate_from 0 metadata

  -- `record.get("source_identifier").and_then(Value::as_str)`.
  pub source_of : Value → Option String
  unfolding as_object as_str
  source_of rec = elim (as_object J rec) [
    | none ↦ none
    | some object ↦ elim (get "source_identifier" object) [ none ↦ none | some v ↦ as_str J v ]
  ]

  same_source : ℕ → String → Option String → Option PreparedMetadataError
  same_source index expected none = some (non_canonical_identity index source_identifier)
  same_source index expected (some actual) =
      if actual == expected then none else some (source_identifier_mismatch index expected actual)

  sources_from : ℕ → String → List Value → Checked
  unfolding same_source source_of
  sources_from index expected [] = ok tt
  sources_from index expected (rec ∷ rest) =
      let later = sources_from (suc index) expected rest in
      elim (same_source index expected (source_of rec)) [ some e ↦ err e | none ↦ later ]

  pub validate_prepared_metadata_records_for_source : List Value → String → Checked
  unfolding validate_prepared_metadata_records sources_from
  validate_prepared_metadata_records_for_source metadata expected =
      elim (validate_prepared_metadata_records metadata) [
        | err e ↦ err e
        | ok _ ↦ sources_from 0 expected metadata
      ]
