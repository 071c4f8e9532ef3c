-- ===== src/Discovery/Laws.antt =====
-- The validation of prepared records (crates/beampipe-domain/src/discovery.rs).
use mathlib.Core.Path.{subst}
use beampipe_core_v.Common.{
  ℕ, suc, String, ◌≡◌, ◌↔◌, refl, false, Option, none, some, List, [], ◌∷◌, eq_iff, ok, err,
  Option-cases, Result-cases, inl, inr, arith,
}
use beampipe_core_v.Common.Lists.{All}
use beampipe_core_v.Common.Text.{is_empty, trim}
use beampipe_core_v.Json.{Json, as_object, as_str}
use beampipe_core_v.Discovery.{
  IdentityField, source_identifier, group_key, record_id, name, prepared_identity_fields, Checked,
  text_error, field_error, fields_error, record_error, validate_from,
  validate_prepared_metadata_records, source_of, sources_from,
  validate_prepared_metadata_records_for_source, same_source,
}

module _ (J : Json) where
  open J use {Value, Map, Number, view, get, insert, number_text}

  -- A text that is not empty and has white space at neither end.
  pub record IsCanonical (s : String) : Type 0 where
    pub non_empty : is_empty s ≡ false
    pub trimmed : trim s ≡ s

  -- The text under a field of a record, if there is one, is canonical.
  abbrev pub HasCanonical : Option Value → Type 0
  HasCanonical o = (v : Value) × (s : String) × (o ≡ some v) × (as_str J v ≡ some s) × IsCanonical s

  -- A record is an object whose three identities are canonical texts.
  pub record IsPrepared (rec : Value) : Type 0 where
    pub object : Map
    pub is_object : as_object J rec ≡ some object
    pub source : HasCanonical (get "source_identifier" object)
    pub group : HasCanonical (get "group_key" object)
    pub id : HasCanonical (get "record_id" object)

  text_error_iff :
      (i : ℕ) (f : IdentityField) (s : String) → (text_error J i f s ≡ none) ↔ IsCanonical s
  unfolding text_error
  text_error_iff i f s = (
    λ h. record { non_empty = ground arith; trimmed = ground (arith, eq_iff s (trim s)) },
    λ h. ground (arith, eq_iff s (trim s), h.non_empty, h.trimmed),
  )

  field_error_iff :
      (i : ℕ) (f : IdentityField) (o : Option Value) → (field_error J i f o ≡ none) ↔ HasCanonical o
  unfolding field_error
  field_error_iff i f none = (λ h. cc, λ h. cc (h.2))
  field_error_iff i f (some v) = elim (Option-cases (as_str J v)) [
    | inl e ↦ (λ h. ground arith, λ h. let k = h.3 in ground arith)
    | inr (s, e) ↦ (
      λ h. (v, s, refl, e, (text_error_iff i f s).0 (ground arith)),
      λ h.
          let same : h.1 ≡ s = let a = h.2 in let b = h.3 in cc in
          rw (e, field_error) ((text_error_iff i f s).1 (subst IsCanonical same h.4)),
    )
  ]

  no_field_error :
      (i : ℕ) (m : Map)
      → HasCanonical (get "source_identifier" m)
      → HasCanonical (get "group_key" m)
      → HasCanonical (get "record_id" m)
      → fields_error J i prepared_identity_fields m ≡ none
  unfolding fields_error name
  no_field_error i m s g r =
      let a = (field_error_iff i source_identifier (get "source_identifier" m)).1 s in
      let b = (field_error_iff i group_key (get "group_key" m)).1 g in
      let c = (field_error_iff i record_id (get "record_id" m)).1 r in ground arith

  record_error-object :
      (i : ℕ) (rec : Value) (m : Map)
      → as_object J rec ≡ some m
      → record_error J i rec ≡ fields_error J i prepared_identity_fields m
  unfolding record_error
  record_error-object i rec m e = rw (e, record_error) refl

  record_error_iff : (i : ℕ) (rec : Value) → (record_error J i rec ≡ none) ↔ IsPrepared rec
  unfolding record_error fields_error name
  record_error_iff i rec = elim (Option-cases (as_object J rec)) [
    | inl e ↦ (λ h. ground arith, λ h. let k = h.is_object in ground arith)
    | inr (object, e) ↦ (
      λ h. record {
        object = object;
        is_object = e;
        source = (field_error_iff i source_identifier _).0 (ground arith);
        group = (field_error_iff i group_key _).0 (ground arith);
        id = (field_error_iff i record_id _).0 (ground arith);
      },
      λ h.
          rw (record_error-object i rec h.object h.is_object)
            (no_field_error i h.object h.source h.group h.id),
    )
  ]

  validate_from_iff :
      (i : ℕ) (records : List Value) → (validate_from J i records ≡ ok tt) ↔ All IsPrepared records
  unfolding validate_from
  validate_from_iff i [] = (λ h. tt, λ h. refl)
  validate_from_iff i (rec ∷ records) =
      let later = validate_from_iff (suc i) records in
      elim (Option-cases (record_error J i rec)) [
        | inl e ↦ (
          λ h. ((record_error_iff i rec).0 e, later.0 (rw (e, validate_from) at h)),
          λ h. rw (e, validate_from) (later.1 h.1),
        )
        | inr (x, e) ↦ (
          λ h. let bad : Path Checked (err x) (ok tt) = rw (e, validate_from) at h in cc,
          λ h. let k = (record_error_iff i rec).1 h.0 in cc,
        )
      ]

  -- The validation accepts exactly the records that are objects whose three identities are texts
  -- that are not empty and have white space at neither end.
  pub validate-IsPrepared_iff :
      (metadata : List Value)
      → (validate_prepared_metadata_records J metadata ≡ ok tt) ↔ All IsPrepared metadata
  unfolding validate_prepared_metadata_records
  validate-IsPrepared_iff metadata = validate_from_iff 0 metadata

  -- The sources of the records are all the expected one.
  abbrev pub FromSource : String → Value → Type 0
  FromSource expected rec = source_of J rec ≡ some expected

  same_source_iff :
      (i : ℕ) (expected : String) (o : Option String)
      → (same_source J i expected o ≡ none) ↔ (o ≡ some expected)
  unfolding same_source
  same_source_iff i expected none = (λ h. cc, λ h. cc)
  same_source_iff i expected (some actual) =
      (λ h. ground (arith, eq_iff actual expected), λ h. ground (arith, eq_iff actual expected))

  sources_from_iff :
      (i : ℕ) (expected : String) (records : List Value)
      → (sources_from J i expected records ≡ ok tt) ↔ All (FromSource expected) records
  unfolding sources_from
  sources_from_iff i expected [] = (λ h. tt, λ h. refl)
  sources_from_iff i expected (rec ∷ records) =
      let later = sources_from_iff (suc i) expected records in
      elim (Option-cases (same_source J i expected (source_of J rec))) [
        | inl e ↦ (
          λ h. (
            (same_source_iff i expected (source_of J rec)).0 e,
            later.0 (rw (e, sources_from) at h),
          ),
          λ h. rw (e, sources_from) (later.1 h.1),
        )
        | inr (x, e) ↦ (
          λ h. let bad : Path Checked (err x) (ok tt) = rw (e, sources_from) at h in cc,
          λ h. let k = (same_source_iff i expected (source_of J rec)).1 h.0 in cc,
        )
      ]

  -- The validation for a source accepts exactly the prepared records that name this source.
  pub validate_for_source_iff :
      (metadata : List Value) (expected : String)
      → (validate_prepared_metadata_records_for_source J metadata expected ≡ ok tt)
        ↔ (All IsPrepared metadata × All (FromSource expected) metadata)
  unfolding validate_prepared_metadata_records_for_source
  validate_for_source_iff metadata expected =
      let prepared = validate-IsPrepared_iff metadata in
      let sources = sources_from_iff 0 expected metadata in
      elim (Result-cases (validate_prepared_metadata_records J metadata)) [
        | inl (u, e) ↦ (
          λ h. (
            prepared.0 e,
            sources.0 (rw (e, validate_prepared_metadata_records_for_source) at h),
          ),
          λ h. rw (e, validate_prepared_metadata_records_for_source) (sources.1 h.1),
        )
        | inr (x, e) ↦ (
          λ h.
              let bad : Path Checked (err x) (ok tt) =
                rw (e, validate_prepared_metadata_records_for_source) at h in
              cc,
          λ h. let k = prepared.1 h.0 in cc,
        )
      ]
