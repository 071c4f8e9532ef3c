-- ===== src/Discovery/Canonical.antt =====
-- The normal form of prepared records and their validation
-- (crates/beampipe-domain/src/discovery.rs).
use mathlib.Core.Path.{subst}
use beampipe_core_v.Common.{
  ℕ, suc, String, ◌≡◌, refl, ap, sym, true, false, Option, none, some, List, [], ◌∷◌, ok, err,
  Option-cases, Result-cases, inl, inr, arith,
}
use beampipe_core_v.Common.Lists.{All}
use beampipe_core_v.Common.Text.{trim}
use beampipe_core_v.Common.Text.Laws.{trim_idem}
use beampipe_core_v.Json.{
  Json, Shape, null, string, number, bool, array, object, as_object, map_value, text,
}
use beampipe_core_v.Json.Laws.{as_object-map_value, as_str-text}
use beampipe_core_v.Discovery.{
  IdentityField, source_identifier, group_key, record_id, name, prepared_identity_fields,
  not_object, Checked, after_record, scalar_text, canonical_text, canonicalize_fields,
  canonicalize_from, canonicalize_prepared_metadata_identities, validate_prepared_metadata_records,
}
use beampipe_core_v.Discovery.Laws.{IsCanonical, HasCanonical, IsPrepared, validate-IsPrepared_iff}

module _ (J : Json) where
  open J use {Value, Map, Number, view, get, insert, number_text, get-insert}

  HasCanonical-text : (s : String) → IsCanonical J s → HasCanonical J (some (text J s))
  HasCanonical-text s h = (text J s, s, refl, as_str-text J s, h)

  -- A record whose three fields were set to canonical texts.
  set-IsPrepared :
      (m : Map) (s g r : String)
      → IsCanonical J s
      → IsCanonical J g
      → IsCanonical J r
      → IsPrepared J (
          map_value J (
            insert "record_id"
              (text J r)
              (insert "group_key" (text J g) (insert "source_identifier" (text J s) m))))
  set-IsPrepared m s g r s_ok g_ok r_ok = record {
    object =
        insert "record_id" (text J r)
          (insert "group_key" (text J g) (insert "source_identifier" (text J s) m));
    is_object = as_object-map_value J _;
    source = simp get-insert (HasCanonical-text s s_ok);
    group = simp get-insert (HasCanonical-text g g_ok);
    id = simp get-insert (HasCanonical-text r r_ok);
  }

  module _ (number_is_trimmed : (n : Number) → trim (number_text n) ≡ number_text n) where
    scalar_text_trimmed :
        (i : ℕ) (f : IdentityField) (v : Shape Value Map Number) (c : String)
        → scalar_text J i f v ≡ ok c
        → trim c ≡ c
    unfolding scalar_text
    scalar_text_trimmed i f (string s) c h = let e : trim s ≡ c = cc in rw (← e) (trim_idem s)
    scalar_text_trimmed i f (number n) c h =
        let e : number_text n ≡ c = cc in rw (← e) (number_is_trimmed n)
    scalar_text_trimmed i f (bool true) c h = let e : "true" ≡ c = cc in rw (← e) refl
    scalar_text_trimmed i f (bool false) c h = let e : "false" ≡ c = cc in rw (← e) refl
    scalar_text_trimmed i f null c h = cc
    scalar_text_trimmed i f (array vs) c h = cc
    scalar_text_trimmed i f (object m) c h = cc

    canonical_text-IsCanonical :
        (i : ℕ) (f : IdentityField) (o : Option Value) (c : String)
        → canonical_text J i f o ≡ ok c
        → IsCanonical J c
    unfolding canonical_text
    canonical_text-IsCanonical i f none c h = cc
    canonical_text-IsCanonical i f (some v) c h = elim (Result-cases (scalar_text J i f (view v))) [
      | inl (s, e) ↦
          let same : s ≡ c = ground arith in
          record {
            non_empty = ground arith;
            trimmed = scalar_text_trimmed i f (view v) c (rw same at e);
          }
      | inr (x, e) ↦ ground arith
    ]

    -- A field that the loop has passed.
    canonicalize_fields-step :
        (i : ℕ) (f : IdentityField) (fs : List IdentityField) (m m' : Map)
        → canonicalize_fields J i (f ∷ fs) m ≡ (m', ok tt)
        → (c : String) × IsCanonical J c
          × (canonicalize_fields J i fs (insert (name f) (text J c) m) ≡ (m', ok tt))
    unfolding canonicalize_fields
    canonicalize_fields-step i f fs m m' h =
        elim (Result-cases (canonical_text J i f (get (name f) m))) [
          | inl (c, e) ↦ (
            c,
            canonical_text-IsCanonical i f (get (name f) m) c e,
            rw (e, canonicalize_fields) at h,
          )
          | inr (x, e) ↦
              let bad : ◌≡◌ {A = Map × Checked} (m, err x) (m', ok tt) =
                rw (e, canonicalize_fields) at h in
              cc
        ]

    canonicalize_fields-done :
        (i : ℕ) (m m' : Map) → canonicalize_fields J i [] m ≡ (m', ok tt) → m ≡ m'
    unfolding canonicalize_fields
    canonicalize_fields-done i m m' h = ap (λ p. p.0) h

    canonicalize_fields-IsPrepared :
        (i : ℕ) (m m' : Map)
        → canonicalize_fields J i prepared_identity_fields m ≡ (m', ok tt)
        → IsPrepared J (map_value J m')
    unfolding name
    canonicalize_fields-IsPrepared i m m' h =
        let (s, s_ok, h1) = canonicalize_fields-step i source_identifier _ m m' h in
        let (g, g_ok, h2) = canonicalize_fields-step i group_key _ _ m' h1 in
        let (r, r_ok, h3) = canonicalize_fields-step i record_id _ _ m' h2 in
        subst (λ x. IsPrepared J (map_value J x)) (canonicalize_fields-done i _ m' h3)
          (set-IsPrepared m s g r s_ok g_ok r_ok)

    after_record-ok :
        (x : Map × Checked) (rest : List Value) (done : List Value × Checked) (after : List Value)
        → after_record J x rest done ≡ (after, ok tt)
        → (x ≡ (x.0, ok tt)) × (done ≡ (done.0, ok tt)) × (after ≡ map_value J x.0 ∷ done.0)
    after_record-ok (m, ok u) rest (records, r) after h = (refl, cc, cc)
    after_record-ok (m, err e) rest (records, r) after h = cc

    -- The loop over the records.
    canonicalize_from-IsPrepared :
        (i : ℕ) (metadata after : List Value)
        → canonicalize_from J i metadata ≡ (after, ok tt)
        → All (IsPrepared J) after
    unfolding canonicalize_from
    canonicalize_from-IsPrepared i [] after h = subst (All (IsPrepared J)) (ap (λ p. p.0) h) tt
    canonicalize_from-IsPrepared i (rec ∷ records) after h = elim (Option-cases (as_object J rec)) [
      | inl e ↦
          let bad : ◌≡◌ {A = List Value × Checked} (rec ∷ records, err (not_object i))
              (after, ok tt) =
            rw (e, canonicalize_from) at h in
          cc
      | inr (m, e) ↦
          let (one, more, all) =
            after_record-ok (canonicalize_fields J i prepared_identity_fields m) records
              (canonicalize_from J (suc i) records) after (rw (e, canonicalize_from) at h) in
          subst (All (IsPrepared J)) (sym all) (
            canonicalize_fields-IsPrepared i m _ one,
            canonicalize_from-IsPrepared (suc i) records _ more,
          )
    ]

    -- The normal form that the normalisation returns without an error passes the validation, where
    -- the texts of JSON numbers have no white space around them.
    pub canonical_is_valid :
        (metadata after : List Value)
        → canonicalize_prepared_metadata_identities J metadata ≡ (after, ok tt)
        → validate_prepared_metadata_records J after ≡ ok tt
    unfolding canonicalize_prepared_metadata_identities
    canonical_is_valid metadata after h =
        (validate-IsPrepared_iff J after).1 (canonicalize_from-IsPrepared 0 metadata after h)
