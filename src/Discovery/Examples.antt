-- ===== src/Discovery/Examples.antt =====
-- A record whose identities are put in normal form (crates/beampipe-domain/src/discovery.rs).
use beampipe_core_v.Common.{◌≡◌, refl, true, List, [], ◌∷◌, ok, err}
use beampipe_core_v.Common.Int.{pos}
use beampipe_core_v.Json.Sample.{sample, Tree, object, bool, int, member, end, integer_text}
use beampipe_core_v.Json.Sample.Numbers.{trim-integer_text}
use beampipe_core_v.Discovery.{
  canonicalize_prepared_metadata_identities, validate_prepared_metadata_records, missing_group_key,
  missing_identity_error,
}
use beampipe_core_v.Discovery.Canonical.{canonical_is_valid}

abbrev record_with : Tree → List Tree
record_with group =
    object (
      member "source_identifier" (Tree.text " 101 ")
        (member "group_key" group (member "record_id" (bool true) end)))
    ∷ []

-- What becomes of a record whose group is a number.
abbrev prepared : List Tree
prepared =
    object (
      member "source_identifier" (Tree.text "101")
        (member "group_key" (Tree.text "3001") (member "record_id" (Tree.text "true") end)))
    ∷ []

blank_group :
    (canonicalize_prepared_metadata_identities sample (record_with (Tree.text " "))).1
    ≡ err (missing_group_key 0)
unfolding canonicalize_prepared_metadata_identities missing_identity_error
blank_group = refl

canonical_is_valid_example : validate_prepared_metadata_records sample prepared ≡ ok tt
unfolding canonicalize_prepared_metadata_identities integer_text beampipe_core_v.Json.map_value
    beampipe_core_v.Json.text
canonical_is_valid_example =
    canonical_is_valid sample trim-integer_text (record_with (int (pos 3001))) prepared refl
