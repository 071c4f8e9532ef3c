-- ===== src/RunRecord/Edit/Laws.antt =====
-- The frame of the merges, and shortening a raw line
-- (crates/beampipe-domain/src/run_record.rs).
use Prim.Native.String.{len}
use package.text.Mathlib.Text.{get?}
use beampipe_core_v.Common.{
  String, ◌≡◌, ◌↔◌, refl, false, Option, none, some, ◌==◌, if◌then◌else◌, arith, ◌<◌,
}
use beampipe_core_v.Common.Text.{is_empty, trim}
use beampipe_core_v.Json.{Json, map_value, as_str, text}
use beampipe_core_v.Json.Laws.{as_object-map_value}
use beampipe_core_v.RunRecord.Edit.{
  Outcome, ◌>>=◌, returns, panics, trim_raw, raw_line_max, beampipe_run_record_key, object,
  get_text, edit_section, edit_record,
}

module _ (J : Json) where
  open J use {Value, Map, get, insert, remove, empty, view-of, get-insert, get-remove}

  pub object-map_value : (m : Map) → object J (some (map_value J m)) ≡ m
  unfolding object
  object-map_value m = ground (arith, as_object-map_value J m)

  pub get-edit_section :
      (k j : String) (change : Map → Map) (m : Map)
      → get j (edit_section J k change m)
        ≡ (if k == j then some (map_value J (change (object J (get k m)))) else get j m)
  unfolding edit_section
  get-edit_section k j change m = ground (
    arith,
    get-insert k j (map_value J (change (object J (get k m)))) (remove k m),
    get-remove k j m,
  )

  -- The run record of a manifest.
  abbrev pub record_of : Option Value → Map
  record_of existing = object J (get beampipe_run_record_key (object J existing))

  -- A merge changes the run record as it says.
  pub record_of-edit_record :
      (change : Map → Map) (existing : Option Value)
      → record_of (some (edit_record J change existing)) ≡ change (record_of existing)
  unfolding edit_record
  record_of-edit_record change existing = simp (object-map_value, get-edit_section)

  -- The frame of the merges, whatever the change of the run record, leaves every other key of the
  -- manifest as it was.
  pub get-edit_record :
      (j : String) (change : Map → Map) (existing : Option Value)
      → (beampipe_run_record_key == j) ≡ false
      → get j (object J (some (edit_record J change existing))) ≡ get j (object J existing)
  unfolding edit_record
  get-edit_record j change existing h = simp (object-map_value, get-edit_section, h)

  -- A value that was inserted is read back as the text that it is, if it is one.
  pub get_text-insert :
      (k j : String) (v : Value) (m : Map)
      → get_text J j (insert k v m) ≡ (if k == j then as_str J v else get_text J j m)
  unfolding get_text
  get_text-insert k j v m = ground (arith, get-insert k j v m)

  pub get_text-remove :
      (k j : String) (m : Map)
      → get_text J j (remove k m) ≡ (if k == j then none else get_text J j m)
  unfolding get_text
  get_text-remove k j m = ground (arith, get-remove k j m)

-- Shortening a raw line panics exactly if the line, trimmed, is longer than the limit, and the
-- limit is inside of one of its characters.
pub trim_raw_panics :
    (raw : String)
    → (trim_raw (some raw) ≡ panics) ↔ (
        (raw_line_max < len (trim raw))
        × (is_empty (trim raw) ≡ false)
        × (get? (trim raw) 0 raw_line_max ≡ none))
unfolding trim_raw
trim_raw_panics raw = (λ h. ground arith, λ h. ground arith)

-- A chain that returns, returned at its first step.
pub >>=-eq-returns {ℓ κ} :
    {A : Type ℓ} {B : Type κ} (m : Outcome A) (f : A → Outcome B) {b : B}
    → (m >>= f) ≡ returns b
    → (a : A) × (m ≡ returns a) × (f a ≡ returns b)
>>=-eq-returns (returns a) f h = (a, refl, h)
>>=-eq-returns panics f h = cc

pub returns_injective {ℓ} : {A : Type ℓ} (a b : A) → returns a ≡ returns b → a ≡ b
returns_injective a b h = cc
