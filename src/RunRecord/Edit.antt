-- ===== src/RunRecord/Edit.antt =====
-- Taking the run record and its sections out of a manifest and putting them back, and trimming raw
-- lines: the helpers of crates/beampipe-domain/src/run_record.rs.
pub mod Laws
use Prim.Native.String.{len, ◌++◌}
use package.text.Mathlib.Text.{get?}
use beampipe_core_v.Common.{
  ℕ, String, Bool, true, false, not, Option, none, some, is_some, leb, if◌then◌else◌,
}
use beampipe_core_v.Common.Text.{is_empty, trim}
use beampipe_core_v.Json.{Json, as_str, as_object, text, map_value}

abbrev pub beampipe_run_record_key : String
beampipe_run_record_key = "beampipe_run_record"

abbrev pub raw_line_max : ℕ
raw_line_max = 512

-- A call returns, or panics.
pub data Outcome {ℓ} (A : Type ℓ) : Type ℓ where
  returns : A → Outcome A
  panics : Outcome A

infixl 5 ◌>>=◌
abbrev pub ◌>>=◌ {ℓ κ} : {A : Type ℓ} {B : Type κ} → Outcome A → (A → Outcome B) → Outcome B
returns a >>= f = f a
panics >>= f = panics

-- `format!("{}...", &s[..RAW_LINE_MAX])`: a slice that ends inside a character panics.
abbrev cut : Option String → Outcome (Option String)
cut none = panics
cut (some head) = returns (some (head ++ "..."))

trimmed : String → Outcome (Option String)
trimmed s =
    if is_empty s
    then returns none
    else if leb (len s) raw_line_max
    then returns (some s)
    else cut (get? s 0 raw_line_max)

unfoldable pub trim_raw : Option String → Outcome (Option String)
unfolding trimmed
trim_raw none = returns none
trim_raw (some raw) = trimmed (trim raw)

-- `opt.filter(|v| !v.trim().is_empty())`.
unfoldable pub not_blank : Option String → Option String
unfolding trim
not_blank none = none
not_blank (some v) = if is_empty (trim v) then none else some v

module _ (J : Json) where
  open J use {Value, Map, get, insert, remove, empty}

  unfoldable pub object : Option Value → Map
  unfolding as_object
  object none = empty
  object (some v) = elim (as_object J v) [ none ↦ empty | some m ↦ m ]

  -- `map.insert(key, json!(text))`, always or if there is a text.
  abbrev pub insert_text : String → String → Map → Map
  insert_text k s m = insert k (text J s) m

  abbrev pub insert_some : String → Option Value → Map → Map
  insert_some k none m = m
  insert_some k (some v) m = insert k v m

  abbrev pub texts : Option String → Option Value
  texts none = none
  texts (some s) = some (text J s)

  -- `map.get(key).and_then(Value::as_str)`.
  unfoldable pub get_text : String → Map → Option String
  unfolding as_str
  get_text k m = elim (get k m) [ none ↦ none | some v ↦ as_str J v ]

  abbrev pub contains_key : String → Map → Bool
  contains_key k m = is_some (get k m)

  -- `object(map.remove(key))`, a change, and `map.insert(key, Value::Object(…))`.
  unfoldable pub edit_section : String → (Map → Map) → Map → Map
  unfolding object
  edit_section k change m = insert k (map_value J (change (object (get k m)))) (remove k m)

  -- The frame of every merge: `object(existing)`, `rr_mut(&mut base)`, a change of the run record,
  -- and the record put back.
  unfoldable pub edit_record : (Map → Map) → Option Value → Value
  unfolding edit_section
  edit_record change existing =
      map_value J (edit_section beampipe_run_record_key change (object existing))
