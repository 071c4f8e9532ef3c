-- ===== src/Json.antt =====
-- JSON documents as the program sees them: the interface of `serde_json`, a library that is not part
-- of the repository. A value is taken apart and built by its kind; a map is read and changed by key.
-- The laws are what its documentation says of `Map::get`, `Map::insert` and `Map::remove`.
pub mod Sample
pub mod Laws
use beampipe_core_v.Common.{String, ◌≡◌, Bool, Option, none, some, List, ◌==◌, if◌then◌else◌}
use beampipe_core_v.Common.Int.{ℤ}

-- `serde_json::Value`, one layer of it.
pub data Shape (Value Map Number : Type 0) : Type 0 where
  null : Shape Value Map Number
  bool : Bool → Shape Value Map Number
  number : Number → Shape Value Map Number
  string : String → Shape Value Map Number
  array : List Value → Shape Value Map Number
  object : Map → Shape Value Map Number

pub record Json : Type 1 where
  pub Value : Type 0
  pub Map : Type 0
  pub Number : Type 0
  pub view : Value → Shape Value Map Number
  pub of : Shape Value Map Number → Value
  pub view-of : (s : Shape Value Map Number) → view (of s) ≡ s
  pub empty : Map
  pub get : String → Map → Option Value
  pub insert : String → Value → Map → Map
  pub remove : String → Map → Map
  pub get-empty : (k : String) → get k empty ≡ none
  pub get-insert :
      (k j : String) (v : Value) (m : Map)
      → get j (insert k v m) ≡ (if k == j then some v else get j m)
  pub get-remove :
      (k j : String) (m : Map) → get j (remove k m) ≡ (if k == j then none else get j m)
  -- The entries in the order of iteration.
  pub entries : Map → List (String × Value)
  -- `Number::to_string`, `Number::as_i64`, `json!` of an integer, and `as_f64` compared with 0.
  pub number_text : Number → String
  pub as_i64 : Number → Option ℤ
  pub of_i64 : ℤ → Number
  pub as_i64-of_i64 : (n : ℤ) → as_i64 (of_i64 n) ≡ some n
  pub is_nonzero : Number → Bool

module _ (J : Json) where
  open J use {Value, Map, view, of}

  -- `Value::as_str`, `Value::as_object`, `Value::is_object` and `Value::as_i64`.
  unfoldable pub as_str : Value → Option String
  as_str v = elim (view v) [ string s ↦ some s | _ ↦ none ]

  unfoldable pub as_object : Value → Option Map
  as_object v = elim (view v) [ object m ↦ some m | _ ↦ none ]

  unfoldable pub text : String → Value
  text s = of (string s)

  unfoldable pub map_value : Map → Value
  map_value m = of (object m)

  pub flag : Bool → Value
  flag b = of (bool b)
