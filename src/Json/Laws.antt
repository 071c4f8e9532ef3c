-- ===== src/Json/Laws.antt =====
-- Reading back what was built.
use beampipe_core_v.Common.{String, ◌≡◌, some}
use beampipe_core_v.Json.{Json, as_str, as_object, text, map_value}

module _ (J : Json) where
  pub as_str-text : (s : String) → as_str J (text J s) ≡ some s
  unfolding as_str text
  as_str-text s = rw (J.view-of, as_str)

  pub as_object-map_value : (m : J.Map) → as_object J (map_value J m) ≡ some m
  unfolding as_object map_value
  as_object-map_value m = rw (J.view-of, as_object)
