-- ===== src/Common/Naming.antt =====
-- Texts that name the values of an enumeration: one step of a `match` on a text.
use beampipe_core_v.Common.{
  String, ◌≡◌, Option, some, ◌==◌, eq_iff, Bool-cases, if◌then◌else◌, inl, inr,
}

module _ {ℓ} {A : Type ℓ} (as_str : A → String) (value : String) where
  -- If the other arms of the match read only names of their result, so does the match with one more.
  pub match_arm :
      (x y : A) (rest : Option A)
      → (rest ≡ some y → as_str y ≡ value)
      → (if value == as_str x then some x else rest) ≡ some y
      → as_str y ≡ value
  match_arm x y rest others h = elim (Bool-cases (value == as_str x)) [
    | inl same ↦ let e : some x ≡ some y = rw same at h in cc (e, (eq_iff value (as_str x)).0 same)
    | inr differ ↦ others (rw differ at h)
  ]
