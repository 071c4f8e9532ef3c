-- ===== src/Json/Sample/Numbers.antt =====
-- The texts of the integers of the concrete documents.
use Prim.Native.Nat.{◌/◌}
use Prim.Native.String.{[], ◌∷◌, ◌++◌}
use text.Mathlib.TextLemmas.{cons-append}
use beampipe_core_v.Common.{
  ℕ, zero, suc, ◌%◌, String, ◌≡◌, refl, Bool, by_test, eqb, ltb, if◌then◌else◌,
}
use beampipe_core_v.Common.Int.{ℤ, pos, negsuc}
use beampipe_core_v.Common.Text.{trim, trim_end, is_whitespace}
use beampipe_core_v.Common.Text.Laws.{
  StartsSolid, EndsSolid, trim-solid, trim_end-append, is_empty-append,
}
use beampipe_core_v.Json.Sample.{digit, decimal, integer_text}

-- White space at neither end, and not empty.
abbrev IsSolid : String → Type 0
IsSolid s = StartsSolid s × EndsSolid s

one_of : (b : Bool) (s t : String) → IsSolid s → IsSolid t → IsSolid (if b then s else t)
one_of b s t h k = by_test IsSolid b (λ _. h) λ _. k

digit-IsSolid : (n : ℕ) → IsSolid (digit n)
unfolding is_whitespace trim_end
digit-IsSolid n =
    one_of (eqb n 0) _ _ (refl, (refl, refl))
      (one_of (eqb n 1) _ _ (refl, (refl, refl))
        (one_of (eqb n 2) _ _ (refl, (refl, refl))
          (one_of (eqb n 3) _ _ (refl, (refl, refl))
            (one_of (eqb n 4) _ _ (refl, (refl, refl))
              (one_of (eqb n 5) _ _ (refl, (refl, refl))
                (one_of (eqb n 6) _ _ (refl, (refl, refl))
                  (one_of (eqb n 7) _ _ (refl, (refl, refl))
                    (one_of (eqb n 8) _ _ (refl, (refl, refl)) (refl, (refl, refl))))))))))

starts : (a b : String) → StartsSolid a → StartsSolid (a ++ b)
starts [] b h = absurd h
starts (c ∷ a) b h = rw cons-append h

append-IsSolid : (a b : String) → StartsSolid a → EndsSolid b → IsSolid (a ++ b)
append-IsSolid a b h k = (starts a b h, (is_empty-append a b k.0, trim_end-append a b k))

decimal-IsSolid : (fuel n : ℕ) → IsSolid (decimal fuel n)
unfolding decimal
decimal-IsSolid zero n = digit-IsSolid n
decimal-IsSolid (suc fuel) n = one_of (ltb n 10) _ _ (digit-IsSolid n) (
    append-IsSolid (decimal fuel (n / 10)) (digit (n % 10)) (decimal-IsSolid fuel (n / 10)).0
      (digit-IsSolid (n % 10)).1)

minus-StartsSolid : StartsSolid "-"
unfolding is_whitespace
minus-StartsSolid = refl

pub trim-integer_text : (n : ℤ) → trim (integer_text n) ≡ integer_text n
unfolding integer_text
trim-integer_text (pos n) = let (s, e) = decimal-IsSolid 20 n in trim-solid (decimal 20 n) s e
trim-integer_text (negsuc n) =
    let (s, e) =
      append-IsSolid "-" (decimal 20 (suc n)) minus-StartsSolid (decimal-IsSolid 20 (suc n)).1 in
    trim-solid ("-" ++ decimal 20 (suc n)) s e
