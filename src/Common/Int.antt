-- ===== src/Common/Int.antt =====
-- Signed integers over the native numbers, and the machine arithmetic of `i32` on them.
use Prim.Native.Nat.{ℕ, suc, ◌+◌, ◌-◌, compare, Ordering}
use mathlib.Core.Bool.{Bool, true, false}
use mathlib.Core.Path.{◌≡◌}
use native.Mathlib.Omega.{arith}

-- `negsuc n` is -(n + 1).
pub data ℤ : Type 0 where
  pos : ℕ → ℤ
  negsuc : ℕ → ℤ

abbrev pos_part : ℤ → ℕ
pos_part (pos n) = n
pos_part (negsuc n) = 0

abbrev neg_part : ℤ → ℕ
neg_part (pos n) = 0
neg_part (negsuc n) = suc n

abbrev pub ltb_ℤ : ℤ → ℤ → Bool
ltb_ℤ a b = elim (compare (pos_part a + neg_part b) (pos_part b + neg_part a)) [
  | Ordering.lt ↦ true
  | _ ↦ false
]

-- `a - b` of two numbers that are not negative, and `a + b`.
abbrev pub minus : ℕ → ℕ → ℤ
minus a b = elim (compare a b) [ Ordering.lt ↦ negsuc (b - a - 1) | _ ↦ pos (a - b) ]

infixl 6 ◌+ℤ◌
abbrev pub ◌+ℤ◌ : ℤ → ℤ → ℤ
pos a +ℤ pos b = pos (a + b)
pos a +ℤ negsuc b = minus a (suc b)
negsuc a +ℤ pos b = minus b (suc a)
negsuc a +ℤ negsuc b = negsuc (suc (a + b))

-- The values of an `i32`.
abbrev pub in_i32 : ℤ → Bool
in_i32 (pos n) = elim (compare n 2147483648) [ Ordering.lt ↦ true | _ ↦ false ]
in_i32 (negsuc n) = elim (compare n 2147483648) [ Ordering.lt ↦ true | _ ↦ false ]

-- `n.max(0)`.
abbrev pub max_zero : ℤ → ℤ
max_zero (pos n) = pos n
max_zero (negsuc n) = pos 0

-- `n + 1` on an `i32`, which wraps at `i32::MAX`.
abbrev pub succ_i32 : ℤ → ℤ
succ_i32 (pos n) = elim (compare n 2147483647) [ Ordering.lt ↦ pos (n + 1) | _ ↦ negsuc 2147483647 ]
succ_i32 (negsuc n) = elim (compare n 0) [ Ordering.eq ↦ pos 0 | _ ↦ negsuc (n - 1) ]

-- `<` is asymmetric, and what is not below `b`, which is not below `c`, is not below `c`.
pub ltb_ℤ_asym : (a b : ℤ) → ltb_ℤ a b ≡ true → ltb_ℤ b a ≡ false
ltb_ℤ_asym a b h = ground arith

pub ltb_ℤ_trans : (a b c : ℤ) → ltb_ℤ a b ≡ false → ltb_ℤ b c ≡ false → ltb_ℤ a c ≡ false
ltb_ℤ_trans a b c h k = ground arith
