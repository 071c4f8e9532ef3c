-- ===== src/Slurm/ExitCode.antt =====
-- The exit code in a row of `sacct`: `parse_sacct_exit_code` of crates/beampipe-domain/src/slurm.rs,
-- with `i32::from_str` of the standard library written out.
pub mod Laws
mod Examples
use Prim.Native.Char.{Char, code}
use Prim.Native.String.{[], ◌∷◌}
use beampipe_core_v.Common.{
  ℕ, zero, suc, ◌+◌, ◌-◌, ◌*◌, String, Bool, ◌&&◌, Option, none, some, leb, ltb, if◌then◌else◌, eqb,
}
use beampipe_core_v.Common.Int.{ℤ, pos, negsuc}
use beampipe_core_v.Common.Text.{is_empty, trim, split_once}

-- The value of a text of decimal digits, after those of a given value.
digits : ℕ → String → Option ℕ
digits value [] = some value
digits value (c ∷ s) =
    let rest = digits (value * 10 + (code c - 0x30)) s in
    if leb 0x30 (code c) && leb (code c) 0x39 then rest else none

-- At least one digit.
natural : String → Option ℕ
unfolding digits
natural [] = none
natural (c ∷ s) = digits 0 (c ∷ s)

abbrev negative : ℕ → ℤ
negative zero = pos zero
negative (suc n) = negsuc n

abbrev not_above : ℕ → Option ℕ → Option ℤ
not_above bound none = none
not_above bound (some n) = if leb n bound then some (pos n) else none

abbrev not_below : ℕ → Option ℕ → Option ℤ
not_below bound none = none
not_below bound (some n) = if leb n bound then some (negative n) else none

-- `str::parse::<i32>`, of a text that is not empty by its first character.
parse_i32 : String → Option ℤ
unfolding natural
parse_i32 [] = none
parse_i32 (c ∷ s) =
    if eqb (code c) 0x2d
    then not_below 2147483648 (natural s)
    else if eqb (code c) 0x2b
    then not_above 2147483647 (natural s)
    else not_above 2147483647 (natural (c ∷ s))

-- `split(':').next()`.
first_part : String → String
unfolding split_once
first_part s = elim (split_once b':' s) [ none ↦ s | some (head, rest) ↦ head ]

unfoldable pub parse_sacct_exit_code : String → Option ℤ
unfolding parse_i32 first_part trim
parse_sacct_exit_code raw =
    if is_empty (trim raw) then none else parse_i32 (trim (first_part (trim raw)))
