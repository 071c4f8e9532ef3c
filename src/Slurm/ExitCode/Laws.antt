-- ===== src/Slurm/ExitCode/Laws.antt =====
-- Exit codes that are read, and the signal after them
-- (`parse_sacct_exit_code` of crates/beampipe-domain/src/slurm.rs).
use Prim.Native.Char.{code}
use Prim.Native.String.{[], ◌∷◌, ◌++◌}
use beampipe_core_v.Common.{
  String, ◌≡◌, refl, false, Option, none, some, arith, ◌≤◌, ℕ, zero, suc, Bool-cases, inl, inr, eqb,
}
use beampipe_core_v.Common.Int.{ℤ, pos, negsuc}
use beampipe_core_v.Common.Text.{is_empty, trim, contains}
use beampipe_core_v.Common.Text.Laws.{
  StartsSolid, EndsSolid, trim-solid, split_once-append, split_once-none, trim_start-append,
  trim_end-append, is_empty-append,
}
use beampipe_core_v.Slurm.ExitCode.{
  parse_i32, first_part, parse_sacct_exit_code, not_below, not_above, natural,
}

-- The range of an `i32`.
abbrev pub InI32 : ℤ → Type 0
InI32 (pos n) = n ≤ 2147483647
InI32 (negsuc n) = n ≤ 2147483647

not_above-InI32 : (o : Option ℕ) (n : ℤ) → not_above 2147483647 o ≡ some n → InI32 n
not_above-InI32 none n h = cc
not_above-InI32 (some k) (pos n) h = ground arith
not_above-InI32 (some k) (negsuc n) h = ground arith

not_below-InI32 : (o : Option ℕ) (n : ℤ) → not_below 2147483648 o ≡ some n → InI32 n
not_below-InI32 none n h = cc
not_below-InI32 (some zero) (pos n) h = ground arith
not_below-InI32 (some zero) (negsuc n) h = ground arith
not_below-InI32 (some (suc k)) (pos n) h = ground arith
not_below-InI32 (some (suc k)) (negsuc n) h = ground arith

parse_i32-InI32 : (s : String) (n : ℤ) → parse_i32 s ≡ some n → InI32 n
unfolding parse_i32
parse_i32-InI32 [] n h = cc
parse_i32-InI32 (c ∷ s) n h = elim (Bool-cases (eqb (code c) 0x2d)) [
  | inl e ↦ not_below-InI32 (natural s) n (rw (e, parse_i32) at h)
  | inr e ↦ elim (Bool-cases (eqb (code c) 0x2b)) [
    | inl k ↦ not_above-InI32 (natural s) n (rw (e, k, parse_i32) at h)
    | inr k ↦ not_above-InI32 (natural (c ∷ s)) n (rw (e, k, parse_i32) at h)
  ]
]

-- An exit code that is read is in the range of an `i32`.
pub exit_code-InI32 : (raw : String) (n : ℤ) → parse_sacct_exit_code raw ≡ some n → InI32 n
unfolding parse_sacct_exit_code
exit_code-InI32 raw n h = elim (Bool-cases (is_empty (trim raw))) [
  | inl e ↦ let bad : none ≡ some n = rw (e, parse_sacct_exit_code) at h in cc
  | inr e ↦ parse_i32-InI32 (trim (first_part (trim raw))) n (rw (e, parse_sacct_exit_code) at h)
]

solid_not_empty : (s : String) → StartsSolid s → is_empty s ≡ false
solid_not_empty [] h = absurd h
solid_not_empty (c ∷ s) h = refl

trim-append : (a b : String) → StartsSolid a → EndsSolid b → trim (a ++ b) ≡ a ++ b
unfolding trim
trim-append a b h k = rw (trim_end-append a b k) (trim_start-append a b h)

first_part-append :
    (exit signal : String)
    → contains b':' exit ≡ false
    → first_part (exit ++ (":" ++ signal)) ≡ exit
unfolding first_part
first_part-append exit signal plain =
    rw (split_once-append b':' exit signal ":" plain refl, first_part) refl

first_part-plain : (exit : String) → contains b':' exit ≡ false → first_part exit ≡ exit
unfolding first_part
first_part-plain exit plain = rw (split_once-none b':' exit plain, first_part) refl

-- The signal after the colon does not count: an exit code that has no colon and no white space around
-- it is read the same with a signal after it as without, where the signal ends in no white space.
pub exit_code_ignores_signal :
    (exit signal : String)
    → contains b':' exit ≡ false
    → StartsSolid exit
    → EndsSolid exit
    → EndsSolid signal
    → parse_sacct_exit_code (exit ++ (":" ++ signal)) ≡ parse_sacct_exit_code exit
unfolding parse_sacct_exit_code
exit_code_ignores_signal exit signal plain starts ends solid =
    let t : trim (exit ++ (":" ++ signal)) ≡ exit ++ (":" ++ signal) =
      trim-append exit (":" ++ signal) starts
        (is_empty-append ":" signal solid.0, trim_end-append ":" signal solid) in
    let e : is_empty (exit ++ (":" ++ signal)) ≡ false =
      is_empty-append exit (":" ++ signal) (is_empty-append ":" signal solid.0) in
    let d : trim exit ≡ exit = trim-solid exit starts ends in
    simp (
      t,
      e,
      first_part-append exit signal plain,
      first_part-plain exit plain,
      d,
      solid_not_empty exit starts,
      parse_sacct_exit_code,
    )
