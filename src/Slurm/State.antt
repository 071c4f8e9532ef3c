-- ===== src/Slurm/State.antt =====
-- Slurm's job states as seven tokens: `normalize_state` and `state_rank` of
-- crates/beampipe-domain/src/slurm.rs.
pub mod Laws
mod Examples
use Prim.Native.Char.{Char, code}
use Prim.Native.Nat.{◌+◌, ◌*◌}
use Prim.Native.String
use beampipe_core_v.Common.{
  ℕ, String, Bool, true, false, ◌||◌, ◌&&◌, not, Option, none, some, List, [], ◌∷◌, map, ◌==◌, leb,
  ltb, if◌then◌else◌, ◌-◌,
}
use beampipe_core_v.Common.Int.{ℤ, pos, negsuc}
use beampipe_core_v.Common.Lists.{length}
use beampipe_core_v.Common.Text.{
  is_empty, trim, contains, split, starts_with, first_word, to_uppercase, split_once,
}

-- An `i32` of the source; every rank is small.
unfoldable pub state_rank : String → ℕ
state_rank normalized =
    if normalized == "UNKNOWN"
    then 0
    else if normalized == "PENDING"
    then 1
    else if normalized == "RUNNING"
    then 2
    else if normalized == "COMPLETED"
    then 3
    else if normalized == "CANCELLED"
    then 4
    else if normalized == "TIMEOUT"
    then 5
    else if normalized == "FAILED"
    then 6
    else 0

-- An arm `"A" | "B" | …` of a `match`.
is_one_of : List String → String → Bool
is_one_of [] s = false
is_one_of (name ∷ names) s = s == name || is_one_of names s

-- The arms of `normalize_one_token` with several names.
abbrev pub failure_names : List String
failure_names =
    "BOOT_FAIL" ∷ "DEADLINE" ∷ "FAILED" ∷ "LAUNCH_FAILED" ∷ "NODE_FAIL" ∷ "OUT_OF_MEMORY"
    ∷ "PREEMPTED" ∷ "RECONFIG_FAIL" ∷ []

abbrev pub revocation_names : List String
revocation_names = "CANCELLED" ∷ "REVOKED" ∷ []

abbrev pub activity_names : List String
activity_names =
    "COMPLETING" ∷ "CONFIGURING" ∷ "EXPEDITING" ∷ "POWER_UP_NODE" ∷ "REQUEUED" ∷ "REQUEUE_FED"
    ∷ "RESIZING" ∷ "SIGNALING" ∷ "STAGE_OUT" ∷ "UPDATE_DB" ∷ []

abbrev pub hold_names : List String
hold_names = "RESV_DEL_HOLD" ∷ "REQUEUE_HOLD" ∷ "SPECIAL_EXIT" ∷ "STOPPED" ∷ "SUSPENDED" ∷ []

pub normalize_one_token : String → String
unfolding is_one_of trim starts_with
normalize_one_token token =
    let u = trim token in
    if is_empty u
    then "UNKNOWN"
    else if starts_with u "CANCELLED"
    then "CANCELLED"
    else if u == "COMPLETED"
    then "COMPLETED"
    else if u == "PENDING"
    then "PENDING"
    else if u == "RUNNING"
    then "RUNNING"
    else if is_one_of failure_names u
    then "FAILED"
    else if u == "TIMEOUT"
    then "TIMEOUT"
    else if is_one_of revocation_names u
    then "CANCELLED"
    else if is_one_of activity_names u
    then "RUNNING"
    else if is_one_of hold_names u
    then "PENDING"
    else "UNKNOWN"

-- `.map(str::trim).filter(|p| !p.is_empty())`.
trimmed_parts : List String → List String
unfolding trim
trimmed_parts [] = []
trimmed_parts (p ∷ ps) =
    let rest = trimmed_parts ps in if is_empty (trim p) then rest else trim p ∷ rest

-- `max_by_key(|n| state_rank(n))` from a first element: of equal ranks the later one is kept.
pub max_by_rank : String → List String → String
max_by_rank best [] = best
max_by_rank best (token ∷ tokens) =
    max_by_rank (if leb (state_rank best) (state_rank token) then token else best) tokens

-- The parts of a compound state: `max_by_key(…).unwrap_or("UNKNOWN")`.
pub highest : List String → String
unfolding max_by_rank
highest [] = "UNKNOWN"
highest (token ∷ tokens) = max_by_rank token tokens

-- `u.split_whitespace().next().unwrap_or(&u)`.
head_word : String → String
unfolding first_word
head_word u = elim (first_word u) [ none ↦ u | some w ↦ w ]

-- The parts that `+` separates, if the state is compound.
pub compound_parts : String → List String
unfolding contains split trimmed_parts
compound_parts u = if contains b'+' u then trimmed_parts (split b'+' u) else []

-- The Unicode mapping of the characters that are not ASCII is a parameter of `to_uppercase`.
module _ (upper : Char → String) where
  unfoldable pub normalize_state : String → String
  unfolding trim to_uppercase compound_parts highest head_word normalize_one_token
  normalize_state raw =
      if is_empty (trim raw)
      then "UNKNOWN"
      else let u = to_uppercase upper (trim raw) in
        if ltb 1 (length (compound_parts u))
        then highest (map normalize_one_token (compound_parts u))
        else normalize_one_token (head_word u)
