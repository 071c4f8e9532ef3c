-- ===== src/Slurm/Batch.antt =====
-- The answers of `squeue` and `sacct` for many jobs: crates/beampipe-orchestration/src/slurm_batch.rs.
-- A `HashMap` is the function from a key to its value. The lines of an answer are the parts between
-- its line feeds: a carriage return before one is white space, and a last line that is empty is
-- skipped like any other.
pub mod Laws
pub mod Query
mod Examples
use Prim.Native.Char.{Char}
use Prim.Native.String.{◌++◌}
use beampipe_core_v.Common.{
  ℕ, zero, suc, String, Bool, true, false, ◌||◌, Option, none, some, List, [], ◌∷◌, map, ◌==◌, ltb,
  if◌then◌else◌,
}
use beampipe_core_v.Common.Int.{ℤ}
use beampipe_core_v.Common.Text.{is_empty, trim, split, split_once, first_word}
use beampipe_core_v.Slurm.ExitCode.{parse_sacct_exit_code}
use beampipe_core_v.Slurm.State.{normalize_state, state_rank}

abbrev pub Table : Type 0 → Type 0
Table A = String → Option A

abbrev pub insert : {A : Type 0} → String → A → Table A → Table A
insert k a table j = if k == j then some a else table j

pub record SlurmJobPollResult : Type 0 where
  pub raw_state : String
  pub normalized_state : String
  pub source : String
  pub exit_code : Option ℤ
  pub raw_line : Option String

pub record SacctJobRows : Type 0 where
  pub root : Option (ℕ × SlurmJobPollResult)
  pub steps : Option (ℕ × SlurmJobPollResult)

-- A row of `sacct` that is not skipped.
pub record SacctRow : Type 0 where
  pub job_id : String
  pub rank : ℕ
  pub candidate : SlurmJobPollResult

-- `job_id.split('.').next()`.
pub sacct_base_job_id : String → String
unfolding split_once
sacct_base_job_id job_id = elim (split_once b'.' job_id) [
  | none ↦ job_id
  | some (base, step) ↦ base
]

-- `split_whitespace().next().unwrap_or(state_str).trim()`.
state_token : String → String
unfolding first_word trim
state_token state_str = elim (first_word state_str) [ none ↦ trim state_str | some w ↦ trim w ]

-- The first two parts of a line and the third, if it has no other.
three_parts : List String → Option (String × String × String)
three_parts (id ∷ state ∷ []) = some (id, state, "")
three_parts (id ∷ state ∷ exit ∷ []) = some (id, state, exit)
three_parts _ = none

-- The rows of a job without any, `SacctJobRows::default()`, and those that are there.
abbrev pub or_default : Option SacctJobRows → SacctJobRows
or_default none = record { root = none; steps = none }
or_default (some rows) = rows

-- `slot.as_ref().is_none_or(|(best_rank, _)| rank > *best_rank)`, and the slot after the test.
abbrev pub place :
    ℕ → SlurmJobPollResult → Option (ℕ × SlurmJobPollResult) → Option (ℕ × SlurmJobPollResult)
place rank candidate none = some (rank, candidate)
place rank candidate (some (best, kept)) =
    if ltb best rank then some (rank, candidate) else some (best, kept)

-- The slot of a row: that of the allocation or that of its steps.
abbrev pub add_row : (is_root : Bool) → SacctRow → SacctJobRows → SacctJobRows
add_row true row rows = record rows { root = place row.rank row.candidate rows.root }
add_row false row rows = record rows { steps = place row.rank row.candidate rows.steps }

-- One round of the loop, of a row that is not skipped.
pub insert_row : SacctRow → Table SacctJobRows → Table SacctJobRows
unfolding sacct_base_job_id
insert_row row by_base =
    let base = sacct_base_job_id row.job_id in
    insert base (add_row (row.job_id == base) row (or_default (by_base base))) by_base

pub insert_rows : List SacctRow → Table SacctJobRows → Table SacctJobRows
unfolding insert_row
insert_rows [] by_base = by_base
insert_rows (row ∷ rows) by_base = insert_rows rows (insert_row row by_base)

-- `rows.root.or(rows.steps).map(|(_, result)| …)`.
abbrev pub decide :
    Option (ℕ × SlurmJobPollResult) → Option (ℕ × SlurmJobPollResult) → Option SlurmJobPollResult
decide none none = none
decide none (some (rank, result)) = some result
decide (some (rank, result)) steps = some result

abbrev pub chosen : Option SacctJobRows → Option SlurmJobPollResult
chosen none = none
chosen (some rows) = decide rows.root rows.steps

module _ (upper : Char → String) where
  -- The row of a line, if its parts are there.
  sacct_row : (line : String) → Option (String × String × String) → Option SacctRow
  unfolding state_token normalize_state state_rank parse_sacct_exit_code
  sacct_row line none = none
  sacct_row line (some (job_id, state_str, exit_code_str)) =
      let token = state_token state_str in
      let normalized = normalize_state upper token in
      if is_empty job_id || is_empty token
      then none
      else some (record {
        job_id = job_id;
        rank = state_rank normalized;
        candidate = record {
          raw_state = token;
          normalized_state = normalized;
          source = "sacct";
          exit_code = parse_sacct_exit_code exit_code_str;
          raw_line = some line;
        };
      })

  -- The rows of the lines that are not skipped.
  pub sacct_rows : List String → List SacctRow
  unfolding sacct_row three_parts trim split
  sacct_rows [] = []
  sacct_rows (raw ∷ lines) =
      let rest = sacct_rows lines in
      let line = trim raw in
      if is_empty line
      then rest
      else elim (sacct_row line (three_parts (map trim (split b'|' line)))) [
        | none ↦ rest
        | some row ↦ row ∷ rest
      ]

  abbrev no_rows : Table SacctJobRows
  no_rows id = none

  pub parse_sacct_batch : String → Table SlurmJobPollResult
  unfolding sacct_rows insert_rows split
  parse_sacct_batch stdout id = chosen (insert_rows (sacct_rows (split b'\n' stdout)) no_rows id)

-- A row of `squeue`.
pub record SqueueRow : Type 0 where
  pub state : String
  pub reason : Option String

-- The first two parts of a line and the third, if there is one; the others do not count.
first_parts : List String → Option (String × String × Option String)
first_parts (id ∷ state ∷ []) = some (id, state, none)
first_parts (id ∷ state ∷ reason ∷ rest) = some (id, state, some reason)
first_parts _ = none

abbrev insert_squeue_row :
    Option (String × String × Option String) → Table SqueueRow → Table SqueueRow
insert_squeue_row none rows = rows
insert_squeue_row (some (job_id, state, reason)) rows =
    if is_empty job_id || is_empty state
    then rows
    else insert job_id (record { state = state; reason = reason }) rows

-- The loop over the lines, from the rows so far.
parse_squeue_rows : List String → Table SqueueRow → Table SqueueRow
unfolding first_parts trim split
parse_squeue_rows [] rows = rows
parse_squeue_rows (raw ∷ lines) rows =
    let line = trim raw in
    parse_squeue_rows lines (
      if is_empty line
      then rows
      else insert_squeue_row (first_parts (map trim (split b'|' line))) rows)

format_squeue_raw : SqueueRow → String
format_squeue_raw row = elim row.reason [
  | none ↦ row.state
  | some r ↦ if is_empty r then row.state else row.state ++ ("|" ++ r)
]

module _ (upper : Char → String) where
  abbrev squeue_result : Option SqueueRow → Option SlurmJobPollResult
  squeue_result none = none
  squeue_result (some row) = some (record {
    raw_state = row.state;
    normalized_state = normalize_state upper row.state;
    source = "squeue";
    exit_code = none;
    raw_line = some (format_squeue_raw row);
  })

  pub parse_squeue_batch : String → Table SlurmJobPollResult
  unfolding parse_squeue_rows normalize_state format_squeue_raw split
  parse_squeue_batch stdout id =
      squeue_result (parse_squeue_rows (split b'\n' stdout) (λ _. none) id)
