-- ===== src/Slurm/Batch/Laws.antt =====
-- The rows of `sacct` and the result of a job
-- (`parse_sacct_batch` of crates/beampipe-orchestration/src/slurm_batch.rs).
use Prim.Native.Char.{Char}
use package.text.Mathlib.TextPositions.{eq_refl}
use mathlib.Core.Path.{subst}
use beampipe_core_v.Common.{
  ℕ, String, ◌≡◌, ◌≤◌, ◌⊎◌, refl, true, false, Option, none, some, List, [], ◌∷◌, ◌==◌, eq_iff,
  arith, Bool-cases, inl, inr, ltb, ◌∙◌,
}
use beampipe_core_v.Common.Text.{split}
use beampipe_core_v.Slurm.Batch.{
  Table, insert, SlurmJobPollResult, SacctJobRows, SacctRow, sacct_base_job_id, or_default, place,
  add_row, insert_row, insert_rows, chosen, sacct_rows, parse_sacct_batch,
}

-- A row stands in a list of rows.
abbrev pub Among : SacctRow → List SacctRow → Type 0
Among row [] = ⊥
Among row (first ∷ rows) = (row ≡ first) ⊎ Among row rows

-- The row of the allocation of a job, not of one of its steps.
pub record IsRoot (id : String) (row : SacctRow) : Type 0 where
  pub own : row.job_id ≡ id
  pub base : sacct_base_job_id row.job_id ≡ id

-- The slot of the allocation of a job.
abbrev root_of : Table SacctJobRows → String → Option (ℕ × SlurmJobPollResult)
root_of table id = (or_default (table id)).root

-- The slot holds a rank that is at least `k`, and the result of a row of the job's allocation.
record Holds (id : String) (all : List SacctRow) (k : ℕ) (slot : Option (ℕ × SlurmJobPollResult))
    : Type 0 where
  pub row : SacctRow
  pub among : Among row all
  pub is_root : IsRoot id row
  pub reaches : k ≤ row.rank
  pub held : slot ≡ some (row.rank, row.candidate)

root_of-insert :
    (base id : String) (rows : SacctJobRows) (table : Table SacctJobRows)
    → base == id ≡ true
    → root_of (insert base rows table) id ≡ rows.root
root_of-insert base id rows table h = ground arith

root_of-insert_other :
    (base id : String) (rows : SacctJobRows) (table : Table SacctJobRows)
    → base == id ≡ false
    → root_of (insert base rows table) id ≡ root_of table id
root_of-insert_other base id rows table h = ground arith

-- What a row adds to the rows of its job.
abbrev added : SacctRow → Table SacctJobRows → SacctJobRows
added row table =
    let base = sacct_base_job_id row.job_id in
    add_row (row.job_id == base) row (or_default (table base))

root_of-insert_row :
    (id : String) (row : SacctRow) (table : Table SacctJobRows)
    → sacct_base_job_id row.job_id ≡ id
    → root_of (insert_row row table) id ≡ (added row table).root
unfolding insert_row
root_of-insert_row id row table e =
    root_of-insert (sacct_base_job_id row.job_id) id (added row table) table
      ((eq_iff (sacct_base_job_id row.job_id) id).1 e)

root_of-insert_row_own :
    (id : String) (row : SacctRow) (table : Table SacctJobRows)
    → IsRoot id row
    → root_of (insert_row row table) id ≡ place row.rank row.candidate (root_of table id)
root_of-insert_row_own id row table h =
    root_of-insert_row id row table h.base ∙ rw (h.base, h.own, eq_refl id) refl

root_of-insert_row_other :
    (id : String) (row : SacctRow) (table : Table SacctJobRows)
    → (root_of (insert_row row table) id ≡ root_of table id) ⊎ IsRoot id row
unfolding insert_row
root_of-insert_row_other id row table =
    let base = sacct_base_job_id row.job_id in
    elim (Bool-cases (base == id)) [
      | inr ne ↦ inl (root_of-insert_other base id (added row table) table ne)
      | inl e ↦
          let same : base ≡ id = (eq_iff base id).0 e in
          elim (Bool-cases (row.job_id == base)) [
            | inr ne ↦ inl (root_of-insert_row id row table same ∙ rw (ne, same) refl)
            | inl own ↦ inr (record { own = (eq_iff row.job_id base).0 own ∙ same; base = same })
          ]
    ]

place-Holds :
    (id : String) (all : List SacctRow) (k : ℕ) (row : SacctRow)
    (slot : Option (ℕ × SlurmJobPollResult))
    → Among row all
    → IsRoot id row
    → Holds id all k slot
    → Holds id all k (place row.rank row.candidate slot)
place-Holds id all k row none a r h = let bad = h.held in cc
place-Holds id all k row (some (best, kept)) a r h = elim (Bool-cases (ltb best row.rank)) [
  | inl lt ↦ rw lt (record {
    row = row;
    among = a;
    is_root = r;
    reaches = let e = h.held in let le = h.reaches in ground arith;
    held = refl;
  })
  | inr ge ↦ rw ge h
]

-- What the slot of a job holds is held by it after one more row, or by a better row.
insert_row-Holds :
    (id : String) (all : List SacctRow) (k : ℕ) (row : SacctRow) (table : Table SacctJobRows)
    → Among row all
    → Holds id all k (root_of table id)
    → Holds id all k (root_of (insert_row row table) id)
insert_row-Holds id all k row table a h = elim (root_of-insert_row_other id row table) [
  | inl e ↦ rw e h
  | inr own ↦
      rw (root_of-insert_row_own id row table own)
        (place-Holds id all k row (root_of table id) a own h)
]

-- The first row of a job's allocation fills its slot, whatever is there.
place-first :
    (id : String) (all : List SacctRow) (row : SacctRow) (slot : Option (ℕ × SlurmJobPollResult))
    → Among row all
    → IsRoot id row
    → (slot ≡ none) ⊎ Holds id all 0 slot
    → Holds id all row.rank (place row.rank row.candidate slot)
place-first id all row none a r h = record {
  row = row;
  among = a;
  is_root = r;
  reaches = omega arith;
  held = refl;
}
place-first id all row (some (best, kept)) a r (inl e) = cc
place-first id all row (some (best, kept)) a r (inr h) = elim (Bool-cases (ltb best row.rank)) [
  | inl lt ↦
      rw lt (record { row = row; among = a; is_root = r; reaches = omega arith; held = refl })
  | inr ge ↦ rw ge (record {
    row = h.row;
    among = h.among;
    is_root = h.is_root;
    reaches = let e = h.held in ground arith;
    held = h.held;
  })
]

insert_rows-Holds :
    (id : String) (all : List SacctRow) (k : ℕ) (rows : List SacctRow) (table : Table SacctJobRows)
    → ((r : SacctRow) → Among r rows → Among r all)
    → Holds id all k (root_of table id)
    → Holds id all k (root_of (insert_rows rows table) id)
unfolding insert_rows
insert_rows-Holds id all k [] table sub h = h
insert_rows-Holds id all k (row ∷ rows) table sub h =
    insert_rows-Holds id all k rows (insert_row row table) (λ r m. sub r (inr m))
      (insert_row-Holds id all k row table (sub row (inl refl)) h)

-- What is in the slot before any row of a list is inserted.
abbrev Filled : String → List SacctRow → Table SacctJobRows → Type 0
Filled id all table = (root_of table id ≡ none) ⊎ Holds id all 0 (root_of table id)

insert_row-Filled :
    (id : String) (all : List SacctRow) (row : SacctRow) (table : Table SacctJobRows)
    → Among row all
    → Filled id all table
    → Filled id all (insert_row row table)
insert_row-Filled id all row table a f = elim (root_of-insert_row_other id row table) [
  | inl e ↦ rw e f
  | inr own ↦
      let h = place-first id all row (root_of table id) a own f in
      rw (root_of-insert_row_own id row table own) (
        inr (record {
          row = h.row;
          among = h.among;
          is_root = h.is_root;
          reaches = omega arith;
          held = h.held;
        }))
]

insert_rows-root :
    (id : String) (all : List SacctRow) (rows : List SacctRow) (table : Table SacctJobRows)
    (row : SacctRow)
    → ((r : SacctRow) → Among r rows → Among r all)
    → Filled id all table
    → Among row rows
    → IsRoot id row
    → Holds id all row.rank (root_of (insert_rows rows table) id)
unfolding insert_rows
insert_rows-root id all [] table row sub f m own = absurd m
insert_rows-root id all (first ∷ rows) table row sub f (inl e) own =
    insert_rows-Holds id all row.rank rows (insert_row first table) (λ r m. sub r (inr m))
      (subst (λ r. Holds id all row.rank (root_of (insert_row r table) id)) e
        (rw (root_of-insert_row_own id row table own)
          (place-first id all row (root_of table id) (sub row (rw e (inl refl))) own f)))
insert_rows-root id all (first ∷ rows) table row sub f (inr m) own =
    insert_rows-root id all rows (insert_row first table) row (λ r k. sub r (inr k))
      (insert_row-Filled id all first table (sub first (inl refl)) f) m own

chosen-Holds :
    (id : String) (all : List SacctRow) (k : ℕ) (rows : Option SacctJobRows)
    → Holds id all k (or_default rows).root
    → (best : SacctRow) × Among best all
      × IsRoot id best
      × (k ≤ best.rank)
      × (chosen rows ≡ some best.candidate)
chosen-Holds id all k none h = let bad = h.held in cc
chosen-Holds id all k (some rows) h = (h.row, h.among, h.is_root, h.reaches, rw h.held refl)

-- Where an answer of `sacct` has a row of a job's allocation, the result of the job is that of a
-- row of its allocation, of a rank at least as high, and not of a row of its steps.
pub sacct-IsRoot_decides :
    (upper : Char → String) (stdout id : String) (row : SacctRow)
    → Among row (sacct_rows upper (split b'\n' stdout))
    → IsRoot id row
    → (best : SacctRow) × Among best (sacct_rows upper (split b'\n' stdout))
      × IsRoot id best
      × (row.rank ≤ best.rank)
      × (parse_sacct_batch upper stdout id ≡ some best.candidate)
unfolding parse_sacct_batch
sacct-IsRoot_decides upper stdout id row m own =
    let rows : List SacctRow = sacct_rows upper (split b'\n' stdout) in
    chosen-Holds id rows row.rank (insert_rows rows (λ _. none) id)
      (insert_rows-root id rows rows (λ _. none) row (λ r a. a) (inl refl) m own)
