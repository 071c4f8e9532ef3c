-- ===== src/Execution/Status.antt =====
-- The status of an execution: `ExecutionStatus` of crates/beampipe-domain/src/execution.rs.
pub mod Laws
use beampipe_core_v.Common.{String, Bool, true, false}

pub data ExecutionStatus : Type 0 where
  pending running awaiting_scheduler not_submitted completed failed retrying cancelled :
      ExecutionStatus

pub as_str : ExecutionStatus → String
as_str pending = "pending"
as_str running = "running"
as_str awaiting_scheduler = "awaiting_scheduler"
as_str not_submitted = "not_submitted"
as_str completed = "completed"
as_str failed = "failed"
as_str retrying = "retrying"
as_str cancelled = "cancelled"

abbrev pub is_terminal : ExecutionStatus → Bool
is_terminal completed = true
is_terminal failed = true
is_terminal cancelled = true
is_terminal not_submitted = true
is_terminal _ = false

abbrev pub is_locked_terminal : ExecutionStatus → Bool
is_locked_terminal completed = true
is_locked_terminal cancelled = true
is_locked_terminal _ = false

-- The edges of the state machine.
abbrev pub allows : ExecutionStatus → ExecutionStatus → Bool
allows pending running = true
allows pending cancelled = true
allows pending failed = true
allows running awaiting_scheduler = true
allows running completed = true
allows running not_submitted = true
allows running failed = true
allows running cancelled = true
allows awaiting_scheduler running = true
allows awaiting_scheduler completed = true
allows awaiting_scheduler failed = true
allows awaiting_scheduler cancelled = true
allows not_submitted running = true
allows not_submitted cancelled = true
allows failed retrying = true
allows failed running = true
allows failed cancelled = true
allows retrying running = true
allows retrying failed = true
allows retrying cancelled = true
allows _ _ = false

-- `==` of the derived `PartialEq`.
abbrev pub status_eq : ExecutionStatus → ExecutionStatus → Bool
status_eq pending pending = true
status_eq running running = true
status_eq awaiting_scheduler awaiting_scheduler = true
status_eq not_submitted not_submitted = true
status_eq completed completed = true
status_eq failed failed = true
status_eq retrying retrying = true
status_eq cancelled cancelled = true
status_eq _ _ = false
