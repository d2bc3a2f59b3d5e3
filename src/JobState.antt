-- ===== src/JobState.antt =====
-- The states of a job and of a scheduled job, and the transitions of a job
-- (crates/twerk-core/src/job.rs, `JobState`, `ScheduledJobState`).
pub mod Lifecycle
use twerk.Prelude.{String, Bool, true, false, Option, none, some, str_eq, if◌then◌else◌}

pub data JobState : Type 0 where
  pending scheduled running cancelled completed failed restart : JobState

-- The pairs that `matches!` lists.
pub can_transition_to : JobState → JobState → Bool
can_transition_to pending scheduled = true
can_transition_to scheduled running = true
can_transition_to running completed = true
can_transition_to running failed = true
can_transition_to running cancelled = true
can_transition_to failed restart = true
can_transition_to cancelled restart = true
can_transition_to restart pending = true
can_transition_to _ _ = false

pub can_cancel : JobState → Bool
can_cancel pending = true
can_cancel scheduled = true
can_cancel running = true
can_cancel _ = false

pub can_restart : JobState → Bool
can_restart failed = true
can_restart cancelled = true
can_restart _ = false

-- `impl fmt::Display`.
pub to_string : JobState → String
to_string pending = "PENDING"
to_string scheduled = "SCHEDULED"
to_string running = "RUNNING"
to_string cancelled = "CANCELLED"
to_string completed = "COMPLETED"
to_string failed = "FAILED"
to_string restart = "RESTART"

-- `impl FromStr`; `none` stands for `Err`.
pub from_str : (to_uppercase : String → String) → String → Option JobState
from_str to_uppercase text =
    let s = to_uppercase text in
    if str_eq s "PENDING"
    then some pending
    else if str_eq s "SCHEDULED"
    then some scheduled
    else if str_eq s "RUNNING"
    then some running
    else if str_eq s "CANCELLED"
    then some cancelled
    else if str_eq s "COMPLETED"
    then some completed
    else if str_eq s "FAILED"
    then some failed
    else if str_eq s "RESTART"
    then some restart
    else none
