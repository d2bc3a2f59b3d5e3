-- ===== src/TaskState.antt =====
-- The states of a task and the transitions between them
-- (crates/twerk-core/src/task.rs, `TaskState`).
pub mod Lifecycle
pub mod Text
use twerk.Prelude.{String, Bool, true, false, ◌||◌, Option, none, some, str_eq, if◌then◌else◌}

pub data TaskState : Type 0 where
  created pending scheduled running cancelled stopped completed failed skipped : TaskState

unfoldable pub is_active : TaskState → Bool
is_active created = true
is_active pending = true
is_active scheduled = true
is_active running = true
is_active _ = false

-- One of the four pairs that `matches!` lists.
is_valid_linear_transition : TaskState → TaskState → Bool
is_valid_linear_transition created pending = true
is_valid_linear_transition pending scheduled = true
is_valid_linear_transition scheduled running = true
is_valid_linear_transition failed pending = true
is_valid_linear_transition _ _ = false

-- `Running -> Completed | Failed | Cancelled | Stopped`.
is_running_exit : TaskState → TaskState → Bool
is_running_exit running completed = true
is_running_exit running failed = true
is_running_exit running cancelled = true
is_running_exit running stopped = true
is_running_exit _ _ = false

is_skipped : TaskState → Bool
is_skipped skipped = true
is_skipped _ = false

-- The `match` in order: the terminal states first, then the three guarded arms.
can_leave : TaskState → Bool
can_leave completed = false
can_leave cancelled = false
can_leave stopped = false
can_leave skipped = false
can_leave _ = true

pub can_transition_to : TaskState → TaskState → Bool
unfolding can_leave is_valid_linear_transition is_running_exit is_skipped is_active
can_transition_to s t =
    if can_leave s
    then (if is_valid_linear_transition s t
        then true
        else if is_running_exit s t
        then true
        else if is_skipped t
        then is_active s
        else false)
    else false

-- `impl fmt::Display`.
pub to_string : TaskState → String
to_string created = "CREATED"
to_string pending = "PENDING"
to_string scheduled = "SCHEDULED"
to_string running = "RUNNING"
to_string cancelled = "CANCELLED"
to_string stopped = "STOPPED"
to_string completed = "COMPLETED"
to_string failed = "FAILED"
to_string skipped = "SKIPPED"

-- `impl FromStr`. `to_uppercase` is the standard library's, over all of Unicode; `none` stands for
-- `Err`.
pub from_str : (to_uppercase : String → String) → String → Option TaskState
from_str to_uppercase text =
    let s = to_uppercase text in
    if str_eq s "CREATED"
    then some created
    else if str_eq s "PENDING"
    then some pending
    else if str_eq s "SCHEDULED"
    then some scheduled
    else if str_eq s "RUNNING"
    then some running
    else if str_eq s "CANCELLED"
    then some cancelled
    else if str_eq s "STOPPED"
    then some stopped
    else if str_eq s "COMPLETED"
    then some completed
    else if str_eq s "FAILED"
    then some failed
    else if str_eq s "SKIPPED"
    then some skipped
    else none
