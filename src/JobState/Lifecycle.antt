-- ===== src/JobState/Lifecycle.antt =====
-- The documented transitions of a job, against `can_transition_to`, `can_cancel` and `can_restart`
-- (crates/twerk-core/src/job.rs).
use twerk.Prelude.{String, ◌≡◌, refl, true, ◌↔◌, ◌⊎◌, some, arith, eq_iff}
use twerk.JobState.{
  JobState, pending, scheduled, running, cancelled, completed, failed, restart, can_transition_to,
  can_cancel, can_restart, to_string, from_str,
}

pub data Step : JobState → JobState → Type 0 where
  schedule : Step pending scheduled
  start : Step scheduled running
  complete : Step running completed
  fail : Step running failed
  cancel : Step running cancelled
  restart_failed : Step failed restart
  restart_cancelled : Step cancelled restart
  requeue : Step restart pending

ruleset steps =
    (schedule, start, complete, fail, cancel, restart_failed, restart_cancelled, requeue)

step_allowed : {s t : JobState} → Step s t → can_transition_to s t ≡ true
unfolding can_transition_to
step_allowed schedule = refl
step_allowed start = refl
step_allowed complete = refl
step_allowed fail = refl
step_allowed cancel = refl
step_allowed restart_failed = refl
step_allowed restart_cancelled = refl
step_allowed requeue = refl

allowed_step : (s t : JobState) → can_transition_to s t ≡ true → Step s t
unfolding can_transition_to
allowed_step s t h = grind (arith, steps)

-- `can_transition_to` accepts exactly the transitions of the documented list.
job-can_transition_to_iff : (s t : JobState) → (can_transition_to s t ≡ true) ↔ Step s t
job-can_transition_to_iff s t = (allowed_step s t, step_allowed)

-- A job can be restarted exactly when `Restart` may follow its state. It can be cancelled exactly
-- when `Cancelled` may follow its state or it is pending or scheduled, where the transition table
-- has no way to `Cancelled`.
can_restart-can_cancel :
    (s : JobState)
    → (can_restart s ≡ can_transition_to s restart)
      × ((can_cancel s ≡ true)
          ↔ (can_transition_to s cancelled ≡ true ⊎ ((s ≡ pending) ⊎ (s ≡ scheduled))))
unfolding can_restart can_cancel can_transition_to
can_restart-can_cancel s = (ground arith, (λ h. ground arith, λ h. ground arith))

from_str_sound :
    (to_uppercase : String → String) (text : String) (s : JobState)
    → from_str to_uppercase text ≡ some s
    → to_uppercase text ≡ to_string s
unfolding from_str to_string
from_str_sound to_uppercase text s h =
    let u = to_uppercase text in
    ground (
      arith,
      eq_iff u "PENDING",
      eq_iff u "SCHEDULED",
      eq_iff u "RUNNING",
      eq_iff u "CANCELLED",
      eq_iff u "COMPLETED",
      eq_iff u "FAILED",
      eq_iff u "RESTART",
    )

from_str_complete :
    (to_uppercase : String → String) (text : String) (s : JobState)
    → to_uppercase text ≡ to_string s
    → from_str to_uppercase text ≡ some s
unfolding from_str to_string
from_str_complete to_uppercase text pending h = rw h
from_str_complete to_uppercase text scheduled h = rw h
from_str_complete to_uppercase text running h = rw h
from_str_complete to_uppercase text cancelled h = rw h
from_str_complete to_uppercase text completed h = rw h
from_str_complete to_uppercase text failed h = rw h
from_str_complete to_uppercase text restart h = rw h

-- Whatever `to_uppercase` does, a text is read as a job state exactly when its upper-case form is
-- the text that the state is displayed as.
job-from_str_iff :
    (to_uppercase : String → String) (text : String) (s : JobState)
    → (from_str to_uppercase text ≡ some s) ↔ (to_uppercase text ≡ to_string s)
job-from_str_iff to_uppercase text s =
    (from_str_sound to_uppercase text s, from_str_complete to_uppercase text s)
