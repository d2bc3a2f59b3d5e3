-- ===== src/TaskState/Lifecycle.antt =====
-- The lifecycle of a task as a relation, against `can_transition_to`
-- (crates/twerk-core/src/task.rs, the list in its documentation).
use twerk.Prelude.{ℕ, ◌+◌, true, ◌≡◌, refl, ◌↔◌, ◌⊎◌, inl, inr, arith}
use twerk.TaskState.{
  TaskState, created, pending, scheduled, running, cancelled, stopped, completed, failed, skipped,
  can_transition_to,
}

-- The documented list of valid transitions.
pub data Step : TaskState → TaskState → Type 0 where
  submit : Step created pending
  schedule : Step pending scheduled
  start : Step scheduled running
  complete : Step running completed
  fail : Step running failed
  cancel : Step running cancelled
  stop : Step running stopped
  retry : Step failed pending
  skip_created : Step created skipped
  skip_pending : Step pending skipped
  skip_scheduled : Step scheduled skipped
  skip_running : Step running skipped

ruleset steps = (
  submit, schedule, start, complete, fail, cancel, stop, retry, skip_created, skip_pending,
  skip_scheduled, skip_running,
)

step_allowed : {s t : TaskState} → Step s t → can_transition_to s t ≡ true
unfolding can_transition_to
step_allowed submit = refl
step_allowed schedule = refl
step_allowed start = refl
step_allowed complete = refl
step_allowed fail = refl
step_allowed cancel = refl
step_allowed stop = refl
step_allowed retry = refl
step_allowed skip_created = refl
step_allowed skip_pending = refl
step_allowed skip_scheduled = refl
step_allowed skip_running = refl

allowed_step : (s t : TaskState) → can_transition_to s t ≡ true → Step s t
unfolding can_transition_to
allowed_step s t h = grind (arith, steps)

-- `can_transition_to` accepts exactly the transitions of the list in the documentation of `TaskState`.
pub can_transition_to_iff : (s t : TaskState) → (can_transition_to s t ≡ true) ↔ Step s t
can_transition_to_iff s t = (allowed_step s t, step_allowed)

-- A history of a task: transitions one after another, the newest last.
pub data Trace (s : TaskState) : TaskState → Type 0 where
  here : Trace s s
  next : {t u : TaskState} → Trace s t → Step t u → Trace s u

is_start : {s t : TaskState} → Step s t → ℕ
is_start start = 1
is_start _ = 0

is_retry : {s t : TaskState} → Step s t → ℕ
is_retry retry = 1
is_retry _ = 0

-- How often a worker started the task, and how often it was retried.
pub starts : {s t : TaskState} → Trace s t → ℕ
starts here = 0
starts (next r st) = starts r + is_start st

pub retries : {s t : TaskState} → Trace s t → ℕ
retries here = 0
retries (next r st) = retries r + is_retry st

-- What a state says of the starts so far, against the retries so far.
abbrev Balanced : TaskState → ℕ → ℕ → Type 0
Balanced created n r = n ≡ r
Balanced pending n r = n ≡ r
Balanced scheduled n r = n ≡ r
Balanced skipped n r = (n ≡ r) ⊎ (n ≡ r + 1)
Balanced _ n r = n ≡ r + 1

Balanced-step :
    {t u : TaskState} (st : Step t u) (n r : ℕ)
    → Balanced t n r
    → Balanced u (n + is_start st) (r + is_retry st)
unfolding is_start is_retry
Balanced-step submit n r h = omega arith
Balanced-step schedule n r h = omega arith
Balanced-step start n r h = omega arith
Balanced-step complete n r h = omega arith
Balanced-step fail n r h = omega arith
Balanced-step cancel n r h = omega arith
Balanced-step stop n r h = omega arith
Balanced-step retry n r h = omega arith
Balanced-step skip_created n r h = inl (omega arith)
Balanced-step skip_pending n r h = inl (omega arith)
Balanced-step skip_scheduled n r h = inl (omega arith)
Balanced-step skip_running n r h = inr (omega arith)

Trace-Balanced : {t : TaskState} (r : Trace created t) → Balanced t (starts r) (retries r)
unfolding starts retries
Trace-Balanced here = refl
Trace-Balanced (next r st) = Balanced-step st (starts r) (retries r) (Trace-Balanced r)

-- A task that was created and is now completed was started once more often than it was retried;
-- in particular it ran at least once.
starts-completed : (r : Trace created completed) → starts r ≡ retries r + 1
starts-completed r = Trace-Balanced r
