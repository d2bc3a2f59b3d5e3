-- ===== src/Coordinator/Expected.antt =====
-- What the handlers of the coordinator are meant to leave and to send, field by field, written
-- without their own updates.
use twerk.Prelude.{
  ℕ, Bool, true, false, ◌+◌, String, Option, none, some, List, length, map, or_else, is_zero,
  if◌then◌else◌,
}
use mathlib.Core.Option
use twerk.TaskState.{TaskState}
use twerk.JobState.{JobState}
use twerk.Task.{Task, SubJobTask, with, to_task}
use twerk.Task.Nested.{TaskFields, TaskRetry, Progress}
use twerk.Job.{Job, JobDefaults, User, default}
use twerk.World.{World}

-- The stored task `u` after the report `t` of an error.
abbrev pub with_error : ℕ → (t u : Task) → Task
with_error at t = with λ f. record f {
  state = TaskState.failed;
  failed_at = some at;
  error = t.error;
  result = t.result;
  exit_code = t.exit_code;
}

abbrev pub failed_at : ℕ → Task → Task
failed_at at = with λ f. record f { state = TaskState.failed; failed_at = some at }

abbrev pub next_try : (id : String) → ℕ → TaskRetry → Task → Task
next_try id at r = with λ f. record f {
  id = some id;
  created_at = some at;
  state = TaskState.pending;
  error = none;
  failed_at = none;
  retry = some (record r { attempts = r.attempts + 1 });
}

abbrev pub failed_job : ℕ → Option String → Job → Job
failed_job at error j = record j { state = JobState.failed; failed_at = some at; error = error }

abbrev pub scheduled_job : ℕ → Job → Job
scheduled_job at u = record u {
  state = JobState.scheduled;
  started_at = some at;
  position = 1;
  progress = record { done = 0; total = 1 };
}

abbrev pub pending_task : (id job_id : String) → (position : ℕ) → ℕ → Task → Task
pending_task id job_id position at = with λ f. record f {
  id = some id;
  job_id = some job_id;
  state = TaskState.pending;
  position = position;
  created_at = some at;
}

abbrev pub restarted_job : Job → Job
restarted_job u = record u { state = JobState.running; failed_at = none }

abbrev pub completed_job : ℕ → Job → Job
completed_job at u = record u {
  state = JobState.completed;
  completed_at = some at;
  progress = record { done = 1; total = 1 };
}

-- A job that is waiting, scheduled or running.
abbrev pub unfinished : JobState → Bool
unfinished JobState.pending = true
unfinished JobState.scheduled = true
unfinished JobState.running = true
unfinished JobState.cancelled = false
unfinished JobState.completed = false
unfinished JobState.failed = false
unfinished JobState.restart = false

-- A task that is neither waiting, nor scheduled, nor running.
abbrev pub ended : TaskState → Bool
ended TaskState.created = false
ended TaskState.pending = false
ended TaskState.scheduled = false
ended TaskState.running = false
ended TaskState.completed = true
ended TaskState.failed = true
ended TaskState.cancelled = true
ended TaskState.stopped = true
ended TaskState.skipped = true

-- Only a scheduled job becomes running.
abbrev pub seen_running : JobState → Progress → Job → Job
seen_running JobState.scheduled p u = record u {
  state = JobState.running;
  failed_at = none;
  progress = p;
}
seen_running _ p u = record u { progress = p }

abbrev pub skipped_task : ℕ → Task → Task
skipped_task at = with λ f. record f {
  state = TaskState.skipped;
  scheduled_at = some at;
  started_at = some at;
  completed_at = some at;
}

abbrev pub one_more_delivery : ℕ → Task → Task
one_more_delivery n = with λ f. record f { redelivered = n + 1 }

-- A task that came back and is stored as completed, failed or cancelled is dropped: the world stays.
abbrev pub unless_settled : TaskState → (stays sends : World) → World
unless_settled TaskState.completed stays sends = stays
unless_settled TaskState.failed stays sends = stays
unless_settled TaskState.cancelled stays sends = stays
unless_settled _ stays sends = sends

-- What the task says goes before what the job's defaults say, and these before `default`.
abbrev pub scheduled_fields : ℕ → Option JobDefaults → TaskFields → TaskFields
scheduled_fields at none f = record f {
  state = TaskState.scheduled;
  scheduled_at = some at;
  queue = or_else f.queue (some "default");
}
scheduled_fields at (some d) f = record f {
  state = TaskState.scheduled;
  scheduled_at = some at;
  queue = or_else (or_else f.queue d.queue) (some "default");
  limits = or_else f.limits d.limits;
  timeout = or_else f.timeout d.timeout;
  retry = or_else f.retry d.retry;
  priority = if is_zero f.priority then d.priority else f.priority;
}

-- The stored task `u` after the task with the fields `f` was sent.
abbrev pub taken_over : ℕ → TaskFields → Task → Task
taken_over at f = with λ u. record u {
  state = TaskState.scheduled;
  scheduled_at = some at;
  queue = f.queue;
  limits = f.limits;
  timeout = f.timeout;
  retry = f.retry;
  priority = f.priority;
}

abbrev number_of {ℓ} : {A : Type ℓ} → Option (List A) → ℕ
number_of none = 0
number_of (some l) = length l

abbrev pub sub_job : (id parent_id : String) → ℕ → Option User → SubJobTask → Job
sub_job id parent_id at user sj = record default {
  id = some id;
  parent_id = some parent_id;
  state = JobState.pending;
  created_at = some at;
  created_by = user;
  name = sj.name;
  description = sj.description;
  inputs = sj.inputs;
  secrets = sj.secrets;
  output = sj.output;
  webhooks = sj.webhooks;
  auto_delete = sj.auto_delete;
  tasks = Option.map (map to_task) sj.tasks;
  task_count = number_of sj.tasks;
}

-- The stored task of a job of its own, once that job is made.
abbrev pub running_subjob : ℕ → (id : String) → Task → Task
running_subjob at id u = record u {
  fields = record u.fields { state = TaskState.running; started_at = some at };
  subjob =
      Option.map (λ (sj : SubJobTask). record sj { fields = record sj.fields { id = some id } })
        u.subjob;
}
