-- ===== src/Coordinator/Scheduler/Regular.antt =====
-- A task that a worker runs
-- (crates/twerk-app/src/engine/coordinator/scheduler/regular.rs).
use twerk.Prelude.{ℕ, Option, none, some, is_zero, or_else, unwrap_or, if◌then◌else◌}
use twerk.TaskState.{TaskState}
use twerk.Task.{Task, with}
use twerk.Task.Nested.{TaskFields}
use twerk.Job.{JobDefaults}
use twerk.World.{ok, job_id_required, task, Env, M, ◌>>=◌, ◌>>◌, ok_or, now, publish}
use twerk.Datastore.{get_job_by_id, update_task}

-- The job's defaults fill what the task leaves open.
unfoldable pub apply_defaults : Option JobDefaults → TaskFields → TaskFields
apply_defaults none f = f
apply_defaults (some d) f = record f {
  queue = or_else f.queue d.queue;
  limits = or_else f.limits d.limits;
  timeout = or_else f.timeout d.timeout;
  retry = or_else f.retry d.retry;
  priority = if is_zero f.priority then d.priority else f.priority;
}

unfoldable pub mark_scheduled : ℕ → TaskFields → TaskFields
mark_scheduled at f = record f {
  state = TaskState.scheduled;
  scheduled_at = some at;
  queue = or_else f.queue (some "default");
}

-- The closure of the update: the stored task takes over what scheduling decided.
unfoldable pub take_schedule : ℕ → TaskFields → TaskFields → TaskFields
take_schedule at f u = record u {
  state = TaskState.scheduled;
  scheduled_at = some at;
  queue = f.queue;
  limits = f.limits;
  timeout = f.timeout;
  retry = f.retry;
  priority = f.priority;
}

unfoldable pub schedule_regular_task : Env → Task → M (Unit {0})
unfolding apply_defaults mark_scheduled take_schedule
schedule_regular_task env t = do
  let task_id = unwrap_or t.id ""
  at ← now env
  job_id ← ok_or (job_id_required "regular") t.job_id
  job ← get_job_by_id job_id
  let t' = with (λ f. mark_scheduled at (apply_defaults job.defaults f)) t
  update_task env task_id (λ u. ok (with (take_schedule at t'.fields) u, tt))
  publish env (task (unwrap_or t'.queue "") t')
