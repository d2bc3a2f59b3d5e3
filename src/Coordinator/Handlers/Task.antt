-- ===== src/Coordinator/Handlers/Task.antt =====
-- The task handlers (crates/twerk-app/src/engine/coordinator/handlers/task_handlers.rs).
-- A failed subtask fails its parent, and so on up; the recursion takes fuel for the levels above.
use twerk.Prelude.{
  ℕ, zero, suc, ◌+◌, String, Bool, true, false, Option, none, some, unwrap_or, if◌then◌else◌,
}
use twerk.TaskState.{TaskState}
use twerk.Task.{Task, with}
use twerk.Task.Nested.{TaskFields}
use twerk.Node.{TaskLogPart}
use twerk.World.{
  ok, missing_task_id, missing_job_id, redelivered_missing_task_id, out_of_fuel, task, Env, M, pure,
  fail, ◌>>=◌, ◌>>◌, ok_or, ignore_error, now, publish,
}
use twerk.Datastore.{get_task_by_id, get_job_by_id, update_task, create_task_log_part}
use twerk.Coordinator.Util.{queue_failed, is_job_active, can_retry, should_skip_task, skip_task}
use twerk.Coordinator.Webhook.{fire_task_webhooks}
use twerk.Coordinator.Scheduler.{schedule_task}
use twerk.Coordinator.Handlers.Retry.{create_retry_task}
use twerk.Coordinator.Handlers.Workflow.{
  handle_top_level_task_completed, handle_top_level_task_failed,
}
use twerk.Coordinator.Handlers.Subtask.{handle_subtask_completed, handle_subtask_failed}

-- The closures of the updates, from the task that the message carries.
unfoldable pub take_progress : Task → TaskFields → TaskFields
take_progress t u = record u {
  state = t.state;
  started_at = t.started_at;
  completed_at = t.completed_at;
  failed_at = t.failed_at;
  result = t.result;
  error = t.error;
  exit_code = t.exit_code;
}

unfoldable pub take_completed : Task → TaskFields → TaskFields
take_completed t u = record u {
  state = TaskState.completed;
  completed_at = t.completed_at;
  result = t.result;
  exit_code = t.exit_code;
}

unfoldable pub take_failed : Task → TaskFields → TaskFields
take_failed t u = record u {
  state = TaskState.failed;
  failed_at = t.failed_at;
  error = t.error;
  exit_code = t.exit_code;
}

unfoldable pub take_error : ℕ → Task → TaskFields → TaskFields
take_error at t u = record u {
  state = TaskState.failed;
  failed_at = some at;
  error = t.error;
  result = t.result;
  exit_code = t.exit_code;
}

unfoldable pub take_started : ℕ → TaskFields → TaskFields
take_started at u = record u { state = TaskState.running; started_at = some at }

unfoldable pub mark_failed : ℕ → Task → Task
mark_failed at = with (λ u. record u { state = TaskState.failed; failed_at = some at })

-- The early return of `handle_redelivered`.
unfoldable pub is_settled : TaskState → Bool
is_settled TaskState.completed = true
is_settled TaskState.failed = true
is_settled TaskState.cancelled = true
is_settled _ = false

module _ (env : Env) where
  -- An update of the stored fields of the task that the message names.
  unfoldable pub persist : (Task → TaskFields → TaskFields) → Task → M (Unit {0})
  persist change t = do
    id ← ok_or missing_task_id t.id
    update_task env id (λ u. ok (with (change t) u, tt))

  abbrev pub fire : Task → String → M (Unit {0})
  fire t event = ignore_error (fire_task_webhooks t event)

  unfoldable pub handle_pending_task : Task → M (Unit {0})
  handle_pending_task t = if should_skip_task env t then skip_task env t else schedule_task env t

  unfoldable pub redeliver : String → String → Task → M (Unit {0})
  redeliver id queue t = do
    update_task env id (λ u. ok (with (λ f. record f { redelivered = t.redelivered }) u, tt))
    publish env (task queue t)

  unfoldable pub handle_redelivered : Task → M (Unit {0})
  unfolding redeliver
  handle_redelivered t = do
    id ← ok_or redelivered_missing_task_id t.id
    persisted ← get_task_by_id id
    if is_settled persisted.state
        then pure tt
        else redeliver id (unwrap_or persisted.queue "default")
            (with (λ f. record f { redelivered = f.redelivered + 1 }) t)

  unfoldable pub handle_started : Task → M (Unit {0})
  unfolding take_started
  handle_started t = do
    id ← ok_or missing_task_id t.id
    at ← now env
    update_task env id (λ u. ok (with (take_started at) u, tt))
    fire t "task.Started"

  unfoldable pub handle_log_part : TaskLogPart → M (Unit {0})
  handle_log_part part = create_task_log_part part

  -- By the task's parent: a subtask, or a top-level task of its job.
  unfoldable pub route_completed : Option String → Task → M (Unit {0})
  route_completed (some parent_id) t = handle_subtask_completed env parent_id
  route_completed none t = do
    job_id ← ok_or missing_job_id t.job_id
    handle_top_level_task_completed env job_id

  unfoldable pub route_completed_task : Task → M (Unit {0})
  unfolding route_completed
  route_completed_task t = route_completed t.parent_id t

  unfoldable pub handle_task_completed : Task → M (Unit {0})
  unfolding persist take_completed
  handle_task_completed t = do
    persist take_completed t
    fire t "task.Completed"
    route_completed_task t

  -- `fail_task` is the handler for the level above.
  unfoldable pub route_failed :
      (fail_task : Task → M (Unit {0})) → Option String → Task → M (Unit {0})
  route_failed fail_task (some parent_id) t = handle_subtask_failed env fail_task t.error parent_id
  route_failed fail_task none t = do
    job_id ← ok_or missing_job_id t.job_id
    handle_top_level_task_failed env job_id t.error

  unfoldable pub route_failed_task : (fail_task : Task → M (Unit {0})) → Task → M (Unit {0})
  unfolding route_failed
  route_failed_task fail_task t = route_failed fail_task t.parent_id t

  unfoldable pub handle_task_failed : ℕ → Task → M (Unit {0})
  unfolding persist take_failed
  handle_task_failed zero t = fail out_of_fuel
  handle_task_failed (suc fuel) t = do
    persist take_failed t
    fire t "task.Failed"
    route_failed_task (handle_task_failed fuel) t

  -- The end of `handle_error` where there is no retry.
  unfoldable pub give_up : ℕ → ℕ → Task → M (Unit {0})
  unfolding mark_failed
  give_up fuel at t = do
    publish env (task queue_failed (mark_failed at t))
    handle_task_failed fuel (mark_failed at t)

  unfoldable pub may_retry : Task → Bool
  may_retry t = elim t.retry [ none ↦ false | some r ↦ can_retry r ]

  unfoldable pub handle_error : ℕ → Task → M (Unit {0})
  unfolding take_error give_up may_retry
  handle_error fuel t = do
    id ← ok_or missing_task_id t.id
    job_id ← ok_or missing_job_id t.job_id
    at ← now env
    update_task env id (λ u. ok (with (take_error at t) u, tt))
    j ← get_job_by_id job_id
    if is_job_active j.state
        then (if may_retry t then create_retry_task env t j at else give_up fuel at t)
        else fire t "task.Error"

  unfoldable pub progress_by_state : ℕ → TaskState → Task → M (Unit {0})
  progress_by_state fuel TaskState.pending t = handle_pending_task t
  progress_by_state fuel TaskState.completed t = handle_task_completed t
  progress_by_state fuel TaskState.failed t = handle_error fuel t
  progress_by_state fuel _ t = persist take_progress t

  unfoldable pub handle_task_progress : ℕ → Task → M (Unit {0})
  unfolding progress_by_state
  handle_task_progress fuel t = progress_by_state fuel t.state t
