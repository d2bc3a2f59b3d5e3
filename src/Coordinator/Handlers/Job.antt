-- ===== src/Coordinator/Handlers/Job.antt =====
-- The job handlers (crates/twerk-app/src/engine/coordinator/handlers/job_handlers.rs).
use twerk.Prelude.{
  ℕ, zero, suc, ◌-◌, String, Option, none, some, List, not, length, get_elem?, keep, if◌then◌else◌,
}
use twerk.Map.{Map}
use twerk.TaskState.{TaskState, is_active}
use twerk.JobState.{JobState}
use twerk.Task.{Task, with}
use twerk.Task.Nested.{Progress}
use twerk.Job.{Job, no_progress, full_progress}
use twerk.World.{
  ok, job_has_no_tasks, task_out_of_bounds, missing_job_id, handler, task, event, Env, M, pure,
  ◌>>=◌, ◌>>◌, ok_or, lift, now, new_short_uuid, publish,
}
use twerk.Eval.{evaluate_task}
use twerk.Datastore.{get_task_by_id, get_job_by_id, get_all_tasks_for_job, update_job, create_task}
use twerk.Coordinator.Util.{
  queue_pending, queue_completed, queue_failed, topic_job_completed, topic_job_failed,
  is_job_active, build_job_context,
}
use twerk.Coordinator.Webhook.{fire_job_webhooks}
use twerk.Coordinator.Handlers.Retry.{eval_text}
use twerk.Coordinator.Handlers.Task.{handle_pending_task}
use twerk.Coordinator.Handlers.Cancellation.{cancel, cancel_parent_job, cancel_active_tasks}

-- `.max(1)` of a length.
abbrev pub at_least_one : ℕ → ℕ
at_least_one zero = 1
at_least_one (suc n) = suc n

abbrev pub first : Option (List Task) → Option Task
first none = none
first (some ts) = get_elem? ts 0

-- `tasks.get((position - 1) as usize)`: at position 0 the cast gives an index past any list.
unfoldable pub task_at : ℕ → List Task → Option Task
task_at zero ts = none
task_at (suc i) ts = get_elem? ts i

-- The closures of the updates.
unfoldable pub mark_scheduled : ℕ → Job → Job
mark_scheduled at u = record u {
  state = JobState.scheduled;
  started_at = some at;
  position = 1;
  progress = no_progress;
}

unfoldable pub mark_restarted : Job → Job
mark_restarted u = record u { state = JobState.running; failed_at = none }

unfoldable pub mark_completed : ℕ → Job → Job
mark_completed at u = record u {
  state = JobState.completed;
  completed_at = some at;
  progress = full_progress;
}

unfoldable pub run_if_scheduled : JobState → Job → Job
run_if_scheduled JobState.scheduled u = record u { state = JobState.running; failed_at = none }
run_if_scheduled _ u = u

unfoldable pub mark_running : Progress → Job → Job
unfolding run_if_scheduled
mark_running progress u = record (run_if_scheduled u.state u) { progress = progress }

abbrev task_total : Option (List Task) → ℕ
task_total none = 1
task_total (some ts) = at_least_one (length ts)

unfoldable pub mark_failed : Option ℕ → Job → Job
mark_failed failed_at u =
    let u' =
      if is_job_active u.state
      then record u { state = JobState.failed; failed_at = failed_at }
      else u in
    record u' { progress = record { done = u.position - 1; total = task_total u.tasks } }

-- The evaluated template as the pending task of a job.
unfoldable pub as_pending : (id job_id : String) → (position : ℕ) → ℕ → Task → Task
as_pending id job_id position at = with λ u. record u {
  id = some id;
  job_id = some job_id;
  state = TaskState.pending;
  position = position;
  created_at = some at;
}

-- The parent task that `complete_job` publishes, and the one that `fail_job` publishes.
unfoldable pub parent_completed : ℕ → Task → Task
parent_completed at = with (λ u. record u { state = TaskState.completed; completed_at = some at })

unfoldable pub parent_failed : Option ℕ → Option String → Task → Task
parent_failed failed_at error =
    with (λ u. record u { state = TaskState.failed; failed_at = failed_at; error = error })

module _ (env : Env) where
  unfoldable pub build_pending_job_task :
      Task → Map env.Value → (job_id : String) → (position : ℕ) → ℕ → M Task
  unfolding as_pending
  build_pending_job_task base_task ctx job_id position at = do
    evaluated ← lift (eval_text env (evaluate_task env ctx base_task))
    id ← new_short_uuid env
    pure (as_pending id job_id position at evaluated)

  unfoldable pub start_job : Job → M (Unit {0})
  unfolding mark_scheduled
  start_job j = do
    base_task ← ok_or job_has_no_tasks (first j.tasks)
    at ← now env
    job_id ← ok_or missing_job_id j.id
    update_job env job_id (λ u. ok (mark_scheduled at u, tt))
    t ← build_pending_job_task base_task (build_job_context env j) job_id 1 at
    create_task t
    fire_job_webhooks j "job.Scheduled"
    handle_pending_task env t

  -- The stored job is marked as running before the position is checked.
  unfoldable pub restart_job : Job → M (Unit {0})
  unfolding mark_restarted task_at
  restart_job j = do
    job_id ← ok_or missing_job_id j.id
    at ← now env
    update_job env job_id (λ u. ok (mark_restarted u, tt))
    tasks ← ok_or job_has_no_tasks j.tasks
    base_task ← ok_or task_out_of_bounds (task_at j.position tasks)
    t ← build_pending_job_task base_task (build_job_context env j) job_id j.position at
    create_task t
    publish env (task queue_pending t)

  unfoldable pub publish_completed : Option String → ℕ → Job → M (Unit {0})
  unfolding parent_completed
  publish_completed none at j = publish env (event topic_job_completed j)
  publish_completed (some parent_id) at j = do
    parent ← get_task_by_id parent_id
    publish env (task queue_completed (parent_completed at parent))

  unfoldable pub complete_job : Job → M (Unit {0})
  unfolding mark_completed publish_completed
  complete_job j = do
    at ← now env
    job_id ← ok_or missing_job_id j.id
    update_job env job_id (λ u. ok (mark_completed at u, tt))
    updated ← get_job_by_id job_id
    fire_job_webhooks updated "job.Completed"
    publish_completed j.parent_id at j

  unfoldable pub mark_job_as_running : Job → M (Unit {0})
  unfolding mark_running
  mark_job_as_running j = do
    job_id ← ok_or (handler "job has no id") j.id
    tasks ← get_all_tasks_for_job env job_id
    let done = length (keep (λ t. not (is_active t.state)) tasks)
    let progress : Progress = record { done = done; total = at_least_one (length tasks) }
    update_job env job_id (λ u. ok (mark_running progress u, tt))

  unfoldable pub publish_failed_parent : Option String → Job → M (Unit {0})
  unfolding parent_failed
  publish_failed_parent none j = pure tt
  publish_failed_parent (some parent_id) j = do
    parent ← get_task_by_id parent_id
    publish env (task queue_failed (parent_failed j.failed_at j.error parent))

  -- The event is sent only where the stored job is failed.
  unfoldable pub publish_failed_event : JobState → Job → M (Unit {0})
  publish_failed_event JobState.failed j = publish env (event topic_job_failed j)
  publish_failed_event _ j = pure tt

  unfoldable pub fail_job : Job → M (Unit {0})
  unfolding mark_failed publish_failed_parent publish_failed_event
  fail_job j = do
    job_id ← ok_or (handler "job has no id") j.id
    update_job env job_id (λ u. ok (mark_failed j.failed_at u, tt))
    publish_failed_parent j.parent_id j
    cancel_active_tasks env job_id
    updated ← get_job_by_id job_id
    publish_failed_event updated.state updated

  unfoldable pub cancel_parent : Option String → M (Unit {0})
  cancel_parent none = pure tt
  cancel_parent (some parent_id) = cancel_parent_job env parent_id

  unfoldable pub handle_cancel : Job → M (Unit {0})
  unfolding cancel cancel_parent
  handle_cancel j = do
    job_id ← ok_or (handler "job has no id") j.id
    if is_job_active j.state then update_job env job_id (λ u. ok (cancel u, tt)) else pure tt
    cancel_parent j.parent_id
    cancel_active_tasks env job_id

  unfoldable pub job_event_by_state : JobState → Job → M (Unit {0})
  job_event_by_state JobState.pending j = start_job j
  job_event_by_state JobState.completed j = complete_job j
  job_event_by_state JobState.restart j = restart_job j
  job_event_by_state JobState.cancelled j = handle_cancel j
  job_event_by_state JobState.failed j = fail_job j
  job_event_by_state JobState.running j = mark_job_as_running j
  job_event_by_state JobState.scheduled j = pure tt

  unfoldable pub handle_job_event : Job → M (Unit {0})
  unfolding job_event_by_state
  handle_job_event j = job_event_by_state j.state j
