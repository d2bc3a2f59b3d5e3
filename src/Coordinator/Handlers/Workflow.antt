-- ===== src/Coordinator/Handlers/Workflow.antt =====
-- A job goes on to its next top-level task, completes or fails
-- (crates/twerk-app/src/engine/coordinator/handlers/task_workflow.rs).
use twerk.Prelude.{ℕ, ◌+◌, String, Option, some, leb, length, get_elem?, if◌then◌else◌}
use twerk.Id.{validate_job_id}
use twerk.TaskState.{TaskState}
use twerk.JobState.{JobState}
use twerk.Task.{Task, with}
use twerk.Job.{Job}
use twerk.World.{
  ok, job_has_no_tasks, task_out_of_bounds, task, job, Env, M, ◌>>=◌, ◌>>◌, ok_or, now,
  new_short_uuid, publish,
}
use twerk.Datastore.{get_job_by_id, update_job, create_task, checked}
use twerk.Coordinator.Util.{queue_pending}

-- The task at a position of a job, pending. Its templates are not evaluated here.
unfoldable pub next_task : (id job_id : String) → (position : ℕ) → ℕ → Task → Task
next_task id job_id position at = with λ u. record u {
  id = some id;
  job_id = some job_id;
  state = TaskState.pending;
  position = position;
  created_at = some at;
}

unfoldable pub complete : Job → Job
complete j = record j { state = JobState.completed }

unfoldable pub fail_with : ℕ → Option String → Job → Job
fail_with at error j = record j { state = JobState.failed; failed_at = some at; error = error }

module _ (env : Env) where
  -- `position` is the job's position before the step, so the next one is `position + 1` and its
  -- index in the list is `position`.
  unfoldable pub advance : (job_id : String) → (position : ℕ) → ℕ → Option Task → M (Unit {0})
  unfolding next_task
  advance job_id position at base = do
    base_task ← ok_or task_out_of_bounds base
    id ← new_short_uuid env
    checked (validate_job_id env.is_uuid job_id)
    let t = next_task id job_id (position + 1) at base_task
    create_task t
    update_job env job_id (λ u. ok (record u { position = position + 1 }, tt))
    publish env (task queue_pending t)

  unfoldable pub handle_top_level_task_completed : String → M (Unit {0})
  unfolding complete
  handle_top_level_task_completed job_id = do
    j ← get_job_by_id job_id
    at ← now env
    tasks ← ok_or job_has_no_tasks j.tasks
    if leb (j.position + 1) (length tasks)
        then advance job_id j.position at (get_elem? tasks j.position)
        else publish env (job (complete j))

  unfoldable pub handle_top_level_task_failed : String → Option String → M (Unit {0})
  unfolding fail_with
  handle_top_level_task_failed job_id task_error = do
    j ← get_job_by_id job_id
    at ← now env
    publish env (job (fail_with at task_error j))
