-- ===== src/Coordinator/Scheduler/Shared.antt =====
-- What the schedulers share
-- (crates/twerk-app/src/engine/coordinator/scheduler/shared.rs).
use Prim.Native.String
use twerk.Prelude.{ℕ, String, Option, none, some, List, [], ◌∷◌}
use twerk.Id.{validate_job_id}
use twerk.TaskState.{TaskState}
use twerk.Task.{Task, with}
use twerk.World.{
  Result, ok, err, task_id_required, job_id_required, tasks, Env, M, pure, fail, ◌>>=◌, ◌>>◌, ok_or,
  ignore_error, new_short_uuid, publish,
}
use twerk.Datastore.{create_tasks, update_task, checked}
use twerk.Coordinator.Util.{queue_pending}

-- `SchedulerIds`: the task's identifier and its job's.
unfoldable pub scheduler_ids : Task → String → M (String × String)
scheduler_ids t scheduler = do
  task_id ← ok_or (task_id_required scheduler) t.id
  job_id ← ok_or (job_id_required scheduler) t.job_id
  pure (task_id, job_id)

unfoldable pub mark_running : ℕ → Task → Task
mark_running at = with (λ u. record u { state = TaskState.running; started_at = some at })

unfoldable pub mark_publish_failed : String → Task → Task
mark_publish_failed message =
    with (λ u. record u { state = TaskState.failed; error = some message })

-- A subtask: the evaluated template, pending, under its parent.
unfoldable pub as_subtask : (id job_id parent_id : String) → ℕ → Task → Task
as_subtask id job_id parent_id at = with λ u. record u {
  id = some id;
  job_id = some job_id;
  parent_id = some parent_id;
  state = TaskState.pending;
  created_at = some at;
}

-- `iter().map(f).collect::<Result<Vec<_>>>()` where `f` draws identifiers.
unfoldable pub collect_all {ℓ} : {A : Type ℓ} {B : Type 0} → (A → M B) → List A → M (List B)
collect_all f [] = pure []
collect_all f (x ∷ xs) = do y ← f x; ys ← collect_all f xs; pure (y ∷ ys)

module _ (env : Env) where
  unfoldable pub mark_task_running : String → ℕ → M (Unit {0})
  unfolding mark_running
  mark_task_running task_id at = update_task env task_id (λ u. ok (mark_running at u, tt))

  -- The last part of the two `build` functions.
  unfoldable pub new_subtask : (job_id parent_id : String) → ℕ → Task → M Task
  unfolding as_subtask
  new_subtask job_id parent_id at evaluated = do
    id ← new_short_uuid env
    checked (validate_job_id env.is_uuid job_id)
    pure (as_subtask id job_id parent_id at evaluated)

  -- The updates run one after another; a task with no identifier is left out, and an update that
  -- fails is dropped.
  unfoldable pub rollback_one : String → Option String → M (Unit {0})
  unfolding mark_publish_failed
  rollback_one message none = pure tt
  rollback_one message (some id) =
      ignore_error (update_task env id (λ u. ok (mark_publish_failed message u, tt)))

  unfoldable pub rollback_failed_publish : List Task → String → M (Unit {0})
  unfolding rollback_one
  rollback_failed_publish [] message = pure tt
  rollback_failed_publish (t ∷ ts) message = do
    rollback_one message t.id
    rollback_failed_publish ts message

  unfoldable pub after_publish : Result (Unit {0}) → List Task → M (Unit {0})
  after_publish (ok u) subtasks = pure u
  after_publish (err e) subtasks = do
    rollback_failed_publish subtasks (String.◌++◌ "broker publish failed: " (env.error_text e))
    fail e

  -- `if let Err(error) = publish { rollback; return Err(error) }`.
  unfoldable pub publish_or_rollback : List Task → M (Unit {0})
  publish_or_rollback subtasks w =
      let (r, w') = publish env (tasks queue_pending subtasks) w in after_publish r subtasks w'

  unfoldable pub create_and_publish_subtasks : List Task → M (Unit {0})
  create_and_publish_subtasks [] = pure tt
  create_and_publish_subtasks (t ∷ ts) = do create_tasks (t ∷ ts); publish_or_rollback (t ∷ ts)
