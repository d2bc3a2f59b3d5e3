-- ===== src/Coordinator/Handlers/Subtask.antt =====
-- The end of a subtask of a parallel or an each task
-- (crates/twerk-app/src/engine/coordinator/handlers/subtask_handlers.rs).
use twerk.Prelude.{
  ℕ, ◌+◌, String, Bool, true, false, ◌||◌, Option, none, some, List, length, leb, is_some,
  if◌then◌else◌,
}
use twerk.TaskState.{TaskState}
use twerk.Task.{Task, EachTask, with}
use twerk.Task.Nested.{TaskDef}
use twerk.World.{ok, missing_parent_task_id, task, Env, M, pure, ◌>>=◌, ok_or, now, publish}
use twerk.Datastore.{get_task_by_id, update_task}
use twerk.Coordinator.Util.{queue_completed}

-- The flag `is_last` stays false where there is no list of subtasks.
abbrev reached : ℕ → Option (List TaskDef) → Bool
reached n none = false
reached n (some defs) = leb (length defs) n

-- The closure over a stored parallel task: one more completion, and whether it is the last.
unfoldable pub count_parallel : Task → Task × Bool
count_parallel u = elim u.parallel [
  | none ↦ (u, false)
  | some p ↦ (
    record u { parallel = some (record p { completions = p.completions + 1 }) },
    reached (p.completions + 1) p.tasks,
  )
]

unfoldable pub complete_one : EachTask → EachTask
complete_one e = record e { fields = record e.fields { completions = e.completions + 1 } }

-- The closure over a stored each task.
unfoldable pub count_each : Task → Task × Bool
unfolding complete_one
count_each u = elim u.each [
  | none ↦ (u, false)
  | some e ↦ (record u { each = some (complete_one e) }, leb e.size (e.completions + 1))
]

unfoldable pub mark_completed : ℕ → Task → Task
mark_completed at = with (λ u. record u { state = TaskState.completed; completed_at = some at })

unfoldable pub mark_failed_by : ℕ → Option String → Task → Task
mark_failed_by at error =
    with (λ u. record u { state = TaskState.failed; failed_at = some at; error = error })

module _ (env : Env) where
  -- The end of both handlers: after the last subtask the parent, as it was read before the count,
  -- is published as completed.
  unfoldable pub publish_if_last : Task → Bool → M (Unit {0})
  unfolding mark_completed
  publish_if_last parent false = pure tt
  publish_if_last parent true = do
    at ← now env
    publish env (task queue_completed (mark_completed at parent))

  unfoldable pub handle_parallel_subtask_completed : Task → M (Unit {0})
  unfolding count_parallel publish_if_last
  handle_parallel_subtask_completed parent = do
    parent_id ← ok_or missing_parent_task_id parent.id
    is_last ← update_task env parent_id (λ u. ok (count_parallel u))
    publish_if_last parent is_last

  unfoldable pub handle_each_subtask_completed : Task → M (Unit {0})
  unfolding count_each publish_if_last
  handle_each_subtask_completed parent = do
    parent_id ← ok_or missing_parent_task_id parent.id
    is_last ← update_task env parent_id (λ u. ok (count_each u))
    publish_if_last parent is_last

  unfoldable pub handle_subtask_completed : String → M (Unit {0})
  handle_subtask_completed parent_id = do
    parent ← get_task_by_id parent_id
    if is_some parent.parallel
        then handle_parallel_subtask_completed parent
        else if is_some parent.each
        then handle_each_subtask_completed parent
        else pure tt

  -- `fail_task` is `handle_task_failed`, which this handler calls on the parent.
  unfoldable pub handle_subtask_failed :
      (fail_task : Task → M (Unit {0})) → Option String → String → M (Unit {0})
  unfolding mark_failed_by
  handle_subtask_failed fail_task error parent_id = do
    parent ← get_task_by_id parent_id
    if is_some parent.parallel || is_some parent.each
        then (do at ← now env; fail_task (mark_failed_by at error parent))
        else pure tt
