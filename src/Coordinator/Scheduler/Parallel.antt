-- ===== src/Coordinator/Scheduler/Parallel.antt =====
-- A task that runs its subtasks in parallel
-- (crates/twerk-app/src/engine/coordinator/scheduler/parallel.rs).
-- From eight subtasks on the program builds them by a parallel iterator that leaves their order
-- open; here they keep the order of the definition.
use twerk.Prelude.{ℕ, String, List}
use twerk.Map.{Map}
use twerk.Task.{Task, to_task}
use twerk.Task.Nested.{TaskDef}
use twerk.World.{
  Result, ok, err, missing_config, missing_parallel_tasks, evaluation, Env, M, ◌>>=◌, ◌>>◌, ok_or,
  lift, now,
}
use twerk.Eval.{evaluate_task}
use twerk.Datastore.{get_job_by_id}
use twerk.Coordinator.Util.{job_context_map}
use twerk.Coordinator.Scheduler.Shared.{
  scheduler_ids, mark_task_running, new_subtask, collect_all, create_and_publish_subtasks,
}

-- `map_err` into `SchedulerError::Evaluation`.
abbrev pub evaluation_error : Env → String → Result Task → Result Task
evaluation_error env context (ok t) = ok t
evaluation_error env context (err e) = err (evaluation context (env.error_text e))

module _ (env : Env) where
  unfoldable pub build_parallel_subtask :
      Map env.Value → (job_id parent_task_id : String) → ℕ → TaskDef → M Task
  build_parallel_subtask ctx job_id parent_task_id at d = do
    evaluated ← lift (evaluation_error env "parallel task" (evaluate_task env ctx (to_task d)))
    new_subtask env job_id parent_task_id at evaluated

  unfoldable pub build_parallel_subtasks :
      Map env.Value → (job_id parent_task_id : String) → ℕ → List TaskDef → M (List Task)
  build_parallel_subtasks ctx job_id parent_task_id at =
      collect_all (build_parallel_subtask ctx job_id parent_task_id at)

  unfoldable pub schedule_parallel_task : Task → M (Unit {0})
  schedule_parallel_task t = do
    (task_id, job_id) ← scheduler_ids t "parallel"
    at ← now env
    job ← get_job_by_id job_id
    mark_task_running env task_id at
    parallel ← ok_or (missing_config "parallel") t.parallel
    defs ← ok_or missing_parallel_tasks parallel.tasks
    subtasks ← build_parallel_subtasks (job_context_map env job) job_id task_id at defs
    create_and_publish_subtasks env subtasks
