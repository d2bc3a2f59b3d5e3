-- ===== src/Coordinator/Index/Tasks.antt =====
-- The task handlers keep the job index well formed.
use twerk.Prelude.{ℕ, zero, suc, String, Bool, true, false, Option, none, some}
use twerk.TaskState.{TaskState}
use twerk.Task.{Task}
use twerk.Task.Nested.{TaskFields}
use twerk.Job.{Job}
use twerk.Node.{TaskLogPart}
use twerk.World.{Env, M}
use twerk.World.Keeps.{Keeps-fail, Keeps-ignore_error, Keeps-bind, Keeps-if}
use twerk.Datastore.Indexed.{SameKey}
use twerk.Task.{with}
use twerk.Coordinator.Index.Closures.{take_progress-same, take_completed-same, take_failed-same}
use twerk.Coordinator.Index.Schedulers.{
  IndexKept, rules, Keeps-fire_task_webhooks, Keeps-skip_task, Keeps-schedule_task,
}
use twerk.Coordinator.Handlers.Retry.{create_retry_task}
use twerk.Coordinator.Handlers.Workflow.{
  advance, handle_top_level_task_completed, handle_top_level_task_failed,
}
use twerk.Coordinator.Handlers.Subtask.{
  publish_if_last, handle_parallel_subtask_completed, handle_each_subtask_completed,
  handle_subtask_completed, handle_subtask_failed,
}
use twerk.Coordinator.Handlers.Task.{
  take_progress, take_completed, take_failed, persist, handle_pending_task, redeliver,
  handle_redelivered, handle_started, handle_log_part, route_completed, route_completed_task,
  handle_task_completed, route_failed, route_failed_task, handle_task_failed, give_up, handle_error,
  progress_by_state, handle_task_progress,
}

module _ (env : Env) where
  Keeps-create_retry_task : (t : Task) (j : Job) (at : ℕ) → IndexKept (create_retry_task env t j at)
  unfolding create_retry_task
  Keeps-create_retry_task t j at = search rules depth 16

  Keeps-advance :
      (job_id : String) (position at : ℕ) (base : Option Task)
      → IndexKept (advance env job_id position at base)
  unfolding advance
  Keeps-advance job_id position at base = search rules depth 16

  Keeps-top_level_completed : (id : String) → IndexKept (handle_top_level_task_completed env id)
  unfolding handle_top_level_task_completed
  Keeps-top_level_completed id = search (rules, Keeps-advance) depth 16

  Keeps-top_level_failed :
      (id : String) (e : Option String) → IndexKept (handle_top_level_task_failed env id e)
  unfolding handle_top_level_task_failed
  Keeps-top_level_failed id e = search rules depth 16

  Keeps-publish_if_last : (t : Task) (b : Bool) → IndexKept (publish_if_last env t b)
  unfolding publish_if_last
  Keeps-publish_if_last t true = search rules depth 16
  Keeps-publish_if_last t false = search rules depth 16

  Keeps-parallel_completed : (t : Task) → IndexKept (handle_parallel_subtask_completed env t)
  unfolding handle_parallel_subtask_completed
  Keeps-parallel_completed t = search (rules, Keeps-publish_if_last) depth 16

  Keeps-each_completed : (t : Task) → IndexKept (handle_each_subtask_completed env t)
  unfolding handle_each_subtask_completed
  Keeps-each_completed t = search (rules, Keeps-publish_if_last) depth 16

  Keeps-subtask_completed : (id : String) → IndexKept (handle_subtask_completed env id)
  unfolding handle_subtask_completed
  Keeps-subtask_completed id =
      search (rules, Keeps-parallel_completed, Keeps-each_completed) depth 16

  Keeps-subtask_failed :
      (fail_task : Task → M (Unit {0})) (e : Option String) (id : String)
      → ((t : Task) → IndexKept (fail_task t))
      → IndexKept (handle_subtask_failed env fail_task e id)
  unfolding handle_subtask_failed
  Keeps-subtask_failed fail_task e id k = search (rules, k) depth 16

  Keeps-persist :
      (change : Task → TaskFields → TaskFields) (t : Task)
      → ((u : Task) → SameKey (with (change t) u) u)
      → IndexKept (persist env change t)
  unfolding persist
  Keeps-persist change t same = search (rules, same) depth 16

  pub Keeps-handle_pending_task : (t : Task) → IndexKept (handle_pending_task env t)
  unfolding handle_pending_task
  Keeps-handle_pending_task t = search (Keeps-if, Keeps-skip_task, Keeps-schedule_task)

  Keeps-redeliver : (id q : String) (t : Task) → IndexKept (redeliver env id q t)
  unfolding redeliver
  Keeps-redeliver id q t = search rules depth 16

  pub Keeps-handle_redelivered : (t : Task) → IndexKept (handle_redelivered env t)
  unfolding handle_redelivered
  Keeps-handle_redelivered t = search (rules, Keeps-redeliver) depth 16

  pub Keeps-handle_started : (t : Task) → IndexKept (handle_started env t)
  unfolding handle_started
  Keeps-handle_started t = search (rules, Keeps-fire_task_webhooks) depth 16

  pub Keeps-handle_log_part : (p : TaskLogPart) → IndexKept (handle_log_part env p)
  unfolding handle_log_part
  Keeps-handle_log_part p = search rules

  Keeps-route_completed : (o : Option String) (t : Task) → IndexKept (route_completed env o t)
  unfolding route_completed
  Keeps-route_completed (some id) t = Keeps-subtask_completed id
  Keeps-route_completed none t = search (rules, Keeps-top_level_completed)

  pub Keeps-handle_task_completed : (t : Task) → IndexKept (handle_task_completed env t)
  unfolding handle_task_completed route_completed_task
  Keeps-handle_task_completed t =
      Keeps-bind _ _ (Keeps-persist take_completed t (take_completed-same t)) λ _.
        Keeps-bind _ _ (Keeps-ignore_error _ (Keeps-fire_task_webhooks t "task.Completed"))
          (λ _. Keeps-route_completed t.parent_id t)

  Keeps-route_failed :
      (fail_task : Task → M (Unit {0})) (o : Option String) (t : Task)
      → ((t : Task) → IndexKept (fail_task t))
      → IndexKept (route_failed env fail_task o t)
  unfolding route_failed
  Keeps-route_failed fail_task (some id) t k = Keeps-subtask_failed fail_task t.error id k
  Keeps-route_failed fail_task none t k = search (rules, Keeps-top_level_failed)

  pub Keeps-handle_task_failed : (fuel : ℕ) (t : Task) → IndexKept (handle_task_failed env fuel t)
  unfolding handle_task_failed route_failed_task
  Keeps-handle_task_failed zero t = Keeps-fail _
  Keeps-handle_task_failed (suc fuel) t =
      Keeps-bind _ _ (Keeps-persist take_failed t (take_failed-same t)) λ _.
        Keeps-bind _ _ (Keeps-ignore_error _ (Keeps-fire_task_webhooks t "task.Failed"))
          (λ _. Keeps-route_failed _ t.parent_id t (Keeps-handle_task_failed fuel))

  Keeps-give_up : (fuel at : ℕ) (t : Task) → IndexKept (give_up env fuel at t)
  unfolding give_up
  Keeps-give_up fuel at t = search (rules, Keeps-handle_task_failed)

  pub Keeps-handle_error : (fuel : ℕ) (t : Task) → IndexKept (handle_error env fuel t)
  unfolding handle_error
  Keeps-handle_error fuel t =
      search (rules, Keeps-give_up, Keeps-create_retry_task, Keeps-fire_task_webhooks) depth 20

  Keeps-progress_by_state :
      (fuel : ℕ) (s : TaskState) (t : Task) → IndexKept (progress_by_state env fuel s t)
  unfolding progress_by_state
  Keeps-progress_by_state fuel TaskState.pending t = Keeps-handle_pending_task t
  Keeps-progress_by_state fuel TaskState.completed t = Keeps-handle_task_completed t
  Keeps-progress_by_state fuel TaskState.failed t = Keeps-handle_error fuel t
  Keeps-progress_by_state fuel _ t = Keeps-persist take_progress t (take_progress-same t)

  pub Keeps-handle_task_progress :
      (fuel : ℕ) (t : Task) → IndexKept (handle_task_progress env fuel t)
  unfolding handle_task_progress
  Keeps-handle_task_progress fuel t = Keeps-progress_by_state fuel t.state t
