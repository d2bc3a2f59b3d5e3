-- ===== src/Coordinator/Handlers/Cancellation.antt =====
-- Cancelling a job's tasks and its parent
-- (crates/twerk-app/src/engine/coordinator/handlers/cancellation.rs).
use twerk.Prelude.{String, Option, none, some, List, [], ◌∷◌, unwrap_or}
use twerk.TaskState.{TaskState}
use twerk.JobState.{JobState}
use twerk.Task.{Task, with, SubJobTask}
use twerk.Job.{Job}
use twerk.World.{ok, handler, task, job, Env, M, pure, ◌>>=◌, ◌>>◌, ok_or, publish}
use twerk.Datastore.{get_task_by_id, get_job_by_id, get_node_by_id, get_active_tasks, update_task}
use twerk.Coordinator.Util.{queue_pending}

unfoldable pub mark_cancelled : Task → Task
mark_cancelled = with (λ u. record u { state = TaskState.cancelled })

unfoldable pub cancel : Job → Job
cancel j = record j { state = JobState.cancelled }

module _ (env : Env) where
  unfoldable pub cancel_parent_job : String → M (Unit {0})
  unfolding cancel
  cancel_parent_job parent_id = do
    parent_task ← get_task_by_id parent_id
    parent_job_id ← ok_or (handler "parent task has no job_id") parent_task.job_id
    parent_job ← get_job_by_id parent_job_id
    publish env (job (cancel parent_job))

  unfoldable pub cancel_subjob : SubJobTask → M (Unit {0})
  unfolding cancel
  cancel_subjob sj = do
    id ← ok_or (handler "subjob has no id") sj.id
    j ← get_job_by_id id
    publish env (job (cancel j))

  unfoldable pub tell_node : Option String → Task → M (Unit {0})
  tell_node none t = pure tt
  tell_node (some node_id) t = do
    node ← get_node_by_id node_id
    publish env (task (unwrap_or node.queue queue_pending) t)

  unfoldable pub cancel_affinity : Option SubJobTask → Task → M (Unit {0})
  unfolding cancel_subjob tell_node
  cancel_affinity (some sj) t = cancel_subjob sj
  cancel_affinity none t = tell_node t.node_id t

  unfoldable pub cancel_task_affinity : Task → M (Unit {0})
  unfolding cancel_affinity
  cancel_task_affinity t = cancel_affinity t.subjob t

  unfoldable pub cancel_task : Task → M (Unit {0})
  unfolding mark_cancelled
  cancel_task t = do
    id ← ok_or (handler "task has no id") t.id
    update_task env id (λ u. ok (mark_cancelled u, tt))
    cancel_task_affinity t

  -- The `for` loop: the first error ends it.
  unfoldable pub cancel_tasks : List Task → M (Unit {0})
  unfolding cancel_task
  cancel_tasks [] = pure tt
  cancel_tasks (t ∷ ts) = do cancel_task t; cancel_tasks ts

  unfoldable pub cancel_active_tasks : String → M (Unit {0})
  unfolding cancel_tasks
  cancel_active_tasks job_id = do ts ← get_active_tasks env job_id; cancel_tasks ts
