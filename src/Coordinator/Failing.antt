-- ===== src/Coordinator/Failing.antt =====
-- A failed task is tried again, or fails its job (`handle_error` in
-- crates/twerk-app/src/engine/coordinator/handlers/task_handlers.rs, retry.rs).
pub mod NoRetry
use twerk.Prelude.{
  ℕ, suc, ◌≤◌, ◌⊎◌, inl, inr, arith, String, false, false, ◌≡◌, refl, ◌∙◌, none, some, List, [],
  ◌∷◌, ◌++◌, map, if◌then◌else◌,
}
use twerk.Map.{get, get-insert_self}
use twerk.Id.{validate_id}
use twerk.TaskState.{TaskState}
use twerk.JobState.{JobState}
use twerk.Task.{Task, with, new_task_summary}
use twerk.Task.Nested.{TaskRetry}
use twerk.Job.{Job}
use twerk.World.{
  Result, missing_task_id, missing_job_id, job, Message, task_hook, World, Env, ignore_error,
  on_store, tick,
}
use twerk.World.Steps.{bind-ok, ok_or-ok, if-false}
use twerk.Datastore.{put_task}
use twerk.Datastore.Laws.{get_job_by_id-ok, update_task-ok, now-ok}
use twerk.Coordinator.Expected.{unfinished, with_error}
use twerk.Coordinator.Util.{queue_pending, queue_failed, is_job_active, can_retry}
use twerk.Coordinator.Webhook.{matching_webhooks, fire_task_webhooks}
use twerk.Coordinator.Handlers.Retry.{create_retry_task}
use twerk.Coordinator.Handlers.Workflow.{fail_with, handle_top_level_task_failed}
use twerk.Coordinator.Handlers.Task.{
  take_failed, take_error, mark_failed, persist, fire, may_retry, give_up, route_failed,
  route_failed_task, handle_task_failed, handle_error,
}

pub is_job_active-unfinished : (s : JobState) → is_job_active s ≡ unfinished s
unfolding is_job_active
is_job_active-unfinished JobState.pending = refl
is_job_active-unfinished JobState.scheduled = refl
is_job_active-unfinished JobState.running = refl
is_job_active-unfinished JobState.cancelled = refl
is_job_active-unfinished JobState.completed = refl
is_job_active-unfinished JobState.failed = refl
is_job_active-unfinished JobState.restart = refl

module _ (env : Env) where
  pub may_retry-false :
      (t : Task)
      → (t.retry ≡ none) ⊎ ((r : TaskRetry) × (t.retry ≡ some r) × (r.limit ≤ r.attempts))
      → may_retry env t ≡ false
  unfolding may_retry can_retry
  may_retry-false t (inl e) = rw e refl
  may_retry-false t (inr (r, e, over)) = rw e (ground arith)

  -- The stored task after the report of an error: failed, with what the message says.
  abbrev pub failed_in : String → (t u : Task) → World → World
  failed_in id t u w = on_store (put_task id (with_error (env.now w.reads) t u)) (tick w)

  module _ (id job_id : String) (t u : Task) (j : Job) (w : World) (named : t.id ≡ some id)
      (of_job : t.job_id ≡ some job_id) (stored : get w.store.tasks id ≡ some u)
      (valid : validate_id env.is_alphanumeric id ≡ none)
      (job_stored : get w.store.jobs job_id ≡ some j) where
    pub handle_error-starts :
        (fuel : ℕ)
        → handle_error env fuel t w
          ≡ (if is_job_active j.state
                then (if may_retry env t
                    then create_retry_task env t j (env.now w.reads)
                    else give_up env fuel (env.now w.reads) t)
                else fire env t "task.Error")
              (failed_in id t u w)
    unfolding handle_error take_error
    handle_error-starts fuel =
        bind-ok _ _ w (ok_or-ok missing_task_id t.id w named)
        ∙ bind-ok _ _ w (ok_or-ok missing_job_id t.job_id w of_job)
        ∙ bind-ok _ _ w (now-ok env w)
        ∙ bind-ok _ _ (tick w) (update_task-ok env id (tick w) _ stored refl valid)
        ∙ bind-ok _ _ (failed_in id t u w) (get_job_by_id-ok job_id (failed_in id t u w) job_stored)
