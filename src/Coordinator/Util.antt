-- ===== src/Coordinator/Util.antt =====
-- Calculations shared by the handlers and the scheduler, and `skip_task`
-- (crates/twerk-app/src/engine/coordinator/handlers/util.rs, scheduler/shared.rs,
-- crates/twerk-core/src/job.rs `JobContext::as_map`,
-- crates/twerk-infrastructure/src/broker/queue.rs).
use twerk.Prelude.{
  ℕ, String, Bool, true, false, Option, none, some, [], ◌∷◌, str_eq, ltb, unwrap_or,
}
use twerk.Map.{Map, insert}
use twerk.TaskState.{TaskState}
use twerk.JobState.{JobState, pending, scheduled, running}
use twerk.Task.{Task, with}
use twerk.Task.Nested.{TaskRetry}
use twerk.Job.{Job, JobContext}
use twerk.World.{ok, missing_task_id, task, Env, M, ◌>>=◌, ◌>>◌, ok_or, now, publish}
use twerk.Datastore.{update_task}

abbrev pub queue_pending : String
queue_pending = "x-pending"

abbrev pub queue_completed : String
queue_completed = "x-completed"

abbrev pub queue_failed : String
queue_failed = "x-failed"

abbrev pub queue_started : String
queue_started = "x-started"

abbrev pub queue_redeliveries : String
queue_redeliveries = "x-redeliveries"

abbrev pub topic_job_completed : String
topic_job_completed = "job.completed"

abbrev pub topic_job_failed : String
topic_job_failed = "job.failed"

unfoldable pub is_job_active : JobState → Bool
is_job_active running = true
is_job_active scheduled = true
is_job_active pending = true
is_job_active _ = false

unfoldable pub can_retry : TaskRetry → Bool
can_retry retry = ltb retry.attempts retry.limit

-- What `skip_task` writes, to the stored task and to the one that it publishes.
unfoldable pub mark_skipped : ℕ → Task → Task
mark_skipped at = with λ u. record u {
  state = TaskState.skipped;
  scheduled_at = some at;
  started_at = some at;
  completed_at = some at;
}

module _ (env : Env) where
  unfoldable pub should_skip_task : Task → Bool
  should_skip_task t = elim t.if_expr [ none ↦ false | some s ↦ str_eq (env.trim s) "false" ]

  abbrev add_map : Option (Map String) → String → Map env.Value → Map env.Value
  add_map none k m = m
  add_map (some v) k m = insert m k (env.map_value v)

  -- `JobContext::as_map`.
  unfoldable pub as_map : JobContext → Map env.Value
  as_map c =
      add_map c.job "job"
        (add_map c.tasks "tasks" (add_map c.secrets "secrets" (add_map c.inputs "inputs" [])))

  add_inputs : Map String → Map env.Value → Map env.Value
  add_inputs [] m = m
  add_inputs ((k, v) ∷ rest) m = add_inputs rest (insert m k (env.string_value v))

  -- The job's context, with each input at the top level too.
  unfoldable pub build_job_context : Job → Map env.Value
  unfolding as_map add_inputs
  build_job_context job = elim job.context [
    | none ↦ []
    | some c ↦ add_inputs (unwrap_or c.inputs []) (as_map c)
  ]

  -- The scheduler's context: without the inputs at the top level.
  unfoldable pub job_context_map : Job → Map env.Value
  unfolding as_map
  job_context_map job = elim job.context [ none ↦ [] | some c ↦ as_map c ]

  unfoldable pub skip_task : Task → M (Unit {0})
  unfolding mark_skipped
  skip_task t = do
    at ← now env
    id ← ok_or missing_task_id t.id
    update_task env id (λ u. ok (mark_skipped at u, tt))
    publish env (task queue_completed (mark_skipped at t))
