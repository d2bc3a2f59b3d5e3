-- ===== src/Coordinator/Dispatch.antt =====
-- What the coordinator does with a message: the subscriptions of `start`, and `submit_job`
-- (crates/twerk-app/src/engine/coordinator/mod.rs).
use twerk.Prelude.{ℕ, String, Bool, Option, none, some, List, length}
use twerk.Id.{validate_job_id}
use twerk.Task.{Task}
use twerk.Job.{Job, ScheduledJob}
use twerk.Node.{Node, TaskLogPart}
use twerk.World.{
  invalid_event, job_create, job_publish, job, Env, M, pure, ◌>>=◌, ◌>>◌, now, new_short_uuid,
  publish, map_err, fail,
}
use twerk.Datastore.{create_job, checked}
use twerk.Coordinator.Schedule.{handle_scheduled_job}
use twerk.Coordinator.Handlers.Task.{
  handle_pending_task, handle_task_completed, handle_error, handle_started, handle_redelivered,
  handle_task_progress, handle_log_part,
}
use twerk.Coordinator.Handlers.Job.{handle_job_event}
use twerk.Coordinator.Handlers.Health.{handle_heartbeat}

-- A delivery, by the subscription that it comes through. An event of a scheduled job that cannot be
-- read from its JSON is `none`.
pub data Delivery : Type 0 where
  pending completed failed started redelivery progress : Task → Delivery
  job_event : Job → Delivery
  heartbeat : Node → Delivery
  log_part : TaskLogPart → Delivery
  scheduled : Option ScheduledJob → Delivery

-- The number of the tasks, where there are any.
abbrev pub counted : Option (List Task) → ℕ → ℕ
counted none n = n
counted (some ts) n = length ts

module _ (env : Env) where
  unfoldable pub handler_of : ℕ → Delivery → M (Unit {0})
  handler_of fuel (pending t) = handle_pending_task env t
  handler_of fuel (completed t) = handle_task_completed env t
  handler_of fuel (failed t) = handle_error env fuel t
  handler_of fuel (started t) = handle_started env t
  handler_of fuel (redelivery t) = handle_redelivered env t
  handler_of fuel (progress t) = handle_task_progress env fuel t
  handler_of fuel (job_event j) = handle_job_event env j
  handler_of fuel (heartbeat n) = handle_heartbeat env n
  handler_of fuel (log_part p) = handle_log_part env p
  handler_of fuel (scheduled none) = fail invalid_event
  handler_of fuel (scheduled (some sj)) = handle_scheduled_job env sj

  -- A coordinator that was stopped drops what is delivered.
  unfoldable pub deliver : (stopped : Bool) → ℕ → Delivery → M (Unit {0})
  unfolding handler_of
  deliver Bool.true fuel d = pure tt
  deliver Bool.false fuel d = handler_of fuel d

  -- The given identifier, or a new one that is checked.
  unfoldable pub job_id_for : Option String → M String
  job_id_for (some id) = pure id
  job_id_for none = do id ← new_short_uuid env; checked (validate_job_id env.is_uuid id); pure id

  unfoldable pub created_at_for : Option ℕ → M ℕ
  created_at_for (some at) = pure at
  created_at_for none = now env

  -- The end of `submit_job`.
  unfoldable pub store_job : Job → M Job
  unfolding map_err
  store_job j = do
    map_err job_create (create_job j)
    map_err job_publish (publish env (job j))
    pure j

  unfoldable pub submit_job : Job → M Job
  unfolding store_job job_id_for created_at_for
  submit_job j = do
    id ← job_id_for j.id
    at ← created_at_for j.created_at
    store_job
        (record j { id = some id; task_count = counted j.tasks j.task_count; created_at = some at })
