-- ===== src/Coordinator/Handlers/Retry.antt =====
-- A failed task is tried again as a new task
-- (crates/twerk-app/src/engine/coordinator/handlers/retry.rs).
use twerk.Prelude.{ℕ, ◌+◌, String, none, some}
use twerk.TaskState.{TaskState}
use twerk.Task.{Task, with}
use twerk.Task.Nested.{TaskRetry}
use twerk.Job.{Job}
use twerk.World.{
  Result, ok, err, missing_retry_config, eval_error, task, Env, M, ◌>>=◌, ◌>>◌, ok_or, lift,
  new_short_uuid, publish,
}
use twerk.Eval.{evaluate_task}
use twerk.Datastore.{create_task}
use twerk.Coordinator.Util.{queue_pending, build_job_context}

unfoldable pub next_attempt : TaskRetry → TaskRetry
next_attempt r = record r { attempts = r.attempts + 1 }

-- The task that is tried next, before its templates are evaluated.
unfoldable pub retry_of : (id : String) → ℕ → TaskRetry → Task → Task
unfolding next_attempt
retry_of id at config = with λ u. record u {
  id = some id;
  created_at = some at;
  state = TaskState.pending;
  error = none;
  failed_at = none;
  retry = some (next_attempt config);
}

abbrev pub eval_text : Env → Result Task → Result Task
eval_text env (ok t) = ok t
eval_text env (err e) = err (eval_error (env.error_text e))

unfoldable pub create_retry_task : Env → Task → Job → ℕ → M (Unit {0})
unfolding retry_of
create_retry_task env t job at = do
  config ← ok_or missing_retry_config t.retry
  id ← new_short_uuid env
  final ←
      lift (eval_text env (evaluate_task env (build_job_context env job) (retry_of id at config t)))
  create_task final
  publish env (task queue_pending final)
