-- ===== src/Coordinator/Webhook.antt =====
-- The webhooks that are fired on a job's and on a task's event
-- (crates/twerk-app/src/engine/coordinator/webhook.rs). The HTTP call itself runs in a task of its
-- own and does not come back to the handler: it is a `HookCall` here.
use twerk.Prelude.{String, Bool, false, none, some, List, [], ◌++◌, map, str_eq, unwrap_or, keep}
use twerk.Task.{Task, new_task_summary}
use twerk.Task.Nested.{Webhook}
use twerk.Job.{Job}
use twerk.World.{ok, missing_job_id, HookCall, job_hook, task_hook, M, ◌>>=◌, ok_or}
use twerk.Datastore.{get_job_by_id}

abbrev matches : String → Webhook → Bool
matches event wh = elim wh.event [ none ↦ false | some e ↦ str_eq e event ]

unfoldable pub matching_webhooks : String → Job → List Webhook
matching_webhooks event job = keep (matches event) (unwrap_or job.webhooks [])

abbrev pub fire : List HookCall → M (Unit {0})
fire calls w = (ok tt, record w { hooks = w.hooks ++ calls })

unfoldable pub fire_job_webhooks : Job → String → M (Unit {0})
unfolding matching_webhooks
fire_job_webhooks job event = fire (map (λ wh. job_hook wh job) (matching_webhooks event job))

unfoldable pub fire_task_webhooks : Task → String → M (Unit {0})
unfolding matching_webhooks
fire_task_webhooks t event = do
  job_id ← ok_or missing_job_id t.job_id
  job ← get_job_by_id job_id
  fire (map (λ wh. task_hook wh (new_task_summary t)) (matching_webhooks event job))
