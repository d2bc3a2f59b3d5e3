-- ===== src/Coordinator/Scheduling.antt =====
-- What the schedulers and the submission of a job do
-- (crates/twerk-app/src/engine/coordinator/scheduler, mod.rs `submit_job`).
pub mod SubJob
use twerk.Prelude.{ℕ, String, true, ◌≡◌, refl, ap, ◌∙◌, none, some, Option, List, unwrap_or, length}
use twerk.Map.{get}
use twerk.Id.{validate_id}
use twerk.Task.{Task, with}
use twerk.Task.Nested.{TaskFields}
use twerk.Job.{Job, JobDefaults}
use twerk.World.{
  Result, ok, job_id_required, task, job, job_create, job_publish, World, Env, ◌>>◌, publish,
  map_err, on_store, emit, tick,
}
use twerk.World.Steps.{bind-ok, ok_or-ok}
use twerk.Datastore.{put_task, put_job, update_task}
use twerk.Datastore.Laws.{get_job_by_id-ok, update_task-ok, create_job-ok, publish-ok, now-ok}
use twerk.Coordinator.Expected.{scheduled_fields, taken_over}
use twerk.Coordinator.Scheduler.Regular.{
  apply_defaults, mark_scheduled, take_schedule, schedule_regular_task,
}
use twerk.Coordinator.Dispatch.{counted, store_job, job_id_for, created_at_for, submit_job}

-- The code fills the defaults first and the queue after them.
scheduled_fields-lem :
    (at : ℕ) (d : Option JobDefaults) (f : TaskFields)
    → mark_scheduled at (apply_defaults d f) ≡ scheduled_fields at d f
unfolding mark_scheduled apply_defaults
scheduled_fields-lem at none f = refl
scheduled_fields-lem at (some d) f = refl

module _ (env : Env) where
  -- The task that a regular task is sent as.
  abbrev pub scheduled_task : ℕ → Job → Task → Task
  scheduled_task at j = with (scheduled_fields at j.defaults)

  -- A regular task, stored under a valid identifier, of a stored job is sent to its queue,
  -- scheduled, with what it leaves open filled by the defaults of its job, and the stored task
  -- takes over its state, time, queue, limits, timeout, retry and priority, where the broker
  -- accepts it.
  pub schedule_regular_task-sends :
      (id job_id : String) (t u : Task) (j : Job) (w : World)
      → t.id ≡ some id
      → t.job_id ≡ some job_id
      → get w.store.jobs job_id ≡ some j
      → get w.store.tasks id ≡ some u
      → validate_id env.is_alphanumeric id ≡ none
      → env.accepts w.sent (
          task
            (unwrap_or (scheduled_task (env.now w.reads) j t).queue "")
            (scheduled_task (env.now w.reads) j t))
        ≡ true
      → schedule_regular_task env t w ≡ (
        ok tt,
        emit
            (task
              (unwrap_or (scheduled_task (env.now w.reads) j t).queue "")
              (scheduled_task (env.now w.reads) j t))
            (on_store
              (put_task id
                (taken_over (env.now w.reads) (scheduled_task (env.now w.reads) j t).fields u))
              (tick w)),
      )
  unfolding schedule_regular_task take_schedule
  schedule_regular_task-sends id job_id t u j w named of_job job_stored stored valid sends =
      let at = env.now w.reads in
      bind-ok _ _ w (now-ok env w)
      ∙ bind-ok _ _ (tick w) (ok_or-ok (job_id_required "regular") t.job_id (tick w) of_job)
      ∙ bind-ok _ _ (tick w) (get_job_by_id-ok job_id (tick w) job_stored)
      ∙ ap
          (λ f.
            (update_task env (unwrap_or t.id "") (λ v. ok (with (take_schedule at f) v, tt))
                >> publish env (task (unwrap_or f.queue "") (record t { fields = f })))
              (tick w))
          (scheduled_fields-lem at j.defaults t.fields)
      ∙ bind-ok _ _ (tick w) (
          ap
            (λ i.
              update_task env (unwrap_or i "")
                (λ v. ok (with (take_schedule at (scheduled_task at j t).fields) v, tt)) (tick w))
            named
          ∙ update_task-ok env id (tick w) _ stored refl valid)
      ∙ publish-ok env _ (task (unwrap_or (scheduled_task at j t).queue "") (scheduled_task at j t))
          sends

  -- A job that is submitted with an identifier, a time and tasks is stored and sent to the
  -- coordinator, with the number of its tasks, where the broker accepts it, and is returned.
  pub submit_job-stores :
      (id : String) (at : ℕ) (j : Job) (ts : List Task) (w : World)
      → j.id ≡ some id
      → j.created_at ≡ some at
      → j.tasks ≡ some ts
      → env.accepts w.sent
          (job (record j { id = some id; task_count = length ts; created_at = some at }))
        ≡ true
      → submit_job env j w ≡ (
        ok (record j { id = some id; task_count = length ts; created_at = some at }),
        emit (job (record j { id = some id; task_count = length ts; created_at = some at })) (
            on_store
              (put_job id (record j { id = some id; task_count = length ts; created_at = some at }))
              w),
      )
  unfolding submit_job store_job job_id_for created_at_for map_err
  submit_job-stores id at j ts w named timed has sends =
      let j' = record j { id = some id; task_count = length ts; created_at = some at } in
      bind-ok _ _ w (ap (λ o. job_id_for env o w) named)
      ∙ bind-ok _ _ w (ap (λ o. created_at_for env o w) timed)
      ∙ ap
          (λ o.
            store_job env
              (record j { id = some id; task_count = counted o j.task_count; created_at = some at })
              w)
          has
      ∙ bind-ok _ _ w (
          ap (λ (r : Result (Unit {0}) × World). map_err job_create (λ v. r) w)
            (create_job-ok id j' w refl))
      ∙ bind-ok _ _ _ (
          ap
            (λ (r : Result (Unit {0}) × World).
              map_err job_publish (λ v. r) (on_store (put_job id j') w))
            (publish-ok env (on_store (put_job id j') w) (job j') sends))
