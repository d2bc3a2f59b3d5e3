-- ===== src/Coordinator/Failing/NoRetry.antt =====
-- A failed task that is not tried again (`handle_error`, `handle_task_failed` in
-- crates/twerk-app/src/engine/coordinator/handlers/task_handlers.rs).
use twerk.Prelude.{
  ℕ, suc, ◌≤◌, ◌⊎◌, ◌+◌, String, true, false, ◌≡◌, refl, ap, ◌∙◌, none, some, List, [], ◌∷◌, ◌++◌,
  map,
}
use twerk.Map.{get, get-insert_self}
use twerk.Id.{validate_id}
use twerk.Task.Nested.{TaskRetry}
use twerk.Task.{Task, with, new_task_summary}
use twerk.Job.{Job}
use twerk.World.{
  Result, ok, missing_task_id, missing_job_id, task, job, Message, task_hook, World, Env,
  ignore_error, on_store, emit, tick,
}
use twerk.World.Steps.{bind-ok, ok_or-ok, if-true, if-false}
use twerk.Datastore.{put_task}
use twerk.Datastore.Laws.{get_job_by_id-ok, update_task-ok, publish-ok, now-ok}
use twerk.Coordinator.Expected.{unfinished, with_error, failed_at, failed_job}
use twerk.Coordinator.Util.{queue_failed}
use twerk.Coordinator.Webhook.{matching_webhooks, fire_task_webhooks}
use twerk.Coordinator.Handlers.Workflow.{fail_with, handle_top_level_task_failed}
use twerk.Coordinator.Handlers.Task.{
  take_failed, mark_failed, persist, fire, give_up, route_failed, route_failed_task,
  handle_task_failed, handle_error,
}
use twerk.Coordinator.Failing.{
  is_job_active-unfinished, may_retry-false, failed_in, handle_error-starts,
}

module _ (env : Env) where
  -- The webhooks of a stored job are fired; the datastore and the messages stay.
  fired : Task → String → Job → World → World
  fired t event j w = record w {
    hooks = w.hooks ++ map (λ wh. task_hook wh (new_task_summary t)) (matching_webhooks event j);
  }

  fire-ok :
      (t : Task) (event job_id : String) (j : Job) (w : World)
      → t.job_id ≡ some job_id
      → get w.store.jobs job_id ≡ some j
      → fire env t event w ≡ (ok tt, fired t event j w)
  unfolding ignore_error fire_task_webhooks fired
  fire-ok t event job_id j w of_job e =
      ap (λ (r : Result (Unit {0}) × World). (ok tt, r.1))
        (bind-ok _ _ w (ok_or-ok missing_job_id t.job_id w of_job)
          ∙ bind-ok _ _ w (get_job_by_id-ok job_id w e))

  -- The end of a failed top-level task: its job is sent as failed.
  job_failed : Job → Task → World → World
  job_failed j t w = emit (job (fail_with (env.now w.reads) t.error j)) (tick w)

  -- What the failure of a top-level task does.
  task_failed_in : String → Task → Task → Job → World → World
  task_failed_in id t u j w =
      job_failed j t (fired t "task.Failed" j (on_store (put_task id (with (take_failed t) u)) w))

  handle_task_failed-top :
      (fuel : ℕ) (id job_id : String) (t u : Task) (j : Job) (w : World)
      → t.id ≡ some id
      → t.job_id ≡ some job_id
      → t.parent_id ≡ none
      → get w.store.tasks id ≡ some u
      → validate_id env.is_alphanumeric id ≡ none
      → get w.store.jobs job_id ≡ some j
      → env.accepts w.sent (job (fail_with (env.now w.reads) t.error j)) ≡ true
      → handle_task_failed env (suc fuel) t w ≡ (ok tt, task_failed_in id t u j w)
  unfolding handle_task_failed persist route_failed_task route_failed handle_top_level_task_failed
      fired job_failed task_failed_in
  handle_task_failed-top fuel id job_id t u j w named of_job top stored valid job_stored sends =
      let w1 = on_store (put_task id (with (take_failed t) u)) w in
      let w2 = fired t "task.Failed" j w1 in
      bind-ok _ _ w (
        bind-ok _ _ w (ok_or-ok missing_task_id t.id w named)
        ∙ update_task-ok env id w _ stored refl valid)
      ∙ bind-ok _ _ w1 (fire-ok t "task.Failed" job_id j w1 of_job job_stored)
      ∙ ap (λ o. route_failed env (handle_task_failed env fuel) o t w2) top
      ∙ bind-ok _ _ w2 (ok_or-ok missing_job_id t.job_id w2 of_job)
      ∙ bind-ok _ _ w2 (get_job_by_id-ok job_id w2 job_stored)
      ∙ bind-ok _ _ w2 (now-ok env w2)
      ∙ publish-ok env (tick w2) (job (fail_with (env.now w.reads) t.error j)) sends

  -- A stored top-level task with a valid identifier that failed while its stored job is active and
  -- that has no attempt left, with a broker that accepts every message: two messages are sent, the
  -- task to `x-failed` and the job as failed, with the time and the task's error.
  pub handle_error-gives_up :
      (id job_id : String) (t u : Task) (j : Job) (w : World) (fuel : ℕ)
      → t.id ≡ some id
      → t.job_id ≡ some job_id
      → t.parent_id ≡ none
      → get w.store.tasks id ≡ some u
      → validate_id env.is_alphanumeric id ≡ none
      → get w.store.jobs job_id ≡ some j
      → unfinished j.state ≡ true
      → (t.retry ≡ none) ⊎ ((r : TaskRetry) × (t.retry ≡ some r) × (r.limit ≤ r.attempts))
      → ((s : List Message) (m : Message) → env.accepts s m ≡ true)
      → ((handle_error env (suc fuel) t w).0 ≡ ok tt)
        × ((handle_error env (suc fuel) t w).1.sent
            ≡ (w.sent ++ task "x-failed" (failed_at (env.now w.reads) t) ∷ [])
              ++ job (failed_job (env.now (w.reads + 1)) t.error j) ∷ [])
  unfolding give_up mark_failed fail_with task_failed_in job_failed fired
  handle_error-gives_up id job_id t u j w fuel named of_job top stored valid job_stored active
        no_more sends =
      let at = env.now w.reads in
      let w1 = failed_in env id t u w in
      let w2 = emit (task queue_failed (mark_failed at t)) w1 in
      let all =
        handle_error-starts env id job_id t u j w named of_job stored valid job_stored (suc fuel)
        ∙ if-true _ _ w1 (is_job_active-unfinished j.state ∙ active)
        ∙ if-false _ _ w1 (may_retry-false env t no_more)
        ∙ bind-ok _ _ w1 (publish-ok env w1 (task queue_failed (mark_failed at t)) (sends _ _))
        ∙ handle_task_failed-top fuel id job_id (mark_failed at t) (with_error at t u) j w2 named
            of_job top (get-insert_self w.store.tasks id (with_error at t u)) valid job_stored
            (sends _ _) in
      (
        ap (λ (r : Result (Unit {0}) × World). r.0) all,
        ap (λ (r : Result (Unit {0}) × World). r.1.sent) all,
      )

  -- A stored task with a valid identifier that failed after its stored job stopped being active:
  -- no message is sent, and the stored task is failed, with the time and what the message says of
  -- the error.
  pub handle_error-inactive :
      (id job_id : String) (t u : Task) (j : Job) (w : World) (fuel : ℕ)
      → t.id ≡ some id
      → t.job_id ≡ some job_id
      → get w.store.tasks id ≡ some u
      → validate_id env.is_alphanumeric id ≡ none
      → get w.store.jobs job_id ≡ some j
      → unfinished j.state ≡ false
      → ((handle_error env fuel t w).0 ≡ ok tt)
        × ((handle_error env fuel t w).1.sent ≡ w.sent)
        × ((handle_error env fuel t w).1.store
            ≡ put_task id (with_error (env.now w.reads) t u) w.store)
  unfolding fired
  handle_error-inactive id job_id t u j w fuel named of_job stored valid job_stored off =
      let w1 = failed_in env id t u w in
      let all =
        handle_error-starts env id job_id t u j w named of_job stored valid job_stored fuel
        ∙ if-false _ _ w1 (is_job_active-unfinished j.state ∙ off)
        ∙ fire-ok t "task.Error" job_id j w1 of_job job_stored in
      (
        ap (λ (r : Result (Unit {0}) × World). r.0) all,
        ap (λ (r : Result (Unit {0}) × World). r.1.sent) all,
        ap (λ (r : Result (Unit {0}) × World). r.1.store) all,
      )
