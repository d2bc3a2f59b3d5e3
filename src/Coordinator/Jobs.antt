-- ===== src/Coordinator/Jobs.antt =====
-- A job is started, restarted, completed and seen running
-- (crates/twerk-app/src/engine/coordinator/handlers/job_handlers.rs).
use twerk.Prelude.{
  ℕ, zero, suc, ◌≤◌, ◌<◌, length-keep, String, ◌≡◌, refl, ap, ◌∙◌, none, some, List, [], ◌∷◌, ◌++◌,
  arith, length, keep, not, map, ◌==◌, if◌then◌else◌,
}
use twerk.Map.{get}
use twerk.Id.{validate_job_id}
use twerk.TaskState.{TaskState, is_active}
use twerk.JobState.{JobState}
use twerk.Task.{Task}
use twerk.Task.Nested.{Progress}
use twerk.Job.{Job}
use twerk.World.{
  ok, err, job_has_no_tasks, missing_job_id, task_out_of_bounds, handler, job_hook, World, Env,
  ok_or, on_store, tick,
}
use twerk.World.Steps.{bind-ok, bind-err, ok_or-ok}
use twerk.Datastore.{put_job, tasks_of_job, get_all_tasks_for_job}
use twerk.Datastore.Laws.{update_job-ok, now-ok}
use twerk.Coordinator.Expected.{pending_task, restarted_job, seen_running, ended}
use twerk.Coordinator.Webhook.{matching_webhooks}
use twerk.Coordinator.Handlers.Job.{
  at_least_one, task_at, mark_restarted, restart_job, mark_running, run_if_scheduled,
  mark_job_as_running,
}

at_least_one-le : (n : ℕ) → n ≤ at_least_one n
at_least_one-le zero = omega arith
at_least_one-le (suc n) = omega arith

at_least_one-positive : (n : ℕ) → 0 < at_least_one n
at_least_one-positive zero = omega arith
at_least_one-positive (suc n) = omega arith

at_least_one-if : (n : ℕ) → at_least_one n ≡ (if n == 0 then 1 else n)
at_least_one-if zero = refl
at_least_one-if (suc n) = ground arith

is_active-ended : (s : TaskState) → not (is_active s) ≡ ended s
unfolding is_active
is_active-ended TaskState.created = refl
is_active-ended TaskState.pending = refl
is_active-ended TaskState.scheduled = refl
is_active-ended TaskState.running = refl
is_active-ended TaskState.completed = refl
is_active-ended TaskState.failed = refl
is_active-ended TaskState.cancelled = refl
is_active-ended TaskState.stopped = refl
is_active-ended TaskState.skipped = refl

keep-ended :
    (ts : List Task)
    → length (keep (λ t. not (is_active t.state)) ts) ≡ length (keep (λ t. ended t.state) ts)
keep-ended [] = refl
keep-ended (t ∷ ts) = ground (arith, is_active-ended t.state, keep-ended ts)

mark_running-seen : (p : Progress) (u : Job) → mark_running p u ≡ seen_running u.state p u
unfolding mark_running run_if_scheduled
mark_running-seen p u = go u.state
  where
    go : (s : JobState) → record (run_if_scheduled s u) { progress = p } ≡ seen_running s p u
    go JobState.scheduled = refl
    go JobState.pending = refl
    go JobState.running = refl
    go JobState.cancelled = refl
    go JobState.completed = refl
    go JobState.failed = refl
    go JobState.restart = refl

-- The webhooks of a job's event are fired.
abbrev pub fired : Job → String → World → World
fired j name w = record w {
  hooks = w.hooks ++ map (λ wh. job_hook wh j) (matching_webhooks name j);
}

-- The first task of a job, as it is created.
abbrev pub first_task : Env → String → World → Task → Task
first_task env job_id w = pending_task (env.new_short_uuid w.uuids) job_id 1 (env.now w.reads)

module _ (env : Env) (job_id : String) (j : Job) (w : World) (named : j.id ≡ some job_id)
    (valid : validate_job_id env.is_uuid job_id ≡ none) where
  -- A restart of a job with tasks, stored under a valid identifier, at position 0 fails, and
  -- leaves the stored job running.
  pub restart_job-at_start :
      (u : Job) (ts : List Task)
      → get w.store.jobs job_id ≡ some u
      → j.tasks ≡ some ts
      → j.position ≡ 0
      → restart_job env j w
        ≡ (err task_out_of_bounds, on_store (put_job job_id (restarted_job u)) (tick w))
  unfolding restart_job task_at mark_restarted
  restart_job-at_start u ts stored has start =
      let w1 = tick w in
      let w2 = on_store (put_job job_id (restarted_job u)) w1 in
      bind-ok _ _ w (ok_or-ok missing_job_id j.id w named)
      ∙ bind-ok _ _ w (now-ok env w)
      ∙ bind-ok _ _ w1 (update_job-ok env job_id w1 _ stored refl valid)
      ∙ bind-ok _ _ w2 (ok_or-ok job_has_no_tasks j.tasks w2 has)
      ∙ bind-err _ _ w2 (ap (λ n. ok_or task_out_of_bounds (task_at n ts) w2) start)

  -- A job, stored under a valid identifier, that is seen running: the stored job becomes running
  -- where it was scheduled, and takes the progress of its stored tasks, the ones that have ended
  -- of all, or of one where there are none; it is a fraction of at most one.
  pub mark_job_as_running-progress :
      (u : Job)
      → get w.store.jobs job_id ≡ some u
      → (p : Progress) × (mark_job_as_running env j w
          ≡ (ok tt, on_store (put_job job_id (seen_running u.state p u)) w))
        × (p.done ≡ length (keep (λ t. ended t.state) (tasks_of_job env job_id w.store)))
        × (p.total ≡ (
            if length (tasks_of_job env job_id w.store) == 0
            then 1
            else length (tasks_of_job env job_id w.store)))
        × (p.done ≤ p.total)
        × (0 < p.total)
  unfolding mark_job_as_running get_all_tasks_for_job
  mark_job_as_running-progress u stored =
      let ts = tasks_of_job env job_id w.store in
      (
        record {
          done = length (keep (λ t. not (is_active t.state)) ts);
          total = at_least_one (length ts);
        },
        bind-ok _ _ w (ok_or-ok (handler "job has no id") j.id w named)
            ∙ bind-ok _ _ w refl
            ∙ update_job-ok env job_id w _ stored refl valid
            ∙ ap (λ v. (ok tt, on_store (put_job job_id v) w)) (mark_running-seen _ u),
        keep-ended ts,
        at_least_one-if (length ts),
        omega (
          arith,
          length-keep (λ (t : Task). not (is_active t.state)) ts,
          at_least_one-le (length ts),
        ),
        omega (arith, at_least_one-positive (length ts)),
      )
