-- ===== src/Coordinator/Scheduling/SubJob.antt =====
-- A task that starts a job of its own
-- (crates/twerk-app/src/engine/coordinator/scheduler/subjob.rs).
use twerk.Prelude.{String, true, ◌≡◌, refl, ap, ◌∙◌, none, some, unwrap_or}
use twerk.Map.{get}
use twerk.Id.{validate_id, validate_job_id}
use twerk.Task.{Task, SubJobTask, with}
use twerk.Job.{Job}
use twerk.World.{ok, missing_config, job, World, Env, on_store, emit, tick, draw}
use twerk.World.Steps.{bind-ok, ok_or-ok}
use twerk.Datastore.{put_task, put_job, get_job_by_id}
use twerk.Datastore.Laws.{
  get_job_by_id-ok, update_task-ok, create_job-ok, checked-ok, publish-ok, now-ok,
  new_short_uuid-ok,
}
use twerk.Coordinator.Expected.{sub_job, running_subjob}
use twerk.Coordinator.Scheduler.SubJob.{
  set_subjob_id, subjob_job, mark_subjob_running, schedule_subjob_task,
}

module _ (env : Env) where
  -- The job that a task starts: pending, under the task, with what the task says.
  abbrev pub started_job : String → Job → SubJobTask → World → Job
  started_job id parent sj w =
      sub_job (env.new_short_uuid w.uuids) id (env.now w.reads) parent.created_by sj

  -- A task with a job of its own, stored under an identifier that is valid as a task's and as a
  -- job's, of a stored job, where the new identifier is valid and the broker accepts the job: the
  -- stored task is running and names the new job, and the new job is stored, under the task and
  -- created by the same user, and sent to the coordinator.
  pub schedule_subjob_task-starts :
      (id job_id : String) (t u : Task) (parent : Job) (sj : SubJobTask) (w : World)
      → t.id ≡ some id
      → t.job_id ≡ some job_id
      → t.subjob ≡ some sj
      → get w.store.jobs job_id ≡ some parent
      → get w.store.tasks id ≡ some u
      → validate_id env.is_alphanumeric id ≡ none
      → validate_job_id env.is_uuid id ≡ none
      → validate_job_id env.is_uuid (env.new_short_uuid w.uuids) ≡ none
      → env.accepts w.sent (job (started_job id parent sj w)) ≡ true
      → schedule_subjob_task env t w ≡ (
        ok tt,
        emit (job (started_job id parent sj w)) (
            on_store (put_job (env.new_short_uuid w.uuids) (started_job id parent sj w)) (
              on_store
                (put_task id (running_subjob (env.now w.reads) (env.new_short_uuid w.uuids) u))
                (draw (tick w)))),
      )
  unfolding schedule_subjob_task subjob_job mark_subjob_running set_subjob_id
  schedule_subjob_task-starts id job_id t u parent sj w named of_job has job_stored stored valid
        valid_job valid_new sends =
      let at = env.now w.reads in
      let new = env.new_short_uuid w.uuids in
      let w1 = tick w in
      let w2 = draw w1 in
      let w3 = on_store (put_task id (running_subjob at new u)) w2 in
      ap (λ i. schedule_subjob_task env (with (λ f. record f { id = i }) t) w) named
      ∙ bind-ok _ _ w (now-ok env w)
      ∙ bind-ok _ _ w1 (
          ap (λ o. get_job_by_id (unwrap_or o "") w1) of_job
          ∙ get_job_by_id-ok job_id w1 job_stored)
      ∙ bind-ok _ _ w1 (ok_or-ok (missing_config "subjob") t.subjob w1 has)
      ∙ bind-ok _ _ w1 (new_short_uuid-ok env w1)
      ∙ bind-ok _ _ w2 (checked-ok (validate_job_id env.is_uuid new) w2 valid_new)
      ∙ bind-ok _ _ w2 (checked-ok (validate_job_id env.is_uuid id) w2 valid_job)
      ∙ bind-ok _ _ w2 (update_task-ok env id w2 _ stored refl valid)
      ∙ bind-ok _ _ w3 (create_job-ok new (started_job id parent sj w) w3 refl)
      ∙ publish-ok env _ (job (started_job id parent sj w)) sends
