-- ===== src/Coordinator/Schedule.antt =====
-- The scheduler of jobs that run by a cron expression
-- (crates/twerk-app/src/engine/coordinator/schedule.rs).
pub mod Paused
use Prim.Native.String.{◌++◌}
use twerk.Prelude.{
  ℕ, String, Bool, true, false, Option, none, some, List, [], ◌∷◌, length, keep, unwrap_or,
  if◌then◌else◌,
}
use twerk.Map.{Map, get, insert, remove, values}
use twerk.Id.{validate_job_id}
use twerk.JobState.{JobState}
use twerk.Task.{Task}
use twerk.Job.{Job, ScheduledJob, ScheduledJobState, active, paused, default}
use twerk.World.{
  Error, ok, err, missing_cron_expression, unknown_scheduled_job, cron_job_create, cron_job_add,
  cron_job_remove, scheduled_job_not_found, lock_refused, job_instance_create, job_instance_publish,
  job, World, Env, M, pure, fail, ◌>>=◌, ◌>>◌, ok_or, gets, ignore_error, draw, now, publish,
  map_err,
}
use twerk.Datastore.{checked, create_job}

abbrev pub sj_id_str : ScheduledJob → String
sj_id_str sj = unwrap_or sj.id "unknown"

unfoldable pub get_scheduled_job_by_id : String → M ScheduledJob
get_scheduled_job_by_id id w = ok_or scheduled_job_not_found (get w.store.scheduled_jobs id) w

abbrev is_active : ScheduledJob → Bool
is_active sj = elim sj.state [ active ↦ true | paused ↦ false ]

unfoldable pub get_active_scheduled_jobs : M (List ScheduledJob)
get_active_scheduled_jobs = gets (λ w. keep is_active (values w.store.scheduled_jobs))

-- The number of the tasks, 0 where there are none.
abbrev count_tasks : Option (List Task) → ℕ
count_tasks none = 0
count_tasks (some ts) = length ts

-- The job that a scheduled job starts.
unfoldable pub instance_of : (id : String) → ℕ → ScheduledJob → Job
instance_of id at sj = record default {
  id = some id;
  created_by = sj.created_by;
  created_at = some at;
  permissions = sj.permissions;
  tags = sj.tags;
  name = sj.name;
  description = sj.description;
  state = JobState.pending;
  tasks = sj.tasks;
  inputs = sj.inputs;
  secrets = sj.secrets;
  context = some (record { job = none; inputs = sj.inputs; secrets = sj.secrets; tasks = none });
  task_count = count_tasks sj.tasks;
  output = sj.output;
  webhooks = sj.webhooks;
  auto_delete = sj.auto_delete;
  schedule = some (record { id = sj.id; cron = sj.cron });
}

-- `HashMap::insert` and `remove` of the mutex-guarded map.
abbrev pub set_cron : String → String → M (Unit {0})
set_cron id entry w = (ok tt, record w { crons = insert w.crons id entry })

abbrev pub take_cron : String → M (Option String)
take_cron id w = (ok (get w.crons id), record w { crons = remove w.crons id })

module _ (env : Env) where
  -- `JobScheduler::add` of the cron library.
  abbrev pub added : String → Option String → M String
  added id none w = (err cron_job_add, w)
  added id (some entry) w =
      (ok entry, record (draw w) { cron_entries = insert w.cron_entries entry id })

  unfoldable pub add_cron : String → M String
  add_cron id w = added id (env.add_cron w.uuids) w

  -- `JobScheduler::remove`.
  unfoldable pub remove_cron : String → M (Unit {0})
  remove_cron entry w =
      if env.removes_cron entry
      then (ok tt, record w { cron_entries = remove w.cron_entries entry })
      else (err cron_job_remove, w)

  -- `Uuid::new_v4().to_string()`.
  unfoldable pub new_uuid : M String
  new_uuid w = (ok (env.new_uuid w.uuids), draw w)

  unfoldable pub handle_active : ScheduledJob → M (Unit {0})
  unfolding add_cron
  handle_active sj = do
    cron ← ok_or (missing_cron_expression (sj_id_str sj)) sj.cron
    if env.reads_cron cron then pure tt else fail cron_job_create
    entry ← add_cron (sj_id_str sj)
    set_cron (sj_id_str sj) entry

  unfoldable pub handle_paused : ScheduledJob → M (Unit {0})
  unfolding remove_cron
  handle_paused sj = do
    taken ← take_cron (sj_id_str sj)
    entry ← ok_or (unknown_scheduled_job (sj_id_str sj)) taken
    remove_cron entry

  abbrev pub by_state : ScheduledJobState → ScheduledJob → M (Unit {0})
  by_state active sj = handle_active sj
  by_state paused sj = handle_paused sj

  unfoldable pub handle_scheduled_job : ScheduledJob → M (Unit {0})
  unfolding handle_active handle_paused
  handle_scheduled_job sj = by_state sj.state sj

  -- The loop of `JobSchedulerHandler::new`; the first error ends it.
  unfoldable pub activate_all : List ScheduledJob → M (Unit {0})
  activate_all [] = pure tt
  activate_all (sj ∷ sjs) = do handle_active sj; activate_all sjs

  unfoldable pub new_scheduler : M (Unit {0})
  unfolding get_active_scheduled_jobs activate_all
  new_scheduler = do sjs ← get_active_scheduled_jobs; activate_all sjs

  -- The lock is held to the end of the function.
  unfoldable pub trigger_scheduled_job : String → M (Unit {0})
  unfolding get_scheduled_job_by_id instance_of new_uuid
  trigger_scheduled_job sj_id = do
    sj ← get_scheduled_job_by_id sj_id
    if env.acquires ("scheduled_job:" ++ sj_id) then pure tt else fail lock_refused
    at ← now env
    id ← new_uuid
    checked (validate_job_id env.is_uuid id)
    map_err job_instance_create (create_job (instance_of id at sj))
    map_err job_instance_publish (publish env (job (instance_of id at sj)))

  -- An entry of the cron library is due: its error is logged.
  abbrev pub triggers : Option String → M (Unit {0})
  triggers none = pure tt
  triggers (some sj_id) = ignore_error (trigger_scheduled_job sj_id)

  unfoldable pub cron_due : (entry : String) → M (Unit {0})
  unfolding trigger_scheduled_job
  cron_due entry w = triggers (get w.cron_entries entry) w
