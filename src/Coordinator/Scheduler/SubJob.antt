-- ===== src/Coordinator/Scheduler/SubJob.antt =====
-- A task that runs a job of its own
-- (crates/twerk-app/src/engine/coordinator/scheduler/subjob.rs).
use mathlib.Core.Option
use twerk.Prelude.{ℕ, String, Option, none, some, List, map, length, unwrap_or}
use twerk.Id.{validate_job_id}
use twerk.TaskState.{TaskState}
use twerk.JobState.{JobState}
use twerk.Task.{Task, SubJobTask, to_task}
use twerk.Job.{Job, User, default}
use twerk.World.{ok, missing_config, job, Env, M, ◌>>=◌, ◌>>◌, ok_or, now, new_short_uuid, publish}
use twerk.Datastore.{get_job_by_id, update_task, create_job, checked}

-- The number of tasks, 0 where there are none.
abbrev count_tasks {ℓ} : {A : Type ℓ} → Option (List A) → ℕ
count_tasks none = 0
count_tasks (some l) = length l

unfoldable pub subjob_job : (id parent_id : String) → ℕ → Option User → SubJobTask → Job
subjob_job id parent_id at created_by sj = record default {
  id = some id;
  parent_id = some parent_id;
  name = sj.name;
  description = sj.description;
  state = JobState.pending;
  tasks = Option.map (map to_task) sj.tasks;
  inputs = sj.inputs;
  secrets = sj.secrets;
  task_count = count_tasks sj.tasks;
  output = sj.output;
  webhooks = sj.webhooks;
  auto_delete = sj.auto_delete;
  created_at = some at;
  created_by = created_by;
}

unfoldable pub set_subjob_id : String → SubJobTask → SubJobTask
set_subjob_id id sj = record sj { fields = record sj.fields { id = some id } }

-- The closure of the update: running, with the identifier of the new job.
unfoldable pub mark_subjob_running : ℕ → String → Task → Task
unfolding set_subjob_id
mark_subjob_running at id t = record t {
  fields = record t.fields { state = TaskState.running; started_at = some at };
  subjob = Option.map (set_subjob_id id) t.subjob;
}

unfoldable pub schedule_subjob_task : Env → Task → M (Unit {0})
unfolding subjob_job mark_subjob_running
schedule_subjob_task env t = do
  let task_id = unwrap_or t.id ""
  at ← now env
  parent_job ← get_job_by_id (unwrap_or t.job_id "")
  sj ← ok_or (missing_config "subjob") t.subjob
  id ← new_short_uuid env
  checked (validate_job_id env.is_uuid id)
  checked (validate_job_id env.is_uuid task_id)
  let subjob = subjob_job id task_id at parent_job.created_by sj
  update_task env task_id (λ u. ok (mark_subjob_running at id u, tt))
  create_job subjob
  publish env (job subjob)
