-- ===== src/Tests/Samples.antt =====
-- The values that the tests and the examples run on: an environment, tasks, jobs and worlds.
use twerk.Prelude.{String, true, none, some, [], ◌∷◌, ℤ}
use twerk.TaskState.{TaskState, created}
use twerk.JobState.{JobState}
use twerk.Task.{Task, with}
use twerk.Task.Nested.{TaskFields}
use twerk.Job.{Job, default, no_progress}
use twerk.Node.{Node}
use twerk.World.{Datastore, World, Env, ok}

-- Templates and expressions are texts that stand for themselves, and the broker accepts everything.
abbrev pub environment : Env
environment = record {
  Value = String;
  now = λ n. n;
  new_short_uuid = λ n. "fresh";
  new_uuid = λ n. "00000000-0000-0000-0000-000000000000";
  reads_cron = λ s. true;
  add_cron = λ n. some "entry";
  removes_cron = λ s. true;
  acquires = λ s. true;
  accepts = λ sent m. true;
  is_alphanumeric = λ c. true;
  trim = λ s. s;
  is_uuid = λ s. true;
  string_value = λ s. s;
  map_value = λ m. "map";
  array_value = λ l. "array";
  as_str = λ v. some v;
  as_array = λ v. some (v ∷ v ∷ []);
  as_object = λ v. none;
  parse_array = λ s. none;
  parse_value = λ s. none;
  decimal = λ n. "0";
  error_text = λ e. "error";
  evaluate_template = λ s context. ok s;
  evaluate_expr = λ s context. ok s;
}

abbrev pub blank_fields : TaskFields
blank_fields = record {
  id = none;
  job_id = none;
  parent_id = none;
  position = 0;
  name = none;
  description = none;
  state = created;
  created_at = none;
  scheduled_at = none;
  started_at = none;
  completed_at = none;
  failed_at = none;
  cmd = none;
  entrypoint = none;
  run = none;
  image = none;
  registry = none;
  env = none;
  files = none;
  queue = none;
  redelivered = 0;
  error = none;
  exit_code = none;
  mounts = none;
  networks = none;
  node_id = none;
  retry = none;
  limits = none;
  timeout = none;
  result = none;
  var = none;
  if_expr = none;
  gpus = none;
  tags = none;
  workdir = none;
  runtime = none;
  priority = ℤ.pos 0;
  progress = no_progress;
  probe = none;
}

abbrev pub blank : Task
blank = record {
  fields = blank_fields;
  pre = none;
  post = none;
  sidecars = none;
  parallel = none;
  each = none;
  subjob = none;
}

abbrev pub the_job_id : String
the_job_id = "jjjjjjjjjjjjjjjjjjjjjj"

-- A running top-level task of the job, with attempts left.
abbrev pub running_task : Task
running_task =
    with
      (λ f. record f {
        id = some "t1";
        job_id = some the_job_id;
        state = TaskState.running;
        retry = some (record { limit = 2; attempts = 0 });
      })
      blank

-- The same without a retry.
abbrev pub last_task : Task
last_task = with (λ f. record f { retry = none }) running_task

abbrev pub no_store : Datastore
no_store = record {
  tasks = [];
  tasks_by_job = [];
  tasks_by_parent = [];
  nodes = [];
  jobs = [];
  task_log_parts = [];
  scheduled_jobs = [];
}

-- A running job of three tasks, at its first.
abbrev pub running_job : Job
running_job = record default {
  id = some the_job_id;
  state = JobState.running;
  tasks = some (blank ∷ blank ∷ blank ∷ []);
  position = 1;
}

abbrev pub job_store : Datastore
job_store = record no_store { jobs = (the_job_id, running_job) ∷ [] }

abbrev pub world_of : Datastore → World
world_of d = record {
  store = d;
  sent = [];
  hooks = [];
  reads = 0;
  uuids = 0;
  crons = [];
  cron_entries = [];
}

-- A stored task with the job.
abbrev pub store_with : String → Task → Datastore
store_with id t = record job_store {
  tasks = (id, t) ∷ [];
  tasks_by_job = (the_job_id, id ∷ []) ∷ [];
}

abbrev pub blank_node : Node
blank_node = record {
  id = some "n1";
  name = none;
  started_at = none;
  cpu_percent = some 5;
  last_heartbeat_at = none;
  queue = some "q";
  status = none;
  hostname = none;
  port = none;
  task_count = none;
  version = none;
}
