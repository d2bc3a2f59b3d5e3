-- ===== src/Task.antt =====
-- The data of a task (crates/twerk-core/src/task.rs, mount.rs, webhook.rs, user.rs, role.rs).
-- Times are counts of an unnamed unit, and `i64` counters that start at 0 and only grow are ℕ.
pub mod Nested
use twerk.Prelude.{ℕ, String, Option, none, some, List, [], ◌∷◌, ℤ}
use twerk.TaskState.{TaskState}
use Nested.{
  TaskDef, task_def, MaybeTasks, no_tasks, some_tasks, Tasks, nil, cons, MaybeParallel, no_parallel,
  some_parallel, MaybeEach, no_each, each_only, each_task, MaybeSubJob, no_subjob, some_subjob,
  SubJobFields, EachFields, TaskFields, Progress,
}

pub record ParallelTask : Type 0 where
  pub tasks : Option (List TaskDef)
  pub completions : ℕ

pub record EachTask : Type 0 where
  pub fields : EachFields
  pub open fields use *
  pub task : Option TaskDef

pub record SubJobTask : Type 0 where
  pub fields : SubJobFields
  pub open fields use *
  pub tasks : Option (List TaskDef)

-- `Task`: the fields that hold no task, and those that do.
pub record Task : Type 0 where
  pub fields : TaskFields
  pub open fields use *
  pub pre : Option (List TaskDef)
  pub post : Option (List TaskDef)
  pub sidecars : Option (List TaskDef)
  pub parallel : Option ParallelTask
  pub each : Option EachTask
  pub subjob : Option SubJobTask

-- A change of the fields that hold no task, `Task { ..task }`.
abbrev pub with : (TaskFields → TaskFields) → Task → Task
with f t = record t { fields = f t.fields }

unfoldable pub deep_clone : Task → Task
deep_clone t = with (λ u. record u { redelivered = 0 }) t

-- What a webhook is told of a task.
pub record TaskSummary : Type 0 where
  pub id : Option String
  pub job_id : Option String
  pub position : ℕ
  pub progress : Progress
  pub name : Option String
  pub description : Option String
  pub state : TaskState
  pub created_at : Option ℕ
  pub scheduled_at : Option ℕ
  pub started_at : Option ℕ
  pub completed_at : Option ℕ
  pub error : Option String
  pub exit_code : Option ℤ
  pub result : Option String
  pub var : Option String
  pub tags : Option (List String)

unfoldable pub new_task_summary : Task → TaskSummary
new_task_summary t = record {
  id = t.id;
  job_id = t.job_id;
  position = t.position;
  progress = t.progress;
  name = t.name;
  description = t.description;
  state = t.state;
  created_at = t.created_at;
  scheduled_at = t.scheduled_at;
  started_at = t.started_at;
  completed_at = t.completed_at;
  error = t.error;
  exit_code = t.exit_code;
  result = t.result;
  var = t.var;
  tags = t.tags;
}

list_of : Tasks → List TaskDef
list_of nil = []
list_of (cons t ts) = t ∷ list_of ts

tasks_of : List TaskDef → Tasks
tasks_of [] = nil
tasks_of (t ∷ ts) = cons t (tasks_of ts)

abbrev some_list : MaybeTasks → Option (List TaskDef)
some_list no_tasks = none
some_list (some_tasks ts) = some (list_of ts)

abbrev maybe_tasks : Option (List TaskDef) → MaybeTasks
maybe_tasks none = no_tasks
maybe_tasks (some ts) = some_tasks (tasks_of ts)

abbrev parallel_of : MaybeParallel → Option ParallelTask
parallel_of no_parallel = none
parallel_of (some_parallel n ts) = some (record { tasks = some_list ts; completions = n })

abbrev maybe_parallel : Option ParallelTask → MaybeParallel
maybe_parallel none = no_parallel
maybe_parallel (some p) = some_parallel p.completions (maybe_tasks p.tasks)

abbrev each_of : MaybeEach → Option EachTask
each_of no_each = none
each_of (each_only f) = some (record { fields = f; task = none })
each_of (each_task f t) = some (record { fields = f; task = some t })

abbrev each_with : EachFields → Option TaskDef → MaybeEach
each_with f none = each_only f
each_with f (some t) = each_task f t

abbrev maybe_each : Option EachTask → MaybeEach
maybe_each none = no_each
maybe_each (some e) = each_with e.fields e.task

abbrev subjob_of : MaybeSubJob → Option SubJobTask
subjob_of no_subjob = none
subjob_of (some_subjob f ts) = some (record { fields = f; tasks = some_list ts })

abbrev maybe_subjob : Option SubJobTask → MaybeSubJob
maybe_subjob none = no_subjob
maybe_subjob (some s) = some_subjob s.fields (maybe_tasks s.tasks)

-- A task nested in a task, as a task, and back. The program has one type for both.
unfoldable pub to_task : TaskDef → Task
unfolding list_of
to_task (task_def f pre post sidecars par each sub) = record {
  fields = f;
  pre = some_list pre;
  post = some_list post;
  sidecars = some_list sidecars;
  parallel = parallel_of par;
  each = each_of each;
  subjob = subjob_of sub;
}

unfoldable pub of_task : Task → TaskDef
unfolding tasks_of
of_task t =
    task_def t.fields (maybe_tasks t.pre) (maybe_tasks t.post) (maybe_tasks t.sidecars)
      (maybe_parallel t.parallel) (maybe_each t.each) (maybe_subjob t.subjob)
