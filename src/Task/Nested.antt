-- ===== src/Task/Nested.antt =====
-- The records that a task is made of, and the tasks nested in a task
-- (crates/twerk-core/src/task.rs, mount.rs, webhook.rs).
use twerk.Prelude.{ℕ, String, Bool, Option, List, ℤ}
use twerk.Map.{Map}
use twerk.TaskState.{TaskState}

pub record TaskRetry : Type 0 where
  pub limit : ℕ
  pub attempts : ℕ

pub record TaskLimits : Type 0 where
  pub cpus : Option String
  pub memory : Option String

pub record Registry : Type 0 where
  pub username : Option String
  pub password : Option String

pub record Probe : Type 0 where
  pub path : Option String
  pub port : ℕ
  pub timeout : Option String

pub record Mount : Type 0 where
  pub id : Option String
  pub mount_type : Option String
  pub source : Option String
  pub target : Option String
  pub opts : Option (Map String)

pub record Webhook : Type 0 where
  pub url : Option String
  pub headers : Option (Map String)
  pub event : Option String
  pub if_expr : Option String

pub record AutoDelete : Type 0 where
  pub after : Option String

pub data Runtime : Type 0 where
  docker shell podman : Runtime

-- An `f64` progress, as the exact fraction that it is computed from: `done / total * 100`.
pub record Progress : Type 0 where
  pub done : ℕ
  pub total : ℕ

-- The fields of `Task` that hold no task. `if_expr` is `r#if`.
pub record TaskFields : Type 0 where
  pub id : Option String
  pub job_id : Option String
  pub parent_id : Option String
  pub position : ℕ
  pub name : Option String
  pub description : Option String
  pub state : TaskState
  pub created_at : Option ℕ
  pub scheduled_at : Option ℕ
  pub started_at : Option ℕ
  pub completed_at : Option ℕ
  pub failed_at : Option ℕ
  pub cmd : Option (List String)
  pub entrypoint : Option (List String)
  pub run : Option String
  pub image : Option String
  pub registry : Option Registry
  pub env : Option (Map String)
  pub files : Option (Map String)
  pub queue : Option String
  pub redelivered : ℕ
  pub error : Option String
  pub exit_code : Option ℤ
  pub mounts : Option (List Mount)
  pub networks : Option (List String)
  pub node_id : Option String
  pub retry : Option TaskRetry
  pub limits : Option TaskLimits
  pub timeout : Option String
  pub result : Option String
  pub var : Option String
  pub if_expr : Option String
  pub gpus : Option String
  pub tags : Option (List String)
  pub workdir : Option String
  pub runtime : Option Runtime
  pub priority : ℤ
  pub progress : Progress
  pub probe : Option Probe

-- The fields of `EachTask` and of `SubJobTask` that hold no task.
pub record EachFields : Type 0 where
  pub var : Option String
  pub list : Option String
  pub size : ℕ
  pub completions : ℕ
  pub concurrency : ℕ
  pub index : ℕ

pub record SubJobFields : Type 0 where
  pub id : Option String
  pub name : Option String
  pub description : Option String
  pub inputs : Option (Map String)
  pub secrets : Option (Map String)
  pub auto_delete : Option AutoDelete
  pub output : Option String
  pub detached : Bool
  pub webhooks : Option (List Webhook)

-- A task inside a task. `pre`, `post`, `sidecars`, `parallel`, `each` and `subjob` hold tasks, so
-- the optional lists and structures around them belong to the block.
mutual
  pub data TaskDef : Type 0 where
    task_def :
        TaskFields
        → (pre post sidecars : MaybeTasks) → MaybeParallel
        → MaybeEach
        → MaybeSubJob
        → TaskDef

  pub data MaybeTasks : Type 0 where
    no_tasks : MaybeTasks
    some_tasks : Tasks → MaybeTasks

  pub data Tasks : Type 0 where
    nil : Tasks
    cons : TaskDef → Tasks → Tasks

  pub data MaybeParallel : Type 0 where
    no_parallel : MaybeParallel
    some_parallel : (completions : ℕ) → MaybeTasks → MaybeParallel

  pub data MaybeEach : Type 0 where
    no_each : MaybeEach
    each_only : EachFields → MaybeEach
    each_task : EachFields → TaskDef → MaybeEach

  pub data MaybeSubJob : Type 0 where
    no_subjob : MaybeSubJob
    some_subjob : SubJobFields → MaybeTasks → MaybeSubJob
