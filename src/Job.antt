-- ===== src/Job.antt =====
-- The data of a job (crates/twerk-core/src/job.rs, user.rs, role.rs) and its events.
use twerk.Prelude.{ℕ, String, Bool, Option, none, some, List, ℤ}
use twerk.Map.{Map}
use twerk.JobState.{JobState, pending, cancelled, completed, failed}
use twerk.Task.{Task}
use twerk.Task.Nested.{TaskRetry, TaskLimits, Webhook, AutoDelete, Progress}

pub record User : Type 0 where
  pub id : Option String
  pub name : Option String
  pub username : Option String
  pub password_hash : Option String
  pub password : Option String
  pub created_at : Option ℕ
  pub disabled : Bool

pub record Role : Type 0 where
  pub id : Option String
  pub slug : Option String
  pub name : Option String
  pub created_at : Option ℕ

pub record Permission : Type 0 where
  pub role : Option Role
  pub user : Option User

pub record JobContext : Type 0 where
  pub job : Option (Map String)
  pub inputs : Option (Map String)
  pub secrets : Option (Map String)
  pub tasks : Option (Map String)

pub record JobDefaults : Type 0 where
  pub retry : Option TaskRetry
  pub limits : Option TaskLimits
  pub timeout : Option String
  pub queue : Option String
  pub priority : ℤ

pub record JobSchedule : Type 0 where
  pub id : Option String
  pub cron : Option String

pub record Job : Type 0 where
  pub id : Option String
  pub parent_id : Option String
  pub name : Option String
  pub description : Option String
  pub tags : Option (List String)
  pub state : JobState
  pub created_at : Option ℕ
  pub created_by : Option User
  pub started_at : Option ℕ
  pub completed_at : Option ℕ
  pub failed_at : Option ℕ
  pub tasks : Option (List Task)
  pub execution : Option (List Task)
  pub position : ℕ
  pub inputs : Option (Map String)
  pub context : Option JobContext
  pub task_count : ℕ
  pub output : Option String
  pub result : Option String
  pub error : Option String
  pub defaults : Option JobDefaults
  pub webhooks : Option (List Webhook)
  pub permissions : Option (List Permission)
  pub auto_delete : Option AutoDelete
  pub delete_at : Option ℕ
  pub secrets : Option (Map String)
  pub progress : Progress
  pub schedule : Option JobSchedule

pub data ScheduledJobState : Type 0 where
  active paused : ScheduledJobState

pub record ScheduledJob : Type 0 where
  pub id : Option String
  pub name : Option String
  pub description : Option String
  pub cron : Option String
  pub state : ScheduledJobState
  pub inputs : Option (Map String)
  pub tasks : Option (List Task)
  pub created_by : Option User
  pub defaults : Option JobDefaults
  pub auto_delete : Option AutoDelete
  pub webhooks : Option (List Webhook)
  pub permissions : Option (List Permission)
  pub created_at : Option ℕ
  pub tags : Option (List String)
  pub secrets : Option (Map String)
  pub output : Option String

-- `Job::default()`, and a progress of 0.0 and of 100.0.
abbrev pub no_progress : Progress
no_progress = record { done = 0; total = 1 }

abbrev pub full_progress : Progress
full_progress = record { done = 1; total = 1 }

abbrev pub default : Job
default = record {
  id = none;
  parent_id = none;
  name = none;
  description = none;
  tags = none;
  state = pending;
  created_at = none;
  created_by = none;
  started_at = none;
  completed_at = none;
  failed_at = none;
  tasks = none;
  execution = none;
  position = 0;
  inputs = none;
  context = none;
  task_count = 0;
  output = none;
  result = none;
  error = none;
  defaults = none;
  webhooks = none;
  permissions = none;
  auto_delete = none;
  delete_at = none;
  secrets = none;
  progress = no_progress;
  schedule = none;
}

pub data JobEvent : Type 0 where
  state_changed : (job_id : String) (old_state new_state : JobState) → JobEvent
  completed_event failed_event cancelled_event : Job → JobEvent

unfoldable pub job_id : JobEvent → Option String
job_id (state_changed id old new) = some id
job_id (completed_event job) = job.id
job_id (failed_event job) = job.id
job_id (cancelled_event job) = job.id

unfoldable pub into_job : JobEvent → Option Job
into_job (state_changed id old new) = none
into_job (completed_event job) = some job
into_job (failed_event job) = some job
into_job (cancelled_event job) = some job

unfoldable pub event_of_state : JobState → Job → Option JobEvent
event_of_state completed job = some (completed_event job)
event_of_state failed job = some (failed_event job)
event_of_state cancelled job = some (cancelled_event job)
event_of_state _ job = none

unfoldable pub job_event_from_state : Job → Option JobEvent
unfolding event_of_state
job_event_from_state job = event_of_state job.state job
