-- ===== src/World.antt =====
-- The state that the coordinator's handlers act on, and the actions on it: the datastore, the
-- messages that the broker accepted, the webhooks fired, and the counts of clock readings and of
-- fresh identifiers. A handler returns a result and the state that it left, also on an error.
pub mod Steps
pub mod Keeps
use Prim.Native.Char.{Char}
use twerk.Prelude.{ℕ, ◌+◌, String, Bool, Option, none, some, List, [], ◌∷◌, ◌++◌, if◌then◌else◌}
use twerk.Map.{Map}
use twerk.Id.{IdError}
use twerk.Task.{Task, TaskSummary}
use twerk.Task.Nested.{Webhook}
use twerk.Job.{Job, ScheduledJob}
use twerk.Node.{Node, TaskLogPart}

-- The error enums of the handlers, the scheduler, the datastore and the coordinator. An error that
-- the program turns into the text of another is kept as that other error. `out_of_fuel` is no error
-- of the program: it ends a recursion of the model that was given too little fuel.
pub data Error : Type 0 where
  missing_task_id missing_job_id missing_parent_task_id job_has_no_tasks task_out_of_bounds : Error
  missing_retry_config redelivered_missing_task_id : Error
  task_id_required job_id_required missing_config : (scheduler : String) → Error
  missing_parallel_tasks each_list_must_be_array missing_each_template : Error
  evaluation : (context : String) → String → Error
  eval_error : String → Error
  task_not_found node_not_found job_not_found : Error
  invalid_input : String → Error
  invalid_id : IdError → Error
  publish_failed out_of_fuel : Error
  handler : String → Error
  job_create job_publish job_instance_create job_instance_publish : Error → Error
  invalid_event scheduled_job_not_found lock_refused : Error
  missing_cron_expression unknown_scheduled_job : (job_id : String) → Error
  cron_job_create cron_job_add cron_job_remove : Error

pub data Result {ℓ} (A : Type ℓ) : Type ℓ where
  ok : A → Result A
  err : Error → Result A

-- `InMemoryDatastore`, without the users and the roles.
pub record Datastore : Type 0 where
  pub tasks : Map Task
  pub tasks_by_job : Map (List String)
  pub tasks_by_parent : Map (List String)
  pub nodes : Map Node
  pub jobs : Map Job
  pub task_log_parts : Map (List TaskLogPart)
  pub scheduled_jobs : Map ScheduledJob

-- What `publish_task`, `publish_tasks`, `publish_job` and `publish_event` send. The value of an
-- event is the JSON of a job, kept as the job.
pub data Message : Type 0 where
  task : (queue : String) → Task → Message
  tasks : (queue : String) → List Task → Message
  job : Job → Message
  event : (topic : String) → Job → Message

pub data HookCall : Type 0 where
  job_hook : Webhook → Job → HookCall
  task_hook : Webhook → TaskSummary → HookCall

-- `crons` are the entries that the scheduler of jobs knows, by scheduled job; `cron_entries` are
-- those of the cron library, by identifier, with the scheduled job that each one triggers.
pub record World : Type 0 where
  pub store : Datastore
  pub sent : List Message
  pub hooks : List HookCall
  pub reads : ℕ
  pub uuids : ℕ
  pub crons : Map String
  pub cron_entries : Map String

-- What the program does not implement: the clock, the random identifiers, the broker's answer to a
-- message after those it has accepted, Unicode, UUIDs, JSON, the texts of errors, the expression
-- evaluator, the cron library (whether it reads an expression, the identifier of an entry that it
-- adds, and whether it removes one) and the locker's answer.
pub record Env : Type 1 where
  pub Value : Type 0
  pub now : ℕ → ℕ
  pub new_short_uuid : ℕ → String
  pub new_uuid : ℕ → String
  pub reads_cron : String → Bool
  pub add_cron : ℕ → Option String
  pub removes_cron : String → Bool
  pub acquires : (lock : String) → Bool
  pub accepts : List Message → Message → Bool
  pub is_alphanumeric : Char → Bool
  pub trim : String → String
  pub is_uuid : String → Bool
  pub string_value : String → Value
  pub map_value : Map String → Value
  pub array_value : List Value → Value
  pub as_str : Value → Option String
  pub as_array : Value → Option (List Value)
  pub as_object : Value → Option (Map Value)
  pub parse_array : String → Option (List Value)
  pub parse_value : String → Option Value
  pub decimal : ℕ → String
  pub error_text : Error → String
  pub evaluate_template : String → Map Value → Result String
  pub evaluate_expr : String → Map Value → Result Value

abbrev pub M : Type 0 → Type 0
M A = World → Result A × World

abbrev pub pure : {A : Type 0} → A → M A
pure a w = (ok a, w)

abbrev pub fail : {A : Type 0} → Error → M A
fail e w = (err e, w)

abbrev pub continue : {A B : Type 0} → Result A → (A → M B) → M B
continue (ok a) f w = f a w
continue (err e) f w = (err e, w)

infixl 5 ◌>>=◌ ◌>>◌
unfoldable pub ◌>>=◌ : {A B : Type 0} → M A → (A → M B) → M B
◌>>=◌ m f w = let (r, w') = m w in continue r f w'

abbrev pub ◌>>◌ : {A B : Type 0} → M A → M B → M B
m >> n = m >>= λ _. n

-- `Option::ok_or`, and a pure result inside an action.
abbrev pub ok_or : {A : Type 0} → Error → Option A → M A
ok_or e none = fail e
ok_or e (some a) = pure a

abbrev pub lift : {A : Type 0} → Result A → M A
lift r w = (r, w)

abbrev pub gets : {A : Type 0} → (World → A) → M A
gets f w = (ok (f w), w)

-- `if let Err(e) = action { warn!(...) }`: an error is logged and dropped.
unfoldable pub ignore_error : {A : Type 0} → M A → M (Unit {0})
ignore_error m w = let (r, w') = m w in (ok tt, w')

-- `Result::map_err`.
abbrev pub error_as : (Error → Error) → Result (Unit {0}) → Result (Unit {0})
error_as f (ok u) = ok u
error_as f (err e) = err (f e)

unfoldable pub map_err : (Error → Error) → M (Unit {0}) → M (Unit {0})
map_err f m w = let (r, w') = m w in (error_as f r, w')

-- The parts of a state change.
abbrev pub tick : World → World
tick w = record w { reads = w.reads + 1 }

abbrev pub draw : World → World
draw w = record w { uuids = w.uuids + 1 }

abbrev pub emit : Message → World → World
emit m w = record w { sent = w.sent ++ m ∷ [] }

abbrev pub on_store : (Datastore → Datastore) → World → World
on_store f w = record w { store = f w.store }

module _ (env : Env) where
  -- `OffsetDateTime::now_utc()`.
  unfoldable pub now : M ℕ
  now w = (ok (env.now w.reads), tick w)

  unfoldable pub new_short_uuid : M String
  new_short_uuid w = (ok (env.new_short_uuid w.uuids), draw w)

  -- A message reaches the broker, or the broker's error is returned.
  unfoldable pub publish : Message → M (Unit {0})
  publish m w = if env.accepts w.sent m then (ok tt, emit m w) else (err publish_failed, w)
