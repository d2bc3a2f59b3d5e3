-- ===== src/Datastore.antt =====
-- The in-memory datastore (crates/twerk-infrastructure/src/datastore/inmemory.rs): tasks with
-- their two indexes, nodes, jobs and task logs.
-- A closure that an update is given returns the new record and what it leaves in the variables that
-- it captures, `Unit` where it captures none that are read afterwards.
pub mod Laws
pub mod Indexed
pub mod Queries
pub mod Keeps
use twerk.Prelude.{
  String, Bool, true, false, Option, none, some, List, [], ◌∷◌, ◌++◌, str_eq, if◌then◌else◌,
  unwrap_or, keep,
}
use twerk.Map.{Map, get, insert, values}
use twerk.Id.{IdError, validate_id, validate_job_id}
use twerk.TaskState.{TaskState, created, is_active}
use twerk.Task.{Task}
use twerk.Job.{Job}
use twerk.Node.{Node, TaskLogPart}
use twerk.World.{
  Result, ok, task_not_found, node_not_found, job_not_found, invalid_input, invalid_id, Datastore,
  Env, M, pure, fail, ◌>>=◌, ◌>>◌, ok_or, gets, on_store,
}

-- `entry(key).or_default().push(value)`.
unfoldable pub push {ℓ} : {A : Type ℓ} → Map (List A) → String → A → Map (List A)
push m k v = insert m k (unwrap_or (get m k) [] ++ v ∷ [])

-- The index entry of an optional key.
unfoldable pub index : Map (List String) → Option String → String → Map (List String)
index m none id = m
index m (some k) id = push m k id

unfoldable pub add_task : String → Task → Datastore → Datastore
unfolding index
add_task id t d = record d {
  tasks = insert d.tasks id t;
  tasks_by_job = index d.tasks_by_job t.job_id id;
  tasks_by_parent = index d.tasks_by_parent t.parent_id id;
}

abbrev pub put_task : String → Task → Datastore → Datastore
put_task id t d = record d { tasks = insert d.tasks id t }

abbrev pub put_job : String → Job → Datastore → Datastore
put_job id j d = record d { jobs = insert d.jobs id j }

abbrev pub put_node : String → Node → Datastore → Datastore
put_node id n d = record d { nodes = insert d.nodes id n }

abbrev pub modify_store : (Datastore → Datastore) → M (Unit {0})
modify_store f w = (ok tt, on_store f w)

unfoldable pub create_task : Task → M (Unit {0})
create_task t = do id ← ok_or (invalid_input "id required") t.id; modify_store (add_task id t)

-- The tasks before one that has no identifier stay created.
unfoldable pub create_tasks : List Task → M (Unit {0})
create_tasks [] = pure tt
create_tasks (t ∷ ts) = do create_task t; create_tasks ts

-- `Result::map_err` of an identifier check.
abbrev pub checked : Option IdError → M (Unit {0})
checked none = pure tt
checked (some e) = fail (invalid_id e)

unfoldable pub get_task_by_id : String → M Task
get_task_by_id id w = ok_or task_not_found (get w.store.tasks id) w

unfoldable pub get_job_by_id : String → M Job
get_job_by_id id w = ok_or job_not_found (get w.store.jobs id) w

unfoldable pub get_node_by_id : String → M Node
get_node_by_id id w = ok_or node_not_found (get w.store.nodes id) w

module _ {A : Type 0} (env : Env) where
  -- The identifier is checked after the closure has run, and before the write.
  unfoldable pub update_task : String → (Task → Result (Task × A)) → M A
  unfolding get_task_by_id
  update_task id modify = do
    t ← get_task_by_id id
    (t', a) ← (λ w. (modify t, w))
    checked (validate_id env.is_alphanumeric id)
    modify_store (put_task id t')
    pure a

  unfoldable pub update_job : String → (Job → Result (Job × A)) → M A
  unfolding get_job_by_id
  update_job id modify = do
    j ← get_job_by_id id
    (j', a) ← (λ w. (modify j, w))
    checked (validate_job_id env.is_uuid id)
    modify_store (put_job id j')
    pure a

  unfoldable pub update_node : String → (Node → Result (Node × A)) → M A
  unfolding get_node_by_id
  update_node id modify = do
    n ← get_node_by_id id
    (n', a) ← (λ w. (modify n, w))
    checked (validate_id env.is_alphanumeric id)
    modify_store (put_node id n')
    pure a

abbrev pub prepend {ℓ} : {A : Type ℓ} → Option A → List A → List A
prepend none xs = xs
prepend (some x) xs = x ∷ xs

-- The tasks of the identifiers that are in the map, `filter_map`.
unfoldable pub lookup_all : Map Task → List String → List Task
lookup_all m [] = []
lookup_all m (id ∷ ids) = prepend (get m id) (lookup_all m ids)

abbrev pub names : Option String → String → Bool
names none j = false
names (some k) j = str_eq k j

-- The index is used where the job's identifier is valid and has an entry, else every task is read.
unfoldable pub find_tasks :
    (d : Datastore) (job_id : String) → Option IdError → Option (List String) → List Task
unfolding lookup_all
find_tasks d job_id none (some ids) = lookup_all d.tasks ids
find_tasks d job_id none none = keep (λ t. names t.job_id job_id) (values d.tasks)
find_tasks d job_id (some e) o = keep (λ t. names t.job_id job_id) (values d.tasks)

unfoldable pub tasks_of_job : Env → String → Datastore → List Task
unfolding find_tasks
tasks_of_job env job_id d =
    find_tasks d job_id (validate_job_id env.is_uuid job_id) (get d.tasks_by_job job_id)

unfoldable pub get_all_tasks_for_job : Env → String → M (List Task)
get_all_tasks_for_job env job_id = gets (λ w. tasks_of_job env job_id w.store)

unfoldable pub get_active_tasks : Env → String → M (List Task)
get_active_tasks env job_id =
    gets (λ w. keep (λ t. is_active t.state) (tasks_of_job env job_id w.store))

is_created : TaskState → Bool
is_created created = true
is_created _ = false

first_created : List Task → Option Task
unfolding is_created
first_created [] = none
first_created (t ∷ ts) = let rest = first_created ts in if is_created t.state then some t else rest

or_scan : Option Task → Option Task → Option Task
or_scan (some t) o = some t
or_scan none o = o

-- The first child that is still `Created`, by the parent index and then by a scan.
unfoldable pub get_next_task : String → M Task
unfolding first_created or_scan lookup_all
get_next_task parent_id w =
    let d = w.store in
    let indexed = lookup_all d.tasks (unwrap_or (get d.tasks_by_parent parent_id) []) in
    let scan = keep (λ t. names t.parent_id parent_id) (values d.tasks) in
    ok_or task_not_found (or_scan (first_created indexed) (first_created scan)) w

unfoldable pub create_task_log_part : TaskLogPart → M (Unit {0})
create_task_log_part part = do
  id ← ok_or (invalid_input "task_id required") part.task_id
  modify_store (λ d. record d { task_log_parts = push d.task_log_parts id part })

unfoldable pub create_node : Node → M (Unit {0})
create_node n = do id ← ok_or (invalid_input "id required") n.id; modify_store (put_node id n)

unfoldable pub create_job : Job → M (Unit {0})
create_job j = do id ← ok_or (invalid_input "id required") j.id; modify_store (put_job id j)
