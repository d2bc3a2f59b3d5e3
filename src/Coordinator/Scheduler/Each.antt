-- ===== src/Coordinator/Scheduler/Each.antt =====
-- A task that runs a template once for each item of a list
-- (crates/twerk-app/src/engine/coordinator/scheduler/each.rs).
-- From eight items on the program builds the subtasks by a parallel iterator that leaves their order
-- open; here they keep the order of the list.
use Prim.Native.String
use text.Mathlib.Text.{starts_with}
use mathlib.Core.Option
use twerk.Prelude.{ℕ, suc, String, none, some, List, [], ◌∷◌, length, unwrap_or, if◌then◌else◌}
use twerk.Map.{Map, insert}
use twerk.TaskState.{TaskState}
use twerk.Task.{Task, EachTask, to_task}
use twerk.World.{
  Result, ok, err, missing_config, each_list_must_be_array, missing_each_template, evaluation, Env,
  M, ◌>>=◌, ◌>>◌, ok_or, lift, now,
}
use twerk.Eval.{evaluate_task}
use twerk.Datastore.{get_job_by_id, update_task}
use twerk.Coordinator.Util.{job_context_map}
use twerk.Coordinator.Scheduler.Shared.{
  scheduler_ids, new_subtask, collect_all, create_and_publish_subtasks,
}
use twerk.Coordinator.Scheduler.Parallel.{evaluation_error}

-- The items with their positions, `enumerate`.
unfoldable pub enumerate {ℓ} : {A : Type ℓ} → ℕ → List A → List (ℕ × A)
enumerate n [] = []
enumerate n (x ∷ xs) = (n, x) ∷ enumerate (suc n) xs

unfoldable pub resize : ℕ → EachTask → EachTask
resize size e = record e { fields = record e.fields { size = size } }

-- The closure of the update: running, with the number of items.
unfoldable pub mark_each_running : ℕ → ℕ → Task → Task
unfolding resize
mark_each_running size at t = record t {
  fields = record t.fields { state = TaskState.running; started_at = some at };
  each = Option.map (resize size) t.each;
}

module _ (env : Env) where
  -- A text that is itself JSON is read as JSON.
  reread : env.Value → env.Value
  reread v = elim (env.as_str v) [ none ↦ v | some s ↦ unwrap_or (env.parse_value s) v ]

  each_value : String → Map env.Value → Result env.Value
  each_value list_expr ctx =
      if starts_with (env.trim list_expr) "["
      then ok (elim (env.parse_array list_expr) [
        | none ↦ env.string_value list_expr
        | some l ↦ env.array_value l
      ])
      else elim (env.evaluate_expr list_expr ctx) [
        | ok v ↦ ok v
        | err e ↦ err (evaluation "each list" (env.error_text e))
      ]

  unfoldable pub eval_each_list : String → Map env.Value → Result env.Value
  unfolding reread each_value
  eval_each_list list_expr ctx = elim (each_value list_expr ctx) [
    | ok v ↦ ok (reread v)
    | err e ↦ err e
  ]

  insert_fields : String → Map env.Value → Map env.Value → Map env.Value
  insert_fields var_name [] cx = cx
  insert_fields var_name ((key, value) ∷ rest) cx =
      insert_fields var_name rest
        (insert cx (String.◌++◌ var_name (String.◌++◌ "_value_" key)) value)

  insert_item_context_entries : Map env.Value → env.Value → String → Map env.Value
  unfolding insert_fields
  insert_item_context_entries cx item var_name =
      let cx' = insert cx var_name item in
      elim (env.as_object item) [
        | some obj ↦ insert_fields var_name obj cx'
        | none ↦ insert cx' (String.◌++◌ var_name "_value") item
      ]

  unfoldable pub extend_context_with_item : Map env.Value → env.Value → String → ℕ → Map env.Value
  unfolding insert_item_context_entries
  extend_context_with_item base item var_name ix =
      insert_item_context_entries
        (insert base (String.◌++◌ var_name "_index") (env.string_value (env.decimal ix))) item
        var_name

  unfoldable pub build_subtask :
      Task → Map env.Value → (job_id task_id : String) → ℕ → ℕ × env.Value → M Task
  build_subtask template ctx job_id task_id at (ix, item) = do
    let cx = extend_context_with_item ctx item "item" ix
    evaluated ← lift (evaluation_error env "each item task" (evaluate_task env cx template))
    new_subtask env job_id task_id at evaluated

  unfoldable pub mark_each_task_running : String → ℕ → ℕ → M (Unit {0})
  unfolding mark_each_running
  mark_each_task_running task_id size at =
      update_task env task_id (λ u. ok (mark_each_running size at u, tt))

  unfoldable pub schedule_each_task : Task → M (Unit {0})
  schedule_each_task t = do
    (task_id, job_id) ← scheduler_ids t "each"
    at ← now env
    job ← get_job_by_id job_id
    let ctx = job_context_map env job
    each ← ok_or (missing_config "each") t.each
    list_val ← lift (eval_each_list (unwrap_or each.list "") ctx)
    list ← ok_or each_list_must_be_array (env.as_array list_val)
    mark_each_task_running task_id (length list) at
    template ← ok_or missing_each_template each.task
    subtasks ←
        collect_all (build_subtask (to_task template) ctx job_id task_id at) (enumerate 0 list)
    create_and_publish_subtasks env subtasks
