-- ===== src/Eval.antt =====
-- Evaluation of the templates in a task (crates/twerk-core/src/eval/task.rs). The template engine is
-- the parameter `evaluate_template`.
pub mod Laws
use twerk.Prelude.{String, Option, none, some, List, if◌then◌else◌, is_empty}
use twerk.Map.{Map, non_empty}
use twerk.Task.{Task, to_task, of_task}
use twerk.Task.Nested.{
  Webhook, TaskFields, EachFields, SubJobFields, TaskDef, task_def, MaybeTasks, no_tasks,
  some_tasks, Tasks, nil, cons, MaybeParallel, no_parallel, some_parallel, MaybeEach, no_each,
  each_only, each_task, MaybeSubJob, no_subjob, some_subjob,
}
use twerk.World.{Result, ok, Env}
use twerk.Try.{◌>>=◌, collect, traverse}

abbrev list_non_empty {ℓ} : {A : Type ℓ} → Option (List A) → Option (List A)
list_non_empty none = none
list_non_empty (some l) = if is_empty l then none else some l

module _ (env : Env) (context : Map env.Value) where
  eval_field : Option String → Result (Option String)
  eval_field = traverse (λ s. env.evaluate_template s context)

  -- `None` evaluates to the empty map.
  eval_map : Option (Map String) → Result (Map String)
  unfolding collect
  eval_map none = ok List.[]
  eval_map (some m) = collect (λ (k, v). do v' ← env.evaluate_template v context; ok (k, v')) m

  eval_strings : Option (List String) → Result (Option (List String))
  unfolding collect
  eval_strings = traverse (collect (λ s. env.evaluate_template s context))

  eval_webhook : Webhook → Result Webhook
  unfolding eval_field eval_map
  eval_webhook wh = do
    url ← eval_field wh.url
    headers ← eval_map wh.headers
    wh_if ← eval_field wh.if_expr
    ok (record wh { url = url; headers = non_empty headers; if_expr = wh_if })

  -- The fields that are evaluated before the nested tasks; `run` is not.
  eval_texts : TaskFields → Result TaskFields
  unfolding eval_field eval_map
  eval_texts f = do
    name ← eval_field f.name
    var ← eval_field f.var
    image ← eval_field f.image
    queue ← eval_field f.queue
    if_expr ← eval_field f.if_expr
    env_map ← eval_map f.env
    files ← eval_map f.files
    ok (record f {
      name = name;
      var = var;
      image = image;
      queue = queue;
      if_expr = if_expr;
      env = non_empty env_map;
      files = non_empty files;
    })

  -- The fields that are evaluated after `each` and before `subjob`.
  eval_commands : TaskFields → Result TaskFields
  unfolding eval_strings
  eval_commands f = do
    cmd ← eval_strings f.cmd
    entrypoint ← eval_strings f.entrypoint
    ok (record f { cmd = cmd; entrypoint = entrypoint })

  eval_each_fields : EachFields → Result EachFields
  unfolding eval_field
  eval_each_fields f = do
    var ← eval_field f.var
    list ← eval_field f.list
    ok (record f { var = var; list = list })

  mutual
    unfolding eval_field eval_map

    eval_def : TaskDef → Result TaskDef
    eval_def (task_def f pre post sidecars par each sub) = do
      texts ← eval_texts f
      pre' ← eval_tasks pre
      post' ← eval_tasks post
      sidecars' ← eval_tasks sidecars
      par' ← eval_parallel par
      each' ← eval_each each
      f' ← eval_commands texts
      sub' ← eval_subjob sub
      ok (task_def f' pre' post' sidecars' par' each' sub')

    eval_tasks : MaybeTasks → Result MaybeTasks
    eval_tasks no_tasks = ok no_tasks
    eval_tasks (some_tasks ts) = do ts' ← eval_list ts; ok (some_tasks ts')

    eval_list : Tasks → Result Tasks
    eval_list nil = ok nil
    eval_list (cons t ts) = do t' ← eval_def t; ts' ← eval_list ts; ok (cons t' ts')

    eval_parallel : MaybeParallel → Result MaybeParallel
    eval_parallel no_parallel = ok no_parallel
    eval_parallel (some_parallel completions ts) = do
      ts' ← eval_tasks ts
      ok (some_parallel completions ts')

    eval_each : MaybeEach → Result MaybeEach
    eval_each no_each = ok no_each
    eval_each (each_only f) = do f' ← eval_each_fields f; ok (each_only f')
    eval_each (each_task f t) = do f' ← eval_each_fields f; t' ← eval_def t; ok (each_task f' t')

    eval_subjob : MaybeSubJob → Result MaybeSubJob
    eval_subjob no_subjob = ok no_subjob
    eval_subjob (some_subjob f ts) = do
      name ← eval_field f.name
      inputs ← eval_map f.inputs
      secrets ← eval_map f.secrets
      ts' ← eval_tasks ts
      webhooks ← traverse (collect eval_webhook) f.webhooks
      ok (
          some_subjob
            (record f {
              name = name;
              inputs = non_empty inputs;
              secrets = non_empty secrets;
              webhooks = list_non_empty webhooks;
            })
            ts')

  -- A task and the tasks nested in it.
  unfoldable pub evaluate_task : Task → Result Task
  unfolding eval_def eval_texts eval_commands eval_webhook eval_each_fields
  evaluate_task t = do t' ← eval_def (of_task t); ok (to_task t')
