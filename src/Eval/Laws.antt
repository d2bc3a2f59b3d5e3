-- ===== src/Eval/Laws.antt =====
-- What the evaluation of a task's templates leaves as it was
-- (crates/twerk-core/src/eval/task.rs).
use twerk.Prelude.{◌≡◌, refl, sym, ap, subst, ◌∙◌}
use twerk.Map.{Map}
use twerk.Task.{Task, to_task, of_task}
use twerk.Task.Nested.{TaskFields, TaskDef, task_def}
use twerk.World.{ok, err, Env}
use twerk.Try.{returned_from}
use twerk.Eval.{eval_texts, eval_commands, eval_def, evaluate_task}

ok_injective {ℓ} : {A : Type ℓ} {a b : A} → ok a ≡ ok b → a ≡ b
ok_injective {a = a} p = ap (λ r. elim r [ ok x ↦ x | err e ↦ a ]) p

-- The fields of the second with the nine texts that are evaluated taken from the first.
abbrev pub with_texts : TaskFields → TaskFields → TaskFields
with_texts g f = record f {
  name = g.name;
  var = g.var;
  image = g.image;
  queue = g.queue;
  if_expr = g.if_expr;
  env = g.env;
  files = g.files;
  cmd = g.cmd;
  entrypoint = g.entrypoint;
}

abbrev fields_of : TaskDef → TaskFields
fields_of (task_def f pre post sidecars par each sub) = f

to_task-fields : (d : TaskDef) → (to_task d).fields ≡ fields_of d
unfolding to_task
to_task-fields (task_def f pre post sidecars par each sub) = refl

module _ (env : Env) (context : Map env.Value) where
  eval_texts-with_texts : (f g : TaskFields) → eval_texts env context f ≡ ok g → g ≡ with_texts g f
  unfolding eval_texts
  eval_texts-with_texts f g h =
      let (name, _, h) = returned_from _ _ h in
      let (var, _, h) = returned_from _ _ h in
      let (image, _, h) = returned_from _ _ h in
      let (queue, _, h) = returned_from _ _ h in
      let (if_expr, _, h) = returned_from _ _ h in
      let (env_map, _, h) = returned_from _ _ h in
      let (files, _, h) = returned_from _ _ h in
      subst (λ x. x ≡ with_texts x f) (ok_injective h) refl

  eval_commands-with_texts :
      (f g : TaskFields) → eval_commands env context f ≡ ok g → g ≡ with_texts g f
  unfolding eval_commands
  eval_commands-with_texts f g h =
      let (cmd, _, h) = returned_from _ _ h in
      let (entrypoint, _, h) = returned_from _ _ h in
      subst (λ x. x ≡ with_texts x f) (ok_injective h) refl

  eval_def-with_texts :
      (d d' : TaskDef)
      → eval_def env context d ≡ ok d'
      → fields_of d' ≡ with_texts (fields_of d') (fields_of d)
  unfolding eval_def
  eval_def-with_texts (task_def f pre post sidecars par each sub) d' h =
      let (texts, p, h) = returned_from _ _ h in
      let (_, _, h) = returned_from _ _ h in
      let (_, _, h) = returned_from _ _ h in
      let (_, _, h) = returned_from _ _ h in
      let (_, _, h) = returned_from _ _ h in
      let (_, _, h) = returned_from _ _ h in
      let (f', q, h) = returned_from _ _ h in
      let (_, _, h) = returned_from _ _ h in
      let same : f' ≡ fields_of d' = ap fields_of (ok_injective h) in
      subst (λ x. x ≡ with_texts x f) same
        (eval_commands-with_texts texts f' q ∙ ap (with_texts f') (eval_texts-with_texts f texts p))

  -- An evaluation that succeeds changes, of the fields that hold no task, only the nine texts: the
  -- name, the variable, the image, the queue, the condition, the environment, the files, the command
  -- and the entrypoint.
  pub evaluate_task-with_texts :
      (t t' : Task)
      → evaluate_task env context t ≡ ok t'
      → t'.fields ≡ with_texts t'.fields t.fields
  unfolding evaluate_task to_task of_task
  evaluate_task-with_texts t t' h =
      let (d, p, q) = returned_from _ _ h in
      let same : fields_of d ≡ t'.fields =
        sym (to_task-fields d) ∙ ap (λ (x : Task). x.fields) (ok_injective q) in
      subst (λ x. x ≡ with_texts x t.fields) same (eval_def-with_texts (of_task t) d p)
