-- ===== src/Coordinator/Children.antt =====
-- The subtasks that a parallel and an each task are expanded into
-- (crates/twerk-app/src/engine/coordinator/scheduler/parallel.rs, each.rs).
use twerk.Prelude.{ℕ, suc, String, ◌≡◌, refl, ap, subst, ◌∙◌, some, List, [], ◌∷◌, length, All}
use twerk.Map.{Map}
use twerk.TaskState.{TaskState}
use twerk.Task.{Task}
use twerk.Task.Nested.{TaskDef}
use twerk.World.{Result, ok, World, Env, M}
use twerk.World.Steps.{bind_inv}
use twerk.Datastore.{checked}
use twerk.Coordinator.Scheduler.Shared.{new_subtask, as_subtask, collect_all}
use twerk.Coordinator.Scheduler.Parallel.{build_parallel_subtask, build_parallel_subtasks}
use twerk.Coordinator.Scheduler.Each.{build_subtask, enumerate}

-- A pending task of the job, under the parent, made at the time.
abbrev pub IsChild : (job_id parent_id : String) → ℕ → Task → Type 0
IsChild job_id parent_id at t =
    (t.job_id ≡ some job_id)
    × (t.parent_id ≡ some parent_id)
    × (t.state ≡ TaskState.pending)
    × (t.created_at ≡ some at)

value_of :
    {A : Type 0} {a b : A} {v w : World} → Path (Result A × World) (ok a, v) (ok b, w) → a ≡ b
value_of p = cc

-- The tasks of a collection, one for each element.
collect_all_inv :
    {A : Type 0} (f : A → M Task) (P : Task → Type 0)
    → ((a : A) (t : Task) (v v' : World) → f a v ≡ (ok t, v') → P t)
    → (xs : List A) (ts : List Task) (w w' : World) → collect_all f xs w ≡ (ok ts, w')
    → All P ts × (length ts ≡ length xs)
unfolding collect_all
collect_all_inv f P h [] ts w w' run =
    subst (λ l. All P l × (length l ≡ 0)) (value_of run) (tt, refl)
collect_all_inv f P h (x ∷ xs) ts w w' run =
    let (y, v, first, run1) = bind_inv (f x) _ w run in
    let (ys, u, rest, run2) = bind_inv (collect_all f xs) _ v run1 in
    let (all, same) = collect_all_inv f P h xs ys v u rest in
    subst (λ l. All P l × (length l ≡ suc (length xs))) (value_of run2)
      ((h x y w v first, all), ap suc same)

module _ (env : Env) (job_id parent_id : String) (at : ℕ) where
  new_subtask-IsChild :
      (evaluated t : Task) (w w' : World)
      → new_subtask env job_id parent_id at evaluated w ≡ (ok t, w')
      → IsChild job_id parent_id at t
  unfolding new_subtask as_subtask
  new_subtask-IsChild evaluated t w w' run =
      let (id, v, _, run1) = bind_inv _ _ w run in
      let (_, u, _, run2) = bind_inv (checked _) _ v run1 in
      subst (IsChild job_id parent_id at) (value_of run2) (refl, refl, refl, refl)

  -- The subtasks that a parallel task is expanded into, where the expansion returns: one for each
  -- definition, each pending, of the parent's job, under the parent, made at the given time.
  pub build_parallel_subtasks-IsChild :
      (ctx : Map env.Value) (defs : List TaskDef) (ts : List Task) (w w' : World)
      → build_parallel_subtasks env ctx job_id parent_id at defs w ≡ (ok ts, w')
      → All (IsChild job_id parent_id at) ts × (length ts ≡ length defs)
  unfolding build_parallel_subtasks build_parallel_subtask
  build_parallel_subtasks-IsChild ctx defs ts w w' run =
      collect_all_inv (build_parallel_subtask env ctx job_id parent_id at)
        (IsChild job_id parent_id at)
        (λ d t v v' step.
          let (evaluated, u, _, rest) = bind_inv _ _ v step in
          new_subtask-IsChild evaluated t u v' rest)
        defs ts w w' run

  length-enumerate : (n : ℕ) (xs : List env.Value) → length (enumerate n xs) ≡ length xs
  unfolding enumerate
  length-enumerate n [] = refl
  length-enumerate n (x ∷ xs) = ap suc (length-enumerate (suc n) xs)

  -- The subtasks that an each task is expanded into, where the expansion returns: one for each item,
  -- each pending, of the parent's job, under the parent, made at the given time.
  pub build_subtasks-IsChild :
      (template : Task) (ctx : Map env.Value) (items : List env.Value) (ts : List Task)
      (w w' : World)
      → collect_all (build_subtask env template ctx job_id parent_id at) (enumerate 0 items) w
        ≡ (ok ts, w')
      → All (IsChild job_id parent_id at) ts × (length ts ≡ length items)
  unfolding build_subtask
  build_subtasks-IsChild template ctx items ts w w' run =
      let (all, same) =
        collect_all_inv (build_subtask env template ctx job_id parent_id at)
          (IsChild job_id parent_id at)
          (λ d t v v' step.
            let (evaluated, u, _, rest) = bind_inv _ _ v step in
            new_subtask-IsChild evaluated t u v' rest)
          (enumerate 0 items) ts w w' run in
      (all, same ∙ length-enumerate 0 items)
