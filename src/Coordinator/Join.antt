-- ===== src/Coordinator/Join.antt =====
-- The joins of a parallel and of an each task (`handle_subtask_completed` in
-- crates/twerk-app/src/engine/coordinator/handlers/subtask_handlers.rs).
use twerk.Prelude.{
  ℕ, zero, suc, ◌+◌, ◌≤◌, ◌<◌, String, true, ◌≡◌, refl, ap, ◌∙◌, none, some, List, [], ◌∷◌, ◌++◌,
  arith, length, leb, le→leb, lt→not-leb,
}
use twerk.Map.{get, get-insert_self}
use twerk.Id.{validate_id}
use twerk.Task.{Task, EachTask}
use twerk.Task.Nested.{TaskDef}
use twerk.World.{Result, ok, missing_parent_task_id, task, World, Env, on_store, emit, tick}
use twerk.World.Steps.{bind-ok, ok_or-ok, times}
use twerk.Datastore.{put_task}
use twerk.Datastore.Laws.{get_task_by_id-ok, update_task-ok, publish-ok, now-ok}
use twerk.Coordinator.Util.{queue_completed}
use twerk.Coordinator.Handlers.Subtask.{
  count_parallel, count_each, complete_one, mark_completed, publish_if_last,
  handle_parallel_subtask_completed, handle_each_subtask_completed, handle_subtask_completed,
}

add_one : (n : ℕ) → n + 1 ≡ suc n
add_one n = omega arith

-- A parent by the number of its completions, with a handler that counts one more and ends as both
-- handlers do.
module _ (env : Env) (id : String) (parent : ℕ → Task) (size : ℕ)
    (counts : (n : ℕ) (w : World)
      → get w.store.tasks id ≡ some (parent n)
      → handle_subtask_completed env id w
        ≡ publish_if_last env
            (parent n)
            (leb size (suc n))
            (on_store (put_task id (parent (suc n))) w)) where
  completes-early :
      (n : ℕ) (w : World)
      → get w.store.tasks id ≡ some (parent n)
      → suc n < size
      → handle_subtask_completed env id w ≡ (ok tt, on_store (put_task id (parent (suc n))) w)
  unfolding publish_if_last
  completes-early n w e h =
      counts n w e
      ∙ ap (λ b. publish_if_last env (parent n) b (on_store (put_task id (parent (suc n))) w))
          (lt→not-leb _ _ h)

  completes-last :
      (n : ℕ) (w : World)
      → get w.store.tasks id ≡ some (parent n)
      → size ≤ suc n
      → env.accepts w.sent (task queue_completed (mark_completed (env.now w.reads) (parent n)))
        ≡ true
      → handle_subtask_completed env id w ≡ (
        ok tt,
        emit
            (task queue_completed (mark_completed (env.now w.reads) (parent n)))
            (tick (on_store (put_task id (parent (suc n))) w)),
      )
  unfolding publish_if_last
  completes-last n w e h sends =
      let v = on_store (put_task id (parent (suc n))) w in
      counts n w e
      ∙ ap (λ b. publish_if_last env (parent n) b v) (le→leb _ _ h)
      ∙ bind-ok _ _ v (now-ok env v)
      ∙ publish-ok env (tick v) (task queue_completed (mark_completed (env.now w.reads) (parent n)))
          sends

  -- What the first completions of a fresh parent leave.
  abbrev Waiting : (n : ℕ) (w w' : World) → Type 0
  Waiting n w w' =
      (get w'.store.tasks id ≡ some (parent n)) × (w'.sent ≡ w.sent) × (w'.reads ≡ w.reads)

  times-Waiting :
      (n : ℕ) (w : World)
      → get w.store.tasks id ≡ some (parent 0)
      → n < size
      → (w' : World) × (times n (handle_subtask_completed env id) w ≡ (ok tt, w')) × Waiting n w w'
  times-Waiting zero w e h = (w, refl, (e, refl, refl))
  times-Waiting (suc n) w e h =
      let (w', run, (e', s, r)) = times-Waiting n w e (omega arith) in
      (
        on_store (put_task id (parent (suc n))) w',
        bind-ok _ _ w run ∙ completes-early n w' e' (omega arith),
        (get-insert_self w'.store.tasks id (parent (suc n)), s, r),
      )

  counted_join :
      (n : ℕ) (w : World)
      → get w.store.tasks id ≡ some (parent 0)
      → size ≡ suc n
      → env.accepts w.sent (task queue_completed (mark_completed (env.now w.reads) (parent n)))
        ≡ true
      → ((k : ℕ) → k ≤ n → (times k (handle_subtask_completed env id) w).1.sent ≡ w.sent)
        × ((times (suc n) (handle_subtask_completed env id) w).0 ≡ ok tt)
        × ((times (suc n) (handle_subtask_completed env id) w).1.sent
            ≡ w.sent ++ task queue_completed (mark_completed (env.now w.reads) (parent n)) ∷ [])
  counted_join n w e is_size sends =
      let (w', run, (e', s, r)) = times-Waiting n w e (omega (arith, is_size)) in
      let all : times (suc n) (handle_subtask_completed env id) w ≡ (
        ok tt,
        emit (task queue_completed (mark_completed (env.now w'.reads) (parent n)))
            (tick (on_store (put_task id (parent (suc n))) w')),
      ) =
        bind-ok _ _ w run ∙ completes-last n w' e' (omega arith) (rw (s, r) sends) in
      (
        λ k h.
            let (x, run_k, (_, s_k, _)) = times-Waiting k w e (omega arith) in
            ap (λ (z : _ × World). z.1.sent) run_k ∙ s_k,
        ap (λ (z : Result Unit × World). z.0) all,
        ap (λ (z : Result Unit × World). z.1.sent) all ∙ rw (s, r) refl,
      )

-- A parallel task of the given subtasks, of which some have completed.
abbrev pub joining : Task → List TaskDef → ℕ → Task
joining t defs n = record t { parallel = some (record { tasks = some defs; completions = n }) }

-- An each task, and no parallel one, of which some subtasks have completed.
abbrev pub repeating : Task → EachTask → ℕ → Task
repeating t e n = record t {
  parallel = none;
  each = some (record e { fields = record e.fields { completions = n } });
}

module _ (env : Env) (id : String) (t : Task) (n : ℕ) (w : World) (named : t.id ≡ some id)
    (valid : validate_id env.is_alphanumeric id ≡ none) where
  counts_parallel :
      (defs : List TaskDef)
      → get w.store.tasks id ≡ some (joining t defs n)
      → handle_subtask_completed env id w
        ≡ publish_if_last env
            (joining t defs n)
            (leb (length defs) (suc n))
            (on_store (put_task id (joining t defs (suc n))) w)
  unfolding handle_subtask_completed handle_parallel_subtask_completed count_parallel
  counts_parallel defs e =
      bind-ok _ _ w (get_task_by_id-ok id w e)
      ∙ bind-ok _ _ w (ok_or-ok missing_parent_task_id t.id w named)
      ∙ bind-ok _ _ w (update_task-ok env id w (λ u. ok (count_parallel u)) e refl valid)
      ∙ ap
          (λ k.
            publish_if_last env (joining t defs n) (leb (length defs) k)
              (on_store (put_task id (joining t defs k)) w))
          (add_one n)

  counts_each :
      (x : EachTask)
      → get w.store.tasks id ≡ some (repeating t x n)
      → handle_subtask_completed env id w
        ≡ publish_if_last env
            (repeating t x n)
            (leb x.size (suc n))
            (on_store (put_task id (repeating t x (suc n))) w)
  unfolding handle_subtask_completed handle_each_subtask_completed count_each complete_one
  counts_each x e =
      bind-ok _ _ w (get_task_by_id-ok id w e)
      ∙ bind-ok _ _ w (ok_or-ok missing_parent_task_id t.id w named)
      ∙ bind-ok _ _ w (update_task-ok env id w (λ u. ok (count_each u)) e refl valid)
      ∙ ap
          (λ k.
            publish_if_last env (repeating t x n) (leb x.size k)
              (on_store (put_task id (repeating t x k)) w))
          (add_one n)

module _ (env : Env) (id : String) (t : Task) (n : ℕ) (w : World) (named : t.id ≡ some id)
    (valid : validate_id env.is_alphanumeric id ≡ none) where
  -- The join of a fresh parallel task of `n + 1` subtasks, stored under a valid identifier of its
  -- own: the first `n` completions send nothing, and the completion after them sends one message,
  -- the parent as completed, where the broker accepts it.
  pub join-once :
      (defs : List TaskDef)
      → get w.store.tasks id ≡ some (joining t defs 0)
      → length defs ≡ suc n
      → env.accepts w.sent
          (task queue_completed (mark_completed (env.now w.reads) (joining t defs n)))
        ≡ true
      → ((k : ℕ) → k ≤ n → (times k (handle_subtask_completed env id) w).1.sent ≡ w.sent)
        × ((times (suc n) (handle_subtask_completed env id) w).0 ≡ ok tt)
        × ((times (suc n) (handle_subtask_completed env id) w).1.sent
            ≡ w.sent
              ++ task queue_completed (mark_completed (env.now w.reads) (joining t defs n)) ∷ [])
  join-once defs =
      counted_join env id (joining t defs) (length defs)
        (λ k v e. counts_parallel env id t k v named valid defs e) n w

  -- The join of a fresh each task over `n + 1` items, stored under a valid identifier of its own:
  -- the first `n` completions send nothing, and the completion after them sends one message, the
  -- parent as completed, where the broker accepts it.
  pub join_each-once :
      (x : EachTask)
      → get w.store.tasks id ≡ some (repeating t x 0)
      → x.size ≡ suc n
      → env.accepts w.sent
          (task queue_completed (mark_completed (env.now w.reads) (repeating t x n)))
        ≡ true
      → ((k : ℕ) → k ≤ n → (times k (handle_subtask_completed env id) w).1.sent ≡ w.sent)
        × ((times (suc n) (handle_subtask_completed env id) w).0 ≡ ok tt)
        × ((times (suc n) (handle_subtask_completed env id) w).1.sent
            ≡ w.sent
              ++ task queue_completed (mark_completed (env.now w.reads) (repeating t x n)) ∷ [])
  join_each-once x =
      counted_join env id (repeating t x) x.size (λ k v e. counts_each env id t k v named valid x e)
        n w
