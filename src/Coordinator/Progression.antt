-- ===== src/Coordinator/Progression.antt =====
-- A job goes through its top-level tasks (`handle_top_level_task_completed` in
-- crates/twerk-app/src/engine/coordinator/handlers/task_workflow.rs).
use twerk.Prelude.{
  ℕ, zero, suc, ◌+◌, ◌≤◌, ◌<◌, String, true, ◌≡◌, refl, sym, ap, ◌∙◌, Option, none, some, List, [],
  ◌∷◌, ◌++◌, arith, length, get_elem?, le→leb, lt→not-leb,
}
use twerk.Map.{get, get-insert_self}
use twerk.Id.{validate_job_id}
use twerk.Task.{Task}
use twerk.Job.{Job}
use twerk.World.{
  ok, job_has_no_tasks, task_out_of_bounds, task, job, Message, World, Env, M, pure, ◌>>◌, on_store,
  emit, tick, draw,
}
use twerk.World.Steps.{bind-ok, ok_or-ok, if-true, if-false}
use twerk.Datastore.{put_job, add_task}
use twerk.Datastore.Laws.{
  get_job_by_id-ok, update_job-ok, create_task-ok, publish-ok, now-ok, new_short_uuid-ok,
  checked-ok,
}
use twerk.Coordinator.Util.{queue_pending}
use twerk.Coordinator.Handlers.Workflow.{
  next_task, complete, advance, handle_top_level_task_completed,
}

-- The job at a position.
abbrev pub at_position : Job → ℕ → Job
at_position j n = record j { position = n }

module _ (env : Env) (job_id : String) (j : Job) (ts : List Task) where
  -- The task that follows a position, as it is stored and sent.
  abbrev pub follower : World → ℕ → Task → Task
  follower w n base = next_task (env.new_short_uuid w.uuids) job_id (n + 1) (env.now w.reads) base

  -- What the step does to the world where there is a further task.
  abbrev pub advanced : ℕ → Task → World → World
  advanced n base w = emit (task queue_pending (follower w n base)) (
      on_store (put_job job_id (at_position j (n + 1)))
        (on_store (add_task (env.new_short_uuid w.uuids) (follower w n base)) (draw (tick w))))

  advance-lem :
      (n : ℕ) (base : Task) (w : World)
      → get w.store.jobs job_id ≡ some (at_position j n)
      → validate_job_id env.is_uuid job_id ≡ none
      → env.accepts w.sent (task queue_pending (follower w n base)) ≡ true
      → (o : Option Task) → o ≡ some base
      → advance env job_id n (env.now w.reads) o (tick w) ≡ (ok tt, advanced n base w)
  unfolding advance next_task add_task
  advance-lem n base w e v sends o p =
      let w1 = draw (tick w) in
      let w2 = on_store (add_task (env.new_short_uuid w.uuids) (follower w n base)) w1 in
      bind-ok _ _ (tick w) (ok_or-ok task_out_of_bounds o (tick w) p)
      ∙ bind-ok _ _ (tick w) (new_short_uuid-ok env (tick w))
      ∙ bind-ok _ _ w1 (checked-ok (validate_job_id env.is_uuid job_id) w1 v)
      ∙ bind-ok _ _ w1 (create_task-ok (env.new_short_uuid w.uuids) (follower w n base) w1 refl)
      ∙ bind-ok _ _ w2
          (update_job-ok env job_id w2 (λ u. ok (record u { position = n + 1 }, tt)) e refl v)
      ∙ publish-ok env (on_store (put_job job_id (at_position j (n + 1))) w2)
          (task queue_pending (follower w n base)) sends

  module _ (n : ℕ) (w : World) (e : get w.store.jobs job_id ≡ some (at_position j n))
      (has : j.tasks ≡ some ts) where
    -- A completed top-level task of a job that has a further task: that task is created under a new
    -- identifier, pending, the job moves one position on, and the task is sent to `x-pending`. The
    -- state of the job is not read.
    pub handle_top_level_task_completed-advances :
        (base : Task)
        → n < length ts
        → get_elem? ts n ≡ some base
        → validate_job_id env.is_uuid job_id ≡ none
        → env.accepts w.sent (task queue_pending (follower w n base)) ≡ true
        → handle_top_level_task_completed env job_id w ≡ (ok tt, advanced n base w)
    unfolding handle_top_level_task_completed
    handle_top_level_task_completed-advances base h p v sends =
        bind-ok _ _ w (get_job_by_id-ok job_id w e)
        ∙ bind-ok _ _ w (now-ok env w)
        ∙ bind-ok _ _ (tick w) (ok_or-ok job_has_no_tasks j.tasks (tick w) has)
        ∙ if-true _ _ (tick w) (le→leb (n + 1) (length ts) (omega arith))
        ∙ advance-lem n base w e v sends (get_elem? ts n) p

    -- A completed top-level task of a job that has no further task: the job is sent as completed,
    -- and nothing is written.
    pub handle_top_level_task_completed-ends :
        length ts ≤ n
        → env.accepts w.sent (job (complete (at_position j n))) ≡ true
        → handle_top_level_task_completed env job_id w
          ≡ (ok tt, emit (job (complete (at_position j n))) (tick w))
    unfolding handle_top_level_task_completed
    handle_top_level_task_completed-ends h sends =
        bind-ok _ _ w (get_job_by_id-ok job_id w e)
        ∙ bind-ok _ _ w (now-ok env w)
        ∙ bind-ok _ _ (tick w) (ok_or-ok job_has_no_tasks j.tasks (tick w) has)
        ∙ if-false _ _ (tick w) (lt→not-leb (n + 1) (length ts) (omega arith))
        ∙ publish-ok env (tick w) (job (complete (at_position j n))) sends

-- The action, a number of times.
abbrev pub repeat : ℕ → M (Unit {0}) → M (Unit {0})
repeat zero m = pure tt
repeat (suc n) m = do m; repeat n m

module _ (env : Env) (job_id : String) where
  -- The messages for the tasks that follow a position, in the order of the job's definition, with
  -- successive positions, identifiers and times.
  abbrev pub published : List Task → (position uuids reads : ℕ) → List Message
  published [] n u r = []
  published (b ∷ bs) n u r =
      task queue_pending (next_task (env.new_short_uuid u) job_id (n + 1) (env.now r) b)
      ∷ published bs (n + 1) (u + 1) (r + 1)

one_add : (i : ℕ) → 1 + i ≡ suc i
one_add i = omega arith

add_zero : (n : ℕ) → n + 0 ≡ n
add_zero n = omega arith

add_shift : (n i : ℕ) → (n + 1) + i ≡ n + suc i
add_shift n i = omega arith

append-nil : (xs : List Message) → xs ++ [] ≡ xs
append-nil [] = refl
append-nil (x ∷ xs) = ap (λ l. x ∷ l) (append-nil xs)

append-snoc : (xs ys : List Message) (m : Message) → (xs ++ m ∷ []) ++ ys ≡ xs ++ m ∷ ys
append-snoc [] ys m = refl
append-snoc (x ∷ xs) ys m = ap (λ l. x ∷ l) (append-snoc xs ys m)

module _ (env : Env) (job_id : String) (j : Job) (ts : List Task) (has : j.tasks ≡ some ts)
    (valid : validate_job_id env.is_uuid job_id ≡ none)
    (sends : (s : List Message) (m : Message) → env.accepts s m ≡ true) where
  repeat-published :
      (rest : List Task) (n : ℕ) (w : World)
      → get w.store.jobs job_id ≡ some (at_position j n)
      → length ts ≡ n + length rest
      → ((i : ℕ) → get_elem? ts (n + i) ≡ get_elem? rest i)
      → (w' : World) × (repeat (length rest) (handle_top_level_task_completed env job_id) w
          ≡ (ok tt, w'))
        × (w'.sent ≡ w.sent ++ published env job_id rest n w.uuids w.reads)
        × (get w'.store.jobs job_id ≡ some (at_position j (length ts)))
  unfolding add_task
  repeat-published [] n w e size at =
      (w, refl, sym (append-nil w.sent), e ∙ ap (λ k. some (at_position j k)) (omega (arith, size)))
  repeat-published (b ∷ bs) n w e size at =
      let v = advanced env job_id j ts n b w in
      let step =
        handle_top_level_task_completed-advances env job_id j ts n w e has b (omega (arith, size))
          (ap (get_elem? ts) (sym (add_zero n)) ∙ at 0) valid (sends _ _) in
      let (w', run, s, f) =
        repeat-published bs (n + 1) v (get-insert_self w.store.jobs job_id (at_position j (n + 1)))
          (omega (arith, size)) (λ i. ap (get_elem? ts) (add_shift n i) ∙ at (suc i)) in
      (w', bind-ok _ _ w step ∙ run, s ∙ append-snoc w.sent _ _, f)

-- A job, stored under a valid identifier, of which the first task was started, with a broker that
-- accepts every message: as its top-level tasks complete one after another, its other tasks are
-- sent to `x-pending` in the order of its definition, at successive positions, and the last
-- completion sends the job as completed, whatever the state that the stored job is in.
pub job-in_order :
    (env : Env) (job_id : String) (j : Job) (base : Task) (rest : List Task) (w : World)
    → j.tasks ≡ some (base ∷ rest)
    → validate_job_id env.is_uuid job_id ≡ none
    → ((s : List Message) (m : Message) → env.accepts s m ≡ true)
    → get w.store.jobs job_id ≡ some (at_position j 1)
    → (w' : World) × (repeat (length rest) (handle_top_level_task_completed env job_id) w
        ≡ (ok tt, w'))
      × (w'.sent ≡ w.sent ++ published env job_id rest 1 w.uuids w.reads)
      × (handle_top_level_task_completed env job_id w'
          ≡ (ok tt, emit (job (complete (at_position j (suc (length rest))))) (tick w')))
job-in_order env job_id j base rest w has valid sends e =
    let (w', run, s, f) =
      repeat-published env job_id j (base ∷ rest) has valid sends rest 1 w e (omega arith)
        (λ i. ap (get_elem? (base ∷ rest)) (one_add i)) in
    (
      w',
      run,
      s,
      handle_top_level_task_completed-ends env job_id j (base ∷ rest) (suc (length rest)) w' f has
          (omega arith) (sends _ _),
    )
