-- ===== src/Coordinator/Cancelling.antt =====
-- A cancelled job is left with no active task
-- (crates/twerk-app/src/engine/coordinator/handlers/cancellation.rs, job_handlers.rs).
pub mod Event
pub mod Failure
use twerk.Prelude.{
  ℕ, String, Bool, true, false, ◌≡◌, refl, sym, ap, ◌∙◌, Option, none, some, ◌⊎◌, inl, inr, List,
  [], ◌∷◌, Option-cases, Has, Has-keep, Bool-cases, if◌then◌else◌,
}
use twerk.Map.{get-insert_cases, get, insert, get-insert_self}
use twerk.TaskState.{is_active}
use twerk.Task.{Task, SubJobTask}
use twerk.Job.{Job}
use twerk.World.{Error, Result, ok, err, handler, Datastore, World, Env, M, ◌>>=◌, ok_or, on_store}
use twerk.World.Steps.{bind_inv}
use twerk.World.Keeps.{Keeps, Keeps-pure, keeps_rules}
use twerk.Datastore.{put_task, get_active_tasks, tasks_of_job, update_task}
use twerk.Datastore.Laws.{update_task_inv}
use twerk.Datastore.Keeps.{Keeps-get_task_by_id, Keeps-get_job_by_id, Keeps-get_node_by_id}
use twerk.Datastore.Indexed.{IsIndexed}
use twerk.Datastore.Queries.{tasks_of_job_complete}
use twerk.Coordinator.Handlers.Cancellation.{
  mark_cancelled, cancel_subjob, tell_node, cancel_affinity, cancel_task_affinity, cancel_task,
  cancel_tasks, cancel_active_tasks,
}

-- An active task of the later datastore was there before, as it is.
abbrev pub Shrinks : Datastore → Datastore → Type 0
Shrinks d d' =
    (id : String) (t : Task)
    → get d'.tasks id ≡ some t
    → is_active t.state ≡ true
    → get d.tasks id ≡ some t

-- The stored task of an identifier, if any, is not active.
abbrev Inactive : String → Datastore → Type 0
Inactive id d = (t : Task) → get d.tasks id ≡ some t → is_active t.state ≡ true → ⊥

-- No stored task of the job is active.
abbrev pub NoActive : String → Datastore → Type 0
NoActive job_id d =
    (id : String) (t : Task)
    → get d.tasks id ≡ some t
    → t.job_id ≡ some job_id
    → is_active t.state ≡ false

module _ {P : Datastore → Type 0} (env : Env) where
  Keeps-cancel_subjob : (sj : SubJobTask) → Keeps P (cancel_subjob env sj)
  unfolding cancel_subjob
  Keeps-cancel_subjob sj = search (keeps_rules, Keeps-get_job_by_id) depth 12

  Keeps-tell_node : (o : Option String) (t : Task) → Keeps P (tell_node env o t)
  unfolding tell_node
  Keeps-tell_node none t = search keeps_rules
  Keeps-tell_node (some id) t = search (keeps_rules, Keeps-get_node_by_id) depth 12

  Keeps-cancel_affinity : (o : Option SubJobTask) (t : Task) → Keeps P (cancel_affinity env o t)
  unfolding cancel_affinity
  Keeps-cancel_affinity (some sj) t = Keeps-cancel_subjob sj
  Keeps-cancel_affinity none t = Keeps-tell_node t.node_id t

mark_cancelled-off : (t : Task) → is_active (mark_cancelled t).state ≡ false
unfolding mark_cancelled is_active
mark_cancelled-off t = refl

-- A write of an inactive task.
put-Shrinks :
    (id : String) (t : Task) (d : Datastore)
    → is_active t.state ≡ false
    → Shrinks d (put_task id t d)
put-Shrinks id t d off i u e on = elim (get-insert_cases d.tasks id i t e) [
  | inl new ↦ absurd (cc (off, on, ap (λ (x : Task). is_active x.state) new.1))
  | inr old ↦ old
]

put-Inactive :
    (id : String) (t : Task) (d : Datastore)
    → is_active t.state ≡ false
    → Inactive id (put_task id t d)
put-Inactive id t d off u e on =
    let same : some t ≡ some u = sym (get-insert_self d.tasks id t) ∙ e in
    absurd (cc (off, on, same))

pub ok_or_inv :
    {A : Type 0} (e : Error) (o : Option A) (w w' : World) {a : A}
    → Path (Result A × World) (ok_or e o w) (ok a, w')
    → (o ≡ some a) × (w ≡ w')
ok_or_inv e none w w' p = absurd (cc)
ok_or_inv e (some b) w w' p = (cc, ap (λ (x : Result _ × World). x.1) p)

Shrinks-trans : (a b c : Datastore) → Shrinks a b → Shrinks b c → Shrinks a c
Shrinks-trans a b c f g id t e on = f id t (g id t e on) on

Shrinks-Inactive : (id : String) (a b : Datastore) → Shrinks a b → Inactive id a → Inactive id b
Shrinks-Inactive id a b f h t e on = h t (f id t e on) on

module _ (env : Env) where
  -- A cancelled task is written as cancelled, and nothing else of the store changes.
  cancel_task_inv :
      (t : Task) (w w' : World)
      → cancel_task env t w ≡ (ok tt, w')
      → (id : String) × (t.id ≡ some id)
        × (u : Task) × (w'.store ≡ put_task id (mark_cancelled u) w.store)
  unfolding cancel_task cancel_task_affinity
  cancel_task_inv t w w' h =
      let (id, v, p, h1) = bind_inv _ _ w h in
      let (e, same) = ok_or_inv _ t.id w v p in
      let (a, x, q, h2) = bind_inv (update_task env id (λ u. ok (mark_cancelled u, tt))) _ v h1 in
      let (u, found, _, left) = update_task_inv env id v (λ u. (mark_cancelled u, tt)) q in
      let kept : (cancel_affinity env t.subjob t x).1.store ≡ x.store =
        (Keeps-cancel_affinity {P = λ d. d ≡ x.store} env t.subjob t).at x refl in
      (id, e, u, settled id u same left kept h2)
    where
      settled :
          (id : String) (u : Task) {v x : World}
          → w ≡ v
          → x ≡ on_store (put_task id (mark_cancelled u)) v
          → (cancel_affinity env t.subjob t x).1.store ≡ x.store
          → cancel_affinity env t.subjob t x ≡ (ok tt, w')
          → w'.store ≡ put_task id (mark_cancelled u) w.store
      settled id u {v} {x} same left kept h2 =
          sym (ap (λ (r : Result Unit × World). r.1.store) h2)
          ∙ kept
          ∙ ap (λ (y : World). y.store) left
          ∙ ap (λ (y : World). put_task id (mark_cancelled u) y.store) (sym same)

  -- After the loop no task that it went over is active, and no task has become active.
  cancel_tasks-Inactive :
      (ts : List Task) (w w' : World)
      → cancel_tasks env ts w ≡ (ok tt, w')
      → Shrinks w.store w'.store
        × ((t : Task) (id : String) → Has t ts → t.id ≡ some id → Inactive id w'.store)
  unfolding cancel_tasks
  cancel_tasks-Inactive [] w w' h =
      let same : w.store ≡ w'.store = ap (λ (r : Result Unit × World). r.1.store) h in
      ((λ id t e on. rw (← same) at e), (λ t id m e. absurd m))
  cancel_tasks-Inactive (t ∷ ts) w w' h =
      let (a, v, p, h1) = bind_inv (cancel_task env t) _ w h in
      let (id, e, u, left) = cancel_task_inv t w v p in
      let (rest, off) = cancel_tasks-Inactive ts v w' h1 in
      (
        Shrinks-trans w.store v.store w'.store
            (rw left (put-Shrinks id (mark_cancelled u) w.store (mark_cancelled-off u))) rest,
        λ s i m q. elim m [
          | inl same ↦
              let named : i ≡ id = cc (same, q, e) in
              Shrinks-Inactive i v.store w'.store rest (
                rw (left, named)
                  (put-Inactive id (mark_cancelled u) w.store (mark_cancelled-off u)))
          | inr later ↦ off s i later q
        ],
      )

  pub cancel_active_tasks-NoActive :
      (job_id : String) (w w' : World)
      → IsIndexed w.store
      → cancel_active_tasks env job_id w ≡ (ok tt, w')
      → NoActive job_id w'.store × Shrinks w.store w'.store
  unfolding cancel_active_tasks get_active_tasks ◌>>=◌
  cancel_active_tasks-NoActive job_id w w' h e =
      let (less, off) = cancel_tasks-Inactive _ w w' e in
      (
        λ id t p q. elim (Bool-cases (is_active t.state)) [
          | inl on ↦
              let before = less id t p on in
              absurd (
                off t id
                  (Has-keep (λ u. is_active u.state) t (tasks_of_job env job_id w.store)
                    (tasks_of_job_complete env job_id w.store id t h before q) on)
                  (h.named id t before) t p on)
          | inr off_now ↦ off_now
        ],
        less,
      )
