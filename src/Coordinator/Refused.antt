-- ===== src/Coordinator/Refused.antt =====
-- Subtasks that the broker refuses (`create_and_publish_subtasks` in
-- crates/twerk-app/src/engine/coordinator/scheduler/shared.rs).
use Prim.Native.String
use twerk.Prelude.{
  String, false, ◌≡◌, refl, ap, ◌∙◌, Option, none, some, ◌⊎◌, inl, inr, List, [], ◌∷◌, str_eq,
  Bool-cases, if◌then◌else◌,
}
use twerk.Map.{Map, get, insert, get-insert, get-insert_self}
use twerk.Id.{validate_id}
use twerk.TaskState.{TaskState}
use twerk.Task.{Task}
use twerk.World.{
  Result, ok, err, publish_failed, tasks, World, Env, ignore_error, on_store, Datastore,
}
use twerk.World.Steps.{bind-ok}
use twerk.Datastore.{put_task, add_task, create_tasks}
use twerk.Datastore.Laws.{update_task-ok, create_task-ok, publish-refused}
use twerk.Coordinator.Util.{queue_pending}
use twerk.Coordinator.Scheduler.Shared.{
  mark_publish_failed, rollback_one, rollback_failed_publish, after_publish, publish_or_rollback,
  create_and_publish_subtasks,
}

-- A task with its identifier.
abbrev pub Named : Type 0
Named = String × Task

abbrev pub tasks_in : List Named → List Task
tasks_in [] = []
tasks_in ((id, t) ∷ ts) = t ∷ tasks_in ts

abbrev pub AllNamed : Env → List Named → Type 0
AllNamed env [] = Unit
AllNamed env ((id, t) ∷ ts) =
    ((t.id ≡ some id) × (validate_id env.is_alphanumeric id ≡ none)) × AllNamed env ts

abbrev pub Stored : String → Datastore → Type 0
Stored id d = (u : Task) × (get d.tasks id ≡ some u)

-- The stored task of an identifier is failed.
abbrev pub Failed : String → Datastore → Type 0
Failed id d = (u : Task) × (get d.tasks id ≡ some u) × (u.state ≡ TaskState.failed)

get-insert_other :
    (m : Map Task) (k j : String) (v : Task)
    → (get (insert m k v) j ≡ some v) ⊎ (get (insert m k v) j ≡ get m j)
get-insert_other m k j v = elim (Bool-cases (str_eq k j)) [
  | inl e ↦ inl (get-insert m k j v ∙ ap (λ b. if b then some v else get m j) e)
  | inr e ↦ inr (get-insert m k j v ∙ ap (λ b. if b then some v else get m j) e)
]

Stored-insert :
    (m : Map Task) (k j : String) (v : Task)
    → (u : Task) × (get m j ≡ some u)
    → (u : Task) × (get (insert m k v) j ≡ some u)
Stored-insert m k j v (u, e) = elim (get-insert_other m k j v) [
  | inl p ↦ (v, p)
  | inr p ↦ (u, p ∙ e)
]

module _ (env : Env) where
  abbrev AllStored : List Named → Datastore → Type 0
  AllStored [] d = Unit
  AllStored ((id, t) ∷ ts) d = Stored id d × AllStored ts d

  AllStored-mono :
      (ts : List Named) (d d' : Datastore)
      → ((id : String) → Stored id d → Stored id d')
      → AllStored ts d
      → AllStored ts d'
  AllStored-mono [] d d' f h = tt
  AllStored-mono ((id, t) ∷ ts) d d' f h = (f id h.0, AllStored-mono ts d d' f h.1)

  abbrev pub AllFailed : List Named → Datastore → Type 0
  AllFailed [] d = Unit
  AllFailed ((id, t) ∷ ts) d = Failed id d × AllFailed ts d

  create_tasks-stores :
      (ts : List Named) (w : World)
      → AllNamed env ts
      → (w' : World) × (create_tasks (tasks_in ts) w ≡ (ok tt, w'))
        × AllStored ts w'.store
        × (w'.sent ≡ w.sent)
        × ((id : String) → Stored id w.store → Stored id w'.store)
  unfolding create_tasks add_task
  create_tasks-stores [] w h = (w, refl, tt, refl, λ id s. s)
  create_tasks-stores ((id, t) ∷ ts) w h =
      let v = on_store (add_task id t) w in
      let (w', run, all, s, keeps) = create_tasks-stores ts v h.1 in
      (
        w',
        bind-ok _ _ w (create_task-ok id t w h.0.0) ∙ run,
        (keeps id (t, get-insert_self w.store.tasks id t), all),
        s,
        λ i p. keeps i (Stored-insert w.store.tasks id i t p),
      )

  rollback_one-fails :
      (message id : String) (o : Option String) (u : Task) (w : World)
      → o ≡ some id
      → validate_id env.is_alphanumeric id ≡ none
      → get w.store.tasks id ≡ some u
      → rollback_one env message o w
        ≡ (ok tt, on_store (put_task id (mark_publish_failed message u)) w)
  unfolding rollback_one ignore_error
  rollback_one-fails message id o u w named valid e =
      ap (λ x. rollback_one env message x w) named
      ∙ ap (λ (r : Result (Unit {0}) × World). (ok tt, r.1))
          (update_task-ok env id w _ e refl valid)

  rollback_failed_publish-fails :
      (message : String) (ts : List Named) (w : World)
      → AllNamed env ts
      → AllStored ts w.store
      → (w' : World) × (rollback_failed_publish env (tasks_in ts) message w ≡ (ok tt, w'))
        × AllFailed ts w'.store
        × (w'.sent ≡ w.sent)
        × ((id : String) → Failed id w.store → Failed id w'.store)
  unfolding rollback_failed_publish mark_publish_failed
  rollback_failed_publish-fails message [] w h s = (w, refl, tt, refl, λ id f. f)
  rollback_failed_publish-fails message ((id, t) ∷ ts) w h s =
      let (u, e) = s.0 in
      let u' = mark_publish_failed message u in
      let v = on_store (put_task id u') w in
      let (w', run, all, sent_same, keeps) =
        rollback_failed_publish-fails message ts v h.1
          (AllStored-mono ts w.store v.store (λ i p. Stored-insert w.store.tasks id i u' p) s.1) in
      (
        w',
        bind-ok _ _ w (rollback_one-fails message id t.id u w h.0.0 h.0.1 e) ∙ run,
        (keeps id (u', get-insert_self w.store.tasks id u', refl), all),
        sent_same,
        λ i (x, p, q). keeps i (elim (get-insert_other w.store.tasks id i u') [
          | inl new ↦ (u', new, refl)
          | inr old ↦ (x, old ∙ p, q)
        ]),
      )

  -- Subtasks, one at least, with valid identifiers that the broker refuses are not sent: the error
  -- is returned, no message is left, and every one of them is stored as failed.
  pub create_and_publish_subtasks-refused :
      (id : String) (t : Task) (ts : List Named) (w : World)
      → AllNamed env ((id, t) ∷ ts)
      → env.accepts w.sent (tasks queue_pending (t ∷ tasks_in ts)) ≡ false
      → (w' : World) × (create_and_publish_subtasks env (t ∷ tasks_in ts) w
          ≡ (err publish_failed, w'))
        × (w'.sent ≡ w.sent)
        × AllFailed ((id, t) ∷ ts) w'.store
  unfolding create_and_publish_subtasks publish_or_rollback after_publish
  create_and_publish_subtasks-refused id t ts w h no_room =
      let all = (id, t) ∷ ts in
      let message = String.◌++◌ "broker publish failed: " (env.error_text publish_failed) in
      let (v, run, stored, sent_same, _) = create_tasks-stores all w h in
      let (w', rolled, fails, sent_after, _) =
        rollback_failed_publish-fails message all v h stored in
      (
        w',
        bind-ok _ _ w run
            ∙ ap (λ (r : Result (Unit {0}) × World). after_publish env r.0 (tasks_in all) r.1)
                (publish-refused env (tasks queue_pending (tasks_in all)) v (rw sent_same no_room))
            ∙ bind-ok _ _ v rolled,
        sent_after ∙ sent_same,
        fails,
      )
