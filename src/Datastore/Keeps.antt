-- ===== src/Datastore/Keeps.antt =====
-- Every operation of the datastore keeps the job index well formed, where an update leaves a task's
-- identifier and job as they were.
use twerk.Prelude.{
  String, ◌≡◌, refl, ap, Option, none, some, ◌⊎◌, inl, inr, List, [], ◌∷◌, Option-cases,
}
use twerk.Map.{get}
use twerk.Id.{IdError, validate_id, validate_job_id}
use twerk.Task.{Task}
use twerk.Job.{Job}
use twerk.Node.{Node, TaskLogPart}
use twerk.World.{Error, Result, ok, err, invalid_input, Datastore, World, Env, M, ◌>>=◌, ok_or}
use twerk.World.Keeps.{Keeps, Keeps-pure, Keeps-ok_or, Keeps-fail, Keeps-bind}
use twerk.Datastore.{
  add_task, put_task, put_job, put_node, modify_store, create_task, create_tasks, checked,
  get_task_by_id, get_job_by_id, get_node_by_id, update_task, update_job, update_node,
  get_all_tasks_for_job, get_active_tasks, create_task_log_part, create_node, create_job,
}
use twerk.Datastore.Indexed.{IsIndexed, SameKey, add_task-IsIndexed, put_task-IsIndexed}

-- A change of the other parts of the datastore.
outside-IsIndexed :
    (d d' : Datastore)
    → d'.tasks ≡ d.tasks
    → d'.tasks_by_job ≡ d.tasks_by_job
    → IsIndexed d
    → IsIndexed d'
outside-IsIndexed d d' e f h = record {
  named = λ i t p. h.named i t (rw e at p);
  found = λ i j t p q. rw f (h.found i j t (rw e at p) q);
  listed = λ i j p. rw e (h.listed i j (rw f at p));
}

module _ {P : Datastore → Type 0} where
  pub Keeps-get_task_by_id : (id : String) → Keeps P (get_task_by_id id)
  unfolding get_task_by_id
  Keeps-get_task_by_id id = record {
    at = λ w. (Keeps-ok_or {P = P} Error.task_not_found (get w.store.tasks id)).at w;
  }

  pub Keeps-get_job_by_id : (id : String) → Keeps P (get_job_by_id id)
  unfolding get_job_by_id
  Keeps-get_job_by_id id = record {
    at = λ w. (Keeps-ok_or {P = P} Error.job_not_found (get w.store.jobs id)).at w;
  }

  pub Keeps-get_node_by_id : (id : String) → Keeps P (get_node_by_id id)
  unfolding get_node_by_id
  Keeps-get_node_by_id id = record {
    at = λ w. (Keeps-ok_or {P = P} Error.node_not_found (get w.store.nodes id)).at w;
  }

  pub Keeps-get_all_tasks_for_job :
      (env : Env) (job_id : String) → Keeps P (get_all_tasks_for_job env job_id)
  unfolding get_all_tasks_for_job
  Keeps-get_all_tasks_for_job env job_id = record { at = λ w h. h }

  pub Keeps-get_active_tasks : (env : Env) (job_id : String) → Keeps P (get_active_tasks env job_id)
  unfolding get_active_tasks
  Keeps-get_active_tasks env job_id = record { at = λ w h. h }

  pub Keeps-checked : (o : Option IdError) → Keeps P (checked o)
  Keeps-checked none = Keeps-pure tt
  Keeps-checked (some e) = Keeps-fail (Error.invalid_id e)

  Keeps-modify_store :
      (f : Datastore → Datastore) → ((d : Datastore) → P d → P (f d)) → Keeps P (modify_store f)
  Keeps-modify_store f k = record { at = λ w h. k w.store h }

abbrev IndexKept : {A : Type 0} → M A → Type 0
IndexKept m = Keeps IsIndexed m

-- An action that starts by requiring an identifier.
with_id :
    {A B : Type 0} (e : Error) (o : Option A) (f : A → M B)
    → ((a : A) → o ≡ some a → IndexKept (f a))
    → IndexKept (ok_or e o >>= f)
unfolding ◌>>=◌
with_id e none f k = record { at = λ w h. h }
with_id e (some a) f k = record { at = λ w h. (k a refl).at w h }

pub Keeps-create_task : (t : Task) → IndexKept (create_task t)
unfolding create_task
Keeps-create_task t =
    with_id (invalid_input "id required") t.id (λ id. modify_store (add_task id t))
      λ id e. Keeps-modify_store (add_task id t) (λ d h. add_task-IsIndexed id t d e h)

pub Keeps-create_tasks : (ts : List Task) → IndexKept (create_tasks ts)
unfolding create_tasks
Keeps-create_tasks [] = Keeps-pure tt
Keeps-create_tasks (t ∷ ts) =
    Keeps-bind (create_task t) (λ _. create_tasks ts) (Keeps-create_task t)
      (λ _. Keeps-create_tasks ts)

pub Keeps-create_job : (j : Job) → IndexKept (create_job j)
unfolding create_job
Keeps-create_job j =
    with_id (invalid_input "id required") j.id (λ id. modify_store (put_job id j))
      λ id e.
        Keeps-modify_store (put_job id j) (λ d h. outside-IsIndexed d (put_job id j d) refl refl h)

pub Keeps-create_node : (n : Node) → IndexKept (create_node n)
unfolding create_node
Keeps-create_node n =
    with_id (invalid_input "id required") n.id (λ id. modify_store (put_node id n))
      λ id e.
        Keeps-modify_store (put_node id n)
          (λ d h. outside-IsIndexed d (put_node id n d) refl refl h)

pub Keeps-create_task_log_part : (p : TaskLogPart) → IndexKept (create_task_log_part p)
unfolding create_task_log_part
Keeps-create_task_log_part p =
    with_id (invalid_input "task_id required") p.task_id _
      λ id e. Keeps-modify_store _ (λ d h. outside-IsIndexed d _ refl refl h)

Result-cases : {A : Type 0} (r : Result A) → ((a : A) × (r ≡ ok a)) ⊎ ((e : Error) × (r ≡ err e))
Result-cases (ok a) = inl (a, refl)
Result-cases (err e) = inr (e, refl)

pub ok_injective : {A : Type 0} {a b : A} → ok a ≡ ok b → a ≡ b
ok_injective p = cc

-- What an update leaves: the datastore as it was, or with the changed record of a stored one.
module _ {A : Type 0} (env : Env) (P : Datastore → Type 0) (w : World) (id : String) where
  pub update_task-store :
      (modify : Task → Result (Task × A))
      → ((t t' : Task) (a : A)
          → get w.store.tasks id ≡ some t
          → modify t ≡ ok (t', a)
          → P (put_task id t' w.store))
      → P w.store
      → P (update_task env id modify w).1.store
  unfolding update_task ◌>>=◌
  update_task-store modify k h = elim (Option-cases (get w.store.tasks id)) [
    | inl e ↦ rw e h
    | inr (t, e) ↦ rw e elim (Result-cases (modify t)) [
      | inl ((t', a), r) ↦ rw r elim (Option-cases (validate_id env.is_alphanumeric id)) [
        | inl v ↦ rw v (k t t' a e r)
        | inr (x, v) ↦ rw v h
      ]
      | inr (x, r) ↦ rw r h
    ]
  ]

  update_job-store :
      (modify : Job → Result (Job × A))
      → ((j : Job) → P (put_job id j w.store))
      → P w.store
      → P (update_job env id modify w).1.store
  unfolding update_job ◌>>=◌
  update_job-store modify k h = elim (Option-cases (get w.store.jobs id)) [
    | inl e ↦ rw e h
    | inr (j, e) ↦ rw e elim (Result-cases (modify j)) [
      | inl ((j', a), r) ↦ rw r elim (Option-cases (validate_job_id env.is_uuid id)) [
        | inl v ↦ rw v (k j')
        | inr (x, v) ↦ rw v h
      ]
      | inr (x, r) ↦ rw r h
    ]
  ]

  update_node-store :
      (modify : Node → Result (Node × A))
      → ((n : Node) → P (put_node id n w.store))
      → P w.store
      → P (update_node env id modify w).1.store
  unfolding update_node ◌>>=◌
  update_node-store modify k h = elim (Option-cases (get w.store.nodes id)) [
    | inl e ↦ rw e h
    | inr (n, e) ↦ rw e elim (Result-cases (modify n)) [
      | inl ((n', a), r) ↦ rw r elim (Option-cases (validate_id env.is_alphanumeric id)) [
        | inl v ↦ rw v (k n')
        | inr (x, v) ↦ rw v h
      ]
      | inr (x, r) ↦ rw r h
    ]
  ]

module _ {A : Type 0} (env : Env) where
  -- A closure that never fails, in the form that the handlers give it.
  pub Keeps-update_task :
      (id : String) (change : Task → Task × A)
      → ((t : Task) → SameKey (change t).0 t)
      → IndexKept (update_task env id (λ u. ok (change u)))
  Keeps-update_task id change same = record {
    at = λ w h.
        update_task-store env IsIndexed w id (λ u. ok (change u))
          (λ t t' a e r.
            put_task-IsIndexed id t t' w.store e
              (rw (ap (λ (x : Task × A). x.0) (ok_injective r)) at (same t)) h)
          h;
  }

  pub Keeps-update_job :
      (id : String) (modify : Job → Result (Job × A)) → IndexKept (update_job env id modify)
  Keeps-update_job id modify = record {
    at = λ w h.
        update_job-store env IsIndexed w id modify
          (λ j. outside-IsIndexed w.store (put_job id j w.store) refl refl h) h;
  }

  pub Keeps-update_node :
      (id : String) (modify : Node → Result (Node × A)) → IndexKept (update_node env id modify)
  Keeps-update_node id modify = record {
    at = λ w h.
        update_node-store env IsIndexed w id modify
          (λ n. outside-IsIndexed w.store (put_node id n w.store) refl refl h) h;
  }

pub ruleset datastore_rules = (
  Keeps-get_task_by_id, Keeps-get_job_by_id, Keeps-get_node_by_id, Keeps-get_all_tasks_for_job,
  Keeps-get_active_tasks, Keeps-checked, Keeps-create_task, Keeps-create_tasks, Keeps-create_job,
  Keeps-create_node, Keeps-create_task_log_part, Keeps-update_task, Keeps-update_job,
  Keeps-update_node,
)
