-- ===== src/Datastore/Laws.antt =====
-- What the datastore's operations do to the state, exactly.
use twerk.Prelude.{
  String, ◌≡◌, refl, sym, ◌∙◌, ap, Option, none, some, inl, inr, Option-cases, true, false,
}
use twerk.Map.{get}
use twerk.Id.{IdError, validate_id, validate_job_id}
use twerk.Task.{Task}
use twerk.Job.{Job}
use twerk.Node.{Node}
use twerk.World.{
  Error, Result, ok, err, task_not_found, node_not_found, invalid_id, publish_failed, World,
  Message, Env, ◌>>=◌, on_store, emit, draw, tick, publish, now, new_short_uuid,
}
use twerk.Datastore.{
  add_task, put_task, put_job, create_task, create_job, get_task_by_id, get_job_by_id, update_task,
  update_job, checked, put_node, create_node, update_node,
}

module _ (id : String) (w : World) where
  pub get_task_by_id-ok :
      {t : Task} → get w.store.tasks id ≡ some t → get_task_by_id id w ≡ (ok t, w)
  unfolding get_task_by_id
  get_task_by_id-ok e = rw e

  pub get_job_by_id-ok : {j : Job} → get w.store.jobs id ≡ some j → get_job_by_id id w ≡ (ok j, w)
  unfolding get_job_by_id
  get_job_by_id-ok e = rw e

pub create_task-ok :
    (id : String) (t : Task) (w : World)
    → t.id ≡ some id
    → create_task t w ≡ (ok tt, on_store (add_task id t) w)
unfolding create_task ◌>>=◌
create_task-ok id t w e = rw e

pub create_job-ok :
    (id : String) (j : Job) (w : World)
    → j.id ≡ some id
    → create_job j w ≡ (ok tt, on_store (put_job id j) w)
unfolding create_job ◌>>=◌
create_job-ok id j w e = rw e

pub create_node-ok :
    (id : String) (n : Node) (w : World)
    → n.id ≡ some id
    → create_node n w ≡ (ok tt, on_store (put_node id n) w)
unfolding create_node ◌>>=◌
create_node-ok id n w e = rw e

refused :
    {A B : Type 0} {a : A} {x : Error} {v w : B} → Path (Result A × B) (ok a, v) (err x, w) → ⊥
refused p = cc

returned : {A B : Type 0} {a b : A} {v w : B} → Path (Result A × B) (ok a, v) (ok b, w) → a ≡ b
returned p = cc

module _ {A : Type 0} (env : Env) (id : String) (w : World) where
  pub update_task-ok :
      (modify : Task → Result (Task × A)) {t t' : Task} {a : A}
      → get w.store.tasks id ≡ some t
      → modify t ≡ ok (t', a)
      → validate_id env.is_alphanumeric id ≡ none
      → update_task env id modify w ≡ (ok a, on_store (put_task id t') w)
  unfolding update_task ◌>>=◌
  update_task-ok modify e r v = rw (e) (rw r (rw v))

  pub update_job-ok :
      (modify : Job → Result (Job × A)) {j j' : Job} {a : A}
      → get w.store.jobs id ≡ some j
      → modify j ≡ ok (j', a)
      → validate_job_id env.is_uuid id ≡ none
      → update_job env id modify w ≡ (ok a, on_store (put_job id j') w)
  unfolding update_job ◌>>=◌
  update_job-ok modify e r v = rw (e) (rw r (rw v))

  pub update_task-missing :
      (modify : Task → Result (Task × A))
      → get w.store.tasks id ≡ none
      → update_task env id modify w ≡ (err task_not_found, w)
  unfolding update_task ◌>>=◌
  update_task-missing modify e = rw e

  pub update_task-invalid :
      (modify : Task → Result (Task × A)) {t t' : Task} {a : A} {x : IdError}
      → get w.store.tasks id ≡ some t
      → modify t ≡ ok (t', a)
      → validate_id env.is_alphanumeric id ≡ some x
      → update_task env id modify w ≡ (err (invalid_id x), w)
  unfolding update_task ◌>>=◌
  update_task-invalid modify e r v = rw (e) (rw r (rw v))

  pub update_node-ok :
      (modify : Node → Result (Node × A)) {n n' : Node} {a : A}
      → get w.store.nodes id ≡ some n
      → modify n ≡ ok (n', a)
      → validate_id env.is_alphanumeric id ≡ none
      → update_node env id modify w ≡ (ok a, on_store (put_node id n') w)
  unfolding update_node ◌>>=◌
  update_node-ok modify e r v = rw (e) (rw r (rw v))

  pub update_node-missing :
      (modify : Node → Result (Node × A))
      → get w.store.nodes id ≡ none
      → update_node env id modify w ≡ (err node_not_found, w)
  unfolding update_node ◌>>=◌
  update_node-missing modify e = rw e

  -- An update that returned found the task and wrote what the closure made of it.
  pub update_task_inv :
      (change : Task → Task × A) {a : A} {w' : World}
      → update_task env id (λ u. ok (change u)) w ≡ (ok a, w')
      → (t : Task) × (get w.store.tasks id ≡ some t)
        × (a ≡ (change t).1)
        × (w' ≡ on_store (put_task id (change t).0) w)
  update_task_inv change {a} {w'} h = elim (Option-cases (get w.store.tasks id)) [
    | inl e ↦ absurd (refused (sym h ∙ update_task-missing (λ u. ok (change u)) e))
    | inr (t, e) ↦ elim (Option-cases (validate_id env.is_alphanumeric id)) [
      | inl v ↦
          let p = sym h ∙ update_task-ok (λ u. ok (change u)) e refl v in
          (t, e, returned p, ap (λ (x : Result A × World). x.1) p)
      | inr (x, v) ↦ absurd (refused (sym h ∙ update_task-invalid (λ u. ok (change u)) e refl v))
    ]
  ]

module _ (env : Env) (w : World) where
  pub publish-ok : (m : Message) → env.accepts w.sent m ≡ true → publish env m w ≡ (ok tt, emit m w)
  unfolding publish
  publish-ok m e = rw e

  pub now-ok : now env w ≡ (ok (env.now w.reads), tick w)
  unfolding now
  now-ok = refl

  pub new_short_uuid-ok : new_short_uuid env w ≡ (ok (env.new_short_uuid w.uuids), draw w)
  unfolding new_short_uuid
  new_short_uuid-ok = refl

pub checked-ok : (o : Option IdError) (w : World) → o ≡ none → checked o w ≡ (ok tt, w)
checked-ok o w e = rw e refl

pub publish-refused :
    (env : Env) (m : Message) (w : World)
    → env.accepts w.sent m ≡ false
    → publish env m w ≡ (err publish_failed, w)
unfolding publish
publish-refused env m w e = rw e refl
