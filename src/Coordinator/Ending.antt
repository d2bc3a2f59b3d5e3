-- ===== src/Coordinator/Ending.antt =====
-- The failure of a task goes up through its parents and ends (`handle_task_failed`, `handle_error`
-- in crates/twerk-app/src/engine/coordinator/handlers/task_handlers.rs).
use twerk.Prelude.{
  sym, ◌∙◌, ℕ, zero, suc, ◌<◌, String, ◌≡◌, refl, ap, Option, none, some, inl, inr, arith,
  Bool-cases, Option-cases, ◌||◌, is_some,
}
use twerk.Map.{get-insert_cases, get}
use twerk.Id.{validate_id}
use twerk.Task.{Task}
use twerk.World.{
  Error, Result, ok, err, out_of_fuel, missing_task_id, missing_job_id, Message, Datastore, World,
  Env, M, continue, ◌>>=◌, ok_or, ignore_error, now, publish,
}
use twerk.World.Keeps.{Keeps, Keeps-bind, keeps_rules}
use twerk.Datastore.{put_task, get_task_by_id, get_job_by_id, update_task}
use twerk.Datastore.Keeps.{Keeps-get_job_by_id, update_task-store, ok_injective}
use twerk.Coordinator.Webhook.{fire_task_webhooks}
use twerk.Coordinator.Handlers.Subtask.{mark_failed_by, handle_subtask_failed}
use twerk.Coordinator.Handlers.Workflow.{handle_top_level_task_failed}
use twerk.Coordinator.Handlers.Task.{
  take_failed, persist, fire, route_failed, route_failed_task, handle_task_failed,
}

-- The run from a world does not end for want of fuel.
abbrev pub Settles : {A : Type 0} → M A → World → Type 0
Settles m w = (m w).0 ≡ err out_of_fuel → ⊥

module _ {A B : Type 0} (m : M A) (f : A → M B) (w : World) where
  Settles-bind :
      Settles m w → ((a : A) (v : World) → m w ≡ (ok a, v) → Settles (f a) v) → Settles (m >>= f) w
  unfolding ◌>>=◌
  Settles-bind sm sf = go (m w).0 refl
    where
      go : (r : Result A) → (m w).0 ≡ r → (continue r f (m w).1).0 ≡ err out_of_fuel → ⊥
      go (ok a) e p = sf a (m w).1 (λ i. (e i, (m w).1)) p
      go (err x) e p = sm (cc (e, p))

module _ (w : World) where
  Settles-ok_or :
      {A : Type 0} (e : Error) (o : Option A)
      → (Path Error e out_of_fuel → ⊥)
      → Settles (ok_or e o) w
  Settles-ok_or e none h p = h (cc)
  Settles-ok_or e (some a) h p = cc

  Settles-get_job_by_id : (id : String) → Settles (get_job_by_id id) w
  unfolding get_job_by_id
  Settles-get_job_by_id id = Settles-ok_or Error.job_not_found (get w.store.jobs id) (λ p. cc)

  Settles-publish : (env : Env) (m : Message) → Settles (publish env m) w
  unfolding publish
  Settles-publish env m = elim (Bool-cases (env.accepts w.sent m)) [
    | inl e ↦ rw e (λ p. cc)
    | inr e ↦ rw e (λ p. cc)
  ]

  Settles-now : (env : Env) → Settles (now env) w
  unfolding now
  Settles-now env p = cc

  Settles-update_task :
      {A : Type 0} (env : Env) (id : String) (change : Task → Task × A)
      → Settles (update_task env id (λ u. ok (change u))) w
  unfolding update_task get_task_by_id ◌>>=◌
  Settles-update_task env id change = elim (Option-cases (get w.store.tasks id)) [
    | inl e ↦ rw e (λ p. cc)
    | inr (t, e) ↦ rw e elim (Option-cases (validate_id env.is_alphanumeric id)) [
      | inl v ↦ rw v (λ p. cc)
      | inr (x, v) ↦ rw v (λ p. cc)
    ]
  ]

-- A rank that falls from every stored task to its parent: the parents form no cycle.
abbrev pub Ranked : (String → ℕ) → Datastore → Type 0
Ranked rank d =
    (id parent_id : String) (t : Task)
    → get d.tasks id ≡ some t
    → t.parent_id ≡ some parent_id
    → rank parent_id < rank id

-- A write that leaves the parent of the stored task as it was.
put_task-Ranked :
    (rank : String → ℕ) (id : String) (t u : Task) (d : Datastore)
    → get d.tasks id ≡ some u
    → t.parent_id ≡ u.parent_id
    → Ranked rank d
    → Ranked rank (put_task id t d)
put_task-Ranked rank id t u d e same h i q x p r = elim (get-insert_cases d.tasks id i t p) [
  | inl new ↦ rw (← new.0) (h id q u e (sym same ∙ ap (λ (y : Task). y.parent_id) new.1 ∙ r))
  | inr old ↦ h i q x old r
]

module _ (env : Env) (rank : String → ℕ) where
  Keeps-persist_failed : (t : Task) → Keeps (Ranked rank) (persist env take_failed t)
  unfolding persist take_failed
  Keeps-persist_failed t = Keeps-bind _ _ (search keeps_rules) λ id. record {
    at = λ w h.
        update_task-store env (Ranked rank) w id _
          (λ u u' a e p.
            put_task-Ranked rank id u' u w.store e
              (sym (ap (λ (x : Task × Unit {0}). x.0.parent_id) (ok_injective p))) h)
          h;
  }

  Keeps-fire : (t : Task) (event : String) → Keeps (Ranked rank) (fire env t event)
  unfolding ignore_error fire_task_webhooks
  Keeps-fire t event = record {
    at =
        (Keeps-bind _ _ (search keeps_rules)
          λ id. Keeps-bind _ _ (Keeps-get_job_by_id id) (λ j. record { at = λ w h. h })).at;
  }

  Settles-fire : (t : Task) (event : String) (w : World) → Settles (fire env t event) w
  unfolding ignore_error
  Settles-fire t event w p = cc

  Settles-persist : (t : Task) (w : World) → Settles (persist env take_failed t) w
  unfolding persist
  Settles-persist t w =
      Settles-bind _ _ w (Settles-ok_or w missing_task_id t.id (λ p. cc))
        λ id v e. Settles-update_task v env id _

  Settles-top :
      (id : String) (error : Option String) (w : World)
      → Settles (handle_top_level_task_failed env id error) w
  unfolding handle_top_level_task_failed
  Settles-top id error w =
      Settles-bind _ _ w (Settles-get_job_by_id w id)
        λ j v e. Settles-bind _ _ v (Settles-now v env) (λ at x p. Settles-publish x env _)

  -- Levels enough: more than the ranks above.
  abbrev pub Enough : ℕ → Task → Type 0
  Enough fuel t = (0 < fuel) × ((q : String) → t.parent_id ≡ some q → suc (rank q) < fuel)

  Settles-subtask :
      (fuel : ℕ) (error : Option String) (q : String) (w : World)
      → ((t : Task) (v : World)
          → Ranked rank v.store
          → Enough fuel t
          → Settles (handle_task_failed env fuel t) v)
      → Ranked rank w.store
      → rank q < fuel
      → Settles (handle_subtask_failed env (handle_task_failed env fuel) error q) w
  unfolding handle_subtask_failed get_task_by_id mark_failed_by ◌>>=◌ now
  Settles-subtask fuel error q w deeper h less = elim (Option-cases (get w.store.tasks q)) [
    | inl e ↦ rw e (λ p. cc)
    | inr (u, e) ↦ rw e elim (Bool-cases (is_some u.parallel || is_some u.each)) [
      | inl b ↦ rw b (deeper _ _ h (omega arith, λ r p. omega (arith, h q r u e p, less)))
      | inr b ↦ rw b (λ p. cc)
    ]
  ]

  Settles-route :
      (fuel : ℕ) (o : Option String) (t : Task) (w : World)
      → ((s : Task) (v : World)
          → Ranked rank v.store
          → Enough fuel s
          → Settles (handle_task_failed env fuel s) v)
      → Ranked rank w.store
      → ((q : String) → o ≡ some q → rank q < fuel)
      → Settles (route_failed env (handle_task_failed env fuel) o t) w
  unfolding route_failed
  Settles-route fuel (some q) t w deeper h less =
      Settles-subtask fuel t.error q w deeper h (less q refl)
  Settles-route fuel none t w deeper h less =
      Settles-bind _ _ w (Settles-ok_or w missing_job_id t.job_id (λ p. cc))
        λ id v e. Settles-top id t.error v

  -- Where a rank falls from every stored task to its parent, so that the parents form no cycle,
  -- and the fuel is above the rank of the failed task's parent, its failure goes up to its end:
  -- the handler does not run out of fuel.
  pub handle_task_failed-ends :
      (fuel : ℕ) (t : Task) (w : World)
      → Ranked rank w.store
      → Enough fuel t
      → Settles (handle_task_failed env fuel t) w
  unfolding handle_task_failed route_failed_task
  handle_task_failed-ends zero t w h enough = absurd (omega (arith, enough.0))
  handle_task_failed-ends (suc fuel) t w h enough =
      Settles-bind _ _ w (Settles-persist t w) λ a v e.
        let h1 : Ranked rank v.store =
          rw (ap (λ (x : Result (Unit {0}) × World). x.1) e) at ((Keeps-persist_failed t).at w h) in
        Settles-bind (fire env t "task.Failed") _ v (Settles-fire t "task.Failed" v) λ b x r.
          Settles-route fuel t.parent_id t x (λ s y. handle_task_failed-ends fuel s y)
            (rw (ap (λ (y : Result (Unit {0}) × World). y.1) r) at
              ((Keeps-fire t "task.Failed").at v h1))
            (λ q p. omega (arith, enough.1 q p))
