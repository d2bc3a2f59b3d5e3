-- ===== src/Coordinator/Cancelling/Event.antt =====
-- The cancellation of a job (`handle_cancel` in
-- crates/twerk-app/src/engine/coordinator/handlers/job_handlers.rs).
use twerk.Prelude.{String, ◌≡◌, ap, Option, none, some, if◌then◌else◌}
use twerk.Job.{Job}
use twerk.World.{ok, Datastore, World, Env, pure}
use twerk.World.Steps.{bind_inv}
use twerk.World.Keeps.{Keeps, Keeps-pure, Keeps-if, keeps_rules}
use twerk.Datastore.{update_job}
use twerk.Datastore.Keeps.{Keeps-get_task_by_id, Keeps-get_job_by_id, Keeps-update_job}
use twerk.Datastore.Indexed.{IsIndexed}
use twerk.Coordinator.Util.{is_job_active}
use twerk.Coordinator.Handlers.Cancellation.{cancel, cancel_parent_job}
use twerk.Coordinator.Handlers.Job.{cancel_parent, handle_cancel}
use twerk.Coordinator.Cancelling.{NoActive, ok_or_inv, cancel_active_tasks-NoActive}

module _ {P : Datastore → Type 0} (env : Env) where
  pub Keeps-cancel_parent : (o : Option String) → Keeps P (cancel_parent env o)
  unfolding cancel_parent cancel_parent_job
  Keeps-cancel_parent none = Keeps-pure tt
  Keeps-cancel_parent (some id) =
      search (keeps_rules, Keeps-get_task_by_id, Keeps-get_job_by_id) depth 16

module _ (env : Env) where
  -- A cancellation of a job that returns leaves no active task of that job in a datastore whose job
  -- index was well formed, whatever the state of the job and of its parent.
  pub handle_cancel-NoActive :
      (j : Job) (job_id : String) (w w' : World)
      → IsIndexed w.store
      → j.id ≡ some job_id
      → handle_cancel env j w ≡ (ok tt, w')
      → NoActive job_id w'.store
  unfolding handle_cancel
  handle_cancel-NoActive j job_id w w' h e run =
      let (id, v, p, run1) = bind_inv _ _ w run in
      let (q, same) = ok_or_inv _ j.id w v p in
      let named : id ≡ job_id = cc (e, q) in
      let mark =
        if is_job_active j.state then update_job env id (λ u. ok (cancel u, tt)) else pure tt in
      let (a, x, r, run2) = bind_inv mark _ v run1 in
      let (b, y, s, run3) = bind_inv (cancel_parent env j.parent_id) _ x run2 in
      let h0 : IsIndexed v.store = rw same at h in
      let h1 : IsIndexed x.store = rw (ap (λ (z : _ × World). z.1) r) at (
        (Keeps-if (is_job_active j.state) _ _ (Keeps-update_job env id (λ u. ok (cancel u, tt)))
            (Keeps-pure tt)).at
          v h0) in
      let h2 : IsIndexed y.store =
        rw (ap (λ (z : _ × World). z.1) s) at
          ((Keeps-cancel_parent {P = IsIndexed} env j.parent_id).at x h1) in
      rw named at ((cancel_active_tasks-NoActive env id y w' h2 run3).0)
