-- ===== src/Coordinator/Cancelling/Failure.antt =====
-- The failure of a job (`fail_job` in
-- crates/twerk-app/src/engine/coordinator/handlers/job_handlers.rs).
use twerk.Prelude.{String, ◌≡◌, ap, Option, none, some}
use twerk.JobState.{JobState}
use twerk.Job.{Job}
use twerk.World.{ok, Datastore, World, Env}
use twerk.World.Steps.{bind_inv}
use twerk.World.Keeps.{Keeps, Keeps-pure, Keeps-bind, Keeps-publish, keeps_rules}
use twerk.Datastore.{update_job}
use twerk.Datastore.Keeps.{Keeps-get_task_by_id, Keeps-get_job_by_id, Keeps-update_job}
use twerk.Datastore.Indexed.{IsIndexed}
use twerk.Coordinator.Handlers.Cancellation.{cancel_active_tasks}
use twerk.Coordinator.Handlers.Job.{
  mark_failed, publish_failed_parent, publish_failed_event, fail_job,
}
use twerk.Coordinator.Cancelling.{NoActive, ok_or_inv, cancel_active_tasks-NoActive}

module _ {P : Datastore → Type 0} (env : Env) where
  Keeps-publish_failed_parent :
      (o : Option String) (j : Job) → Keeps P (publish_failed_parent env o j)
  unfolding publish_failed_parent
  Keeps-publish_failed_parent none j = Keeps-pure tt
  Keeps-publish_failed_parent (some id) j = search (keeps_rules, Keeps-get_task_by_id) depth 12

  Keeps-publish_failed_event : (s : JobState) (j : Job) → Keeps P (publish_failed_event env s j)
  unfolding publish_failed_event
  Keeps-publish_failed_event JobState.failed j = Keeps-publish env _
  Keeps-publish_failed_event _ j = Keeps-pure tt

module _ (env : Env) where
  -- The failure of a job that returns leaves no active task of that job in a datastore whose job
  -- index was well formed, whether or not the stored job was still active.
  pub fail_job-NoActive :
      (j : Job) (job_id : String) (w w' : World)
      → IsIndexed w.store
      → j.id ≡ some job_id
      → fail_job env j w ≡ (ok tt, w')
      → NoActive job_id w'.store
  unfolding fail_job
  fail_job-NoActive j job_id w w' h e run =
      let (id, v, p, run1) = bind_inv _ _ w run in
      let (q, same) = ok_or_inv _ j.id w v p in
      let named : id ≡ job_id = cc (e, q) in
      let mark = update_job env id (λ u. ok (mark_failed j.failed_at u, tt)) in
      let (a, x, r, run2) = bind_inv mark _ v run1 in
      let (b, y, s, run3) = bind_inv (publish_failed_parent env j.parent_id j) _ x run2 in
      let (c, z, t, run4) = bind_inv (cancel_active_tasks env id) _ y run3 in
      let h0 : IsIndexed v.store = rw same at h in
      let h1 : IsIndexed x.store =
        rw (ap (λ (k : _ × World). k.1) r) at
          ((Keeps-update_job env id (λ u. ok (mark_failed j.failed_at u, tt))).at v h0) in
      let h2 : IsIndexed y.store =
        rw (ap (λ (k : _ × World). k.1) s) at
          ((Keeps-publish_failed_parent {P = IsIndexed} env j.parent_id j).at x h1) in
      let none_left : NoActive job_id z.store =
        rw named at ((cancel_active_tasks-NoActive env id y z h2 t).0) in
      rw (ap (λ (k : _ × World). k.1) run4) at (
        (Keeps-bind {P = NoActive job_id} _ _ (Keeps-get_job_by_id id)
            (λ u. Keeps-publish_failed_event env u.state u)).at
          z none_left)
