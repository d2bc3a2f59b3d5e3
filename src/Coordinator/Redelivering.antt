-- ===== src/Coordinator/Redelivering.antt =====
-- A task that a worker gave back, a heartbeat, a started task, and a skipped one
-- (crates/twerk-app/src/engine/coordinator/handlers/task_handlers.rs, health.rs, util.rs).
use twerk.Prelude.{
  ℕ, String, true, ◌≡◌, refl, ap, ◌∙◌, none, some, unwrap_or, eq_iff, if◌then◌else◌,
}
use twerk.Map.{get}
use twerk.Id.{validate_id}
use twerk.TaskState.{TaskState}
use twerk.Task.{Task}
use twerk.Node.{Node}
use twerk.World.{
  Result, ok, missing_task_id, redelivered_missing_task_id, task, World, Env, M, pure, on_store,
  emit, tick,
}
use twerk.World.Steps.{bind-ok, ok_or-ok, if-true}
use twerk.Datastore.{put_task, put_node}
use twerk.Datastore.Laws.{
  get_task_by_id-ok, update_task-ok, update_node-ok, update_node-missing, create_node-ok,
  publish-ok, now-ok,
}
use twerk.Coordinator.Expected.{skipped_task, one_more_delivery, unless_settled}
use twerk.Coordinator.Util.{should_skip_task, mark_skipped, skip_task}
use twerk.Coordinator.Handlers.Task.{is_settled, redeliver, handle_redelivered, handle_pending_task}
use twerk.Coordinator.Handlers.Health.{
  take_heartbeat, mark_up, says_not_found, stamp, after_update, update_or_create, beat,
  handle_heartbeat,
}

-- One more delivery.
abbrev pub recount : Task → Task
recount t = one_more_delivery t.redelivered t

unless_settled-lem :
    (s : TaskState) (m : M (Unit {0})) (w : World) {w' : World}
    → m w ≡ (ok tt, w')
    → (if is_settled s then pure tt else m) w ≡ (ok tt, unless_settled s w w')
unfolding is_settled
unless_settled-lem TaskState.completed m w e = refl
unless_settled-lem TaskState.failed m w e = refl
unless_settled-lem TaskState.cancelled m w e = refl
unless_settled-lem TaskState.created m w e = e
unless_settled-lem TaskState.pending m w e = e
unless_settled-lem TaskState.scheduled m w e = e
unless_settled-lem TaskState.running m w e = e
unless_settled-lem TaskState.stopped m w e = e
unless_settled-lem TaskState.skipped m w e = e

module _ (env : Env) where
  skips :
      (t : Task) (expr : String)
      → t.if_expr ≡ some expr
      → env.trim expr ≡ "false"
      → should_skip_task env t ≡ true
  unfolding should_skip_task
  skips t expr cond says = rw cond ((eq_iff (env.trim expr) "false").1 says)

  module _ (id : String) (t u : Task) (w : World) (named : t.id ≡ some id)
      (stored : get w.store.tasks id ≡ some u) where
    -- A task that was given back but is stored as completed, failed or cancelled is dropped:
    -- nothing is written and nothing is sent.
    handle_redelivered-settled : is_settled u.state ≡ true → handle_redelivered env t w ≡ (ok tt, w)
    unfolding handle_redelivered
    handle_redelivered-settled e =
        bind-ok _ _ w (ok_or-ok redelivered_missing_task_id t.id w named)
        ∙ bind-ok _ _ w (get_task_by_id-ok id w stored)
        ∙ if-true _ _ w e

    -- A task that was given back and is stored under a valid identifier: where it is stored as
    -- completed, failed or cancelled, nothing changes; in any other state it is sent again to the
    -- queue that it is stored with, or to `default`, with one more delivery counted, which is stored
    -- too, where the broker accepts it.
    pub handle_redelivered-again :
        validate_id env.is_alphanumeric id ≡ none
        → env.accepts w.sent (task (unwrap_or u.queue "default") (recount t)) ≡ true
        → handle_redelivered env t w ≡ (
          ok tt,
          unless_settled u.state w (
              emit
                (task (unwrap_or u.queue "default") (recount t))
                (on_store (put_task id (one_more_delivery t.redelivered u)) w)),
        )
    unfolding handle_redelivered redeliver is_settled
    handle_redelivered-again valid sends =
        bind-ok _ _ w (ok_or-ok redelivered_missing_task_id t.id w named)
        ∙ bind-ok _ _ w (get_task_by_id-ok id w stored)
        ∙ unless_settled-lem u.state _ w again
      where
        again : redeliver env id (unwrap_or u.queue "default") (recount t) w ≡ (
          ok tt,
          emit
              (task (unwrap_or u.queue "default") (recount t))
              (on_store (put_task id (one_more_delivery t.redelivered u)) w),
        )
        again =
            bind-ok _ _ w (update_task-ok env id w _ stored refl valid)
            ∙ publish-ok env _ (task (unwrap_or u.queue "default") (recount t)) sends

    -- A pending task, stored under a valid identifier, whose condition is the text
    -- `false` but for white space, is not scheduled: it is stored as skipped, with the time as that of
    -- its schedule, start and completion, and sent so to `x-completed`, where the broker accepts it.
    pub handle_pending_task-skips :
        (expr : String)
        → t.if_expr ≡ some expr
        → env.trim expr ≡ "false"
        → validate_id env.is_alphanumeric id ≡ none
        → env.accepts w.sent (task "x-completed" (skipped_task (env.now w.reads) t)) ≡ true
        → handle_pending_task env t w ≡ (
          ok tt,
          emit
              (task "x-completed" (skipped_task (env.now w.reads) t))
              (on_store (put_task id (skipped_task (env.now w.reads) u)) (tick w)),
        )
    unfolding handle_pending_task skip_task mark_skipped
    handle_pending_task-skips expr cond says valid sends =
        if-true _ _ w (skips t expr cond says)
        ∙ bind-ok _ _ w (now-ok env w)
        ∙ bind-ok _ _ (tick w) (ok_or-ok missing_task_id t.id (tick w) named)
        ∙ bind-ok _ _ (tick w) (update_task-ok env id (tick w) _ stored refl valid)
        ∙ publish-ok env _ (task "x-completed" (skipped_task (env.now w.reads) t)) sends

  -- A heartbeat, with a time, of a node that is stored under a valid identifier writes its time,
  -- its load and that it is up, and leaves the rest of the stored node.
  handle_heartbeat-known :
      (id : String) (n u : Node) (at : ℕ) (w : World)
      → n.id ≡ some id
      → n.last_heartbeat_at ≡ some at
      → get w.store.nodes id ≡ some u
      → validate_id env.is_alphanumeric id ≡ none
      → handle_heartbeat env n w ≡ (ok tt, on_store (put_node id (take_heartbeat n u)) w)
  unfolding handle_heartbeat stamp beat update_or_create mark_up take_heartbeat after_update
  handle_heartbeat-known id n u at w named timed stored valid =
      bind-ok _ _ w (ap (λ o. stamp env o (mark_up n) w) timed)
      ∙ ap (λ o. beat env o (mark_up n) w) named
      ∙ ap (λ (r : Result (Unit {0}) × World). after_update env r.0 (mark_up n) r.1)
          (update_node-ok env id w (λ u. ok (take_heartbeat (mark_up n) u, tt)) stored refl valid)

  -- A heartbeat, without a time, of a node with an identifier that is not stored creates it, up,
  -- with the time at which it was heard.
  handle_heartbeat-new :
      (id : String) (n : Node) (w : World)
      → n.id ≡ some id
      → n.last_heartbeat_at ≡ none
      → get w.store.nodes id ≡ none
      → handle_heartbeat env n w ≡ (
        ok tt,
        on_store
            (put_node id (record (mark_up n) { last_heartbeat_at = some (env.now w.reads) }))
            (tick w),
      )
  unfolding handle_heartbeat stamp beat update_or_create mark_up take_heartbeat after_update
      says_not_found
  handle_heartbeat-new id n w named timed stored =
      let n' = record (mark_up n) { last_heartbeat_at = some (env.now w.reads) } in
      bind-ok _ _ w (ap (λ o. stamp env o (mark_up n) w) timed ∙ bind-ok _ _ w (now-ok env w))
      ∙ ap (λ o. beat env o n' (tick w)) named
      ∙ ap (λ (r : Result (Unit {0}) × World). after_update env r.0 n' r.1)
          (update_node-missing env id (tick w) _ stored)
      ∙ create_node-ok id n' (tick w) named
