-- ===== src/Coordinator/Handlers/Health.antt =====
-- The heartbeat of a node (crates/twerk-app/src/engine/coordinator/handlers/health.rs).
use twerk.Prelude.{ℕ, String, Bool, true, false, Option, none, some, if◌then◌else◌}
use twerk.Node.{Node, up}
use twerk.World.{
  Error, Result, ok, err, task_not_found, node_not_found, job_not_found, Env, M, pure, fail, ◌>>=◌,
  now,
}
use twerk.Datastore.{update_node, create_node}

-- `e.to_string().contains("not found")`, over the errors whose texts the program fixes.
unfoldable pub says_not_found : Error → Bool
says_not_found task_not_found = true
says_not_found node_not_found = true
says_not_found job_not_found = true
says_not_found _ = false

unfoldable pub take_heartbeat : Node → Node → Node
take_heartbeat n u = record u {
  last_heartbeat_at = n.last_heartbeat_at;
  cpu_percent = n.cpu_percent;
  task_count = n.task_count;
  status = some up;
}

unfoldable pub mark_up : Node → Node
mark_up n = record n { status = some up }

module _ (env : Env) where
  -- The clock is read only where the node sent no time.
  unfoldable pub stamp : Option ℕ → Node → M Node
  stamp (some at) n = pure n
  stamp none n = do at ← now env; pure (record n { last_heartbeat_at = some at })

  -- `Ok` and an error that says "not found" are settled here; another error is returned.
  unfoldable pub after_update : Result (Unit {0}) → Node → M (Unit {0})
  unfolding says_not_found
  after_update (ok u) n = pure u
  after_update (err e) n = if says_not_found e then create_node n else fail e

  unfoldable pub update_or_create : String → Node → M (Unit {0})
  unfolding take_heartbeat
  update_or_create id n w =
      let (r, w') = update_node env id (λ u. ok (take_heartbeat n u, tt)) w in after_update r n w'

  unfoldable pub beat : Option String → Node → M (Unit {0})
  unfolding update_or_create
  beat (some id) n = update_or_create id n
  beat none n = create_node n

  unfoldable pub handle_heartbeat : Node → M (Unit {0})
  unfolding stamp beat mark_up
  handle_heartbeat node = do n ← stamp node.last_heartbeat_at (mark_up node); beat n.id n
