-- ===== src/Node.antt =====
-- A worker node and a part of a task's log
-- (crates/twerk-core/src/node.rs, crates/twerk-core/src/task.rs, `TaskLogPart`).
use twerk.Prelude.{ℕ, String, Option, ℤ}

pub data NodeStatus : Type 0 where
  up down offline : NodeStatus

-- `cpu_percent` is an `f64` that is only copied, kept as its 64 bits.
pub record Node : Type 0 where
  pub id : Option String
  pub name : Option String
  pub started_at : Option ℕ
  pub cpu_percent : Option ℕ
  pub last_heartbeat_at : Option ℕ
  pub queue : Option String
  pub status : Option NodeStatus
  pub hostname : Option String
  pub port : Option ℤ
  pub task_count : Option ℤ
  pub version : Option String

pub record TaskLogPart : Type 0 where
  pub id : Option String
  pub number : ℕ
  pub task_id : Option String
  pub contents : Option String
  pub created_at : Option ℕ
