-- ===== src/Coordinator/Scheduler.antt =====
-- Scheduling a pending task by its kind (crates/twerk-app/src/engine/coordinator/scheduler/mod.rs).
pub mod Shared
pub mod Regular
pub mod Parallel
pub mod Each
pub mod SubJob
use twerk.Prelude.{is_some, if◌then◌else◌}
use twerk.Task.{Task}
use twerk.World.{Env, M}
use Regular.{schedule_regular_task}
use Parallel.{schedule_parallel_task}
use Each.{schedule_each_task}
use SubJob.{schedule_subjob_task}

unfoldable pub schedule_task : Env → Task → M (Unit {0})
schedule_task env t =
    if is_some t.parallel
    then schedule_parallel_task env t
    else if is_some t.each
    then schedule_each_task env t
    else if is_some t.subjob
    then schedule_subjob_task env t
    else schedule_regular_task env t
