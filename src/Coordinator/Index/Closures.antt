-- ===== src/Coordinator/Index/Closures.antt =====
-- The closures of the updates leave a task's identifier and job as they were.
use twerk.Prelude.{ℕ, String, refl, arith}
use twerk.Task.{Task, with}
use twerk.Task.Nested.{TaskFields}
use twerk.Datastore.Indexed.{SameKey}
use twerk.Coordinator.Util.{mark_skipped}
use twerk.Coordinator.Scheduler.Shared.{mark_running, mark_publish_failed}
use twerk.Coordinator.Scheduler.Regular.{take_schedule}
use twerk.Coordinator.Scheduler.Each.{mark_each_running}
use twerk.Coordinator.Scheduler.SubJob.{mark_subjob_running}
use twerk.Coordinator.Handlers.Subtask.{count_parallel, count_each}
use twerk.Coordinator.Handlers.Task.{
  take_progress, take_completed, take_failed, take_error, take_started,
}
use twerk.Coordinator.Handlers.Cancellation.{mark_cancelled}

pub mark_skipped-same : (at : ℕ) (t : Task) → SameKey (mark_skipped at t) t
unfolding mark_skipped
mark_skipped-same at t = record { id = refl; job_id = refl }

pub mark_running-same : (at : ℕ) (t : Task) → SameKey (mark_running at t) t
unfolding mark_running
mark_running-same at t = record { id = refl; job_id = refl }

pub mark_publish_failed-same : (m : String) (t : Task) → SameKey (mark_publish_failed m t) t
unfolding mark_publish_failed
mark_publish_failed-same m t = record { id = refl; job_id = refl }

pub take_schedule-same :
    (at : ℕ) (f : TaskFields) (t : Task) → SameKey (with (take_schedule at f) t) t
unfolding take_schedule
take_schedule-same at f t = record { id = refl; job_id = refl }

pub mark_each_running-same : (size at : ℕ) (t : Task) → SameKey (mark_each_running size at t) t
unfolding mark_each_running
mark_each_running-same size at t = record { id = refl; job_id = refl }

pub mark_subjob_running-same :
    (at : ℕ) (id : String) (t : Task) → SameKey (mark_subjob_running at id t) t
unfolding mark_subjob_running
mark_subjob_running-same at id t = record { id = refl; job_id = refl }

pub count_parallel-same : (t : Task) → SameKey (count_parallel t).0 t
unfolding count_parallel
count_parallel-same t = ground arith

pub count_each-same : (t : Task) → SameKey (count_each t).0 t
unfolding count_each
count_each-same t = ground arith

pub take_progress-same : (s t : Task) → SameKey (with (take_progress s) t) t
unfolding take_progress
take_progress-same s t = record { id = refl; job_id = refl }

pub take_completed-same : (s t : Task) → SameKey (with (take_completed s) t) t
unfolding take_completed
take_completed-same s t = record { id = refl; job_id = refl }

pub take_failed-same : (s t : Task) → SameKey (with (take_failed s) t) t
unfolding take_failed
take_failed-same s t = record { id = refl; job_id = refl }

pub take_error-same : (at : ℕ) (s t : Task) → SameKey (with (take_error at s) t) t
unfolding take_error
take_error-same at s t = record { id = refl; job_id = refl }

pub take_started-same : (at : ℕ) (t : Task) → SameKey (with (take_started at) t) t
unfolding take_started
take_started-same at t = record { id = refl; job_id = refl }

pub take_redelivered-same :
    (n : ℕ) (t : Task) → SameKey (with (λ f. record f { redelivered = n }) t) t
take_redelivered-same n t = record { id = refl; job_id = refl }

pub mark_cancelled-same : (t : Task) → SameKey (mark_cancelled t) t
unfolding mark_cancelled
mark_cancelled-same t = record { id = refl; job_id = refl }

pub ruleset closures = (
  mark_skipped-same, mark_running-same, mark_publish_failed-same, take_schedule-same,
  mark_each_running-same, mark_subjob_running-same, count_parallel-same, count_each-same,
  take_progress-same, take_completed-same, take_failed-same, take_error-same, take_started-same,
  take_redelivered-same, mark_cancelled-same,
)
