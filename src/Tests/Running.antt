-- ===== src/Tests/Running.antt =====
-- The theorems on the coordinator, applied to one job.
use twerk.Prelude.{false, refl}
use twerk.Map.{get, insert}
use twerk.Id.{validate_id, validate_job_id, all_chars, is_valid_short_job_id, in_alphabet}
use twerk.TaskState.{is_active}
use twerk.World.{World, ◌>>=◌}
use twerk.Datastore.{
  push, index, add_task, get_task_by_id, get_job_by_id, update_task, update_job, find_tasks,
  tasks_of_job, get_active_tasks, lookup_all,
}
use twerk.Datastore.Indexed.{IsIndexed, add_task-IsIndexed}
use twerk.Coordinator.Util.{is_job_active}
use twerk.Coordinator.Handlers.Cancellation.{
  mark_cancelled, cancel, cancel_affinity, cancel_task_affinity, cancel_task, cancel_tasks,
  cancel_active_tasks, tell_node,
}
use twerk.Coordinator.Handlers.Job.{cancel_parent, handle_cancel}
use twerk.Coordinator.Dispatch.{Delivery, deliver}
use twerk.Coordinator.Index.Jobs.{Reach, Reach-IsIndexed}
use twerk.Coordinator.Cancelling.{NoActive}
use twerk.Coordinator.Cancelling.Event.{handle_cancel-NoActive}
use twerk.Tests.Samples.{environment, the_job_id, running_task, running_job, job_store, world_of}

job_store-IsIndexed : IsIndexed job_store
unfolding get
job_store-IsIndexed = record {
  named = λ id t p. absurd (cc);
  found = λ id j t p q. absurd (cc);
  listed = λ id j h. absurd h;
}

-- The job with its running task.
abbrev pub busy : World
busy = world_of (add_task "t1" running_task job_store)

pub busy-IsIndexed : IsIndexed busy.store
busy-IsIndexed = add_task-IsIndexed "t1" running_task job_store refl job_store-IsIndexed

handle_cancel-NoActive_example :
    NoActive the_job_id (handle_cancel environment running_job busy).1.store
unfolding handle_cancel cancel_parent cancel_active_tasks cancel_tasks cancel_task
    cancel_task_affinity cancel_affinity tell_node get_active_tasks tasks_of_job find_tasks
    lookup_all validate_job_id validate_id all_chars is_valid_short_job_id in_alphabet update_task
    update_job get_task_by_id get_job_by_id get insert add_task index push is_active is_job_active
    cancel mark_cancelled ◌>>=◌
handle_cancel-NoActive_example =
    handle_cancel-NoActive environment running_job the_job_id busy
      (handle_cancel environment running_job busy).1 busy-IsIndexed refl refl

Reach-IsIndexed_example :
    IsIndexed (deliver environment false 1 (Delivery.failed running_task) busy).1.store
Reach-IsIndexed_example =
    Reach-IsIndexed environment busy-IsIndexed
      (Reach.next false 1 (Delivery.failed running_task) Reach.here)
