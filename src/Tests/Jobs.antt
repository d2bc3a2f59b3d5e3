-- ===== src/Tests/Jobs.antt =====
-- The theorems on jobs, on each tasks and on the end of a failure, applied to concrete values.
use twerk.Prelude.{
  ℕ, ◌≤◌, ◌<◌, String, ◌≡◌, refl, none, some, [], ◌∷◌, arith, str_eq, eq_iff, if◌then◌else◌, length,
  ◌==◌, keep,
}
use twerk.Map.{get, insert}
use twerk.Id.{validate_id, validate_job_id, all_chars, is_valid_short_job_id, in_alphabet}
use twerk.TaskState.{is_active}
use twerk.JobState.{JobState}
use twerk.Task.{Task, EachTask, with}
use twerk.Task.Nested.{Progress}
use twerk.Job.{Job}
use twerk.World.{ok, err, task_out_of_bounds, task, ◌>>=◌, World, tick, on_store, publish}
use twerk.World.Steps.{times}
use twerk.Try
use twerk.Datastore.{
  add_task, put_job, index, push, get_task_by_id, get_job_by_id, update_task, update_job,
  tasks_of_job, find_tasks, lookup_all, get_active_tasks,
}
use twerk.Coordinator.Util.{queue_completed, is_job_active}
use twerk.Coordinator.Handlers.Subtask.{mark_completed, handle_subtask_completed}
use twerk.Coordinator.Handlers.Cancellation.{
  mark_cancelled, cancel_affinity, cancel_task_affinity, cancel_task, cancel_tasks,
  cancel_active_tasks, tell_node,
}
use twerk.Coordinator.Handlers.Job.{
  restart_job, mark_job_as_running, mark_failed, publish_failed_parent, publish_failed_event,
  fail_job,
}
use twerk.Coordinator.Handlers.Task.{handle_task_failed}
use twerk.Coordinator.Cancelling.{NoActive}
use twerk.Coordinator.Cancelling.Failure.{fail_job-NoActive}
use twerk.Coordinator.Join.{repeating, join_each-once}
use twerk.Coordinator.Ending.{Settles, Ranked, handle_task_failed-ends}
use twerk.Coordinator.Expected.{restarted_job, seen_running, ended}
use twerk.Coordinator.Jobs.{restart_job-at_start, mark_job_as_running-progress}
use twerk.Tests.Running.{busy, busy-IsIndexed}
use twerk.Tests.Samples.{
  environment, blank, the_job_id, running_task, running_job, job_store, world_of, store_with,
}

-- An each task over two items.
abbrev two_items : EachTask
two_items = record {
  fields = record {
    var = none;
    list = none;
    size = 2;
    completions = 0;
    concurrency = 0;
    index = 0;
  };
  task = none;
}

abbrev each_world : World
each_world = world_of (store_with "t1" (repeating running_task two_items 0))

join_each-once_example :
    ((k : ℕ) → k ≤ 1 → (times k (handle_subtask_completed environment "t1") each_world).1.sent ≡ [])
    × ((times 2 (handle_subtask_completed environment "t1") each_world).0 ≡ ok tt)
    × ((times 2 (handle_subtask_completed environment "t1") each_world).1.sent
        ≡ task queue_completed (mark_completed 0 (repeating running_task two_items 1)) ∷ [])
unfolding get validate_id all_chars
join_each-once_example =
    join_each-once environment "t1" running_task 1 each_world refl refl two_items refl refl refl

-- A job of which the first task is not yet created.
abbrev idle : World
idle = world_of job_store

-- A failed job that never began.
abbrev unstarted : Job
unstarted = record running_job { position = 0; state = JobState.restart }

restart_job-at_start_example : restart_job environment unstarted idle ≡ (
  err task_out_of_bounds,
  on_store (put_job the_job_id (restarted_job running_job)) (tick idle),
)
unfolding get validate_job_id all_chars is_valid_short_job_id in_alphabet
restart_job-at_start_example =
    restart_job-at_start environment the_job_id unstarted idle refl refl running_job
      (blank ∷ blank ∷ blank ∷ []) refl refl refl

mark_job_as_running-progress_example :
    (p : Progress) × (mark_job_as_running environment running_job busy
      ≡ (ok tt, on_store (put_job the_job_id (seen_running running_job.state p running_job)) busy))
    × (p.done ≡ length (keep (λ t. ended t.state) (tasks_of_job environment the_job_id busy.store)))
    × (p.total ≡ (
        if length (tasks_of_job environment the_job_id busy.store) == 0
        then 1
        else length (tasks_of_job environment the_job_id busy.store)))
    × (p.done ≤ p.total)
    × (0 < p.total)
unfolding get validate_job_id all_chars is_valid_short_job_id in_alphabet add_task
mark_job_as_running-progress_example =
    mark_job_as_running-progress environment the_job_id running_job busy refl refl running_job refl

fail_job-NoActive_example : NoActive the_job_id (fail_job environment running_job busy).1.store
unfolding fail_job mark_failed publish_failed_parent publish_failed_event cancel_active_tasks
    cancel_tasks cancel_task cancel_task_affinity cancel_affinity tell_node get_active_tasks
    tasks_of_job find_tasks lookup_all validate_job_id validate_id all_chars is_valid_short_job_id
    in_alphabet update_task update_job get_task_by_id get_job_by_id get insert add_task index push
    is_active is_job_active mark_cancelled ◌>>=◌ publish
fail_job-NoActive_example =
    fail_job-NoActive environment running_job the_job_id busy
      (fail_job environment running_job busy).1 busy-IsIndexed refl refl

-- A subtask of a stored parallel task, and ranks of the two.
abbrev child : Task
child = with (λ f. record f { id = some "t2"; parent_id = some "t1" }) running_task

abbrev rank_of : String → ℕ
rank_of id = if str_eq id "t2" then 1 else 0

abbrev family : World
family = world_of (record job_store { tasks = ("t1", running_task) ∷ ("t2", child) ∷ [] })

family-Ranked : Ranked rank_of family.store
unfolding get
family-Ranked id q t e p =
    ground (arith, eq_iff "t1" id, eq_iff "t2" id, eq_iff id "t2", eq_iff q "t2")

handle_task_failed-ends_example : Settles (handle_task_failed environment 2 child) family
unfolding get
handle_task_failed-ends_example =
    handle_task_failed-ends environment rank_of 2 child family family-Ranked
      (omega arith, λ q p. let same : "t1" ≡ q = cc p in rw (← same) (omega arith))
