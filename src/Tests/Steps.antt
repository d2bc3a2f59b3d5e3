-- ===== src/Tests/Steps.antt =====
-- The theorems on single handlers, applied to concrete tasks, jobs and nodes.
use twerk.Prelude.{inl, ℕ, ◌≤◌, ◌≡◌, refl, none, some, List, [], ◌∷◌, All, length}
use twerk.Map.{get, non_empty}
use twerk.Id.{validate_id, validate_job_id, all_chars, is_valid_short_job_id, in_alphabet}
use twerk.TaskState.{TaskState}
use twerk.JobState.{JobState}
use twerk.Task.{Task, with, to_task, of_task}
use twerk.Task.Nested.{TaskDef}
use twerk.Job.{Job}
use twerk.World.{ok, task, job, World, emit, tick, draw, ◌>>=◌, new_short_uuid}
use twerk.World.Steps.{times}
use twerk.Try
use twerk.Eval.{evaluate_task}
use twerk.Eval.Laws.{with_texts, evaluate_task-with_texts}
use twerk.Datastore.{put_task}
use twerk.Coordinator.Util.{queue_completed}
use twerk.Coordinator.Handlers.Subtask.{mark_completed, handle_subtask_completed}
use twerk.Coordinator.Handlers.Workflow.{complete, handle_top_level_task_completed}
use twerk.Coordinator.Handlers.Task.{handle_error}
use twerk.Coordinator.Join.{joining, join-once}
use twerk.Coordinator.Progression.{at_position, published, repeat, job-in_order}
use twerk.Coordinator.Expected.{with_error, failed_at, next_try, failed_job}
use twerk.Coordinator.Failing.NoRetry.{handle_error-gives_up, handle_error-inactive}
use twerk.Coordinator.Scheduler.Shared.{new_subtask, as_subtask, collect_all}
use twerk.Coordinator.Scheduler.Parallel.{build_parallel_subtask, build_parallel_subtasks}
use twerk.Coordinator.Scheduler.Each.{build_subtask, enumerate}
use twerk.Coordinator.Children.{IsChild, build_parallel_subtasks-IsChild, build_subtasks-IsChild}
use twerk.Tests.Samples.{
  environment, blank, the_job_id, running_task, last_task, running_job, job_store, world_of,
  store_with,
}

-- A parent of two subtasks.
abbrev parent : Task
parent = with (λ f. record f { id = some "t1" }) blank

abbrev two_subtasks : List TaskDef
two_subtasks = of_task blank ∷ of_task blank ∷ []

abbrev joining_world : World
joining_world = world_of (store_with "t1" (joining parent two_subtasks 0))

join-once_example :
    ((k : ℕ)
      → k ≤ 1
      → (times k (handle_subtask_completed environment "t1") joining_world).1.sent ≡ [])
    × ((times 2 (handle_subtask_completed environment "t1") joining_world).0 ≡ ok tt)
    × ((times 2 (handle_subtask_completed environment "t1") joining_world).1.sent
        ≡ task queue_completed (mark_completed 0 (joining parent two_subtasks 1)) ∷ [])
unfolding get validate_id all_chars of_task
join-once_example =
    join-once environment "t1" parent 1 joining_world refl refl two_subtasks refl refl refl

job-in_order_example :
    (w' : World) × (repeat 2
        (handle_top_level_task_completed environment the_job_id)
        (world_of job_store)
      ≡ (ok tt, w'))
    × (w'.sent ≡ published environment the_job_id (blank ∷ blank ∷ []) 1 0 0)
    × (handle_top_level_task_completed environment the_job_id w'
        ≡ (ok tt, emit (job (complete (at_position running_job 3))) (tick w')))
unfolding get validate_job_id all_chars is_valid_short_job_id in_alphabet
job-in_order_example =
    job-in_order environment the_job_id running_job blank (blank ∷ blank ∷ []) (world_of job_store)
      refl refl (λ s m. refl) refl

-- The world in which the task failed.
abbrev failing_world : World
failing_world = world_of (store_with "t1" running_task)

-- The task that is tried next.
abbrev tried_next : Task
tried_next = next_try "fresh" 0 (record { limit = 2; attempts = 0 }) running_task

handle_error-gives_up_example :
    ((handle_error environment 1 last_task failing_world).0 ≡ ok tt)
    × ((handle_error environment 1 last_task failing_world).1.sent
        ≡ task "x-failed" (failed_at 0 last_task) ∷ job (failed_job 1 none running_job) ∷ [])
unfolding get validate_id all_chars
handle_error-gives_up_example =
    handle_error-gives_up environment "t1" the_job_id last_task running_task running_job
      failing_world 0 refl refl refl refl refl refl refl (inl refl) (λ s m. refl)

-- The world in which the job was cancelled before.
abbrev cancelled_job : Job
cancelled_job = record running_job { state = JobState.cancelled }

abbrev late_world : World
late_world =
    world_of (record (store_with "t1" running_task) { jobs = (the_job_id, cancelled_job) ∷ [] })

handle_error-inactive_example :
    ((handle_error environment 1 running_task late_world).0 ≡ ok tt)
    × ((handle_error environment 1 running_task late_world).1.sent ≡ [])
    × ((handle_error environment 1 running_task late_world).1.store
        ≡ put_task "t1" (with_error 0 running_task running_task) late_world.store)
unfolding get validate_id all_chars
handle_error-inactive_example =
    handle_error-inactive environment "t1" the_job_id running_task running_task cancelled_job
      late_world 1 refl refl refl refl refl refl

evaluate_task-with_texts_example :
    running_task.fields ≡ with_texts running_task.fields running_task.fields
unfolding evaluate_task Try.◌>>=◌ of_task to_task non_empty
evaluate_task-with_texts_example =
    evaluate_task-with_texts environment [] running_task running_task refl

-- One subtask of a parallel task, and two of an each task.
abbrev subtask : Task
subtask = as_subtask "fresh" the_job_id "t1" 0 blank

build_parallel_subtasks-IsChild_example :
    All (IsChild the_job_id "t1" 0) (subtask ∷ []) × (length (subtask ∷ []) ≡ 1)
unfolding build_parallel_subtasks build_parallel_subtask new_subtask collect_all validate_job_id
    all_chars is_valid_short_job_id in_alphabet evaluate_task Try.◌>>=◌ ◌>>=◌ of_task to_task
    non_empty new_short_uuid
build_parallel_subtasks-IsChild_example =
    build_parallel_subtasks-IsChild environment the_job_id "t1" 0 [] (of_task blank ∷ [])
      (subtask ∷ []) (world_of job_store) (draw (world_of job_store)) refl

build_subtasks-IsChild_example :
    All (IsChild the_job_id "t1" 0) (subtask ∷ subtask ∷ []) × (length (subtask ∷ subtask ∷ []) ≡ 2)
unfolding build_subtask new_subtask collect_all enumerate validate_job_id all_chars
    is_valid_short_job_id in_alphabet evaluate_task Try.◌>>=◌ ◌>>=◌ of_task to_task non_empty
    new_short_uuid
build_subtasks-IsChild_example =
    build_subtasks-IsChild environment the_job_id "t1" 0 blank [] ("a" ∷ "b" ∷ [])
      (subtask ∷ subtask ∷ []) (world_of job_store) (draw (draw (world_of job_store))) refl
