-- ===== src/Tests/Queues.antt =====
-- The theorems on redelivery, skipping, scheduling and heartbeats, applied to concrete tasks and
-- nodes.
use twerk.Prelude.{◌≡◌, refl, some, [], ◌∷◌, false, none}
use twerk.Map.{get}
use twerk.Id.{validate_id, all_chars, validate_job_id, is_valid_short_job_id, in_alphabet}
use twerk.TaskState.{TaskState}
use twerk.Task.{Task, with, SubJobTask}
use twerk.Node.{Node}
use twerk.World.{ok, task, World, emit, tick, on_store, Env, job, draw}
use twerk.Datastore.{put_task, put_job}
use twerk.Coordinator.Scheduler.Regular.{schedule_regular_task}
use twerk.Coordinator.Handlers.Task.{handle_redelivered, handle_pending_task}
use twerk.Coordinator.Expected.{skipped_task, taken_over, running_subjob}
use twerk.Coordinator.Redelivering.{recount, handle_redelivered-again, handle_pending_task-skips}
use twerk.Coordinator.Scheduling.{scheduled_task, schedule_regular_task-sends}
use twerk.Coordinator.Scheduler.SubJob.{schedule_subjob_task}
use twerk.Coordinator.Scheduling.SubJob.{started_job, schedule_subjob_task-starts}
use twerk.Tests.Samples.{
  the_job_id, environment, running_task, no_store, running_job, world_of, store_with, blank_node,
}

-- A task that was cancelled while a worker had it.
abbrev cancelled_task : Task
cancelled_task = with (λ f. record f { state = TaskState.cancelled }) running_task

abbrev held : World
held = world_of (store_with "t1" running_task)

handle_redelivered-again_example : handle_redelivered environment running_task held ≡ (
  ok tt,
  emit
      (task "default" (recount running_task))
      (on_store (put_task "t1" (recount running_task)) held),
)
unfolding get validate_id all_chars
handle_redelivered-again_example =
    handle_redelivered-again environment "t1" running_task running_task held refl refl refl refl

-- A task that is not to run.
abbrev unwanted : Task
unwanted = with (λ f. record f { if_expr = some "false" }) running_task

handle_pending_task-skips_example : handle_pending_task environment unwanted held ≡ (
  ok tt,
  emit
      (task "x-completed" (skipped_task 0 unwanted))
      (on_store (put_task "t1" (skipped_task 0 running_task)) (tick held)),
)
unfolding get validate_id all_chars
handle_pending_task-skips_example =
    handle_pending_task-skips environment "t1" unwanted running_task held refl refl "false" refl
      refl refl refl

-- A heartbeat with a time, and a world that knows the node.
abbrev timed_node : Node
timed_node = record blank_node { last_heartbeat_at = some 7 }

abbrev known : World
known = world_of (record no_store { nodes = ("n1", blank_node) ∷ [] })

schedule_regular_task-sends_example : schedule_regular_task environment running_task held ≡ (
  ok tt,
  emit (task "default" (scheduled_task environment 0 running_job running_task)) (
      on_store
        (put_task "t1" (
          taken_over 0 (scheduled_task environment 0 running_job running_task).fields running_task))
        (tick held)),
)
unfolding get validate_id all_chars
schedule_regular_task-sends_example =
    schedule_regular_task-sends environment "t1" _ running_task running_task running_job held refl
      refl refl refl refl refl

-- A task that starts a job, under an identifier that is valid as a job's too.
abbrev sub_job : SubJobTask
sub_job = record {
  fields = record {
    id = none;
    name = some "sub";
    description = none;
    inputs = none;
    secrets = none;
    auto_delete = none;
    output = none;
    detached = false;
    webhooks = none;
  };
  tasks = none;
}

abbrev starter : Task
starter = record (with (λ f. record f { id = some the_job_id }) running_task) {
  subjob = some sub_job;
}

abbrev starting : World
starting = world_of (store_with the_job_id starter)

-- New identifiers that are valid as a job's.
abbrev short_ids : Env
short_ids = record environment { new_short_uuid = λ n. "kkkkkkkkkkkkkkkkkkkkkk" }

schedule_subjob_task-starts_example : schedule_subjob_task short_ids starter starting ≡ (
  ok tt,
  emit (job (started_job short_ids the_job_id running_job sub_job starting)) (
      on_store
        (put_job "kkkkkkkkkkkkkkkkkkkkkk"
          (started_job short_ids the_job_id running_job sub_job starting))
        (on_store
          (put_task the_job_id (running_subjob 0 "kkkkkkkkkkkkkkkkkkkkkk" starter))
          (draw (tick starting)))),
)
unfolding get validate_id validate_job_id all_chars is_valid_short_job_id in_alphabet
schedule_subjob_task-starts_example =
    schedule_subjob_task-starts short_ids the_job_id the_job_id starter starter running_job sub_job
      starting refl refl refl refl refl refl refl refl refl
