-- ===== src/Tests/States.antt =====
-- The theorems on the states of tasks and jobs, on refused subtasks, on submission and on the
-- datastore's queries, applied to concrete values; tests of the functions on texts and identifiers.
use twerk.Prelude.{true, false, ◌≡◌, refl, ◌↔◌, none, some, [], ◌∷◌, Has}
use twerk.Map.{get, insert}
use twerk.Id.{IdError, validate_id, validate_job_id, all_chars, is_valid_short_job_id, in_alphabet}
use twerk.TaskState
use twerk.TaskState.{TaskState}
use twerk.TaskState.Lifecycle.{Step, Trace, can_transition_to_iff}
use twerk.Job.{Job, JobEvent, job_id, into_job, job_event_from_state, event_of_state}
use twerk.World.{ok, err, publish_failed, job, Env, World, emit, on_store}
use twerk.Datastore.{add_task, put_job, tasks_of_job}
use twerk.Datastore.Queries.{tasks_of_job_complete}
use twerk.Coordinator.Scheduler.Shared.{create_and_publish_subtasks}
use twerk.Coordinator.Dispatch.{submit_job}
use twerk.Coordinator.Refused.{AllFailed, create_and_publish_subtasks-refused}
use twerk.Coordinator.Scheduling.{submit_job-stores}
use twerk.Tests.Running.{busy, busy-IsIndexed}
use twerk.Tests.Samples.{
  environment, blank, the_job_id, running_task, no_store, running_job, world_of,
}

can_transition_to_iff_example :
    (TaskState.can_transition_to TaskState.failed TaskState.pending ≡ true)
    ↔ Step TaskState.failed TaskState.pending
can_transition_to_iff_example = can_transition_to_iff TaskState.failed TaskState.pending

-- A task that ran once.
abbrev one_run : Trace TaskState.created TaskState.completed
one_run =
    Trace.next
      (Trace.next (Trace.next (Trace.next Trace.here Step.submit) Step.schedule) Step.start)
      Step.complete

tasks_of_job_complete_example : Has running_task (tasks_of_job environment the_job_id busy.store)
unfolding get insert add_task
tasks_of_job_complete_example =
    tasks_of_job_complete environment the_job_id busy.store "t1" running_task busy-IsIndexed refl
      refl

-- A broker that accepts nothing.
abbrev closed : Env
closed = record environment { accepts = λ sent m. false }

create_and_publish_subtasks-refused_example :
    (w' : World) × (create_and_publish_subtasks closed (running_task ∷ []) (world_of no_store)
      ≡ (err publish_failed, w'))
    × (w'.sent ≡ [])
    × AllFailed closed (("t1", running_task) ∷ []) w'.store
unfolding validate_id all_chars
create_and_publish_subtasks-refused_example =
    create_and_publish_subtasks-refused closed "t1" running_task [] (world_of no_store)
      ((refl, refl), tt) refl

-- A job as it is given to the coordinator.
abbrev given : Job
given = record running_job { created_at = some 3 }

submit_job-stores_example : submit_job environment given (world_of no_store) ≡ (
  ok (record given { task_count = 3 }),
  emit
      (job (record given { task_count = 3 }))
      (on_store (put_job the_job_id (record given { task_count = 3 })) (world_of no_store)),
)
submit_job-stores_example =
    submit_job-stores environment the_job_id 3 given (blank ∷ blank ∷ blank ∷ [])
      (world_of no_store) refl refl refl refl

-- Tests.
short_id_accepted : validate_job_id (λ s. false) the_job_id ≡ none
unfolding validate_job_id is_valid_short_job_id all_chars in_alphabet
short_id_accepted = refl

long_job_refused : validate_job_id (λ s. false) "job-1" ≡ some IdError.invalid_job_id_format
unfolding validate_job_id is_valid_short_job_id all_chars in_alphabet
long_job_refused = refl

no_event_of_running : job_event_from_state running_job ≡ none
unfolding job_event_from_state event_of_state
no_event_of_running = refl

event_of_failed :
    (job_id (JobEvent.failed_event running_job) ≡ some the_job_id)
    × (into_job (JobEvent.failed_event running_job) ≡ some running_job)
unfolding job_id into_job
event_of_failed = (refl, refl)
