-- ===== src/Lib.antt =====
-- Verification of twerk, a distributed workflow engine: the task and job lifecycles, the in-memory
-- datastore, the coordinator that schedules tasks and reacts to what workers report, the state-machine
-- language with its validation and analysis, the machines that evaluate compiled expressions, the
-- registry of triggers, the cache with expiry and the wildcard patterns.
--
-- The program. Workers run tasks and report to a broker. The coordinator subscribes to the broker's
-- queues; each message starts a handler, which reads and writes the datastore and publishes further
-- messages. A job is a list of top-level tasks that run one after another; a task may be regular, a
-- parallel block, an each block or a job of its own, and is scheduled by its kind.
--
-- The files, with the code they are about:
--   TaskState, TaskState/Lifecycle, TaskState/Text: crates/twerk-core/src/task.rs, `TaskState`.
--   JobState, JobState/Lifecycle: crates/twerk-core/src/job.rs, `JobState`.
--   Id: crates/twerk-core/src/id/common.rs and id/job_id.rs, the checks of identifiers.
--   Task, Task/Nested, Job, Node: the records of crates/twerk-core/src/task.rs, job.rs, node.rs,
--     mount.rs, webhook.rs, user.rs and role.rs, with the fields of the source.
--   Eval, Eval/Laws: crates/twerk-core/src/eval/task.rs, `evaluate_task`.
--   World, World/Steps, World/Keeps: the state that the handlers act on, how actions compose, and
--     the rules by which an action keeps an invariant.
--   Datastore and its children: crates/twerk-infrastructure/src/datastore/inmemory.rs.
--   Coordinator/Util, Webhook, Scheduler, Handlers, Dispatch: the files of
--     crates/twerk-app/src/engine/coordinator of those names; Handlers/Job is job_handlers.rs,
--     Handlers/Task is task_handlers.rs, Handlers/Workflow is task_workflow.rs, Handlers/Subtask is
--     subtask_handlers.rs. Dispatch is mod.rs, the subscriptions and `submit_job`.
--   Coordinator/Index, Cancelling, Join, Children, Progression, Failing, Ending, Refused,
--     Redelivering, Scheduling, Jobs: the proofs about the handlers, by what they are about.
--   Outcome, Try: results with their errors, for the parts below and for the coordinator.
--   Asl/Types, Transition, ErrorCode, Recovery, Wait, States, Machine: the files of
--     crates/twerk-core/src/asl; Recovery is retrier.rs and catcher.rs, States is choice.rs, switch.rs,
--     pass.rs, terminal.rs and task_state.rs, Machine is state.rs, parallel.rs, map.rs and machine.rs.
--   Asl/Graph, Cycles, Report: crates/twerk-core/src/asl/validation.rs.
--   Asl/Dispatch: crates/twerk-core/src/eval/state_dispatch.rs and its children.
--   Asl/Machine/Valid, Graph/Edges, Graph/Search, Graph/Reachable, Cycles/Walk,
--     Cycles/Search, Cycles/Sound, Report/Exact, Dispatch/Formed,
--     Dispatch/Identity: the proofs about them.
--   Ir/Value, Ir/Vm: crates/twerk-core/src/ir/slot.rs, expression.rs and expr_vm.rs; Ir/Vm/Returns
--     is a proof about them, and Ir/Tree the expression trees, their
--     postfix code and values, with the proofs in Ir/Tree/Straight and Postfix.
--   Asl/Switch, with the proof in Asl/Switch/First: the evaluation of a switch in switch.rs.
--   Vm: crates/twerk-core/src/eval/vm.rs, the machine of the switches.
--   Coordinator/Schedule, with the proof in Schedule/Paused: schedule.rs of the coordinator.
--   Coordinator/Expected: what the handlers are meant to leave, field by field, for the proofs.
--   Trigger: crates/twerk-core/src/trigger/types.rs and id/trigger_id.rs; Trigger/Registry:
--     trigger/in_memory.rs, with the proofs in Registry/Lifecycle and Registry/Firing.
--   Wildcard: crates/twerk-common/src/wildcard.rs, with the proofs in Wildcard/Cells and Exact.
--   Cache: crates/twerk-infrastructure/src/cache, with the proof in Cache/Expiring.
--   Tests: the theorems on concrete values, and tests.
--
-- How the code is read. A handler is a function from a world to a result and a world: the datastore,
-- the messages that the broker accepted, the webhooks that were fired, and counts of the readings of
-- the clock and of the fresh identifiers drawn. An error is returned with the world that it left.
-- A handler runs to its end before the next delivery; deliveries come in any order and any number.
-- Code that is not in the repository is a field of `Env`: the clock, the random identifiers, whether
-- the broker accepts a message, the Unicode tests, UUIDs, JSON and the cron library. The expression
-- evaluator of crates/twerk-core/src/eval and the answer of the locker are fields too. The entries that
-- the cron library holds are a part of the world, and may be due at any time. Times and counters that start at 0 and grow are natural
-- numbers. Maps are association lists, of which only `get` after `insert` matters; the ordered map of
-- the states of a machine is the list of its entries, whose order is kept. An `f64` is
-- NaN, an infinity or a signed mantissa and exponent, on which the tests of the language are exact;
-- the arithmetic of floats in the machine of the switches is a parameter. An
-- `i64` is a signed integer, with the checks that the source makes written out.
-- A failed subtask fails its parent, and so on up; that recursion takes fuel, one unit for each
-- level, and `Error.out_of_fuel` is what is left of it: one unit is enough for a top-level task. The
-- breadth-first search takes one unit for the start and for each target, the search for cycles one for
-- each state, the loop of the expression machine one for each operation; `none` is what is left where
-- the fuel runs out, and the theorems on these say that it does not.
--
-- Not modelled: the web API, the command line, the worker and its container runtimes, the brokers and
-- the other datastores, the locks, the definitions of triggers and the template engine: they are I/O, calls of
-- other programs, or not yet covered. Of the state-machine language the JSON form of most states is
-- left out. In the in-memory
-- datastore the users, roles, the writing of scheduled jobs, paginated listings and metrics are left out. From eight
-- subtasks on the program builds them by a parallel iterator; here they keep their order.
pub mod Asl
pub mod Cache
pub mod Coordinator
pub mod Datastore
pub mod Eval
pub mod Id
pub mod Ir
pub mod Job
pub mod JobState
pub mod Map
pub mod Node
pub mod Outcome
pub mod Prelude
pub mod Task
pub mod TaskState
pub mod Tests
pub mod Trigger
pub mod Try
pub mod Vm
pub mod Wildcard
pub mod World
