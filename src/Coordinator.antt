-- ===== src/Coordinator.antt =====
-- The coordinator (crates/twerk-app/src/engine/coordinator): `Util` and `Webhook` are its
-- calculations and notifications, `Scheduler` schedules a pending task by its kind, `Handlers` react
-- to task, job and node events, and `Dispatch` is the subscription of the handlers to the queues.
pub mod Expected
pub mod Util
pub mod Webhook
pub mod Scheduler
pub mod Handlers
pub mod Schedule
pub mod Dispatch
pub mod Index
pub mod Cancelling
pub mod Join
pub mod Children
pub mod Jobs
pub mod Ending
pub mod Refused
pub mod Scheduling
pub mod Redelivering
pub mod Failing
pub mod Progression
