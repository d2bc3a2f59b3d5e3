-- ===== src/Coordinator/Handlers.antt =====
-- The event handlers (crates/twerk-app/src/engine/coordinator/handlers).
pub mod Retry
pub mod Workflow
pub mod Subtask
pub mod Task
pub mod Cancellation
pub mod Job
pub mod Health
