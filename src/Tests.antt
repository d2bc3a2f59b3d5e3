-- ===== src/Tests.antt =====
-- Examples of the theorems on concrete values, and tests of the definitions.
pub mod Samples
pub mod Running
pub mod Jobs
pub mod States
pub mod Queues
pub mod Steps
mod Machines
mod Switches
mod Triggers
mod Caches
mod Crons
