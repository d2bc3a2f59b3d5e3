-- ===== src/Coordinator/Index.antt =====
-- Whatever is delivered, the coordinator keeps the datastore's job index well formed
-- (crates/twerk-app/src/engine/coordinator).
pub mod Closures
pub mod Schedulers
pub mod Tasks
pub mod Jobs
