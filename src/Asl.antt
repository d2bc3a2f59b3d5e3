-- ===== src/Asl.antt =====
-- The state-machine language (crates/twerk-core/src/asl): its texts, its states, the machine with its
-- validation, the analysis of its graph and the dispatch that builds a machine again.
pub mod Types
pub mod Transition
pub mod ErrorCode
pub mod Recovery
pub mod Wait
pub mod States
pub mod Machine
pub mod Graph
pub mod Cycles
pub mod Report
pub mod Dispatch
pub mod Switch
