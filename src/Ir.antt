-- ===== src/Ir.antt =====
-- The expressions of compiled workflows (crates/twerk-core/src/ir): `Value` are the values and what
-- the operations do to them, `Vm` is the machine that runs them, and
-- `Tree` is the reference that it is compared with.
pub mod Value
pub mod Vm
pub mod Tree
