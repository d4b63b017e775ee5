-- ===== src/Instr.antt =====
-- The instruction handlers of src/Instructions, a child for each of its files, and the call of a
-- handler through its address.
pub mod Arithmetic
pub mod Mul
pub mod Access
pub mod Branches
pub mod System
pub mod Atomics
pub mod Float
pub mod Dispatch
