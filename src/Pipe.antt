-- ===== src/Pipe.antt =====
-- The pipeline stages, src/pipe.
pub mod Regs
pub mod Decode
pub mod Forward
pub mod Hazard
pub mod Execute
pub mod Fetch
pub mod Memory
pub mod Cycle
pub mod Run
pub mod Isa
pub mod Orders
