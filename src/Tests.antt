-- ===== src/Tests.antt =====
-- Runs of the models at concrete inputs.
pub mod Hw
pub mod Instr
pub mod Cache
pub mod Cli
pub mod Pipe
pub mod Mem
pub mod Run
pub mod Boot
pub mod Data
