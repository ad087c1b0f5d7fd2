-- ===== src/Hw.antt =====
-- src/base/hw_elts.c: the hardware elements.
pub mod Adder
pub mod Alu
pub mod Regfile
pub mod Memory
