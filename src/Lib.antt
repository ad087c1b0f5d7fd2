-- ===== src/Lib.antt =====
-- The chArm emulator: a five-stage pipelined processor for a subset of the 64-bit ARM instruction
-- set, with a write-back data cache and a simulator of that cache.
--
-- The parts and how they interact. Each cycle the fetch, decode, execute, memory and writeback
-- stages read the output sides of the pipeline registers and write the input sides; then values are
-- forwarded to decode, the hazard logic decides which registers load, stall or bubble, and the
-- registers are clocked. The stages use the hardware elements (adder, ALU, register file), the
-- instruction tables, and the data memory, which goes through the cache.
--
-- Prelude, Bits, Words, Bytes: the shared names, the bits of numbers, 64-bit words with their
-- wrap-around written out, and words in arrays of bytes.
--
-- Hw models src/base/hw_elts.c: Hw/Adder is `init_rca` and `ripple_carry_add` on the array `rca`, a
-- list of 64 full adders; Hw/Alu is `cond_holds` and `alu`; Hw/Regfile is `regfile_read` and
-- `regfile_write` on the architectural part of `proc_t` (include/base/proc.h); Hw/Memory is `imem`
-- and `dmem`.
--
-- Instr models include/pipe/instr.h; Instr/Bitfield and Instr/Tables are `bitfield_u32`,
-- `bitfield_s64`, `init_itable` and `init_ftable` of src/pipe/instr_base.c. A failed assertion is
-- `none`. Builds with and without the extra credit instructions (EC) are told apart by a flag where
-- they differ; elsewhere the instructions of EC are simply there, as no table of the other build
-- yields them.
--
-- Cache models src/cache/cache.c, with the global counters as a part of the state: a line is its
-- valid bit, tag, dirty bit and bytes, a set its lines, the replacement matrix and the next victim.
-- `get_set` and `get_line` are an index in place of a pointer. Cache/Lru is `lru`, Cache/Trace is
-- `replayTrace` of src/cache/csim.c on lines that were read. The invariant, IsValid of Cache/Valid,
-- takes block size and number of sets as powers of two, as the command line checks. Cache/Checkpoint is
-- `create_checkpoint`.
--
-- Cli has what the two command lines share, the tests of the sizes of a cache on an `int`, which is an
-- integer in its range; Cli/Csim is `main` of src/cache/csim.c. Undefined behaviour, an overflow of an
-- `int` or a division by 0, is an outcome of its own. Boot is `main` of src/base/archsim.c: Boot/Args is
-- src/base/handle_args.c and Boot/Loader is src/base/elf_loader.c. What `getopt`, `atoi`, `fopen` and
-- `mmap` give is a parameter: a list of options with their values, and a file as its headers and its
-- bytes.
--
-- Mem models the memory: Mem/Ptable is src/base/ptable.c, a list of chains of pages; Mem/Plain has
-- the segments and the accesses of src/base/mem.c that go to the pages; Mem/Cached has those that go
-- through the cache, whose blocks are on their way for as many cycles as the cache has delay; Mem
-- itself is `_mem_read` and `_mem_write` with the special addresses. An access returns the memory
-- that it leaves; `none` is an exit or a failed assertion. What `scanf` reads is a list of numbers.
-- Mem/Cached/View is the array of bytes that the cache and the pages hold together, which Mem/Cached/Answer
-- and Mem/Cached/Store compare reads and writes through the cache with; Hw/Memory/Laws and
-- Pipe/Cycle/Data say of a Mem that it holds certain bytes (IsDataMemory), and follow them through the
-- ports and a cycle.
--
-- Pipe models the stages: Pipe/Regs is include/pipe/instr_pipeline.h, Pipe/Fetch with
-- Pipe/Fetch/Stage is src/pipe/instr_Fetch.c, Pipe/Memory is src/pipe/instr_Memory.c, Pipe/Decode is
-- src/pipe/instr_Decode.c with src/pipe/instr_Decode_extractregs.c, Pipe/Execute is
-- src/pipe/instr_Execute.c and src/pipe/instr_Writeback.c, Pipe/Forward is src/pipe/forward.c and
-- Pipe/Hazard is src/pipe/hazard_control.c, each in the builds with and without PIPE. Pipe/Orders
-- is the table of src/base/stage_ordering.c. Pipe/Isa is the description of the instructions that the
-- stages are compared with. Pipe/Cycle is a turn of the loop of `runElf` in src/base/proc.c on a
-- Machine, which has the processor, the memory, both sides of the registers, their controls and the
-- wires that keep their value; Pipe/Run is the loop, the code ahead of it, and `init_machine` of
-- src/base/machine.c.
--
-- Fuel: `_log` runs on 64 steps, one for each bit of a `size_t`, of which each iteration of its loop
-- shifts out one. The loop of `runElf` runs on `cycle_max` + 1 steps, and its test stops it after
-- `cycle_max` cycles or the first. The other loops are structural.
--
-- What C leaves undefined: a division by 0, an overflow of an `int` of the command line, and a byte of a
-- file read outside of its mapping are outcomes of their own, as are a counter of the cache that
-- overflows, which the value 2 ^ 31 stands for, and the read outside of a fetched block in
-- `_mem_read_cache`, which the state keeps as a flag, since the value that is read is never used. Some
-- functions are modelled where all calls of the program have their arguments: `bitfield_u32` and
-- `bitfield_s64` for widths below 31, the shifts by `valhw` for less than 64, and `_mem_write_LE` for at
-- most 8 bytes; the theorems on them say so.
--
-- Not modelled: the builds that run the stages in threads or in a random order, whose table of orders
-- is; logging, the debug output, and `log_machine_state`, which print only.
--
-- Tests holds runs at concrete inputs.
mod Prelude
pub mod Bits
pub mod Words
pub mod Bytes
pub mod Instr
pub mod Hw
pub mod Cache
pub mod Cli
pub mod Pipe
pub mod Mem
pub mod Boot
pub mod Tests
