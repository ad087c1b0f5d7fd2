-- ===== src/Pipe/Memory.antt =====
-- `memory_instr` of src/pipe/instr_Memory.c. The flag `pipe` says whether the build has PIPE.
pub mod Laws
use se_lab_public.Prelude.{ℕ, Bool, false, ◌&&◌, if◌then◌else◌, Option, some, ◌>>=◌}
use se_lab_public.Words.{sub64}
use se_lab_public.Instr.{Stat, adr}
use se_lab_public.Mem.{Mem}
use se_lab_public.Hw.Memory.{Access, dmem}
use se_lab_public.Pipe.Regs.{MInstr, WInstr}
use se_lab_public.Pipe.Hazard.{is_exception}

-- What the stage writes: the input side of the writeback register, M_PC, F_PC and the memory.
pub record MemoryDone : Type 0 where
  pub out : WInstr
  pub m_pc : ℕ
  pub f_pc : ℕ
  pub mem : Mem

abbrev pub finish_memory : Bool → MInstr → ℕ → Access → MemoryDone
finish_memory pipe m f_pc a =
    let status : Stat = if a.err then adr else m.status in
    let m_pc = sub64 m.multipurpose_val 4 in
    record {
      out = record {
        op = m.op;
        print_op = m.print_op;
        w_sigs = m.w_sigs;
        dst = m.dst;
        val_ex = m.val_ex;
        val_mem = a.rval;
        status = status;
      };
      m_pc = m_pc;
      f_pc = if pipe && is_exception status then m_pc else f_pc;
      mem = a.mem;
    }

unfoldable pub memory_instr : Bool → Mem → ℕ → MInstr → Option MemoryDone
memory_instr pipe mem f_pc m = do
  a ←
      dmem (record { rval = 0; err = false; mem = mem }) m.val_ex m.val_b m.m_sigs.dmem_read
        m.m_sigs.dmem_write
  some (finish_memory pipe m f_pc a)
