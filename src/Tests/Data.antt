-- ===== src/Tests/Data.antt =====
-- A cycle that stores a word, with a cache.
use se_lab_public.Prelude.{◌≡◌, refl, arith, true, false, some, inr}
use se_lab_public.Instr.{aok, stur}
use se_lab_public.Mem.Plain.{is_special_addr, addr_in_dmem, addr_in_imem}
use se_lab_public.Mem.Ptable.{empty_ptable}
use se_lab_public.Mem.Ptable.Laws.{byte_at}
use se_lab_public.Pipe.Regs.{MInstr}
use se_lab_public.Pipe.Fetch.{select_pc}
use se_lab_public.Pipe.Fetch.Stage.{current_pc}
use se_lab_public.Pipe.Cycle.{Machine, cycle, zero_m}
use se_lab_public.Pipe.Cycle.Registers.{IsMachine}
use se_lab_public.Pipe.Cycle.Data.{IsAccessed, cycle-IsAccessed}
use se_lab_public.Pipe.Run.{start, zero_proc}
use se_lab_public.Tests.Mem.{memory, memory-IsDataMemory, two}
use se_lab_public.Tests.Run.{piped}

abbrev store : MInstr
store = record zero_m {
  op = stur;
  m_sigs = record { dmem_read = false; dmem_write = true };
  multipurpose_val = 0x400008;
  val_ex = 0x800008;
  val_b = two;
  status = aok;
}

abbrev storing : Machine
storing = record (start zero_proc memory 0x400010) {
  outs = record ((start zero_proc memory 0x400010).outs) { m = store };
}

storing-IsMachine : IsMachine storing
unfolding start
storing-IsMachine = record {
  gpr = refl;
  insnbits = omega arith;
  x = omega arith;
  hw = omega arith;
  m = omega arith;
  w = omega arith;
}

cycle-IsAccessed_example :
    (s' : Machine) × (cycle piped storing ≡ some s')
    × IsAccessed 4 1 (byte_at empty_ptable) storing.mem store s'.ins.w.val_mem s'.mem
unfolding start is_special_addr addr_in_dmem addr_in_imem current_pc select_pc
cycle-IsAccessed_example =
    cycle-IsAccessed 4 1 (byte_at empty_ptable) piped storing (omega arith) storing-IsMachine
      memory-IsDataMemory (inr (omega arith, refl, refl)) (inr (refl, omega arith, refl, refl))
