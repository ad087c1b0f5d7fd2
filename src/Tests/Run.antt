-- ===== src/Tests/Run.antt =====
-- Cycles and runs of the pipeline.
use se_lab_public.Pipe.Hazard.{
  check_br_hazard, check_cb_hazard, check_load_use_hazard, check_mispred_branch_hazard,
  check_ret_hazard, is_exception, load_use, mispred, ret_from_main, stops_fetch, handle_hazards,
  handle_in_flight, handle_ready, pipe_control_stage, set_ctl,
}
use se_lab_public.Pipe.Run.{
  goes_on, Outcome, finished, ended, out_of_fuel, run_from, run_elf, init_machine, zero_proc, start,
}
use se_lab_public.Pipe.Execute.{wback_instr, execute_instr}
use se_lab_public.Pipe.Fetch.Stage.{
  cleared_status, current_pc, fetch_at, fetch_instr, set_status, unpiped_return, Build,
}
use se_lab_public.Pipe.Cycle.{
  clocked_status, cycle, forwarded, hazards, latch, latch_all, next_pc, run_stages, zero_w, Machine,
  zero_m,
}
use se_lab_public.Hw.Memory.{imem, dmem}
use se_lab_public.Mem.Plain.{
  is_special_addr, mem_read_byte, mem_read_le, read_from, addr_in_dmem, touch_page,
}
use se_lab_public.Mem.{mem_read_special, mem_read, Mem}
use se_lab_public.Prelude.{◌-◌, ◌^◌, refl, ◌≡◌, ℕ, arith, true, false, Option, some, none, []}
use se_lab_public.Pipe.Run.Laws.{Steps}
use se_lab_public.Pipe.Cycle.Registers.{IsMachine}
use se_lab_public.Pipe.Cycle.Ends.{cycle-IsMachine, EndsInMemory}
use se_lab_public.Pipe.Run.Ends.{run_elf-EndsInMemory}
use se_lab_public.Pipe.Memory.{MemoryDone, memory_instr}
use se_lab_public.Pipe.Decode.Regnums.{extract_by_format, fix_regs, extract_regs}
use se_lab_public.Pipe.Decode.{generate_dxmw_control}
use se_lab_public.Cache.{get_line, get_set, log, record_lookup, set_index, check_hit, create_cache}
use se_lab_public.Mem.Ptable.{get_page}
use se_lab_public.Pipe.Run.Trap.{IsTrapped, cycle-IsTrapped}
use se_lab_public.Pipe.Memory.Laws.{bad_address, memory_instr-status, memory_instr-null}
use se_lab_public.Instr.{adr, aok, ldur, nop, format_error}
use se_lab_public.Pipe.Cycle.Laws.{IsFrozen, cycle-IsFrozen}
use se_lab_public.Hw.Alu.{alu}
use se_lab_public.Mem.Cached.{count_cycle, end_read, mem_read_cache, serve, serve_from, serve_miss}
use se_lab_public.Pipe.Decode.Stage.{decode_instr}
use se_lab_public.Hw.Regfile.{read_reg, regfile_read, regfile_write}
use se_lab_public.Pipe.Fetch.{select_pc}
use se_lab_public.Pipe.Regs.{MInstr}

abbrev pub piped : Build
piped = record { pipe = true; itable = λ i. nop; ftable = λ i. format_error }

-- A cache of two ways, blocks of 16 bytes and 64 bytes in all, with a delay of 3.
unfoldable cached_mem : Mem
unfolding create_cache init_machine
cached_mem = init_machine (some 2) (some 16) (some 64) (some 3) []

-- A load, at an address that is not aligned and is not cached.
abbrev load : ℕ → MInstr
load addr = record zero_m {
  op = ldur;
  m_sigs = record { dmem_read = true; dmem_write = false };
  multipurpose_val = 0x400008;
  val_ex = addr;
  dst = 3;
  status = aok;
}

got : Option Machine → Machine
got none = start zero_proc cached_mem 0
got (some s) = s

abbrev loading : Machine
loading = record (start zero_proc cached_mem 0) {
  outs = record ((start zero_proc cached_mem 0).outs) { m = load 0x800008 };
}

-- The load misses, and waits.
cycle-IsFrozen_example : IsFrozen loading (got (cycle piped loading))
unfolding cycle run_stages fetch_instr current_pc select_pc cleared_status fetch_at set_status
    unpiped_return decode_instr regfile_read read_reg extract_regs fix_regs extract_by_format
    generate_dxmw_control execute_instr alu memory_instr dmem is_special_addr mem_read
    mem_read_cache serve_from serve check_hit record_lookup get_line get_set set_index log
    serve_miss count_cycle end_read hazards forwarded handle_hazards handle_ready handle_in_flight
    pipe_control_stage set_ctl regfile_write latch_all latch next_pc clocked_status got start
    cached_mem
cycle-IsFrozen_example =
    cycle-IsFrozen piped loading (got (cycle piped loading)) refl refl refl refl

-- A load from the instructions, whose address is bad.
abbrev failing : Machine
failing = record (start zero_proc cached_mem 0) {
  outs = record ((start zero_proc cached_mem 0).outs) { m = load 0x400008 };
}

cycle-IsTrapped_example :
    IsTrapped failing (got (cycle piped failing)) (got (cycle piped (got (cycle piped failing))))
unfolding cycle run_stages fetch_instr current_pc select_pc cleared_status fetch_at set_status
    unpiped_return decode_instr regfile_read read_reg extract_regs fix_regs extract_by_format
    generate_dxmw_control execute_instr alu memory_instr dmem is_special_addr mem_read
    mem_read_cache serve_from serve check_hit record_lookup get_line get_set set_index log
    serve_miss count_cycle end_read hazards forwarded handle_hazards handle_ready handle_in_flight
    pipe_control_stage set_ctl regfile_write latch_all latch next_pc clocked_status got start
    cached_mem mem_read_le read_from mem_read_byte touch_page get_page is_exception addr_in_dmem
    check_ret_hazard mispred check_mispred_branch_hazard ret_from_main check_br_hazard load_use
    check_load_use_hazard check_cb_hazard stops_fetch
cycle-IsTrapped_example =
    cycle-IsTrapped piped failing (got (cycle piped failing))
      (got (cycle piped (got (cycle piped failing)))) refl refl refl refl refl refl

done : Option MemoryDone → MemoryDone
done none = record { out = zero_w; m_pc = 0; f_pc = 0; mem = cached_mem }
done (some m) = m

abbrev failed : MemoryDone
failed = done (memory_instr true cached_mem 0x400010 (load 0x400008))

memory_instr-status_example : (failed.out.status ≡ adr) × (failed.f_pc ≡ 0x400004)
unfolding memory_instr dmem is_special_addr mem_read cached_mem mem_read_le read_from mem_read_byte
    touch_page get_page is_exception addr_in_dmem bad_address done
memory_instr-status_example =
    memory_instr-status true cached_mem 0x400010 (load 0x400008) failed refl

memory_instr-null_example : memory_instr true cached_mem 0x400010 (load 0) ≡ none
memory_instr-null_example = memory_instr-null true cached_mem 0x400010 (load 0) refl

loading-IsMachine : IsMachine loading
unfolding start
loading-IsMachine = record {
  gpr = refl;
  insnbits = omega arith;
  x = omega arith;
  hw = omega arith;
  m = omega arith;
  w = omega arith;
}

cycle-IsMachine_example : IsMachine (got (cycle piped loading))
unfolding cycle run_stages fetch_instr current_pc select_pc cleared_status fetch_at set_status
    unpiped_return decode_instr regfile_read read_reg extract_regs fix_regs extract_by_format
    generate_dxmw_control execute_instr alu memory_instr dmem is_special_addr mem_read
    mem_read_cache serve_from serve check_hit record_lookup get_line get_set set_index log
    serve_miss count_cycle end_read hazards forwarded handle_hazards handle_ready handle_in_flight
    pipe_control_stage set_ctl regfile_write latch_all latch next_pc clocked_status got start
    cached_mem
cycle-IsMachine_example =
    cycle-IsMachine piped loading (got (cycle piped loading)) loading-IsMachine refl

-- The first instruction is read from the address of the input, which is empty.
run_elf-EndsInMemory_example :
    (t : Machine) × Steps piped 10 (start zero_proc cached_mem (2 ^ 64 - 1)) 0 t
    × IsMachine t
    × EndsInMemory piped t
unfolding cycle run_stages fetch_instr current_pc select_pc cleared_status fetch_at set_status
    unpiped_return decode_instr regfile_read read_reg extract_regs fix_regs extract_by_format
    generate_dxmw_control execute_instr alu memory_instr dmem is_special_addr mem_read
    mem_read_cache serve_from serve check_hit record_lookup get_line get_set set_index log
    serve_miss count_cycle end_read hazards forwarded handle_hazards handle_ready handle_in_flight
    pipe_control_stage set_ctl regfile_write latch_all latch next_pc clocked_status got start
    cached_mem run_elf run_from mem_read_special imem stops_fetch
run_elf-EndsInMemory_example =
    run_elf-EndsInMemory piped 10 zero_proc cached_mem (2 ^ 64 - 1) 0 refl (omega arith) refl

abbrev cycles_of : Outcome → Option ℕ
cycles_of (finished k t) = some k
cycles_of (ended k) = none
cycles_of out_of_fuel = none

-- A program that returns at once: the instruction that stops it leaves the pipeline after 5 cycles.
returns_at_once : cycles_of (run_elf piped 10 zero_proc cached_mem 0) ≡ some 5
unfolding cycle run_stages fetch_instr current_pc select_pc cleared_status fetch_at set_status
    unpiped_return decode_instr regfile_read read_reg extract_regs fix_regs extract_by_format
    generate_dxmw_control execute_instr alu memory_instr dmem is_special_addr mem_read
    mem_read_cache serve_from serve check_hit record_lookup get_line get_set set_index log
    serve_miss count_cycle end_read hazards forwarded handle_hazards handle_ready handle_in_flight
    pipe_control_stage set_ctl regfile_write latch_all latch next_pc clocked_status got start
    cached_mem run_elf run_from goes_on stops_fetch ret_from_main load_use mispred check_ret_hazard
    check_br_hazard check_cb_hazard check_mispred_branch_hazard check_load_use_hazard is_exception
    wback_instr
returns_at_once = refl
