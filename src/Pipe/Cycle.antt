-- ===== src/Pipe/Cycle.antt =====
-- One turn of the loop of `runElf` in src/base/proc.c, with the stages in the order of a build
-- without PARALLEL and RANDOM. What is printed is left out; `none` is a run that ends within the
-- turn, by an exit or a failed assertion.
pub mod Data
pub mod Fetches
pub mod Laws
pub mod Registers
pub mod Ends
use se_lab_public.Prelude.{ℕ, Bool, true, false, not, ◌&&◌, if◌then◌else◌, Option, some, ◌>>=◌}
use se_lab_public.Instr.{nop, format_error, eq, Stat, bub, aok, hlt, plus_op}
use se_lab_public.Mem.{Mem}
use se_lab_public.Hw.Regfile.{Proc, regfile_write}
use se_lab_public.Pipe.Regs.{
  FInstr, DInstr, XInstr, MInstr, WInstr, PipeCtl, p_load, p_error, p_bubble, p_stall,
}
use se_lab_public.Pipe.Decode.Stage.{Decoded, decode_instr}
use se_lab_public.Pipe.Execute.{Executed, execute_instr, wback_instr}
use se_lab_public.Pipe.Forward.{forward_reg}
use se_lab_public.Pipe.Hazard.{Controls, HazardState, handle_hazards, is_exception}
use se_lab_public.Pipe.Memory.{MemoryDone, memory_instr}
use se_lab_public.Pipe.Fetch.Stage.{Build, Fetching, fetch_instr, Later}

-- `in` and `out` of the pipeline registers.
pub record Sides : Type 0 where
  pub f : FInstr
  pub d : DInstr
  pub x : XInstr
  pub m : MInstr
  pub w : WInstr

-- The machine: the processor, the memory, the registers with their controls, and the wires that
-- keep their value from one cycle to the next.
pub record Machine : Type 0 where
  pub proc : Proc
  pub status : Stat
  pub mem : Mem
  pub ins : Sides
  pub outs : Sides
  pub controls : Controls
  pub deassert_flags : Bool
  pub f_pc : ℕ

-- A register that was filled with 0.
abbrev pub zero_f : FInstr
zero_f = record { pred_pc = 0; status = bub }

abbrev pub zero_d : DInstr
zero_d = record {
  insnbits = 0;
  op = nop;
  print_op = nop;
  format = format_error;
  multipurpose_val = 0;
  status = bub;
}

abbrev pub zero_x : XInstr
zero_x = record {
  op = nop;
  print_op = nop;
  multipurpose_val = 0;
  x_sigs = record { vala_sel = false; valb_sel = false; set_flags = false };
  m_sigs = record { dmem_read = false; dmem_write = false };
  w_sigs = record { dst_sel = false; wval_sel = false; w_enable = false };
  alu_op = plus_op;
  cond = eq;
  val_a = 0;
  val_b = 0;
  val_imm = 0;
  val_hw = 0;
  dst = 0;
  status = bub;
}

abbrev pub zero_m : MInstr
zero_m = record {
  op = nop;
  print_op = nop;
  multipurpose_val = 0;
  cond_holds = false;
  m_sigs = record { dmem_read = false; dmem_write = false };
  w_sigs = record { dst_sel = false; wval_sel = false; w_enable = false };
  val_b = 0;
  dst = 0;
  val_ex = 0;
  status = bub;
}

abbrev pub zero_w : WInstr
zero_w = record {
  op = nop;
  print_op = nop;
  w_sigs = record { dst_sel = false; wval_sel = false; w_enable = false };
  dst = 0;
  val_ex = 0;
  val_mem = 0;
  status = bub;
}

-- The stages of a cycle, up to the writeback.
pub record Ran : Type 0 where
  pub fetched : Fetching
  pub decoded : Decoded
  pub executed : Executed
  pub memory : MemoryDone

-- What the fetch stage reads and changes of a machine.
abbrev pub later_of : Machine → Later
later_of s = record { d_out = s.outs.d; x_out = s.outs.x; m_out = s.outs.m; proc = s.proc }

abbrev pub fetching_of : Machine → Fetching
fetching_of s = record {
  f_in = s.ins.f;
  f_out = s.outs.f;
  d_in = s.ins.d;
  f_pc = s.f_pc;
  mem = s.mem;
}

unfoldable pub run_stages : Build → Machine → Option Ran
run_stages b s = do
  fetched ← fetch_instr b (later_of s) (fetching_of s)
  decoded ← decode_instr s.proc s.outs.d
  memory ← memory_instr b.pipe fetched.mem fetched.f_pc s.outs.m
  some (record {
    fetched = fetched;
    decoded = decoded;
    executed = execute_instr s.proc.nzcv s.outs.x;
    memory = memory;
  })

-- The call of `forward_reg`: val_a and val_b of X_in.
unfoldable pub forwarded : Build → Machine → Ran → ℕ × ℕ
forwarded b s r =
    let o = s.outs in
    forward_reg b.pipe r.decoded.d_src1 r.decoded.d_src2 o.x.dst o.m.dst o.w.dst
      r.executed.out.val_ex o.m.val_ex r.memory.out.val_mem o.w.val_ex o.w.val_mem
      o.m.w_sigs.wval_sel o.w.w_sigs.wval_sel o.x.w_sigs.w_enable o.m.w_sigs.w_enable
      o.w.w_sigs.w_enable r.decoded.out.val_a r.decoded.out.val_b

-- The call of `handle_hazards`.
unfoldable pub hazards : Build → Machine → Ran → HazardState
hazards b s r =
    handle_hazards b.pipe
      (record {
        d_opcode = s.outs.d.op;
        d_src1 = r.decoded.d_src1;
        d_src2 = r.decoded.d_src2;
        d_val_a = (forwarded b s r).0;
        x_opcode = s.outs.x.op;
        x_dst = s.outs.x.dst;
        x_condval = r.executed.out.cond_holds;
        dmem_status = r.memory.mem.dmem_status;
        f_status = r.fetched.f_out.status;
        d_seq_succ = s.outs.d.multipurpose_val;
        w_in_status = r.memory.out.status;
        m_out_status = s.outs.m.status;
      })
      (record { controls = s.controls; deassert_flags = s.deassert_flags; f_pc = r.memory.f_pc })

-- The input sides at the end of the cycle, with the PC that the next one is predicted to have.
abbrev pub written : Ran → ℕ × ℕ → ℕ → Sides
written r vals pc = record {
  f = record (r.fetched.f_in) { pred_pc = pc };
  d = r.fetched.d_in;
  x = record (r.decoded.out) { val_a = vals.0; val_b = vals.1 };
  m = r.executed.out;
  w = r.memory.out;
}

-- The PC at the end of the cycle: that of an instruction with an exception, or the next one.
unfoldable pub next_pc : Bool → Ran → HazardState → ℕ
next_pc pipe r h = if pipe && is_exception r.memory.out.status then r.memory.m_pc else h.f_pc

abbrev pub is_aok : Stat → Bool
is_aok aok = true
is_aok s = false

-- The flags and the register file.
abbrev pub next_nzcv : Proc → Ran → HazardState → ℕ
next_nzcv p r h =
    if not h.deassert_flags && r.executed.x_set_flags then r.executed.x_nzcvval else p.nzcv

abbrev pub write_flags : Proc → Ran → HazardState → Proc
write_flags p r h = record p { nzcv = next_nzcv p r h }

abbrev pub commit : Machine → Ran → HazardState → Option Proc
commit s r h =
    let w = s.outs.w in
    regfile_write (write_flags s.proc r h) w.dst (wback_instr w)
      (w.w_sigs.w_enable && is_aok w.status)

-- The clock of one register.
unfoldable pub latch {ℓ} : {A : Type ℓ} → PipeCtl → A → A → A → A
latch p_load empty new old = new
latch p_error empty new old = empty
latch p_bubble empty new old = empty
latch p_stall empty new old = old

unfoldable pub latch_all : Controls → Sides → Sides → Sides
latch_all c new old = record {
  f = latch c.f zero_f new.f old.f;
  d = latch c.d zero_d new.d old.d;
  x = latch c.x zero_x new.x old.x;
  m = latch c.m zero_m new.m old.m;
  w = latch c.w zero_w new.w old.w;
}

-- The status of the machine, after the clock: an error of the controls stops it.
abbrev pub is_error_ctl : PipeCtl → Bool
is_error_ctl p_error = true
is_error_ctl ctl = false

unfoldable pub clocked_status : Controls → Stat → Stat
clocked_status c status =
    if is_error_ctl c.f
    then hlt
    else if is_error_ctl c.d
    then hlt
    else if is_error_ctl c.x
    then hlt
    else if is_error_ctl c.m
    then hlt
    else if is_error_ctl c.w
    then hlt
    else status

abbrev pub clocked : Build → Machine → Ran → HazardState → Proc → Machine
clocked b s r h p =
    let pc = next_pc b.pipe r h in
    let new = written r (forwarded b s r) pc in
    record {
      proc = record p { pc = pc };
      status = clocked_status h.controls s.outs.w.status;
      mem = r.memory.mem;
      ins = new;
      outs = latch_all h.controls new (record (s.outs) { f = r.fetched.f_out });
      controls = h.controls;
      deassert_flags = h.deassert_flags;
      f_pc = h.f_pc;
    }

unfoldable pub cycle : Build → Machine → Option Machine
cycle b s = do r ← run_stages b s; let h = hazards b s r; p ← commit s r h; some (clocked b s r h p)
