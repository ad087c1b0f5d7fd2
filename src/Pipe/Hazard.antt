-- ===== src/Pipe/Hazard.antt =====
-- src/pipe/hazard_control.c. The control fields of the five pipeline registers, `deassert_flags` and
-- F_PC are the state; what the code prints is left out. The flag `pipe` says whether the build has
-- PIPE.
pub mod Laws
pub mod Waits
use se_lab_public.Mem.Status.{MemStatus, ready, in_flight}
use se_lab_public.Pipe.Regs.{
  s_fetch, s_decode, s_execute, s_memory, s_wback, p_load, p_error, p_bubble, p_stall, Stage,
  PipeCtl, xzr_num,
}
use se_lab_public.Instr.{ldur, b_cond, ret, hlt, cbz, cbnz, br, blr, adr, ins, Opcode, Stat}
use se_lab_public.Prelude.{ℕ, Bool, true, false, not, ◌==◌, ◌&&◌, ◌||◌, if◌then◌else◌}

pub record Controls : Type 0 where
  pub f : PipeCtl
  pub d : PipeCtl
  pub x : PipeCtl
  pub m : PipeCtl
  pub w : PipeCtl

-- `pipe_control_stage` for one register.
unfoldable pub set_ctl : Bool → Bool → PipeCtl → PipeCtl
set_ctl true true ctl = p_error
set_ctl bubble stall p_error = p_error
set_ctl true stall ctl = p_bubble
set_ctl false true ctl = p_stall
set_ctl false false ctl = p_load

unfoldable pub pipe_control_stage : Stage → Bool → Bool → Controls → Controls
pipe_control_stage s_fetch bubble stall c = record c { f = set_ctl bubble stall c.f }
pipe_control_stage s_decode bubble stall c = record c { d = set_ctl bubble stall c.d }
pipe_control_stage s_execute bubble stall c = record c { x = set_ctl bubble stall c.x }
pipe_control_stage s_memory bubble stall c = record c { m = set_ctl bubble stall c.m }
pipe_control_stage s_wback bubble stall c = record c { w = set_ctl bubble stall c.w }
pipe_control_stage stage bubble stall c = c

unfoldable pub check_ret_hazard : Opcode → Bool
check_ret_hazard ret = true
check_ret_hazard op = false

unfoldable pub check_br_hazard : Opcode → Bool
check_br_hazard br = true
check_br_hazard blr = true
check_br_hazard op = false

unfoldable pub check_cb_hazard : Opcode → ℕ → Bool
check_cb_hazard cbz val_a = not (val_a == 0)
check_cb_hazard cbnz val_a = val_a == 0
check_cb_hazard op val_a = false

unfoldable pub check_mispred_branch_hazard : Opcode → Bool → Bool
check_mispred_branch_hazard b_cond condval = not condval
check_mispred_branch_hazard op condval = false

abbrev pub is_load : Opcode → Bool
is_load ldur = true
is_load op = false

unfoldable pub check_load_use_hazard : Opcode → ℕ → ℕ → Opcode → ℕ → Bool
check_load_use_hazard br src1 src2 x_op x_dst = false
check_load_use_hazard blr src1 src2 x_op x_dst = false
check_load_use_hazard d_op src1 src2 x_op x_dst =
    is_load x_op && not (x_dst == xzr_num) && (x_dst == src1 || x_dst == src2)

-- `error`, and the test of a status that stops the fetch stage.
unfoldable pub is_exception : Stat → Bool
is_exception ins = true
is_exception adr = true
is_exception s = false

unfoldable pub stops_fetch : Stat → Bool
stops_fetch hlt = true
stops_fetch ins = true
stops_fetch s = false

-- RET_FROM_MAIN_ADDR.
abbrev pub ret_from_main_addr : ℕ
ret_from_main_addr = 0

-- What `handle_hazards` reads: its arguments, and the registers and wires it looks at.
pub record Inputs : Type 0 where
  pub d_opcode : Opcode
  pub d_src1 : ℕ
  pub d_src2 : ℕ
  pub d_val_a : ℕ
  pub x_opcode : Opcode
  pub x_dst : ℕ
  pub x_condval : Bool
  pub dmem_status : MemStatus
  pub f_status : Stat
  pub d_seq_succ : ℕ
  pub w_in_status : Stat
  pub m_out_status : Stat

-- What it changes.
pub record HazardState : Type 0 where
  pub controls : Controls
  pub deassert_flags : Bool
  pub f_pc : ℕ

-- The five calls of `pipe_control_stage`, in order.
abbrev pub control_stages :
    (f_bubble f_stall d_bubble d_stall x_bubble x_stall m_stall w_bubble : Bool)
    → Controls
    → Controls
control_stages f_bubble f_stall d_bubble d_stall x_bubble x_stall m_stall w_bubble c =
    let c1 = pipe_control_stage s_fetch f_bubble f_stall c in
    let c2 = pipe_control_stage s_decode d_bubble d_stall c1 in
    let c3 = pipe_control_stage s_execute x_bubble x_stall c2 in
    let c4 = pipe_control_stage s_memory false m_stall c3 in
    pipe_control_stage s_wback w_bubble false c4

-- The conditions that `handle_hazards` computes.
unfoldable pub ret_from_main : Inputs → Bool
ret_from_main i = check_ret_hazard i.d_opcode && i.d_val_a == ret_from_main_addr

unfoldable pub load_use : Inputs → Bool
load_use i = check_load_use_hazard i.d_opcode i.d_src1 i.d_src2 i.x_opcode i.x_dst

unfoldable pub mispred : Inputs → Bool
mispred i = check_mispred_branch_hazard i.x_opcode i.x_condval

-- Its part below the test of IN_FLIGHT.
unfoldable pub handle_ready : Inputs → HazardState → HazardState
handle_ready i h =
    let f_stall = stops_fetch i.f_status in
    let from_main = ret_from_main i in
    let ret = check_ret_hazard i.d_opcode && not from_main in
    let br = check_br_hazard i.d_opcode && not from_main in
    let stall = load_use i in
    let cb = not stall && check_cb_hazard i.d_opcode i.d_val_a in
    let mis = mispred i in
    record {
      controls =
          control_stages (from_main && not f_stall) (f_stall || stall || ret || br)
            ((ret && not stall) || mis || from_main || (br && not stall) || cb) stall (stall || mis)
            false false false h.controls;
      deassert_flags = is_exception i.w_in_status || is_exception i.m_out_status;
      f_pc = if cb then i.d_seq_succ else h.f_pc;
    }

-- Its part in a build without PIPE.
unfoldable pub handle_unpiped : Inputs → HazardState → HazardState
handle_unpiped i h =
    let f_stall = stops_fetch i.f_status in
    let from_main = ret_from_main i in
    let ret_normal = check_ret_hazard i.d_opcode && not (i.d_val_a == ret_from_main_addr) in
    record h {
      controls =
          control_stages (from_main && not f_stall) f_stall ret_normal false false false false false
            h.controls;
    }

-- Its part that waits for the memory.
unfoldable pub handle_in_flight : HazardState → HazardState
handle_in_flight h = record h {
  controls = control_stages false true false true false true true true h.controls;
  deassert_flags = true;
}

-- The test of `dmem_status` in a build with PIPE.
abbrev pub handle_piped : MemStatus → Inputs → HazardState → HazardState
handle_piped in_flight i h = handle_in_flight h
handle_piped ready i h = handle_ready i h

unfoldable pub handle_hazards : Bool → Inputs → HazardState → HazardState
handle_hazards true i h = handle_piped i.dmem_status i h
handle_hazards false i h = handle_unpiped i h
