-- ===== src/Pipe/Regs.antt =====
-- include/pipe/instr_pipeline.h: the control signals and the five pipeline registers. The union
-- `multipurpose_val` is one 64-bit field, since its members overlap, and an `int64_t` is its bit
-- pattern.
use se_lab_public.Prelude.{ℕ, Bool}
use se_lab_public.Instr.{Opcode, Format, Cond, Stat, AluOp}

-- `proc_stage_t`, and `pipe_ctl_stat_t`.
pub data Stage : Type 0 where
  s_fetch s_decode s_execute s_memory s_wback s_update_pc s_error : Stage

pub data PipeCtl : Type 0 where
  p_load p_error p_bubble p_stall : PipeCtl

-- `d_ctl_sigs_t`, `x_ctl_sigs_t`, `m_ctl_sigs_t` and `w_ctl_sigs_t`.
pub record DSigs : Type 0 where
  pub src2_sel : Bool

pub record XSigs : Type 0 where
  pub vala_sel : Bool
  pub valb_sel : Bool
  pub set_flags : Bool

pub record MSigs : Type 0 where
  pub dmem_read : Bool
  pub dmem_write : Bool

pub record WSigs : Type 0 where
  pub dst_sel : Bool
  pub wval_sel : Bool
  pub w_enable : Bool

-- `f_instr_impl_t` and the registers of the later stages.
pub record FInstr : Type 0 where
  pub pred_pc : ℕ
  pub status : Stat

pub record DInstr : Type 0 where
  pub insnbits : ℕ
  pub op : Opcode
  pub print_op : Opcode
  pub format : Format
  pub multipurpose_val : ℕ
  pub status : Stat

pub record XInstr : Type 0 where
  pub op : Opcode
  pub print_op : Opcode
  pub multipurpose_val : ℕ
  pub x_sigs : XSigs
  pub m_sigs : MSigs
  pub w_sigs : WSigs
  pub alu_op : AluOp
  pub cond : Cond
  pub val_a : ℕ
  pub val_b : ℕ
  pub val_imm : ℕ
  pub val_hw : ℕ
  pub dst : ℕ
  pub status : Stat

pub record MInstr : Type 0 where
  pub op : Opcode
  pub print_op : Opcode
  pub multipurpose_val : ℕ
  pub cond_holds : Bool
  pub m_sigs : MSigs
  pub w_sigs : WSigs
  pub val_b : ℕ
  pub dst : ℕ
  pub val_ex : ℕ
  pub status : Stat

pub record WInstr : Type 0 where
  pub op : Opcode
  pub print_op : Opcode
  pub w_sigs : WSigs
  pub dst : ℕ
  pub val_ex : ℕ
  pub val_mem : ℕ
  pub status : Stat

-- SP_NUM and XZR_NUM.
abbrev pub sp_num : ℕ
sp_num = 31

abbrev pub xzr_num : ℕ
xzr_num = 32
