-- ===== src/Pipe/Decode.antt =====
-- src/pipe/instr_Decode.c and src/pipe/instr_Decode_extractregs.c: the helpers of the decode stage.
pub mod Regnums
pub mod Stage
use se_lab_public.Instr.{
  ldur, stur, movk, movz, adrp, add_ri, adds_rr, cmn_rr, sub_ri, subs_rr, cmp_rr, mvn, orr_rr,
  eor_rr, ands_rr, tst_rr, lsl_ri, lsr_ri, lsl_rr, lsr_rr, asr, bl, csel, csinv, csinc, csneg, cbz,
  cbnz, blr, Opcode, AluOp, plus_op, mov_op, movk_op, pass_a_op, minus_op, inv_op, or_op, eor_op,
  and_op, lsl_op, lsr_op, asr_op, csel_op, csinv_op, csinc_op, csneg_op, cbz_op, cbnz_op,
}
use se_lab_public.Prelude.{ℕ, ◌+◌, ◌-◌, ◌^◌, Bool, true, false}
use se_lab_public.Words.{u32}
use se_lab_public.Instr.Bitfield.{bitfield_u32, bitfield_s64}
use se_lab_public.Pipe.Regs.{DSigs, XSigs, MSigs, WSigs}

-- What `generate_DXMW_control` writes.
pub record Control : Type 0 where
  pub d_sigs : DSigs
  pub x_sigs : XSigs
  pub m_sigs : MSigs
  pub w_sigs : WSigs

-- The defaults that stand before its switch.
abbrev pub safe : Control
safe = record {
  d_sigs = record { src2_sel = false };
  x_sigs = record { vala_sel = false; valb_sel = false; set_flags = false };
  m_sigs = record { dmem_read = false; dmem_write = false };
  w_sigs = record { dst_sel = false; wval_sel = false; w_enable = false };
}

-- A result that goes to a register: from an immediate operand, or from two registers.
abbrev pub from_immediate : Control
from_immediate = record safe { w_sigs = record (safe.w_sigs) { w_enable = true } }

abbrev pub from_registers : Control
from_registers = record from_immediate { x_sigs = record (safe.x_sigs) { valb_sel = true } }

-- An operation that sets the flags, and may write its result.
abbrev pub setting_flags : Bool → Control
setting_flags w_enable = record safe {
  x_sigs = record (safe.x_sigs) { valb_sel = true; set_flags = true };
  w_sigs = record (safe.w_sigs) { w_enable = w_enable };
}

-- The link of BL and BLR.
abbrev pub linking : Control
linking = record safe {
  x_sigs = record (safe.x_sigs) { vala_sel = true };
  w_sigs = record (safe.w_sigs) { dst_sel = true; w_enable = true };
}

unfoldable pub generate_dxmw_control : Opcode → Control
generate_dxmw_control ldur = record safe {
  m_sigs = record (safe.m_sigs) { dmem_read = true };
  w_sigs = record (safe.w_sigs) { wval_sel = true; w_enable = true };
}
generate_dxmw_control stur = record safe {
  d_sigs = record { src2_sel = true };
  m_sigs = record (safe.m_sigs) { dmem_write = true };
}
generate_dxmw_control movz = from_immediate
generate_dxmw_control movk = from_immediate
generate_dxmw_control adrp = record from_immediate {
  x_sigs = record (safe.x_sigs) { vala_sel = true };
}
generate_dxmw_control add_ri = from_immediate
generate_dxmw_control sub_ri = from_immediate
generate_dxmw_control adds_rr = setting_flags true
generate_dxmw_control cmn_rr = setting_flags false
generate_dxmw_control subs_rr = setting_flags true
generate_dxmw_control cmp_rr = setting_flags false
generate_dxmw_control mvn = from_registers
generate_dxmw_control orr_rr = from_registers
generate_dxmw_control eor_rr = from_registers
generate_dxmw_control ands_rr = setting_flags true
generate_dxmw_control tst_rr = setting_flags false
generate_dxmw_control lsl_ri = from_immediate
generate_dxmw_control lsr_ri = from_immediate
generate_dxmw_control asr = from_immediate
generate_dxmw_control lsl_rr = from_registers
generate_dxmw_control lsr_rr = from_registers
generate_dxmw_control bl = linking
generate_dxmw_control csel = from_registers
generate_dxmw_control csinv = from_registers
generate_dxmw_control csinc = from_registers
generate_dxmw_control csneg = from_registers
generate_dxmw_control blr = linking
generate_dxmw_control op = safe

-- `extract_immval`: the bit pattern of `*imm`.
unfoldable pub extract_immval : ℕ → Opcode → ℕ
extract_immval insnbits ldur = bitfield_s64 insnbits 12 9
extract_immval insnbits stur = bitfield_s64 insnbits 12 9
extract_immval insnbits movz = bitfield_u32 insnbits 5 16
extract_immval insnbits movk = bitfield_u32 insnbits 5 16
extract_immval insnbits adrp = 0
extract_immval insnbits add_ri = bitfield_u32 insnbits 10 12
extract_immval insnbits sub_ri = bitfield_u32 insnbits 10 12
extract_immval insnbits lsl_ri = u32 (64 + 2 ^ 32 - bitfield_u32 insnbits 16 6)
extract_immval insnbits lsr_ri = bitfield_u32 insnbits 16 6
extract_immval insnbits asr = bitfield_u32 insnbits 16 6
extract_immval insnbits op = 0

unfoldable pub decide_alu_op : Opcode → AluOp
decide_alu_op ldur = plus_op
decide_alu_op stur = plus_op
decide_alu_op movz = mov_op
decide_alu_op movk = movk_op
decide_alu_op adrp = pass_a_op
decide_alu_op add_ri = plus_op
decide_alu_op adds_rr = plus_op
decide_alu_op cmn_rr = plus_op
decide_alu_op sub_ri = minus_op
decide_alu_op subs_rr = minus_op
decide_alu_op cmp_rr = minus_op
decide_alu_op mvn = inv_op
decide_alu_op orr_rr = or_op
decide_alu_op eor_rr = eor_op
decide_alu_op ands_rr = and_op
decide_alu_op tst_rr = and_op
decide_alu_op lsl_ri = lsl_op
decide_alu_op lsl_rr = lsl_op
decide_alu_op lsr_ri = lsr_op
decide_alu_op lsr_rr = lsr_op
decide_alu_op asr = asr_op
decide_alu_op csel = csel_op
decide_alu_op csinv = csinv_op
decide_alu_op csinc = csinc_op
decide_alu_op csneg = csneg_op
decide_alu_op cbz = cbz_op
decide_alu_op cbnz = cbnz_op
decide_alu_op op = pass_a_op
