-- ===== src/Pipe/Decode/Regnums.antt =====
-- `extract_regs` and the functions of `extract_regs_table` in src/pipe/instr_Decode.c, with the
-- table of src/pipe/instr_Decode_extractregs.c: the register numbers of an instruction.
pub mod Bounds
use se_lab_public.Instr.{
  format_m, format_i1, format_i2, format_rr, format_ri, format_b3, format_ec, ldur, stur, movk,
  movz, adds_rr, cmn_rr, subs_rr, cmp_rr, mvn, orr_rr, eor_rr, ands_rr, tst_rr, lsl_ri, lsr_ri,
  lsl_rr, lsr_rr, asr, csel, csinv, csinc, csneg, cbz, cbnz, br, blr, format_error, format_b1,
  format_b2, format_s, Opcode, Format,
}
use se_lab_public.Prelude.{ℕ, ◌==◌, if◌then◌else◌}
use se_lab_public.Words.{u8}
use se_lab_public.Instr.Bitfield.{bitfield_u32}
use se_lab_public.Pipe.Regs.{sp_num, xzr_num}

-- `*src1`, `*src2` and `*dst`.
pub record RegNums : Type 0 where
  pub src1 : ℕ
  pub src2 : ℕ
  pub dst : ℕ

-- A five-bit register number at a position, `(uint8_t)bitfield_u32(insnbits, pos, 5)`.
abbrev pub reg_at : ℕ → ℕ → ℕ
reg_at insnbits pos = u8 (bitfield_u32 insnbits pos 5)

abbrev pub no_regs : RegNums
no_regs = record { src1 = xzr_num; src2 = xzr_num; dst = xzr_num }

abbrev pub format_m_regs : ℕ → RegNums
format_m_regs insnbits = record {
  src1 = reg_at insnbits 5;
  src2 = xzr_num;
  dst = reg_at insnbits 0;
}

abbrev pub format_i1_regs : ℕ → Opcode → RegNums
format_i1_regs insnbits movk = record {
  src1 = reg_at insnbits 0;
  src2 = xzr_num;
  dst = reg_at insnbits 0;
}
format_i1_regs insnbits op = record { src1 = xzr_num; src2 = xzr_num; dst = reg_at insnbits 0 }

abbrev pub format_i2_regs : ℕ → RegNums
format_i2_regs insnbits = record { src1 = xzr_num; src2 = xzr_num; dst = reg_at insnbits 0 }

abbrev pub format_rr_regs : ℕ → RegNums
format_rr_regs insnbits = record {
  src1 = reg_at insnbits 5;
  src2 = reg_at insnbits 16;
  dst = reg_at insnbits 0;
}

abbrev pub format_ri_regs : ℕ → RegNums
format_ri_regs insnbits = record {
  src1 = reg_at insnbits 5;
  src2 = xzr_num;
  dst = reg_at insnbits 0;
}

abbrev pub format_b3_regs : ℕ → RegNums
format_b3_regs insnbits = record { src1 = reg_at insnbits 5; src2 = xzr_num; dst = xzr_num }

abbrev pub format_ec_regs : ℕ → Opcode → RegNums
format_ec_regs insnbits csel = format_rr_regs insnbits
format_ec_regs insnbits csinv = format_rr_regs insnbits
format_ec_regs insnbits csinc = format_rr_regs insnbits
format_ec_regs insnbits csneg = format_rr_regs insnbits
format_ec_regs insnbits cbz = record { src1 = reg_at insnbits 0; src2 = xzr_num; dst = xzr_num }
format_ec_regs insnbits cbnz = record { src1 = reg_at insnbits 0; src2 = xzr_num; dst = xzr_num }
format_ec_regs insnbits br = record { src1 = reg_at insnbits 5; src2 = xzr_num; dst = xzr_num }
format_ec_regs insnbits blr = record { src1 = reg_at insnbits 5; src2 = xzr_num; dst = xzr_num }
format_ec_regs insnbits op = no_regs

-- The call through `extract_regs_table`: `format_other` and `format_s` leave the registers, which
-- come in as `r`, alone; FORMAT_B1 and FORMAT_B2 set them all to XZR.
unfoldable pub extract_by_format : ℕ → Opcode → Format → RegNums → RegNums
extract_by_format insnbits op format_m r = format_m_regs insnbits
extract_by_format insnbits op format_i1 r = format_i1_regs insnbits op
extract_by_format insnbits op format_i2 r = format_i2_regs insnbits
extract_by_format insnbits op format_rr r = format_rr_regs insnbits
extract_by_format insnbits op format_ri r = format_ri_regs insnbits
extract_by_format insnbits op format_b1 r = no_regs
extract_by_format insnbits op format_b2 r = no_regs
extract_by_format insnbits op format_b3 r = format_b3_regs insnbits
extract_by_format insnbits op format_s r = r
extract_by_format insnbits op format_ec r = format_ec_regs insnbits op
extract_by_format insnbits op format_error r = r

-- Register 31 as the zero register.
abbrev pub to_xzr : ℕ → ℕ
to_xzr r = if r == sp_num then xzr_num else r

abbrev pub all_xzr : RegNums → RegNums
all_xzr r = record { src1 = to_xzr r.src1; src2 = to_xzr r.src2; dst = to_xzr r.dst }

unfoldable pub fix_regs : Opcode → RegNums → RegNums
fix_regs adds_rr r = all_xzr r
fix_regs cmn_rr r = all_xzr r
fix_regs subs_rr r = all_xzr r
fix_regs cmp_rr r = all_xzr r
fix_regs mvn r = all_xzr r
fix_regs orr_rr r = all_xzr r
fix_regs eor_rr r = all_xzr r
fix_regs ands_rr r = all_xzr r
fix_regs tst_rr r = all_xzr r
fix_regs lsl_rr r = all_xzr r
fix_regs lsr_rr r = all_xzr r
fix_regs lsl_ri r = all_xzr r
fix_regs lsr_ri r = all_xzr r
fix_regs asr r = all_xzr r
fix_regs movz r = all_xzr r
fix_regs movk r = all_xzr r
fix_regs ldur r = record r { dst = to_xzr r.dst }
fix_regs stur r = record r { src2 = to_xzr r.src2; dst = to_xzr r.dst }
fix_regs csel r = all_xzr r
fix_regs csinv r = all_xzr r
fix_regs csinc r = all_xzr r
fix_regs csneg r = all_xzr r
fix_regs cbz r = all_xzr r
fix_regs cbnz r = all_xzr r
fix_regs br r = all_xzr r
fix_regs blr r = all_xzr r
fix_regs op r = r

unfoldable pub extract_regs : ℕ → Opcode → Format → RegNums → RegNums
extract_regs insnbits op format r = fix_regs op (extract_by_format insnbits op format r)
