-- ===== src/Pipe/Fetch.antt =====
-- `select_PC`, `predict_PC` and `fix_instr_aliases` of src/pipe/instr_Fetch.c. The flag `pipe` says
-- whether the build has PIPE.
pub mod Laws
pub mod Stage
use se_lab_public.Prelude.{ℕ, ◌+◌, Bool, true, false, not, ◌==◌, ◌&&◌, if◌then◌else◌}
use se_lab_public.Words.{add64, shl64, u8}
use se_lab_public.Instr.{
  Opcode, ubfm, ubfmv, lsr_ri, lsl_ri, lsl_rr, lsr_rr, subs_rr, adds_rr, ands_rr, cmp_rr, cmn_rr,
  tst_rr, csel, csinc, csneg, csinv, b, bl, b_cond, cbz, cbnz, ret, br, blr,
}
use se_lab_public.Instr.Bitfield.{bitfield_u32, bitfield_s64}
use se_lab_public.Pipe.Hazard.{ret_from_main_addr}

-- The opcode tests of `select_PC`.
abbrev pub is_ret : Opcode → Bool
is_ret ret = true
is_ret op = false

abbrev pub is_indirect : Opcode → Bool
is_indirect ret = true
is_indirect br = true
is_indirect blr = true
is_indirect op = false

abbrev pub is_b_cond : Opcode → Bool
is_b_cond b_cond = true
is_b_cond op = false

-- The arguments of `select_PC`, without the one that it does not read, and the fields of the
-- execute register that it looks at.
pub record PcChoice : Type 0 where
  pub pred_pc : ℕ
  pub d_opcode : Opcode
  pub val_a : ℕ
  pub x_opcode : Opcode
  pub x_val_a : ℕ
  pub m_opcode : Opcode
  pub m_cond_val : Bool
  pub seq_succ : ℕ

unfoldable pub select_pc : Bool → PcChoice → ℕ
select_pc pipe p =
    if is_ret p.d_opcode && p.val_a == ret_from_main_addr
    then 0
    else if pipe && is_indirect p.x_opcode
    then p.x_val_a
    else if pipe && is_b_cond p.m_opcode && not p.m_cond_val
    then p.seq_succ
    else p.pred_pc

-- The switch of `predict_PC`: the predicted PC.
unfoldable pub target : ℕ → ℕ → Opcode → ℕ
target current_pc insnbits b = add64 current_pc (shl64 (bitfield_s64 insnbits 0 26) 2)
target current_pc insnbits bl = add64 current_pc (shl64 (bitfield_s64 insnbits 0 26) 2)
target current_pc insnbits b_cond = add64 current_pc (shl64 (bitfield_s64 insnbits 5 19) 2)
target current_pc insnbits cbz = add64 current_pc (shl64 (bitfield_s64 insnbits 5 19) 2)
target current_pc insnbits cbnz = add64 current_pc (shl64 (bitfield_s64 insnbits 5 19) 2)
target current_pc insnbits op = add64 current_pc 4

-- `*predicted_PC` and `*seq_succ`, which come in with the values that they keep if the PC is 0.
unfoldable pub predict_pc : ℕ → ℕ → Opcode → ℕ × ℕ → ℕ × ℕ
predict_pc current_pc insnbits op old =
    if current_pc == 0 then old else (target current_pc insnbits op, add64 current_pc 4)

-- The aliases with register 31 as their destination.
abbrev pub discarding : Opcode → Opcode
discarding subs_rr = cmp_rr
discarding adds_rr = cmn_rr
discarding ands_rr = tst_rr
discarding op = op

-- The two pairs of conditional selections, which bit 10 tells apart.
abbrev pub selecting : ℕ → Opcode → Opcode
selecting bit csel = if bit == 1 then csinc else csel
selecting bit csneg = if bit == 0 then csinv else csneg
selecting bit op = op

unfoldable pub fix_instr_aliases : ℕ → Opcode → Opcode
fix_instr_aliases insnbits ubfm = if bitfield_u32 insnbits 10 6 == 63 then lsr_ri else lsl_ri
fix_instr_aliases insnbits ubfmv = if bitfield_u32 insnbits 10 2 == 0 then lsl_rr else lsr_rr
fix_instr_aliases insnbits op =
    selecting (bitfield_u32 insnbits 10 1)
      (if u8 (bitfield_u32 insnbits 0 5) == 31 then discarding op else op)
