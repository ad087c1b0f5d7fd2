-- ===== src/Pipe/Isa.antt =====
-- What the instructions compute, by the manual of the instruction set: the independent description
-- that the decode and execute stages are compared with.
pub mod Reads
pub mod Laws
use se_lab_public.Instr.{
  nop, ldur, stur, movk, movz, add_ri, adds_rr, cmn_rr, sub_ri, subs_rr, cmp_rr, mvn, orr_rr,
  eor_rr, ands_rr, tst_rr, lsl_ri, lsr_ri, ubfm, lsl_rr, lsr_rr, ubfmv, asr, b_cond, ret, hlt, csel,
  csinv, csinc, csneg, cbz, cbnz, br, blr, error, Opcode,
}
use se_lab_public.Prelude.{
  ℕ, ◌+◌, ◌-◌, ◌*◌, ◌/◌, ◌%◌, ◌^◌, ◌≤◌, ◌<◌, ◌≡◌, Bool, true, false, ◌==◌, ltb, if◌then◌else◌,
  bit_and, bit_or, bit_xor, length, get_or,
}
use se_lab_public.Words.{add64, sub64, sar64, shl64, not64}
use se_lab_public.Instr.Bitfield.Laws.{slice}
use se_lab_public.Hw.Regfile.{Proc}

-- Register `n` of an instruction in which 31 is the zero register, or the stack pointer.
abbrev pub x_reg : Proc → ℕ → ℕ
x_reg p n = if n == 31 then 0 else get_or p.gpr n 0

abbrev pub sp_reg : Proc → ℕ → ℕ
sp_reg p n = if n == 31 then p.sp else get_or p.gpr n 0

-- A field of `w` bits as a signed offset, modulo 2 ^ 64.
abbrev pub signed_field : ℕ → ℕ → ℕ
signed_field f w = if ltb f (2 ^ (w - 1)) then f else f + 2 ^ 64 - 2 ^ w

-- The fields of an instruction.
abbrev pub rd : ℕ → ℕ
rd i = slice i 0 5

abbrev pub rn : ℕ → ℕ
rn i = slice i 5 5

abbrev pub rm : ℕ → ℕ
rm i = slice i 16 5

abbrev pub imm16 : ℕ → ℕ
imm16 i = slice i 5 16

abbrev pub hw : ℕ → ℕ
hw i = slice i 21 2 * 16

-- Opcodes that compute a value.
abbrev pub computes : Opcode → Bool
computes Opcode.b = false
computes b_cond = false
computes ret = false
computes nop = false
computes hlt = false
computes ubfm = false
computes ubfmv = false
computes csel = false
computes csinv = false
computes csinc = false
computes csneg = false
computes cbz = false
computes cbnz = false
computes br = false
computes blr = false
computes error = false
computes op = true

-- The value that an instruction computes: the address of a load or a store, and otherwise the
-- result. ADRP and BL give the address that was computed for them when they were fetched.
unfoldable pub meaning : Opcode → Proc → ℕ → ℕ → ℕ
meaning ldur p i addr = add64 (sp_reg p (rn i)) (signed_field (slice i 12 9) 9)
meaning stur p i addr = add64 (sp_reg p (rn i)) (signed_field (slice i 12 9) 9)
meaning movz p i addr = shl64 (imm16 i) (hw i)
meaning movk p i addr =
    bit_or (bit_and (x_reg p (rd i)) (not64 (shl64 0xffff (hw i)))) (shl64 (imm16 i) (hw i))
meaning add_ri p i addr = add64 (sp_reg p (rn i)) (slice i 10 12)
meaning sub_ri p i addr = sub64 (sp_reg p (rn i)) (slice i 10 12)
meaning adds_rr p i addr = add64 (x_reg p (rn i)) (x_reg p (rm i))
meaning cmn_rr p i addr = add64 (x_reg p (rn i)) (x_reg p (rm i))
meaning subs_rr p i addr = sub64 (x_reg p (rn i)) (x_reg p (rm i))
meaning cmp_rr p i addr = sub64 (x_reg p (rn i)) (x_reg p (rm i))
meaning mvn p i addr = bit_or (x_reg p (rn i)) (not64 (x_reg p (rm i)))
meaning orr_rr p i addr = bit_or (x_reg p (rn i)) (x_reg p (rm i))
meaning eor_rr p i addr = bit_xor (x_reg p (rn i)) (x_reg p (rm i))
meaning ands_rr p i addr = bit_and (x_reg p (rn i)) (x_reg p (rm i))
meaning tst_rr p i addr = bit_and (x_reg p (rn i)) (x_reg p (rm i))
meaning lsl_ri p i addr = x_reg p (rn i) * 2 ^ ((64 - slice i 16 6) % 64) % 2 ^ 64
meaning lsr_ri p i addr = x_reg p (rn i) / 2 ^ slice i 16 6
meaning asr p i addr = sar64 (x_reg p (rn i)) (slice i 16 6)
meaning lsl_rr p i addr = x_reg p (rn i) * 2 ^ (x_reg p (rm i) % 64) % 2 ^ 64
meaning lsr_rr p i addr = x_reg p (rn i) / 2 ^ (x_reg p (rm i) % 64)
meaning op p i addr = addr
