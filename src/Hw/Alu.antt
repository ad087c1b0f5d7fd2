-- ===== src/Hw/Alu.antt =====
-- `cond_holds` and `alu` of src/base/hw_elts.c. Each addition runs the ripple carry adder. A shift by
-- `valhw` is one by less than 64, as the decode stage gives it: C leaves all others undefined.
pub mod Laws
pub mod Compare
pub mod Logic
use se_lab_public.Prelude.{
  ℕ, ◌-◌, ◌+◌, ◌^◌, bit_and, bit_or, bit_xor, Bool, true, false, not, ◌==◌, ◌&&◌, ◌||◌, xor,
  if◌then◌else◌,
}
use se_lab_public.Words.{not64, shl64, shr, sar64}
use se_lab_public.Instr.{
  AluOp, plus_op, minus_op, inv_op, or_op, eor_op, and_op, mov_op, movk_op, lsl_op, lsr_op, asr_op,
  pass_a_op, csel_op, csinv_op, csinc_op, csneg_op, cbz_op, cbnz_op, error_op, Cond, eq, ne, cs, cc,
  mi, pl, vs, vc, hi, ls, ge, lt, gt, le, al, nv, cond_error, pack_cc, get_nf, get_zf, get_cf,
  get_vf,
}
use se_lab_public.Hw.Adder.{init_rca, ripple_carry_add, carry_out, Rippled}

-- The switch of `cond_holds`, on the four flags.
unfoldable pub cond_test : Cond → Bool → Bool → Bool → Bool → Bool
cond_test eq n z c v = z
cond_test ne n z c v = not z
cond_test cs n z c v = c
cond_test cc n z c v = not c
cond_test mi n z c v = n
cond_test pl n z c v = not n
cond_test vs n z c v = v
cond_test vc n z c v = not v
cond_test hi n z c v = c && not z
cond_test ls n z c v = not c || z
cond_test ge n z c v = not (xor n v)
cond_test lt n z c v = xor n v
cond_test gt n z c v = not z && not (xor n v)
cond_test le n z c v = z || xor n v
cond_test al n z c v = true
cond_test nv n z c v = true
cond_test cond_error n z c v = false

unfoldable pub cond_holds : Cond → ℕ → Bool
cond_holds cond flags = cond_test cond (get_nf flags) (get_zf flags) (get_cf flags) (get_vf flags)

-- `(result >> 63) & 1` as a `bool`.
abbrev pub is_negative : ℕ → Bool
is_negative result = not (bit_and (shr result 63) 1 == 0)

-- What an operation leaves: `result` and `new_nzcv`.
pub record AluResult : Type 0 where
  pub result : ℕ
  pub new_nzcv : ℕ

-- The logical operations clear the carry and the overflow.
unfoldable pub logical : ℕ → Bool → ℕ → AluResult
logical nzcv set_flags result = record {
  result = result;
  new_nzcv = if set_flags then pack_cc (is_negative result) (result == 0) false false else nzcv;
}

-- PLUS_OP: signed overflow is two operands of one sign and a result of the other.
unfoldable pub plus : ℕ → ℕ → ℕ → Bool → AluResult
plus a b nzcv set_flags =
    let out = ripple_carry_add (init_rca a b false) in
    let result = out.sum in
    let v = shr a 63 == shr b 63 && not (shr result 63 == shr a 63) in
    record {
      result = result;
      new_nzcv =
          if set_flags then pack_cc (is_negative result) (result == 0) (carry_out out) v else nzcv;
    }

-- MINUS_OP: `a + ~b + 1`.
unfoldable pub minus : ℕ → ℕ → ℕ → Bool → AluResult
minus a b nzcv set_flags =
    let out = ripple_carry_add (init_rca a (not64 b) true) in
    let result = out.sum in
    let v = not (shr a 63 == shr b 63) && not (shr result 63 == shr a 63) in
    record {
      result = result;
      new_nzcv =
          if set_flags then pack_cc (is_negative result) (result == 0) (carry_out out) v else nzcv;
    }

-- An operation that leaves the flags alone.
abbrev keep_flags : ℕ → ℕ → AluResult
keep_flags nzcv result = record { result = result; new_nzcv = nzcv }

-- The switch of `alu`.
unfoldable pub compute : AluOp → ℕ → ℕ → ℕ → ℕ → Bool → Cond → AluResult
compute plus_op a b hw nzcv set_flags cond = plus a b nzcv set_flags
compute minus_op a b hw nzcv set_flags cond = minus a b nzcv set_flags
compute inv_op a b hw nzcv set_flags cond = logical nzcv set_flags (bit_or a (not64 b))
compute or_op a b hw nzcv set_flags cond = logical nzcv set_flags (bit_or a b)
compute eor_op a b hw nzcv set_flags cond = logical nzcv set_flags (bit_xor a b)
compute and_op a b hw nzcv set_flags cond = logical nzcv set_flags (bit_and a b)
compute mov_op a b hw nzcv set_flags cond = keep_flags nzcv (bit_or a (shl64 b hw))
compute movk_op a b hw nzcv set_flags cond =
    keep_flags nzcv (bit_or (bit_and a (not64 (shl64 0xffff hw))) (shl64 b hw))
compute lsl_op a b hw nzcv set_flags cond = keep_flags nzcv (shl64 a (bit_and b 0x3f))
compute lsr_op a b hw nzcv set_flags cond = keep_flags nzcv (shr a (bit_and b 0x3f))
compute asr_op a b hw nzcv set_flags cond = keep_flags nzcv (sar64 a (bit_and b 0x3f))
compute pass_a_op a b hw nzcv set_flags cond = keep_flags nzcv a
compute csel_op a b hw nzcv set_flags cond = keep_flags nzcv (if cond_holds cond nzcv then a else b)
compute csinv_op a b hw nzcv set_flags cond =
    keep_flags nzcv (if cond_holds cond nzcv then a else not64 b)
compute csinc_op a b hw nzcv set_flags cond =
    keep_flags nzcv
      (if cond_holds cond nzcv then a else (ripple_carry_add (init_rca b 1 false)).sum)
compute csneg_op a b hw nzcv set_flags cond =
    keep_flags nzcv
      (if cond_holds cond nzcv then a else (ripple_carry_add (init_rca (not64 b) 1 false)).sum)
compute cbz_op a b hw nzcv set_flags cond = keep_flags nzcv a
compute cbnz_op a b hw nzcv set_flags cond = keep_flags nzcv a
compute error_op a b hw nzcv set_flags cond = keep_flags nzcv 0

-- The three outputs of `alu`.
pub record AluOut : Type 0 where
  pub val_e : ℕ
  pub cond_val : Bool
  pub nzcv_dst : ℕ

-- How `alu` sets `*cond_val`; the first two tests exist under -DEC, with their operations.
unfoldable pub cond_value : AluOp → Cond → ℕ → ℕ → Bool
cond_value cbz_op cond result new_nzcv = result == 0
cond_value cbnz_op cond result new_nzcv = not (result == 0)
cond_value _ cond result new_nzcv = cond_holds cond new_nzcv

unfoldable pub alu : ℕ → ℕ → ℕ → ℕ → AluOp → Bool → Cond → AluOut
alu vala valb valhw nzcv op set_flags cond =
    let r = compute op vala valb valhw nzcv set_flags cond in
    record {
      val_e = r.result;
      cond_val = cond_value op cond r.result r.new_nzcv;
      nzcv_dst = r.new_nzcv;
    }
