-- ===== src/Instr.antt =====
-- include/pipe/instr.h and the ALU operations of include/pipe/instr_pipeline.h: the enumerations of
-- the instruction set and the condition flags. The constructors below the `EC` line of an
-- enumeration exist only in a build with the extra credit instructions (-DEC).
pub mod Bitfield
pub mod Tables
use se_lab_public.Prelude.{ℕ, ◌*◌, ◌^◌, ◌≡◌, refl, bit_and, bit_or, Bool, true, false, not, ◌==◌}
use se_lab_public.Words.{shr}

-- `opcode_t`; `error` is OP_ERROR.
pub data Opcode : Type 0 where
  nop ldur stur movk movz adrp add_ri adds_rr cmn_rr sub_ri subs_rr cmp_rr mvn orr_rr eor_rr :
      Opcode
  ands_rr tst_rr lsl_ri lsr_ri ubfm lsl_rr lsr_rr ubfmv asr b b_cond bl ret hlt : Opcode
  csel csinv csinc csneg cbz cbnz br blr : Opcode
  error : Opcode

-- `format_t`.
pub data Format : Type 0 where
  format_error format_m format_i1 format_i2 format_rr format_ri format_b1 format_b2 : Format
  format_b3 format_s format_ec : Format

-- `cond_t`.
pub data Cond : Type 0 where
  eq ne cs cc mi pl vs vc hi ls ge lt gt le al nv : Cond
  cond_error : Cond

-- `stat_t`: a bubble, all is well, a clean halt, a bad address, a bad instruction.
pub data Stat : Type 0 where
  bub aok hlt adr ins : Stat

-- `alu_op_t`.
pub data AluOp : Type 0 where
  plus_op minus_op inv_op or_op eor_op and_op mov_op movk_op lsl_op lsr_op asr_op pass_a_op : AluOp
  csel_op csinv_op csinc_op csneg_op cbz_op cbnz_op : AluOp
  error_op : AluOp

-- A `bool` that is used as a number.
abbrev pub to_ℕ : Bool → ℕ
to_ℕ true = 1
to_ℕ false = 0

-- PACK_CC.
unfoldable pub pack_cc : Bool → Bool → Bool → Bool → ℕ
pack_cc n z c v =
    bit_or (bit_or (bit_or (to_ℕ n * 2 ^ 3) (to_ℕ z * 2 ^ 2)) (to_ℕ c * 2 ^ 1)) (to_ℕ v * 2 ^ 0)

-- GET_NF, GET_ZF, GET_CF and GET_VF, read as a `bool`.
unfoldable pub get_nf : ℕ → Bool
get_nf flags = not (bit_and (shr flags 3) 1 == 0)

unfoldable pub get_zf : ℕ → Bool
get_zf flags = not (bit_and (shr flags 2) 1 == 0)

unfoldable pub get_cf : ℕ → Bool
get_cf flags = not (bit_and (shr flags 1) 1 == 0)

unfoldable pub get_vf : ℕ → Bool
get_vf flags = not (bit_and (shr flags 0) 1 == 0)

-- The flags that were packed are read back.
pub get-pack_cc :
    (n z c v : Bool)
    → (get_nf (pack_cc n z c v) ≡ n)
      × (get_zf (pack_cc n z c v) ≡ z)
      × (get_cf (pack_cc n z c v) ≡ c)
      × (get_vf (pack_cc n z c v) ≡ v)
unfolding pack_cc get_nf get_zf get_cf get_vf
get-pack_cc true true true true = (refl, refl, refl, refl)
get-pack_cc true true true false = (refl, refl, refl, refl)
get-pack_cc true true false true = (refl, refl, refl, refl)
get-pack_cc true true false false = (refl, refl, refl, refl)
get-pack_cc true false true true = (refl, refl, refl, refl)
get-pack_cc true false true false = (refl, refl, refl, refl)
get-pack_cc true false false true = (refl, refl, refl, refl)
get-pack_cc true false false false = (refl, refl, refl, refl)
get-pack_cc false true true true = (refl, refl, refl, refl)
get-pack_cc false true true false = (refl, refl, refl, refl)
get-pack_cc false true false true = (refl, refl, refl, refl)
get-pack_cc false true false false = (refl, refl, refl, refl)
get-pack_cc false false true true = (refl, refl, refl, refl)
get-pack_cc false false true false = (refl, refl, refl, refl)
get-pack_cc false false false true = (refl, refl, refl, refl)
get-pack_cc false false false false = (refl, refl, refl, refl)
