-- ===== src/Hw/Alu/Compare.antt =====
-- The condition codes after a comparison: what a branch on the flags of `a - b` decides.
use se_lab_public.Prelude.{
  ℕ, ◌^◌, ◌<◌, ◌≡◌, arith, refl, Bool, true, false, not, ◌==◌, ltb, leb, ◌∙◌,
}
use se_lab_public.Prelude.Int.{◌-ℤ◌, ltb_ℤ}
use se_lab_public.Words.{sub64, signed64, overflows}
use se_lab_public.Instr.{
  Cond, eq, ne, cs, cc, mi, pl, vs, vc, hi, ls, ge, lt, gt, le, al, nv, cond_error, minus_op,
  get-pack_cc, pack_cc,
}
use se_lab_public.Hw.Alu.{cond_test, cond_holds, alu, compute, cond_value}
use se_lab_public.Hw.Alu.Laws.{minus_lem, arm_flags}

-- The relation of the two operands that each condition names: unsigned for HI, LS, CS and CC, signed
-- for GE, LT, GT and LE.
unfoldable pub compares : Cond → ℕ → ℕ → Bool
compares eq a b = a == b
compares ne a b = not (a == b)
compares cs a b = leb b a
compares cc a b = ltb a b
compares mi a b = leb (2 ^ 63) (sub64 a b)
compares pl a b = ltb (sub64 a b) (2 ^ 63)
compares vs a b = overflows (signed64 a -ℤ signed64 b)
compares vc a b = not (overflows (signed64 a -ℤ signed64 b))
compares hi a b = ltb b a
compares ls a b = leb a b
compares ge a b = not (ltb_ℤ (signed64 a) (signed64 b))
compares lt a b = ltb_ℤ (signed64 a) (signed64 b)
compares gt a b = ltb_ℤ (signed64 b) (signed64 a)
compares le a b = not (ltb_ℤ (signed64 b) (signed64 a))
compares al a b = true
compares nv a b = true
compares cond_error a b = false

cond_holds-pack_cc :
    (cond : Cond) (n z c v : Bool) → cond_holds cond (pack_cc n z c v) ≡ cond_test cond n z c v
unfolding cond_holds
cond_holds-pack_cc cond n z c v =
    let flags = get-pack_cc n z c v in rw (flags.0, flags.1, flags.2, flags.3)

module _ (a b : ℕ) (ha : a < 2 ^ 64) (hb : b < 2 ^ 64) where
  flags_compare :
      (cond : Cond)
      → cond_test cond
          (leb (2 ^ 63) (sub64 a b))
          (sub64 a b == 0)
          (leb b a)
          (overflows (signed64 a -ℤ signed64 b))
        ≡ compares cond a b
  unfolding cond_test compares
  flags_compare eq = ground arith
  flags_compare ne = ground arith
  flags_compare cs = ground arith
  flags_compare cc = ground arith
  flags_compare mi = ground arith
  flags_compare pl = ground arith
  flags_compare vs = ground arith
  flags_compare vc = ground arith
  flags_compare hi = ground arith
  flags_compare ls = ground arith
  flags_compare ge = ground arith
  flags_compare lt = ground arith
  flags_compare gt = ground arith
  flags_compare le = ground arith
  flags_compare al = ground arith
  flags_compare nv = ground arith
  flags_compare cond_error = ground arith

-- After the flag-setting subtraction of two words (CMP, SUBS), every condition code holds exactly when
-- its relation holds of the operands, whatever the flags were before.
pub alu-compares :
    (cond : Cond) (a b hw nzcv : ℕ)
    → a < 2 ^ 64
    → b < 2 ^ 64
    → let out = alu a b hw nzcv minus_op true cond in
      (out.val_e ≡ sub64 a b)
      × (out.cond_val ≡ compares cond a b)
      × (cond_holds cond out.nzcv_dst ≡ compares cond a b)
unfolding alu compute cond_value arm_flags
alu-compares cond a b hw nzcv ha hb =
    let sets = cond_holds-pack_cc cond _ _ _ _ ∙ flags_compare a b ha hb cond in
    rw (minus_lem a b nzcv ha hb) (refl, sets, sets)
