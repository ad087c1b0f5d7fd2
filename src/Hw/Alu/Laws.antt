-- ===== src/Hw/Alu/Laws.antt =====
-- What the operations of the ALU compute: sums and differences with their flags.
use se_lab_public.Prelude.{
  ℕ, ◌+◌, ◌-◌, ◌*◌, ◌%◌, ◌^◌, ◌<◌, ◌≡◌, arith, Bool, true, false, not, ◌==◌, leb, ◌&&◌,
}
use se_lab_public.Prelude.Int.{ℤ, ◌+ℤ◌, ◌-ℤ◌}
use se_lab_public.Words.{add64, sub64, not64, shr, signed64, overflows}
use se_lab_public.Bits.{bit_and-mask}
use se_lab_public.Instr.{to_ℕ, pack_cc}
use se_lab_public.Hw.Adder.{init_rca, ripple_carry_add, carry_out}
use se_lab_public.Hw.Adder.Laws.{ripple_carry_add_lem}
use se_lab_public.Hw.Alu.{plus, minus, is_negative}

is_negative-eq : (x : ℕ) → x < 2 ^ 64 → is_negative x ≡ leb (2 ^ 63) x
is_negative-eq x h = ground (arith, bit_and-mask 1 (shr x 63))

-- The flags that the architecture wants for a result with a carry and an exact signed value.
unfoldable pub arm_flags : ℕ → Bool → ℤ → ℕ
arm_flags result carry exact = pack_cc (leb (2 ^ 63) result) (result == 0) carry (overflows exact)

split_sum :
    (sum n : ℕ) (k : Bool)
    → sum + 2 ^ 64 * to_ℕ k ≡ n
    → sum < 2 ^ 64
    → n < 2 ^ 65
    → (sum ≡ n % 2 ^ 64) × (k ≡ leb (2 ^ 64) n)
split_sum sum n true e h small = ground arith
split_sum sum n false e h small = ground arith

pub ripple-plus :
    (a b : ℕ)
    → a < 2 ^ 64
    → b < 2 ^ 64
    → let out = ripple_carry_add (init_rca a b false) in
      (out.sum ≡ add64 a b) × (carry_out out ≡ leb (2 ^ 64) (a + b))
ripple-plus a b ha hb =
    let run = ripple_carry_add_lem a b false ha hb in
    split_sum _ (a + b) _ (omega (arith, run.0)) run.1 (omega arith)

pub ripple-minus :
    (a b : ℕ)
    → a < 2 ^ 64
    → b < 2 ^ 64
    → let out = ripple_carry_add (init_rca a (not64 b) true) in
      (out.sum ≡ sub64 a b) × (carry_out out ≡ leb b a)
ripple-minus a b ha hb =
    let run = ripple_carry_add_lem a (not64 b) true ha (omega arith) in
    let out = ripple_carry_add (init_rca a (not64 b) true) in
    let parts : (out.sum ≡ sub64 a b) × (carry_out out ≡ leb (2 ^ 64) (a + 2 ^ 64 - b)) =
      split_sum out.sum (a + 2 ^ 64 - b) (carry_out out) (omega (arith, run.0)) run.1
        (omega arith) in
    (parts.0, ground arith)

plus_overflow :
    (a b : ℕ)
    → a < 2 ^ 64
    → b < 2 ^ 64
    → (shr a 63 == shr b 63 && not (shr (add64 a b) 63 == shr a 63))
      ≡ overflows (signed64 a +ℤ signed64 b)
plus_overflow a b ha hb = ground arith

minus_overflow :
    (a b : ℕ)
    → a < 2 ^ 64
    → b < 2 ^ 64
    → (not (shr a 63 == shr b 63) && not (shr (sub64 a b) 63 == shr a 63))
      ≡ overflows (signed64 a -ℤ signed64 b)
minus_overflow a b ha hb = ground arith

-- PLUS_OP adds modulo 2 ^ 64. Its flags say whether the result is negative, whether it is zero,
-- whether the unsigned sum left the word, and whether the signed sum did.
pub plus_lem :
    (a b nzcv : ℕ)
    → a < 2 ^ 64
    → b < 2 ^ 64
    → plus a b nzcv true ≡ record {
      result = add64 a b;
      new_nzcv = arm_flags (add64 a b) (leb (2 ^ 64) (a + b)) (signed64 a +ℤ signed64 b);
    }
unfolding plus arm_flags
plus_lem a b nzcv ha hb = rw (
  (ripple-plus a b ha hb).1,
  (ripple-plus a b ha hb).0,
  is_negative-eq (add64 a b) (omega arith),
  plus_overflow a b ha hb,
)

-- MINUS_OP subtracts modulo 2 ^ 64. The carry says that nothing was borrowed, and the overflow
-- that the signed difference left the word.
pub minus_lem :
    (a b nzcv : ℕ)
    → a < 2 ^ 64
    → b < 2 ^ 64
    → minus a b nzcv true ≡ record {
      result = sub64 a b;
      new_nzcv = arm_flags (sub64 a b) (leb b a) (signed64 a -ℤ signed64 b);
    }
unfolding minus arm_flags
minus_lem a b nzcv ha hb = rw (
  (ripple-minus a b ha hb).1,
  (ripple-minus a b ha hb).0,
  is_negative-eq (sub64 a b) (omega arith),
  minus_overflow a b ha hb,
)
