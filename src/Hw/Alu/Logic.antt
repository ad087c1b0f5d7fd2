-- ===== src/Hw/Alu/Logic.antt =====
-- The logical and the move operations of the ALU, bit by bit.
use se_lab_public.Prelude.{
  ℕ, ◌-◌, ◌+◌, ◌*◌, ◌^◌, ◌%◌, ◌/◌, ◌<◌, ◌≡◌, arith, refl, Bool, true, false, not, ◌||◌, ltb, leb,
  ◌&&◌, xor, if◌then◌else◌, bit_and, bit_or,
}
use se_lab_public.Words.{not64, shl64, add64, sub64}
use se_lab_public.Bits.{
  test_bit, test_bit-and, test_bit-or, test_bit-xor, test_bit-mod-two_pow, test_bit-mul-two_pow,
  test_bit-complement, bit_and-mask, test_bit-ones, test_bit_of_lt,
}
use se_lab_public.Instr.{
  AluOp, plus_op, minus_op, inv_op, or_op, eor_op, and_op, mov_op, movk_op, lsl_op, lsr_op, asr_op,
  pass_a_op, csel_op, csinv_op, csinc_op, csneg_op, cbz_op, cbnz_op, Cond,
}
use se_lab_public.Hw.Alu.{alu, compute, logical, plus, minus, cond_holds}
use se_lab_public.Hw.Alu.Laws.{ripple-plus, ripple-minus}

test_bit-shl64 : (x k i : ℕ) → i < 64 → test_bit (shl64 x k) i ≡ (leb k i && test_bit x (i - k))
test_bit-shl64 x k i h =
    rw (test_bit-mod-two_pow (x * 2 ^ k) 64 i, test_bit-mul-two_pow) (ground arith)

test_bit-not64 : (x i : ℕ) → x < 2 ^ 64 → i < 64 → test_bit (not64 x) i ≡ not (test_bit x i)
test_bit-not64 x i hx hi = test_bit-complement 64 x i hx hi

-- Bit `i` of what the operation makes of the bits of its operands. MOVK replaces the 16 bits from
-- `hw` on and keeps the others.
unfoldable pub logic : AluOp → ℕ → ℕ → ℕ → ℕ → Bool
logic inv_op a b hw i = test_bit a i || not (test_bit b i)
logic or_op a b hw i = test_bit a i || test_bit b i
logic eor_op a b hw i = xor (test_bit a i) (test_bit b i)
logic and_op a b hw i = test_bit a i && test_bit b i
logic mov_op a b hw i = test_bit a i || leb hw i && test_bit b (i - hw)
logic movk_op a b hw i = if leb hw i && ltb i (hw + 16) then test_bit b (i - hw) else test_bit a i
logic _ a b hw i = false

-- The two operations with an immediate of 16 bits.
abbrev pub shifts : AluOp → Bool
shifts mov_op = true
shifts movk_op = true
shifts _ = false

abbrev pub is_logic : AluOp → Bool
is_logic inv_op = true
is_logic or_op = true
is_logic eor_op = true
is_logic and_op = true
is_logic mov_op = true
is_logic movk_op = true
is_logic _ = false

module _ (a b hw nzcv i : ℕ) (set_flags : Bool) (cond : Cond) (ha : a < 2 ^ 64) (hb : b < 2 ^ 16)
    (hi : i < 64) where
  movk_bits :
      test_bit (bit_or (bit_and a (not64 (shl64 0xffff hw))) (shl64 b hw)) i
      ≡ logic movk_op a b hw i
  unfolding logic
  movk_bits =
      rw
        (
          test_bit-or,
          test_bit-and,
          test_bit-not64 (shl64 0xffff hw) i (omega arith) hi,
          test_bit-shl64 0xffff hw i hi,
          test_bit-shl64 b hw i hi,
        )
        (ground (arith, test_bit-ones 16 (i - hw), test_bit_of_lt 16 b (i - hw) hb))

  mov_bits : test_bit (bit_or a (shl64 b hw)) i ≡ logic mov_op a b hw i
  unfolding logic
  mov_bits = rw (test_bit-or, test_bit-shl64 b hw i hi)

-- Every logical and move operation works bit by bit as its table says, on a word and, for the
-- moves, an immediate of 16 bits, which is shifted by less than 64.
pub alu-logic :
    (op : AluOp) (a b hw nzcv i : ℕ) (set_flags : Bool) (cond : Cond)
    → is_logic op ≡ true
    → a < 2 ^ 64
    → b < 2 ^ (if shifts op then 16 else 64)
    → hw < 64
    → i < 64
    → test_bit (alu a b hw nzcv op set_flags cond).val_e i ≡ logic op a b hw i
unfolding alu compute logical logic
alu-logic inv_op a b hw nzcv i set_flags cond h ha hb hw_lt hi =
    rw (test_bit-or, test_bit-not64 b i hb hi)
alu-logic or_op a b hw nzcv i set_flags cond h ha hb hw_lt hi = test_bit-or a b i
alu-logic eor_op a b hw nzcv i set_flags cond h ha hb hw_lt hi = test_bit-xor a b i
alu-logic and_op a b hw nzcv i set_flags cond h ha hb hw_lt hi = test_bit-and a b i
alu-logic mov_op a b hw nzcv i set_flags cond h ha hb hw_lt hi =
    mov_bits a b hw nzcv i set_flags cond ha hb hi
alu-logic movk_op a b hw nzcv i set_flags cond h ha hb hw_lt hi =
    movk_bits a b hw nzcv i set_flags cond ha hb hi
alu-logic _ a b hw nzcv i set_flags cond h ha hb hw_lt hi = cc

-- What the additive operations and the shifts compute, on words.
unfoldable pub arithmetic : AluOp → ℕ → ℕ → Bool → ℕ
arithmetic plus_op a b holds = add64 a b
arithmetic minus_op a b holds = sub64 a b
arithmetic csel_op a b holds = if holds then a else b
arithmetic csinv_op a b holds = if holds then a else 2 ^ 64 - 1 - b
arithmetic csinc_op a b holds = if holds then a else add64 b 1
arithmetic csneg_op a b holds = if holds then a else sub64 0 b
arithmetic lsl_op a b holds = a * 2 ^ (b % 64) % 2 ^ 64
arithmetic lsr_op a b holds = a / 2 ^ (b % 64)
arithmetic pass_a_op a b holds = a
arithmetic cbz_op a b holds = a
arithmetic cbnz_op a b holds = a
arithmetic asr_op a b holds =
    if ltb a (2 ^ 63) then a / 2 ^ (b % 64) else 2 ^ 64 - 1 - (2 ^ 64 - 1 - a) / 2 ^ (b % 64)
arithmetic _ a b holds = 0

-- The additive operations, the conditional selections and the shifts compute their arithmetic
-- meaning modulo 2 ^ 64; the condition is read from the flags that come in.
pub alu-arithmetic :
    (op : AluOp) (a b hw nzcv : ℕ) (set_flags : Bool) (cond : Cond)
    → is_logic op ≡ false
    → a < 2 ^ 64
    → b < 2 ^ 64
    → (alu a b hw nzcv op set_flags cond).val_e ≡ arithmetic op a b (cond_holds cond nzcv)
unfolding alu compute arithmetic plus minus
alu-arithmetic plus_op a b hw nzcv set_flags cond h ha hb = (ripple-plus a b ha hb).0
alu-arithmetic minus_op a b hw nzcv set_flags cond h ha hb = (ripple-minus a b ha hb).0
alu-arithmetic csinc_op a b hw nzcv set_flags cond h ha hb =
    rw ((ripple-plus b 1 hb (omega arith)).0)
alu-arithmetic csneg_op a b hw nzcv set_flags cond h ha hb =
    rw ((ripple-plus (not64 b) 1 (omega arith) (omega arith)).0) (ground arith)
alu-arithmetic lsl_op a b hw nzcv set_flags cond h ha hb = rw (bit_and-mask 6 b)
alu-arithmetic lsr_op a b hw nzcv set_flags cond h ha hb = rw (bit_and-mask 6 b)
alu-arithmetic asr_op a b hw nzcv set_flags cond h ha hb = rw (bit_and-mask 6 b)
alu-arithmetic inv_op a b hw nzcv set_flags cond h ha hb = cc
alu-arithmetic or_op a b hw nzcv set_flags cond h ha hb = cc
alu-arithmetic eor_op a b hw nzcv set_flags cond h ha hb = cc
alu-arithmetic and_op a b hw nzcv set_flags cond h ha hb = cc
alu-arithmetic mov_op a b hw nzcv set_flags cond h ha hb = cc
alu-arithmetic movk_op a b hw nzcv set_flags cond h ha hb = cc
alu-arithmetic _ a b hw nzcv set_flags cond h ha hb = refl
