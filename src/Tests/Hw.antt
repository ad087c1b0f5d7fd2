-- ===== src/Tests/Hw.antt =====
-- The hardware elements on concrete words.
use se_lab_public.Prelude.{◌+◌, ◌*◌, ◌^◌, ◌≡◌, ◌<◌, refl, arith, true, false, some, replicate}
use se_lab_public.Prelude.Int.{◌+ℤ◌, ◌-ℤ◌}
use se_lab_public.Words.{add64, sub64, signed64}
use se_lab_public.Bits.{test_bit}
use se_lab_public.Instr.{to_ℕ, minus_op, movk_op, asr_op, lt, al}
use se_lab_public.Hw.Adder.{init_rca, ripple_carry_add, carry_out}
use se_lab_public.Hw.Adder.Laws.{ripple_carry_add_lem}
use se_lab_public.Hw.Alu.{alu, plus, minus, cond_holds}
use se_lab_public.Hw.Alu.Laws.{arm_flags, plus_lem, minus_lem}
use se_lab_public.Hw.Alu.Compare.{alu-compares, compares}
use se_lab_public.Hw.Alu.Logic.{alu-logic, alu-arithmetic, logic, arithmetic}
use se_lab_public.Hw.Regfile.{Proc, regfile_write, regfile_write-IsWritten, IsWritten}

ripple_carry_add_example :
    let out = ripple_carry_add (init_rca 0xffffffffffffffff 5 true) in
    (out.sum + 2 ^ 64 * to_ℕ (carry_out out) ≡ 0xffffffffffffffff + 5 + to_ℕ true)
    × (out.sum < 2 ^ 64)
ripple_carry_add_example =
    ripple_carry_add_lem 0xffffffffffffffff 5 true (omega arith) (omega arith)

plus_example : plus 0x7fffffffffffffff 1 0 true ≡ record {
  result = add64 0x7fffffffffffffff 1;
  new_nzcv =
      arm_flags (add64 0x7fffffffffffffff 1) false (signed64 0x7fffffffffffffff +ℤ signed64 1);
}
plus_example = plus_lem 0x7fffffffffffffff 1 0 (omega arith) (omega arith)

minus_example : minus 3 5 0 true ≡ record {
  result = sub64 3 5;
  new_nzcv = arm_flags (sub64 3 5) false (signed64 3 -ℤ signed64 5);
}
minus_example = minus_lem 3 5 0 (omega arith) (omega arith)

alu-compares_example :
    let out = alu 3 5 0 0 minus_op true lt in
    (out.val_e ≡ sub64 3 5)
    × (out.cond_val ≡ compares lt 3 5)
    × (cond_holds lt out.nzcv_dst ≡ compares lt 3 5)
alu-compares_example = alu-compares lt 3 5 0 0 (omega arith) (omega arith)

alu-logic_example :
    test_bit (alu 0x1111222233334444 0xabcd 16 0 movk_op false al).val_e 17
    ≡ logic movk_op 0x1111222233334444 0xabcd 16 17
alu-logic_example =
    alu-logic movk_op 0x1111222233334444 0xabcd 16 0 17 false al refl (omega arith) (omega arith)
      (omega arith) (omega arith)

alu-arithmetic_example :
    (alu 0x8000000000000000 4 0 0 asr_op false al).val_e
    ≡ arithmetic asr_op 0x8000000000000000 4 (cond_holds al 0)
alu-arithmetic_example =
    alu-arithmetic asr_op 0x8000000000000000 4 0 0 false al refl (omega arith) (omega arith)

-- Registers that all hold 7.
abbrev sevens : Proc
sevens = record { sp = 0x1000; pc = 0; nzcv = 4; gpr = replicate 31 7 }

regfile_write_example :
    (p' : Proc) × (regfile_write sevens 12 99 true ≡ some p') × IsWritten sevens 12 99 true p'
regfile_write_example = regfile_write-IsWritten sevens 12 99 true refl (omega arith)
