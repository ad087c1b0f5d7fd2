-- ===== src/Pipe/Isa/Laws.antt =====
-- The decode stage and the execute stage together compute what the instructions mean.
use native.Mathlib.Nat.{one-le-pow, pow-le-pow_right, mod-lt, mod-eq_of_lt}
use se_lab_public.Words.{u32, u8}
use se_lab_public.Prelude.{
  bit_and, bit_or, ◌-◌, ◌+◌, ◌≤◌, ◌*◌, ◌/◌, ◌%◌, refl, ◌^◌, ◌<◌, ◌≡◌, ℕ, arith, some, true,
}
use se_lab_public.Bits.{test_bit-ext, test_bit-or, test_bit-zero, bit_or-lt, bit_and-mask}
use se_lab_public.Pipe.Isa.{imm16, hw, signed_field, meaning, rn, rm, x_reg, rd, sp_reg, computes}
use se_lab_public.Instr.Bitfield.Laws.{bitfield_s64-word, slice, bitfield_u32_lem}
use se_lab_public.Hw.Alu.{logical, alu, compute, plus, minus}
use se_lab_public.Pipe.Decode.Regnums.{to_xzr, reg_at, extract_regs, extract_by_format, fix_regs}
use se_lab_public.Instr.{
  adds_rr, cmn_rr, subs_rr, cmp_rr, mvn, orr_rr, eor_rr, ands_rr, tst_rr, lsl_rr, lsr_rr, lsl_ri,
  lsr_ri, asr, movz, movk, adrp, bl, add_ri, sub_ri, ldur, stur, Opcode, Stat,
}
use se_lab_public.Instr.Tables.Laws.{format_of}
use se_lab_public.Hw.Regfile.{Proc, read_reg, regfile_read}
use se_lab_public.Hw.Alu.Laws.{ripple-plus, ripple-minus}
use se_lab_public.Pipe.Regs.{DInstr}
use se_lab_public.Pipe.Decode.{generate_dxmw_control, decide_alu_op, extract_immval}
use se_lab_public.Pipe.Decode.Stage.{Decoded, assemble, regs_of, eff_src2, decode_instr}
use se_lab_public.Pipe.Execute.{execute_instr}
use se_lab_public.Pipe.Isa.Reads.{IsProc, read-x, x_reg-lt, read-sp, sp_reg-lt, read-zero}
use se_lab_public.Instr.Bitfield.{bitfield_s64, bitfield_u32}

-- An instruction that the fetch stage hands on, with the format that the table gives it.
abbrev pub fetched : Opcode → ℕ → ℕ → Stat → DInstr
fetched op i addr status = record {
  insnbits = i;
  op = op;
  print_op = op;
  format = format_of op;
  multipurpose_val = addr;
  status = status;
}

-- The instruction is decoded, and its value is computed.
abbrev pub Computes : Proc → ℕ → DInstr → ℕ → Type 0
Computes p nzcv d value =
    (t : Decoded) × (decode_instr p d ≡ some t) × ((execute_instr nzcv t.out).out.val_ex ≡ value)

decode_lem :
    (p : Proc) (d : DInstr) (a b : ℕ)
    → read_reg p (regs_of d).src1 ≡ some a
    → read_reg p (eff_src2 d) ≡ some b
    → decode_instr p d ≡ some (assemble d a b)
unfolding decode_instr regfile_read
decode_lem p d a b h k = rw (h, k) refl

module _ (p : Proc) (i addr nzcv : ℕ) (status : Stat) (v : IsProc p) (word : i < 2 ^ 32) where
  abbrev Meant : Opcode → Type 0
  Meant op = Computes p nzcv (fetched op i addr status) (meaning op p i addr)

  -- From the two reads and the value of the ALU.
  meant :
      (op : Opcode) (a b : ℕ)
      → read_reg p (regs_of (fetched op i addr status)).src1 ≡ some a
      → read_reg p (eff_src2 (fetched op i addr status)) ≡ some b
      → (execute_instr nzcv (assemble (fetched op i addr status) a b).out).out.val_ex
        ≡ meaning op p i addr
      → Meant op
  meant op a b h k e =
      let d = fetched op i addr status in (assemble d a b, decode_lem p d a b h k, e)

  x_n : read_reg p (to_xzr (reg_at i 5)) ≡ some (x_reg p (rn i))
  x_n = read-x i 5 word (omega arith) p v

  x_m : read_reg p (to_xzr (reg_at i 16)) ≡ some (x_reg p (rm i))
  x_m = read-x i 16 word (omega arith) p v

  x_d : read_reg p (to_xzr (reg_at i 0)) ≡ some (x_reg p (rd i))
  x_d = read-x i 0 word (omega arith) p v

  sp_n : read_reg p (reg_at i 5) ≡ some (sp_reg p (rn i))
  sp_n = read-sp i 5 word (omega arith) p v

  an : x_reg p (rn i) < 2 ^ 64
  an = x_reg-lt p v (rn i)

  am : x_reg p (rm i) < 2 ^ 64
  am = x_reg-lt p v (rm i)

  asp : sp_reg p (rn i) < 2 ^ 64
  asp = sp_reg-lt p v (rn i)

  field-lt : (pos w : ℕ) → w ≤ 16 → slice i pos w < 2 ^ 16
  field-lt pos w h =
      let wide : 2 ^ w ≤ 2 ^ 16 = pow-le-pow_right (omega arith) h in
      omega (arith, mod-lt (i / 2 ^ pos) (one-le-pow w 2 (omega arith)))

  -- The shift amounts of the moves.
  hw-eq : u8 (bitfield_u32 i 21 2 * 16) ≡ hw i
  hw-eq =
      let small : slice i 21 2 < 2 ^ 2 = mod-lt (i / 2 ^ 21) (omega arith) in
      rw (bitfield_u32_lem i 21 2 word (omega arith)) (omega (arith, small))

  -- The immediate offset of a load or a store.
  offset-eq : bitfield_s64 i 12 9 ≡ signed_field (slice i 12 9) 9
  offset-eq = bitfield_s64-word i 12 9 word (omega arith) (omega arith) (omega arith)

  offset-lt : signed_field (slice i 12 9) 9 < 2 ^ 64
  offset-lt =
      let small : slice i 12 9 < 2 ^ 9 = mod-lt (i / 2 ^ 12) (omega arith) in ground (arith, small)

  amount-lt : slice i 16 6 < 64
  amount-lt = mod-lt (i / 2 ^ 16) (omega arith)

  amount-eq : bit_and (bitfield_u32 i 16 6) 0x3f ≡ slice i 16 6
  amount-eq =
      rw (bitfield_u32_lem i 16 6 word (omega arith), bit_and-mask 6 (slice i 16 6))
        (mod-eq_of_lt amount-lt)

  left_amount-eq : bit_and (u32 (64 + 2 ^ 32 - bitfield_u32 i 16 6)) 0x3f ≡ (64 - slice i 16 6) % 64
  left_amount-eq =
      rw
        (
          bitfield_u32_lem i 16 6 word (omega arith),
          bit_and-mask 6 (u32 (64 + 2 ^ 32 - slice i 16 6)),
        )
        (omega (arith, amount-lt))

  imm12-lt : slice i 10 12 < 2 ^ 64
  imm12-lt = omega (arith, field-lt 10 12 (omega arith))

  imm12-eq : bitfield_u32 i 10 12 ≡ slice i 10 12
  imm12-eq = bitfield_u32_lem i 10 12 word (omega arith)

  imm16-eq : bitfield_u32 i 5 16 ≡ imm16 i
  imm16-eq = bitfield_u32_lem i 5 16 word (omega arith)

  or_zero : (x : ℕ) → x < 2 ^ 64 → bit_or 0 x ≡ x
  or_zero x h =
      test_bit-ext 64 (bit_or 0 x) x (bit_or-lt 64 0 x (omega arith) h) h
        (λ j hj. rw (test_bit-or, test_bit-zero j) refl)

  -- An instruction that computes a value, with the format of its opcode, is decoded without error,
  -- and the execute stage finds the value that the manual gives it: the address of a load or a
  -- store, the result of a computation or of a move, or the address that came with an ADRP or a BL.
  -- The register file has 31 general registers, which and the stack pointer hold 64-bit words; the
  -- instruction has 32 bits.
  pub execute-decode : (op : Opcode) → computes op ≡ true → Meant op
  unfolding execute_instr meaning extract_regs extract_by_format fix_regs format_of
      generate_dxmw_control decide_alu_op extract_immval alu compute plus minus logical
  execute-decode adds_rr h = meant adds_rr _ _ x_n x_m (ripple-plus _ _ an am).0
  execute-decode cmn_rr h = meant cmn_rr _ _ x_n x_m (ripple-plus _ _ an am).0
  execute-decode subs_rr h = meant subs_rr _ _ x_n x_m (ripple-minus _ _ an am).0
  execute-decode cmp_rr h = meant cmp_rr _ _ x_n x_m (ripple-minus _ _ an am).0
  execute-decode mvn h = meant mvn _ _ x_n x_m refl
  execute-decode orr_rr h = meant orr_rr _ _ x_n x_m refl
  execute-decode eor_rr h = meant eor_rr _ _ x_n x_m refl
  execute-decode ands_rr h = meant ands_rr _ _ x_n x_m refl
  execute-decode tst_rr h = meant tst_rr _ _ x_n x_m refl
  execute-decode lsl_rr h = meant lsl_rr _ _ x_n x_m (rw (bit_and-mask 6 (x_reg p (rm i))) refl)
  execute-decode lsr_rr h = meant lsr_rr _ _ x_n x_m (rw (bit_and-mask 6 (x_reg p (rm i))) refl)
  execute-decode lsl_ri h = meant lsl_ri _ _ x_n (read-zero p) (rw left_amount-eq refl)
  execute-decode lsr_ri h = meant lsr_ri _ _ x_n (read-zero p) (rw amount-eq refl)
  execute-decode asr h = meant asr _ _ x_n (read-zero p) (rw amount-eq refl)
  execute-decode movz h =
      meant movz 0 _ (read-zero p) (read-zero p) (rw (imm16-eq, hw-eq) (or_zero _ (omega arith)))
  execute-decode movk h = meant movk _ _ x_d (read-zero p) (rw (imm16-eq, hw-eq) refl)
  execute-decode adrp h = meant adrp _ _ (read-zero p) (read-zero p) refl
  execute-decode bl h = meant bl _ _ (read-zero p) (read-zero p) refl
  execute-decode add_ri h =
      meant add_ri _ _ sp_n (read-zero p) (rw imm12-eq (ripple-plus _ _ asp imm12-lt).0)
  execute-decode sub_ri h =
      meant sub_ri _ _ sp_n (read-zero p) (rw imm12-eq (ripple-minus _ _ asp imm12-lt).0)
  execute-decode ldur h =
      meant ldur _ _ sp_n (read-zero p) (rw offset-eq (ripple-plus _ _ asp offset-lt).0)
  execute-decode stur h = meant stur _ _ sp_n x_d (rw offset-eq (ripple-plus _ _ asp offset-lt).0)
  execute-decode op h = cc
