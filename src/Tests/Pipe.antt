-- ===== src/Tests/Pipe.antt =====
-- Instructions in the pipeline.
use se_lab_public.Prelude.{
  [], length, ◌+◌, ◌%◌, zero, suc, ℕ, ◌≡◌, ◌<◌, ◌^◌, refl, arith, true, false, some, replicate,
  if◌then◌else◌, ◌>>=◌, get_or,
}
use se_lab_public.Pipe.Orders.{orderings}
use se_lab_public.Pipe.Orders.Laws.{count, occurrences, orderings_lem}
use se_lab_public.Pipe.Regs.{s_fetch, s_decode, s_execute, s_memory, s_wback, p_load}
use se_lab_public.Instr.{ubfm, b_cond, aok, bub, adds_rr, ldur, ret}
use se_lab_public.Instr.Tables.Laws.{format_of}
use se_lab_public.Pipe.Fetch.{fix_instr_aliases, predict_pc}
use se_lab_public.Pipe.Fetch.Laws.{
  is_alias_only, alias_of, fix_instr_aliases-alias_of, expected, predict_pc-expected,
}
use se_lab_public.Hw.Regfile.{read_reg, Proc, regfile_read, regfile_write}
use se_lab_public.Pipe.Forward.{forward_reg}
use se_lab_public.Pipe.Forward.Laws.{forward_reg-regfile_read}
use se_lab_public.Mem.Status.{ready}
use se_lab_public.Pipe.Hazard.{Inputs, HazardState}
use se_lab_public.Pipe.Isa.{meaning}
use se_lab_public.Pipe.Isa.Reads.{IsProc}
use se_lab_public.Pipe.Isa.Laws.{Computes, fetched, execute-decode}

abbrev sevens : Proc
sevens = record { sp = 0x1000; pc = 0; nzcv = 4; gpr = replicate 31 7 }

seven-lt : (n i : ℕ) → get_or (replicate n 7) i 0 < 2 ^ 64
seven-lt zero i = omega arith
seven-lt (suc n) zero = omega arith
seven-lt (suc n) (suc i) = seven-lt n i

sevens-IsProc : IsProc sevens
sevens-IsProc = record { size = refl; words = seven-lt 31; sp_word = omega arith }

-- ADDS X3, X1, X2.
execute-decode_example :
    Computes sevens 4
      (fetched adds_rr 0xab020023 0x104 aok)
      (meaning adds_rr sevens 0xab020023 0x104)
execute-decode_example =
    execute-decode sevens 0xab020023 0x104 4 aok sevens-IsProc (omega arith) adds_rr refl

sevens-reads : regfile_read sevens 1 2 ≡ some (7, 7)
unfolding regfile_read read_reg
sevens-reads = refl

forward_reg_example :
    (p' : Proc) × ((regfile_write sevens 2 (if false then 50 else 40) true
        >>= (λ q. regfile_write q 1 (if true then 30 else 20) true)
        >>= (λ q. regfile_write q 1 10 true))
      ≡ some p')
    × (regfile_read p' 1 2
        ≡ some (forward_reg true 1 2 1 1 2 10 20 30 40 50 true false true true true 7 7))
forward_reg_example =
    forward_reg-regfile_read sevens 1 2 7 7 1 1 2 10 20 30 40 50 true false true true true refl
      (omega arith) (omega arith) (omega arith) sevens-reads

-- A RET behind the load of its address.
abbrev waiting : Inputs
waiting = record {
  d_opcode = ret;
  d_src1 = 30;
  d_src2 = 32;
  d_val_a = 0x500;
  x_opcode = ldur;
  x_dst = 30;
  x_condval = false;
  dmem_status = ready;
  f_status = aok;
  d_seq_succ = 0x104;
  w_in_status = bub;
  m_out_status = bub;
}

abbrev running : HazardState
running = record {
  controls = record { f = p_load; d = p_load; x = p_load; m = p_load; w = p_load };
  deassert_flags = false;
  f_pc = 0x108;
}

-- LSR X0, X1, #4 is a UBFM.
fix_instr_aliases_example :
    (fix_instr_aliases 0xd344fc20 ubfm ≡ alias_of 0xd344fc20 ubfm)
    × (is_alias_only (fix_instr_aliases 0xd344fc20 ubfm) ≡ false)
    × (format_of (fix_instr_aliases 0xd344fc20 ubfm) ≡ format_of ubfm)
fix_instr_aliases_example = fix_instr_aliases-alias_of 0xd344fc20 ubfm (omega arith)

-- B.NE, two instructions back.
predict_pc_example :
    predict_pc 0x400100 0x54ffffc1 b_cond (0, 0)
    ≡ (expected 0x400100 0x54ffffc1 b_cond, (0x400100 + 4) % 2 ^ 64)
predict_pc_example =
    predict_pc-expected 0x400100 0x54ffffc1 b_cond (0, 0) (omega arith) (omega arith) (omega arith)

orderings_example :
    let r = get_or orderings 119 [] in
    (count s_fetch r ≡ 1)
    × (count s_decode r ≡ 1)
    × (count s_execute r ≡ 1)
    × (count s_memory r ≡ 1)
    × (count s_wback r ≡ 1)
    × (length r ≡ 5)
    × (occurrences r orderings ≡ 1)
orderings_example = orderings_lem 119 (omega arith)
