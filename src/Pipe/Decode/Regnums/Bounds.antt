-- ===== src/Pipe/Decode/Regnums/Bounds.antt =====
-- The register numbers of an instruction are those of the register file.
use se_lab_public.Prelude.{ℕ, ◌+◌, ◌^◌, ◌≤◌, ◌<◌, ◌≡◌, arith, refl}
use se_lab_public.Instr.{Opcode, Format}
use se_lab_public.Pipe.Isa.Reads.{reg_at-eq, slice-lt}
use se_lab_public.Pipe.Decode.Regnums.{
  RegNums, reg_at, no_regs, format_i1_regs, format_ec_regs, format_rr_regs, extract_by_format,
  to_xzr, all_xzr, fix_regs, extract_regs,
}

pub record IsRegs (r : RegNums) : Type 0 where
  pub src1 : r.src1 ≤ 32
  pub src2 : r.src2 ≤ 32
  pub dst : r.dst ≤ 32

module _ (i : ℕ) (word : i < 2 ^ 32) where
  pub reg_at-le : (pos : ℕ) → pos + 5 ≤ 32 → reg_at i pos ≤ 32
  reg_at-le pos fits = rw (reg_at-eq i pos word fits) (omega (arith, slice-lt i pos word fits))

  rr-IsRegs : IsRegs (format_rr_regs i)
  rr-IsRegs = record {
    src1 = reg_at-le 5 (omega arith);
    src2 = reg_at-le 16 (omega arith);
    dst = reg_at-le 0 (omega arith);
  }

  -- One source, at a position, and a destination.
  one-IsRegs :
      (r : RegNums) (pos : ℕ)
      → pos + 5 ≤ 32
      → r.src1 ≡ reg_at i pos
      → r.src2 ≡ 32
      → r.dst ≡ reg_at i 0
      → IsRegs r
  one-IsRegs r pos fits e1 e2 e3 = record {
    src1 = rw e1 (reg_at-le pos fits);
    src2 = omega (arith, e2);
    dst = rw e3 (reg_at-le 0 (omega arith));
  }

  source-IsRegs :
      (r : RegNums) (pos : ℕ)
      → pos + 5 ≤ 32
      → r.src1 ≡ reg_at i pos
      → r.src2 ≡ 32
      → r.dst ≡ 32
      → IsRegs r
  source-IsRegs r pos fits e1 e2 e3 = record {
    src1 = rw e1 (reg_at-le pos fits);
    src2 = omega (arith, e2);
    dst = omega (arith, e3);
  }

  no_regs-IsRegs : IsRegs no_regs
  no_regs-IsRegs = record { src1 = omega arith; src2 = omega arith; dst = omega arith }

  i1-IsRegs : (op : Opcode) → IsRegs (format_i1_regs i op)
  i1-IsRegs Opcode.movk = one-IsRegs _ 0 (omega arith) refl refl refl
  i1-IsRegs op = record { src1 = omega arith; src2 = omega arith; dst = reg_at-le 0 (omega arith) }

  ec-IsRegs : (op : Opcode) → IsRegs (format_ec_regs i op)
  ec-IsRegs Opcode.csel = rr-IsRegs
  ec-IsRegs Opcode.csinv = rr-IsRegs
  ec-IsRegs Opcode.csinc = rr-IsRegs
  ec-IsRegs Opcode.csneg = rr-IsRegs
  ec-IsRegs Opcode.cbz = source-IsRegs _ 0 (omega arith) refl refl refl
  ec-IsRegs Opcode.cbnz = source-IsRegs _ 0 (omega arith) refl refl refl
  ec-IsRegs Opcode.br = source-IsRegs _ 5 (omega arith) refl refl refl
  ec-IsRegs Opcode.blr = source-IsRegs _ 5 (omega arith) refl refl refl
  ec-IsRegs op = no_regs-IsRegs

  by_format-IsRegs :
      (op : Opcode) (format : Format) → IsRegs (extract_by_format i op format no_regs)
  unfolding extract_by_format
  by_format-IsRegs op Format.format_m = one-IsRegs _ 5 (omega arith) refl refl refl
  by_format-IsRegs op Format.format_i1 = i1-IsRegs op
  by_format-IsRegs op Format.format_i2 = record {
    src1 = omega arith;
    src2 = omega arith;
    dst = reg_at-le 0 (omega arith);
  }
  by_format-IsRegs op Format.format_rr = rr-IsRegs
  by_format-IsRegs op Format.format_ri = one-IsRegs _ 5 (omega arith) refl refl refl
  by_format-IsRegs op Format.format_b3 = source-IsRegs _ 5 (omega arith) refl refl refl
  by_format-IsRegs op Format.format_ec = ec-IsRegs op
  by_format-IsRegs op format = no_regs-IsRegs

  to_xzr-le : (r : ℕ) → r ≤ 32 → to_xzr r ≤ 32
  to_xzr-le r h = ground (arith, h)

  all_xzr-IsRegs : (r : RegNums) → IsRegs r → IsRegs (all_xzr r)
  all_xzr-IsRegs r h = record {
    src1 = to_xzr-le r.src1 h.src1;
    src2 = to_xzr-le r.src2 h.src2;
    dst = to_xzr-le r.dst h.dst;
  }

  fix_regs-IsRegs : (op : Opcode) (r : RegNums) → IsRegs r → IsRegs (fix_regs op r)
  unfolding fix_regs
  fix_regs-IsRegs Opcode.adds_rr r h = all_xzr-IsRegs r h
  fix_regs-IsRegs Opcode.cmn_rr r h = all_xzr-IsRegs r h
  fix_regs-IsRegs Opcode.subs_rr r h = all_xzr-IsRegs r h
  fix_regs-IsRegs Opcode.cmp_rr r h = all_xzr-IsRegs r h
  fix_regs-IsRegs Opcode.mvn r h = all_xzr-IsRegs r h
  fix_regs-IsRegs Opcode.orr_rr r h = all_xzr-IsRegs r h
  fix_regs-IsRegs Opcode.eor_rr r h = all_xzr-IsRegs r h
  fix_regs-IsRegs Opcode.ands_rr r h = all_xzr-IsRegs r h
  fix_regs-IsRegs Opcode.tst_rr r h = all_xzr-IsRegs r h
  fix_regs-IsRegs Opcode.lsl_rr r h = all_xzr-IsRegs r h
  fix_regs-IsRegs Opcode.lsr_rr r h = all_xzr-IsRegs r h
  fix_regs-IsRegs Opcode.lsl_ri r h = all_xzr-IsRegs r h
  fix_regs-IsRegs Opcode.lsr_ri r h = all_xzr-IsRegs r h
  fix_regs-IsRegs Opcode.asr r h = all_xzr-IsRegs r h
  fix_regs-IsRegs Opcode.movz r h = all_xzr-IsRegs r h
  fix_regs-IsRegs Opcode.movk r h = all_xzr-IsRegs r h
  fix_regs-IsRegs Opcode.csel r h = all_xzr-IsRegs r h
  fix_regs-IsRegs Opcode.csinv r h = all_xzr-IsRegs r h
  fix_regs-IsRegs Opcode.csinc r h = all_xzr-IsRegs r h
  fix_regs-IsRegs Opcode.csneg r h = all_xzr-IsRegs r h
  fix_regs-IsRegs Opcode.cbz r h = all_xzr-IsRegs r h
  fix_regs-IsRegs Opcode.cbnz r h = all_xzr-IsRegs r h
  fix_regs-IsRegs Opcode.br r h = all_xzr-IsRegs r h
  fix_regs-IsRegs Opcode.blr r h = all_xzr-IsRegs r h
  fix_regs-IsRegs Opcode.ldur r h = record {
    src1 = h.src1;
    src2 = h.src2;
    dst = to_xzr-le r.dst h.dst;
  }
  fix_regs-IsRegs Opcode.stur r h = record {
    src1 = h.src1;
    src2 = to_xzr-le r.src2 h.src2;
    dst = to_xzr-le r.dst h.dst;
  }
  fix_regs-IsRegs op r h = h

  pub extract_regs-IsRegs :
      (op : Opcode) (format : Format) → IsRegs (extract_regs i op format no_regs)
  unfolding extract_regs
  extract_regs-IsRegs op format =
      fix_regs-IsRegs op (extract_by_format i op format no_regs) (by_format-IsRegs op format)
