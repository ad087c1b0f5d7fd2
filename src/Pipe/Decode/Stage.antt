-- ===== src/Pipe/Decode/Stage.antt =====
-- `decode_instr` of src/pipe/instr_Decode.c.
use se_lab_public.Instr.{
  csel, csinv, csinc, csneg, eq, ne, cs, cc, mi, pl, vs, vc, hi, ls, ge, lt, gt, le, al, nv, Opcode,
  Cond, cond_error,
}
use se_lab_public.Prelude.{get_or, [], ◌∷◌, ℕ, ◌*◌, if◌then◌else◌, Option, some, ◌>>=◌}
use se_lab_public.Words.{u8}
use se_lab_public.Instr.Bitfield.{bitfield_u32}
use se_lab_public.Hw.Regfile.{Proc, regfile_read}
use se_lab_public.Pipe.Regs.{DInstr, XInstr}
use se_lab_public.Pipe.Decode.{generate_dxmw_control, extract_immval, decide_alu_op}
use se_lab_public.Pipe.Decode.Regnums.{RegNums, extract_regs, no_regs}

-- The cast to `cond_t` of a four-bit field.
abbrev pub cond_of : ℕ → Cond
cond_of n =
    get_or (eq ∷ ne ∷ cs ∷ cc ∷ mi ∷ pl ∷ vs ∷ vc ∷ hi ∷ ls ∷ ge ∷ lt ∷ gt ∷ le ∷ al ∷ nv ∷ []) n
      cond_error

-- The position of the condition: CSEL and its family have theirs at bit 12.
abbrev pub cond_position : Opcode → ℕ
cond_position csel = 12
cond_position csinv = 12
cond_position csinc = 12
cond_position csneg = 12
cond_position op = 0

-- What the stage writes: the input side of the execute register, and D_src1 and D_src2.
pub record Decoded : Type 0 where
  pub out : XInstr
  pub d_src1 : ℕ
  pub d_src2 : ℕ

-- The registers of the instruction, and the second source: Rt where `src2_sel` asks for the data
-- of a store.
abbrev pub regs_of : DInstr → RegNums
regs_of d = extract_regs d.insnbits d.op d.format no_regs

abbrev pub eff_src2 : DInstr → ℕ
eff_src2 d =
    let r = regs_of d in if (generate_dxmw_control d.op).d_sigs.src2_sel then r.dst else r.src2

-- All fields, once the two registers were read.
abbrev pub assemble : DInstr → ℕ → ℕ → Decoded
assemble d val_a val_b =
    let control = generate_dxmw_control d.op in
    let r = regs_of d in
    record {
      out = record {
        op = d.op;
        print_op = d.print_op;
        multipurpose_val = d.multipurpose_val;
        x_sigs = control.x_sigs;
        m_sigs = control.m_sigs;
        w_sigs = control.w_sigs;
        alu_op = decide_alu_op d.op;
        cond = cond_of (bitfield_u32 d.insnbits (cond_position d.op) 4);
        val_a = val_a;
        val_b = val_b;
        val_imm = extract_immval d.insnbits d.op;
        val_hw = u8 (bitfield_u32 d.insnbits 21 2 * 16);
        dst = if control.w_sigs.dst_sel then 30 else r.dst;
        status = d.status;
      };
      d_src1 = r.src1;
      d_src2 = eff_src2 d;
    }

unfoldable pub decode_instr : Proc → DInstr → Option Decoded
decode_instr p d = do
  vals ← regfile_read p (regs_of d).src1 (eff_src2 d)
  some (assemble d vals.0 vals.1)
