-- ===== src/Pipe/Execute.antt =====
-- `execute_instr` of src/pipe/instr_Execute.c and `wback_instr` of src/pipe/instr_Writeback.c.
use se_lab_public.Prelude.{ℕ, Bool, if◌then◌else◌}
use se_lab_public.Hw.Alu.{alu}
use se_lab_public.Pipe.Regs.{XInstr, MInstr, WInstr}

-- What the stage writes: the input side of the memory register, and X_nzcvval and X_set_flags.
pub record Executed : Type 0 where
  pub out : MInstr
  pub x_nzcvval : ℕ
  pub x_set_flags : Bool

unfoldable pub execute_instr : ℕ → XInstr → Executed
execute_instr nzcv x =
    let alu_vala = if x.x_sigs.vala_sel then x.multipurpose_val else x.val_a in
    let alu_valb = if x.x_sigs.valb_sel then x.val_b else x.val_imm in
    let a = alu alu_vala alu_valb x.val_hw nzcv x.alu_op x.x_sigs.set_flags x.cond in
    record {
      out = record {
        op = x.op;
        print_op = x.print_op;
        multipurpose_val = x.multipurpose_val;
        cond_holds = a.cond_val;
        m_sigs = x.m_sigs;
        w_sigs = x.w_sigs;
        val_b = x.val_b;
        dst = x.dst;
        val_ex = a.val_e;
        status = x.status;
      };
      x_nzcvval = a.nzcv_dst;
      x_set_flags = x.x_sigs.set_flags;
    }

-- W_wval after the writeback stage.
unfoldable pub wback_instr : WInstr → ℕ
wback_instr w = if w.w_sigs.wval_sel then w.val_mem else w.val_ex
