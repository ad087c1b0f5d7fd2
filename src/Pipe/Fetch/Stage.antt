-- ===== src/Pipe/Fetch/Stage.antt =====
-- `fetch_instr` of src/pipe/instr_Fetch.c.
use se_lab_public.Prelude.{
  ℕ, ◌*◌, Bool, true, false, not, ◌==◌, ◌&&◌, ◌||◌, if◌then◌else◌, bit_and, bit_or, Option, some,
  ◌>>=◌, ◌^◌,
}
use se_lab_public.Words.{u8, add64, shl64, not64}
use se_lab_public.Instr.{Opcode, adrp, hlt, error, Format, format_error, Stat, aok, ins}
use se_lab_public.Instr.Tables.{is_error, opcode_index}
use se_lab_public.Instr.Bitfield.{bitfield_u32, bitfield_s64}
use se_lab_public.Mem.{Mem}
use se_lab_public.Hw.Memory.{Access, imem}
use se_lab_public.Hw.Regfile.{Proc, regfile_read}
use se_lab_public.Pipe.Regs.{FInstr, DInstr, XInstr, MInstr, xzr_num}
use se_lab_public.Pipe.Hazard.{ret_from_main_addr, stops_fetch}
use se_lab_public.Pipe.Fetch.{
  select_pc, is_ret, is_indirect, is_b_cond, predict_pc, fix_instr_aliases,
}

-- The build: whether it has PIPE, and the two tables.
pub record Build : Type 0 where
  pub pipe : Bool
  pub itable : ℕ → Opcode
  pub ftable : ℕ → Format

-- What the stage reads of the later stages.
pub record Later : Type 0 where
  pub d_out : DInstr
  pub x_out : XInstr
  pub m_out : MInstr
  pub proc : Proc

-- What it changes.
pub record Fetching : Type 0 where
  pub f_in : FInstr
  pub f_out : FInstr
  pub d_in : DInstr
  pub f_pc : ℕ
  pub mem : Mem

-- A conditional branch in the memory stage that was not to be taken.
abbrev pub not_taken : MInstr → Bool
not_taken m = is_b_cond m.op && not m.cond_holds

unfoldable pub current_pc : Bool → Later → FInstr → ℕ
current_pc pipe l f =
    let selected = select_pc pipe (record {
      pred_pc = f.pred_pc;
      d_opcode = l.d_out.op;
      val_a = f.pred_pc;
      x_opcode = l.x_out.op;
      x_val_a = l.x_out.val_a;
      m_opcode = l.m_out.op;
      m_cond_val = l.m_out.cond_holds;
      seq_succ = l.m_out.multipurpose_val;
    }) in
    if not pipe && not_taken l.m_out then l.m_out.multipurpose_val else selected

-- F_in->status after the correction of the PC.
unfoldable pub cleared_status : Bool → Later → ℕ → Stat → Stat
cleared_status pipe l pc status =
    if pipe && not (pc == 0) && (is_indirect l.x_out.op || not_taken l.m_out) then aok else status

-- The instruction that stops the pipeline.
abbrev pub halt : Build → DInstr → DInstr
halt b d = record d {
  insnbits = 0xD4400000;
  op = hlt;
  print_op = hlt;
  format = b.ftable (opcode_index hlt);
}

abbrev pub is_adrp : Opcode → Bool
is_adrp adrp = true
is_adrp op = false

abbrev pub adrp_val : ℕ → ℕ → ℕ
adrp_val pc insnbits =
    let immhi = bitfield_u32 insnbits 5 19 in
    let immlo = bitfield_u32 insnbits 29 2 in
    let imm21 = bitfield_s64 (bit_or (immhi * 2 ^ 2) immlo) 0 21 in
    add64 (bit_and pc (not64 0xFFF)) (shl64 imm21 12)

-- An instruction that was read at `pc`, with its predicted PC.
unfoldable pub decoded : Build → ℕ → ℕ → DInstr → DInstr × ℕ
decoded b pc insnbits d =
    let op = fix_instr_aliases insnbits (b.itable (bitfield_u32 insnbits 21 11)) in
    let format : Format = if is_error op then format_error else b.ftable (opcode_index op) in
    let predicted = predict_pc pc insnbits op (add64 pc 4, add64 pc 4) in
    let val = if is_adrp op then adrp_val pc insnbits else predicted.1 in
    (
      record d {
        insnbits = insnbits;
        op = op;
        print_op = op;
        format = format;
        multipurpose_val = val;
      },
      predicted.0,
    )

-- An address that has no instruction.
abbrev pub undecoded : ℕ → ℕ → DInstr → DInstr
undecoded pc insnbits d = record d {
  insnbits = insnbits;
  op = error;
  print_op = error;
  format = format_error;
  multipurpose_val = add64 pc 4;
}

abbrev pub after_imem : Build → ℕ → Fetching → Access → Fetching
after_imem b pc s a =
    if a.err
    then record s { d_in = undecoded pc a.rval s.d_in; f_pc = add64 pc 4; mem = a.mem }
    else let out = decoded b pc a.rval s.d_in in
      record s { d_in = out.0; f_pc = out.1; mem = a.mem }

-- The instruction at the PC, without its status.
unfoldable pub fetch_at : Build → ℕ → Fetching → Option Fetching
fetch_at b pc s =
    if pc == 0 || stops_fetch s.f_in.status
    then some (record s { d_in = halt b s.d_in })
    else imem s.mem pc >>= (λ a. some (after_imem b pc s a))

-- The status of the stage. An OP_ERROR is a bad instruction; a bad address has made the opcode one.
abbrev pub status_of : Opcode → Stat
status_of error = ins
status_of hlt = Stat.hlt
status_of op = aok

unfoldable pub set_status : Fetching → Fetching
set_status s =
    let status = status_of s.d_in.op in
    record s {
      f_in = record (s.f_in) { status = if stops_fetch status then status else s.f_in.status };
      f_out = record (s.f_out) { status = status };
      d_in = record (s.d_in) { status = status };
    }

-- The return of a build without PIPE.
abbrev pub return_pc : ℕ → Fetching → Fetching
return_pc ret_addr s = if ret_addr == ret_from_main_addr then s else record s { f_pc = ret_addr }

unfoldable pub unpiped_return : Bool → Later → Fetching → Option Fetching
unpiped_return pipe l s =
    if not pipe && is_ret l.d_out.op
    then regfile_read l.proc (u8 (bitfield_u32 l.d_out.insnbits 5 5)) xzr_num
      >>= (λ vals. some (return_pc vals.0 s))
    else some s

unfoldable pub fetch_instr : Build → Later → Fetching → Option Fetching
fetch_instr b l s = do
  let pc = current_pc b.pipe l s.f_out
  let f_in = record (s.f_in) { status = cleared_status b.pipe l pc s.f_in.status }
  fetched ← fetch_at b pc (record s { f_in = f_in })
  unpiped_return b.pipe l (set_status fetched)
