-- ===== src/Pipe/Cycle/Registers.antt =====
-- The registers that a machine reads and writes are there: a cycle ends the program only in an
-- access to the memory.
use se_lab_public.Prelude.{
  sym, get_elem?-some, ℕ, ◌^◌, ◌≤◌, ◌<◌, ◌≡◌, refl, ap, subst, arith, Bool, true, false, ◌||◌, ◌==◌,
  some, none, bind-some, some-injective, Option-cases, Bool-cases, inl, inr, ◌⊎◌, length, ◌∙◌,
}
use se_lab_public.Pipe.Fetch.Stage.{
  cleared_status, Build, Later, Fetching, fetch_instr, fetch_at, after_imem, decoded,
  unpiped_return, return_pc, set_status, current_pc,
}
use se_lab_public.Pipe.Decode.Regnums.Bounds.{reg_at-le, IsRegs, extract_regs-IsRegs}
use se_lab_public.Words.{u8}
use se_lab_public.Instr.Bitfield.{bitfield_u32}
use se_lab_public.Instr.Bitfield.Laws.{slice, bitfield_u32_lem}
use se_lab_public.Pipe.Regs.{sp_num, DInstr, xzr_num}
use se_lab_public.Mem.{Mem, mem_read}
use se_lab_public.Hw.Memory.{Access, imem}
use se_lab_public.Hw.Regfile.{Proc, read_reg, regfile_read}
use se_lab_public.Pipe.Decode.Stage.{Decoded, decode_instr, regs_of, eff_src2, assemble}
use se_lab_public.Pipe.Fetch.{is_ret}
use se_lab_public.Pipe.Hazard.{stops_fetch}
use se_lab_public.Pipe.Cycle.{Machine}

-- 31 general registers, and register numbers of the register file in the registers of the pipeline;
-- the amount that the execute stage shifts an immediate by is below 64.
pub record IsMachine (s : Machine) : Type 0 where
  pub gpr : length s.proc.gpr ≡ 31
  pub insnbits : s.outs.d.insnbits < 2 ^ 32
  pub x : s.outs.x.dst ≤ 32
  pub hw : s.outs.x.val_hw < 64
  pub m : s.outs.m.dst ≤ 32
  pub w : s.outs.w.dst ≤ 32

-- Every register number of at most 32 can be read.
read_reg-some :
    (p : Proc) (src : ℕ) → length p.gpr ≡ 31 → src ≤ 32 → (v : ℕ) × (read_reg p src ≡ some v)
unfolding read_reg
read_reg-some p src size h = elim (Bool-cases (src == xzr_num)) [
  | inl e ↦ (0, rw e refl)
  | inr e ↦ elim (Bool-cases (src == sp_num)) [
    | inl f ↦ (p.sp, rw (e, f) refl)
    | inr f ↦ rw (e, f) (get_elem?-some p.gpr src (ground (arith, e, f, size, h)))
  ]
]

regfile_read-some :
    (p : Proc) (src1 src2 : ℕ)
    → length p.gpr ≡ 31
    → src1 ≤ 32
    → src2 ≤ 32
    → (v : ℕ × ℕ) × (regfile_read p src1 src2 ≡ some v)
unfolding regfile_read
regfile_read-some p src1 src2 size h1 h2 =
    let a = read_reg-some p src1 size h1 in
    let b = read_reg-some p src2 size h2 in ((a.0, b.0), rw (a.1, b.1) refl)

eff_src2-le : (d : DInstr) → IsRegs (regs_of d) → eff_src2 d ≤ 32
eff_src2-le d h = ground (arith, h.src2, h.dst)

assemble-dst : (d : DInstr) (a b : ℕ) → IsRegs (regs_of d) → (assemble d a b).out.dst ≤ 32
assemble-dst d a b h = ground (arith, h.dst)

-- An immediate of 16 bits is shifted by 0, 16, 32 or 48.
assemble-val_hw : (d : DInstr) (a b : ℕ) → d.insnbits < 2 ^ 32 → (assemble d a b).out.val_hw < 64
assemble-val_hw d a b word =
    let field : bitfield_u32 d.insnbits 21 2 ≡ slice d.insnbits 21 2 =
      bitfield_u32_lem d.insnbits 21 2 word (omega arith) in
    rw field (omega arith)

-- The decode stage ends normally, with a destination of the register file.
pub decode_instr-some :
    (p : Proc) (d : DInstr)
    → length p.gpr ≡ 31
    → d.insnbits < 2 ^ 32
    → (out : Decoded) × (decode_instr p d ≡ some out) × (out.out.dst ≤ 32) × (out.out.val_hw < 64)
unfolding decode_instr
decode_instr-some p d size word =
    let regs = extract_regs-IsRegs d.insnbits word d.op d.format in
    let vals =
      regfile_read-some p (regs_of d).src1 (eff_src2 d) size regs.src1 (eff_src2-le d regs) in
    (
      assemble d vals.0.0 vals.0.1,
      rw (vals.1) refl,
      assemble-dst d vals.0.0 vals.0.1 regs,
      assemble-val_hw d vals.0.0 vals.0.1 word,
    )

-- A word from the instruction memory has 32 bits.
imem-rval : (m : Mem) (pc : ℕ) (a : Access) → imem m pc ≡ some a → a.rval < 2 ^ 32
unfolding imem
imem-rval m pc a h =
    let r = bind-some (mem_read m pc 4) _ a h in
    subst (λ (v : ℕ). v < 2 ^ 32) (ap (λ (t : Access). t.rval) (some-injective _ _ r.2))
      (omega arith)

after_imem-insnbits :
    (b : Build) (pc : ℕ) (s : Fetching) (a : Access) → (after_imem b pc s a).d_in.insnbits ≡ a.rval
unfolding decoded
after_imem-insnbits b pc s a = elim (Bool-cases a.err) [ inl e ↦ rw e refl | inr e ↦ rw e refl ]

fetch_at-insnbits :
    (b : Build) (pc : ℕ) (s s' : Fetching) → fetch_at b pc s ≡ some s' → s'.d_in.insnbits < 2 ^ 32
unfolding fetch_at
fetch_at-insnbits b pc s s' h = elim (Bool-cases (pc == 0 || stops_fetch s.f_in.status)) [
  | inl e ↦
      subst (λ (t : Fetching). t.d_in.insnbits < 2 ^ 32) (some-injective _ _ (rw e at h))
        (omega arith)
  | inr e ↦
      let a = bind-some (imem s.mem pc) _ s' (rw e at h) in
      subst (λ (t : Fetching). t.d_in.insnbits < 2 ^ 32) (some-injective _ _ a.2)
        (rw (after_imem-insnbits b pc s a.0) (imem-rval s.mem pc a.0 a.1))
]

return_pc-insnbits :
    (ret_addr : ℕ) (s : Fetching) → (return_pc ret_addr s).d_in.insnbits ≡ s.d_in.insnbits
return_pc-insnbits ret_addr s = elim (Bool-cases (ret_addr == 0)) [
  | inl e ↦ rw e refl
  | inr e ↦ rw e refl
]

-- The return of a build without PIPE reads a register that is there.
pub unpiped_return-some :
    (pipe : Bool) (l : Later) (s : Fetching)
    → length l.proc.gpr ≡ 31
    → l.d_out.insnbits < 2 ^ 32
    → (s' : Fetching) × (unpiped_return pipe l s ≡ some s') × (s'.d_in.insnbits ≡ s.d_in.insnbits)
unfolding unpiped_return
unpiped_return-some true l s size word = (s, refl, refl)
unpiped_return-some false l s size word = elim (Bool-cases (is_ret l.d_out.op)) [
  | inl e ↦
      let v =
        regfile_read-some l.proc (u8 (bitfield_u32 l.d_out.insnbits 5 5)) xzr_num size
          (reg_at-le l.d_out.insnbits word 5 (omega arith)) (omega arith) in
      (return_pc v.0.0 s, rw (e, v.1) refl, return_pc-insnbits v.0.0 s)
  | inr e ↦ (s, rw e refl, refl)
]

-- The fetch stage ends the program only where the instruction memory does.
module _ (b : Build) (l : Later) (s : Fetching) (size : length l.proc.gpr ≡ 31)
    (word : l.d_out.insnbits < 2 ^ 32) where
  returns :
      (pc : ℕ) (f : Fetching)
      → fetch_at b pc f ≡ some s
      → (s' : Fetching) × (unpiped_return b.pipe l (set_status s) ≡ some s')
        × (s'.d_in.insnbits < 2 ^ 32)
  unfolding set_status
  returns pc f h =
      let out = unpiped_return-some b.pipe l (set_status s) size word in
      (out.0, out.1, rw (out.2) (fetch_at-insnbits b pc f s h))

fetch_at-none : (b : Build) (pc : ℕ) (s : Fetching) → fetch_at b pc s ≡ none → imem s.mem pc ≡ none
unfolding fetch_at
fetch_at-none b pc s h = elim (Bool-cases (pc == 0 || stops_fetch s.f_in.status)) [
  | inl e ↦ let bad = rw e at h in absurd (grind (arith, bad))
  | inr e ↦ elim (Option-cases (imem s.mem pc)) [
    | inl k ↦ k
    | inr (a, k) ↦ let bad = rw (e, k) at h in absurd (grind (arith, bad))
  ]
]

pub fetch_instr-ends :
    (b : Build) (l : Later) (s : Fetching)
    → length l.proc.gpr ≡ 31
    → l.d_out.insnbits < 2 ^ 32
    → (imem s.mem (current_pc b.pipe l s.f_out) ≡ none)
      ⊎ ((s' : Fetching) × (fetch_instr b l s ≡ some s') × (s'.d_in.insnbits < 2 ^ 32))
unfolding fetch_instr
fetch_instr-ends b l s size word =
    let pc = current_pc b.pipe l s.f_out in
    let f : Fetching = record s {
      f_in = record (s.f_in) { status = cleared_status b.pipe l pc s.f_in.status };
    } in
    elim (Option-cases (fetch_at b pc f)) [
      | inl e ↦ inl (fetch_at-none b pc f e)
      | inr (t, e) ↦ let out = returns b l t size word pc f e in inr (out.0, rw e (out.1), out.2)
    ]

pub fetch_instr-insnbits :
    (b : Build) (l : Later) (s s' : Fetching)
    → length l.proc.gpr ≡ 31
    → l.d_out.insnbits < 2 ^ 32
    → fetch_instr b l s ≡ some s'
    → s'.d_in.insnbits < 2 ^ 32
unfolding fetch_instr
fetch_instr-insnbits b l s s' size word h =
    let pc = current_pc b.pipe l s.f_out in
    let f : Fetching = record s {
      f_in = record (s.f_in) { status = cleared_status b.pipe l pc s.f_in.status };
    } in
    let r = bind-some (fetch_at b pc f) _ s' h in
    let out = returns b l r.0 size word pc f r.1 in
    subst (λ (t : Fetching). t.d_in.insnbits < 2 ^ 32) (some-injective _ _ (sym out.1 ∙ r.2)) out.2
