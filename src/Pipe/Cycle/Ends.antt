-- ===== src/Pipe/Cycle/Ends.antt =====
-- A cycle keeps the registers that there are, and ends the program only in an access to the memory.
use se_lab_public.Pipe.Cycle.{
  later_of, fetching_of, Machine, Ran, run_stages, hazards, commit, clocked, cycle, latch_all,
  latch, write_flags, is_aok,
}
use se_lab_public.Pipe.Regs.{
  DInstr, XInstr, WInstr, MInstr, PipeCtl, p_load, p_error, p_bubble, p_stall,
}
use se_lab_public.Pipe.Cycle.Registers.{
  fetch_instr-insnbits, fetch_instr-ends, decode_instr-some, IsMachine,
}
use se_lab_public.Prelude.{
  ℕ, ◌^◌, ◌≤◌, ◌<◌, ◌≡◌, refl, sym, ap, ◌∙◌, subst, arith, Bool, some, none, bind-some,
  some-injective, Option-cases, inl, inr, ◌⊎◌, length, ◌&&◌, false,
}
use se_lab_public.Mem.{Mem}
use se_lab_public.Hw.Memory.{imem, dmem}
use se_lab_public.Hw.Regfile.{Proc, regfile_write-IsWritten}
use se_lab_public.Pipe.Decode.Stage.{Decoded}
use se_lab_public.Pipe.Execute.{execute_instr, wback_instr}
use se_lab_public.Pipe.Fetch.Stage.{Build, Fetching, fetch_instr, current_pc}
use se_lab_public.Pipe.Memory.{memory_instr, MemoryDone}
use se_lab_public.Pipe.Cycle.Laws.{cycle-IsCycle, IsRan, run_stages-IsRan}

memory_instr-dst :
    (pipe : Bool) (mem : Mem) (f_pc : ℕ) (m : MInstr) (done : MemoryDone)
    → memory_instr pipe mem f_pc m ≡ some done
    → done.out.dst ≡ m.dst
unfolding memory_instr
memory_instr-dst pipe mem f_pc m done h =
    let a =
      bind-some
        (dmem (record { rval = 0; err = false; mem = mem }) m.val_ex m.val_b m.m_sigs.dmem_read
          m.m_sigs.dmem_write)
        _ done h in
    ap (λ t. t.out.dst) (sym (some-injective _ _ a.2))

execute_instr-dst : (nzcv : ℕ) (x : XInstr) → (execute_instr nzcv x).out.dst ≡ x.dst
unfolding execute_instr
execute_instr-dst nzcv x = refl

-- A register holds one of three values after the clock.
latch-keeps {ℓ} :
    {A : Type ℓ} (P : A → Type 0) (c : PipeCtl) (empty new old : A)
    → P empty
    → P new
    → P old
    → P (latch c empty new old)
unfolding latch
latch-keeps P p_load empty new old pe pn po = pn
latch-keeps P p_error empty new old pe pn po = pe
latch-keeps P p_bubble empty new old pe pn po = pe
latch-keeps P p_stall empty new old pe pn po = po

-- The stage registers of the cycle, and the register file that it leaves.
module _ (b : Build) (s : Machine) (v : IsMachine s) where
  commits-gpr : (r : Ran) (p : Proc) → commit s r (hazards b s r) ≡ some p → length p.gpr ≡ 31
  commits-gpr r p h =
      let w = s.outs.w in
      let done =
        regfile_write-IsWritten (write_flags s.proc r (hazards b s r)) w.dst (wback_instr w)
          (w.w_sigs.w_enable && is_aok w.status) v.gpr v.w in
      let same : done.0 ≡ p = some-injective _ _ (sym done.1 ∙ h) in rw (← same) (done.2.size)

  decoded-bounds : (r : Ran) → IsRan b s r → (r.decoded.out.dst ≤ 32) × (r.decoded.out.val_hw < 64)
  decoded-bounds r h =
      let done = decode_instr-some s.proc s.outs.d v.gpr v.insnbits in
      subst (λ (t : Decoded). (t.out.dst ≤ 32) × (t.out.val_hw < 64))
        (some-injective _ _ (sym done.1 ∙ h.decodes)) (done.2, done.3)

  clocked-IsMachine :
      (r : Ran) (p : Proc)
      → IsRan b s r
      → commit s r (hazards b s r) ≡ some p
      → IsMachine (clocked b s r (hazards b s r) p)
  unfolding latch_all
  clocked-IsMachine r p h c =
      let ctl = (hazards b s r).controls in
      record {
        gpr = commits-gpr r p c;
        insnbits =
            latch-keeps (λ (d : DInstr). d.insnbits < 2 ^ 32) ctl.d _ _ _ (omega arith)
              (fetch_instr-insnbits b _ _ r.fetched v.gpr v.insnbits h.fetches) v.insnbits;
        x =
            latch-keeps (λ (x : XInstr). x.dst ≤ 32) ctl.x _ _ _ (omega arith)
              (decoded-bounds r h).0 v.x;
        hw =
            latch-keeps (λ (x : XInstr). x.val_hw < 64) ctl.x _ _ _ (omega arith)
              (decoded-bounds r h).1 v.hw;
        m =
            latch-keeps (λ (m : MInstr). m.dst ≤ 32) ctl.m _ _ _ (omega arith)
              (rw (← h.executes, execute_instr-dst s.proc.nzcv s.outs.x) v.x) v.m;
        w =
            latch-keeps (λ (w : WInstr). w.dst ≤ 32) ctl.w _ _ _ (omega arith)
              (rw (memory_instr-dst b.pipe _ _ s.outs.m r.memory h.accesses) v.m) v.w;
      }

-- A cycle that does not end the program keeps the number of the general registers and the bounds of
-- the register numbers in the pipeline; and of the amount that the execute stage shifts an immediate
-- by, which is below 64.
pub cycle-IsMachine :
    (b : Build) (s s' : Machine) → IsMachine s → cycle b s ≡ some s' → IsMachine s'
cycle-IsMachine b s s' v h =
    let c = cycle-IsCycle b s s' h in
    subst IsMachine (some-injective _ _ c.result)
      (clocked-IsMachine b s v c.ran c.p (run_stages-IsRan b s c.ran c.stages) c.commits)

-- An access to the memory that ends the program: the fetch stage reads the instruction at the
-- current PC, and the memory stage what its instruction says.
unfoldable pub EndsInMemory : Build → Machine → Type 0
EndsInMemory b s =
    (imem s.mem (current_pc b.pipe (later_of s) s.outs.f) ≡ none)
    ⊎ ((f : Fetching) × (fetch_instr b (later_of s) (fetching_of s) ≡ some f)
        × (memory_instr b.pipe f.mem f.f_pc s.outs.m ≡ none))

-- Once the two accesses are done, nothing in the cycle ends the program.
pub cycle-some :
    (b : Build) (s : Machine) (f : Fetching) (done : MemoryDone)
    → IsMachine s
    → fetch_instr b (later_of s) (fetching_of s) ≡ some f
    → memory_instr b.pipe f.mem f.f_pc s.outs.m ≡ some done
    → (s' : Machine) × (cycle b s ≡ some s')
unfolding cycle run_stages
cycle-some b s f done v fetched accessed =
    let d = decode_instr-some s.proc s.outs.d v.gpr v.insnbits in
    let r : Ran = record {
      fetched = f;
      decoded = d.0;
      executed = execute_instr s.proc.nzcv s.outs.x;
      memory = done;
    } in
    let w = s.outs.w in
    let written =
      regfile_write-IsWritten (write_flags s.proc r (hazards b s r)) w.dst (wback_instr w)
        (w.w_sigs.w_enable && is_aok w.status) v.gpr v.w in
    (clocked b s r (hazards b s r) written.0, rw (fetched, d.1, accessed, written.1) refl)

-- A cycle ends the program only in an access to the memory: where the machine has its 31 general
-- registers, and register numbers of at most 32 in the pipeline, no read or write of a register is out
-- of bounds.
pub cycle-EndsInMemory :
    (b : Build) (s : Machine) → IsMachine s → cycle b s ≡ none → EndsInMemory b s
unfolding EndsInMemory
cycle-EndsInMemory b s v h =
    elim (fetch_instr-ends b (later_of s) (fetching_of s) v.gpr v.insnbits) [
      | inl e ↦ inl e
      | inr (f, e, word) ↦ elim (Option-cases (memory_instr b.pipe f.mem f.f_pc s.outs.m)) [
        | inl k ↦ inr (f, e, k)
        | inr (done, k) ↦
            let run = cycle-some b s f done v e k in
            let bad : none ≡ some run.0 = sym h ∙ run.1 in absurd (grind (arith, bad))
      ]
    ]
