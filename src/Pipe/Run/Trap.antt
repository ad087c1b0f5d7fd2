-- ===== src/Pipe/Run/Trap.antt =====
-- The end of a run at an instruction that fails, in a build with PIPE.
use se_lab_public.Prelude.{
  ◌≡◌, refl, arith, ◌∙◌, sym, ap, Bool, true, false, ◌&&◌, some, bind-some, subst, some-injective,
  ℕ,
}
use se_lab_public.Words.{sub64}
use se_lab_public.Mem.{Mem}
use se_lab_public.Mem.Status.{ready}
use se_lab_public.Instr.{Stat}
use se_lab_public.Pipe.Regs.{MInstr}
use se_lab_public.Hw.Regfile.{regfile_write}
use se_lab_public.Pipe.Hazard.{is_exception, Controls}
use se_lab_public.Pipe.Hazard.Laws.{no_error}
use se_lab_public.Pipe.Memory.{memory_instr, MemoryDone}
use se_lab_public.Pipe.Fetch.Stage.{Build}
use se_lab_public.Pipe.Cycle.{
  Machine, hazards, cycle, latch_all, latch, next_pc, clocked_status, is_aok,
}
use se_lab_public.Pipe.Cycle.Laws.{
  IsCycle, cycle-IsCycle, run_stages-IsRan, regfile_write-nzcv, hazards-ready,
}
use se_lab_public.Pipe.Run.{is_running}
use se_lab_public.Hw.Memory.{dmem}

memory_instr-m_pc :
    (pipe : Bool) (mem : Mem) (f_pc : ℕ) (m : MInstr) (done : MemoryDone)
    → memory_instr pipe mem f_pc m ≡ some done
    → done.m_pc ≡ sub64 m.multipurpose_val 4
unfolding memory_instr
memory_instr-m_pc pipe mem f_pc m done h =
    let a =
      bind-some
        (dmem (record { rval = 0; err = false; mem = mem }) m.val_ex m.val_b m.m_sigs.dmem_read
          m.m_sigs.dmem_write)
        _ done h in
    ap (λ t. t.m_pc) (sym (some-injective _ _ a.2))

-- A status of an exception ends the run, whatever the controls are.
clocked_status-stops :
    (c : Controls) (status : Stat)
    → is_exception status ≡ true
    → is_running (clocked_status c status) ≡ false
unfolding clocked_status is_exception
clocked_status-stops c status h = ground (arith, h)

not_written :
    (status : Stat) (w_enable : Bool)
    → is_exception status ≡ true
    → (w_enable && is_aok status) ≡ false
unfolding is_exception
not_written status w_enable h = ground (arith, h)

-- The cycle in which an instruction fails in the memory stage, and the one after it.
pub record IsTrapped (s s' s'' : Machine) : Type 0 where
  pub pc : s'.proc.pc ≡ sub64 s.outs.m.multipurpose_val 4
  pub nzcv : s'.proc.nzcv ≡ s.proc.nzcv
  pub stops : is_running s''.status ≡ false
  pub gpr : s''.proc.gpr ≡ s'.proc.gpr
  pub sp : s''.proc.sp ≡ s'.proc.sp

-- The first cycle, and what it hands on.
trapped :
    (b : Build) (s : Machine) {s' : Machine} (c : IsCycle b s s')
    → b.pipe ≡ true
    → no_error s.controls ≡ true
    → c.ran.memory.mem.dmem_status ≡ ready
    → is_exception c.ran.memory.out.status ≡ true
    → (s'.proc.pc ≡ sub64 s.outs.m.multipurpose_val 4)
      × (s'.proc.nzcv ≡ s.proc.nzcv)
      × (is_exception s'.outs.w.status ≡ true)
unfolding latch_all latch next_pc
trapped b s c pipe fresh answered fails =
    let e = hazards-ready b s c.ran fresh pipe answered in
    let failing : (hazards b s c.ran).deassert_flags ≡ true = rw fails at e.1 in
    subst
      (λ t.
        (t.proc.pc ≡ sub64 s.outs.m.multipurpose_val 4)
        × (t.proc.nzcv ≡ s.proc.nzcv)
        × (is_exception t.outs.w.status ≡ true))
      (some-injective _ _ c.result)
      (
        rw (pipe, fails)
            (memory_instr-m_pc _ _ _ _ _ (run_stages-IsRan b s c.ran c.stages).accesses),
        regfile_write-nzcv _ c.p _ _ _ c.commits ∙ rw failing refl,
        rw e.0 fails,
      )

halted :
    (b : Build) (s : Machine) {s' : Machine} (c : IsCycle b s s')
    → is_exception s.outs.w.status ≡ true
    → (is_running s'.status ≡ false) × (s'.proc.gpr ≡ s.proc.gpr) × (s'.proc.sp ≡ s.proc.sp)
unfolding regfile_write
halted b s c fails =
    let kept =
      some-injective _ _
        (rw (not_written s.outs.w.status s.outs.w.w_sigs.w_enable fails) at c.commits) in
    subst (λ t. (is_running t.status ≡ false) × (t.proc.gpr ≡ s.proc.gpr) × (t.proc.sp ≡ s.proc.sp))
      (some-injective _ _ c.result)
      (
        clocked_status-stops _ s.outs.w.status fails,
        ap (λ p. p.gpr) (sym kept),
        ap (λ p. p.sp) (sym kept),
      )

-- In a build with PIPE, from a machine with no register in error: in a cycle in which the memory has
-- answered, and the instruction in the memory stage has an exception, that of a bad address or one
-- from before, the PC is set to that of the instruction and the flags are kept; the cycle after it
-- is the last, and writes no register. Neither cycle ends the program itself.
pub cycle-IsTrapped :
    (b : Build) (s s' s'' : Machine)
    → b.pipe ≡ true
    → no_error s.controls ≡ true
    → cycle b s ≡ some s'
    → s'.mem.dmem_status ≡ ready
    → is_exception s'.ins.w.status ≡ true
    → cycle b s' ≡ some s''
    → IsTrapped s s' s''
cycle-IsTrapped b s s' s'' pipe fresh h answered fails h' =
    let c = cycle-IsCycle b s s' h in
    let result = some-injective _ _ c.result in
    let first =
      trapped b s c pipe fresh (ap (λ t. t.mem.dmem_status) result ∙ answered)
        (ap (λ t. is_exception t.ins.w.status) result ∙ fails) in
    let last = halted b s' (cycle-IsCycle b s' s'' h') first.2 in
    record { pc = first.0; nzcv = first.1; stops = last.0; gpr = last.1; sp = last.2 }
