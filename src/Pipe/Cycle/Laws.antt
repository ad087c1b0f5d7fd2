-- ===== src/Pipe/Cycle/Laws.antt =====
-- What a cycle of a build with PIPE keeps, while the memory is busy and when an instruction fails.
use se_lab_public.Pipe.Cycle.{
  later_of, fetching_of, Machine, Ran, run_stages, hazards, commit, clocked, cycle, zero_w, p_load,
  p_stall, latch_all, p_bubble, latch,
}
use se_lab_public.Mem.Status.{ready, in_flight}
use se_lab_public.Prelude.{
  inl, inr, ◌≡◌, refl, ◌∙◌, sym, ap, Bool, true, false, ◌||◌, some, bind-some, some-injective, ℕ,
  Bool-cases, ◌==◌, ltb, length, arith, subst,
}
use se_lab_public.Hw.Regfile.{Proc, regfile_read, regfile_write}
use se_lab_public.Pipe.Fetch.Stage.{
  Build, Later, Fetching, fetch_instr, fetch_at, unpiped_return, set_status, return_pc, current_pc,
  after_imem,
}
use se_lab_public.Hw.Memory.{Access, imem}
use se_lab_public.Pipe.Hazard.{stops_fetch, is_exception}
use se_lab_public.Pipe.Fetch.{is_ret}
use se_lab_public.Words.{u8}
use se_lab_public.Instr.Bitfield.{bitfield_u32}
use se_lab_public.Pipe.Regs.{xzr_num, sp_num}
use se_lab_public.Pipe.Hazard.Laws.{no_error}
use se_lab_public.Pipe.Hazard.Waits.{handle_hazards-in_flight, handle_hazards-ready}
use se_lab_public.Pipe.Decode.Stage.{decode_instr}
use se_lab_public.Pipe.Memory.{memory_instr}
use se_lab_public.Pipe.Execute.{execute_instr}

-- The parts of a cycle that does not end the program.
pub record IsCycle (b : Build) (s s' : Machine) : Type 0 where
  pub ran : Ran
  pub p : Proc
  pub stages : run_stages b s ≡ some ran
  pub commits : commit s ran (hazards b s ran) ≡ some p
  pub result : some (clocked b s ran (hazards b s ran) p) ≡ some s'

pub cycle-IsCycle : (b : Build) (s s' : Machine) → cycle b s ≡ some s' → IsCycle b s s'
unfolding cycle
cycle-IsCycle b s s' h =
    let r = bind-some (run_stages b s) _ s' h in
    let p = bind-some (commit s r.0 (hazards b s r.0)) _ s' r.2 in
    record { ran = r.0; p = p.0; stages = r.1; commits = p.1; result = p.2 }

-- The stages of a cycle that does not end the program.
pub record IsRan (b : Build) (s : Machine) (r : Ran) : Type 0 where
  pub fetches : fetch_instr b (later_of s) (fetching_of s) ≡ some r.fetched
  pub decodes : decode_instr s.proc s.outs.d ≡ some r.decoded
  pub accesses : memory_instr b.pipe r.fetched.mem r.fetched.f_pc s.outs.m ≡ some r.memory
  pub executes : execute_instr s.proc.nzcv s.outs.x ≡ r.executed

pub run_stages-IsRan : (b : Build) (s : Machine) (r : Ran) → run_stages b s ≡ some r → IsRan b s r
unfolding run_stages
run_stages-IsRan b s r h =
    let f = bind-some (fetch_instr b _ _) _ r h in
    let d = bind-some (decode_instr s.proc s.outs.d) _ r f.2 in
    let m = bind-some (memory_instr b.pipe f.0.mem f.0.f_pc s.outs.m) _ r d.2 in
    subst (IsRan b s) (some-injective _ _ m.2)
      (record { fetches = f.1; decodes = d.1; accesses = m.1; executes = refl })

-- The prediction in the fetch register is only read by the stage.
fetch_at-f_out :
    (b : Build) (pc : ℕ) (s s' : Fetching) → fetch_at b pc s ≡ some s' → s'.f_out ≡ s.f_out
unfolding fetch_at
fetch_at-f_out b pc s s' h = elim (Bool-cases (pc == 0 || stops_fetch s.f_in.status)) [
  | inl e ↦ ap (λ t. t.f_out) (sym (some-injective _ _ (rw e at h)))
  | inr e ↦
      let a = bind-some (imem s.mem pc) _ s' (rw e at h) in
      ap (λ t. t.f_out) (sym (some-injective _ _ a.2)) ∙ after-f_out b pc s a.0
]
  where
    after-f_out :
        (b : Build) (pc : ℕ) (s : Fetching) (a : Access) → (after_imem b pc s a).f_out ≡ s.f_out
    after-f_out b pc s a = elim (Bool-cases a.err) [ inl e ↦ rw e refl | inr e ↦ rw e refl ]

unpiped_return-f_out :
    (pipe : Bool) (l : Later) (s s' : Fetching)
    → unpiped_return pipe l s ≡ some s'
    → s'.f_out ≡ s.f_out
unfolding unpiped_return
unpiped_return-f_out true l s s' h = ap (λ t. t.f_out) (sym (some-injective _ _ h))
unpiped_return-f_out false l s s' h = elim (Bool-cases (is_ret l.d_out.op)) [
  | inl e ↦
      let v =
        bind-some (regfile_read l.proc (u8 (bitfield_u32 l.d_out.insnbits 5 5)) xzr_num) _ s'
          (rw e at h) in
      ap (λ t. t.f_out) (sym (some-injective _ _ v.2)) ∙ return-f_out v.0.0 s
  | inr e ↦ ap (λ t. t.f_out) (sym (some-injective _ _ (rw e at h)))
]
  where
    return-f_out : (ret_addr : ℕ) (s : Fetching) → (return_pc ret_addr s).f_out ≡ s.f_out
    return-f_out ret_addr s = elim (Bool-cases (ret_addr == 0)) [
      | inl e ↦ rw e refl
      | inr e ↦ rw e refl
    ]

pub fetch_instr-pred_pc :
    (b : Build) (l : Later) (s s' : Fetching)
    → fetch_instr b l s ≡ some s'
    → s'.f_out.pred_pc ≡ s.f_out.pred_pc
unfolding fetch_instr set_status
fetch_instr-pred_pc b l s s' h =
    let r = bind-some (fetch_at b (current_pc b.pipe l s.f_out) _) _ s' h in
    ap (λ f. f.pred_pc) (unpiped_return-f_out b.pipe l (set_status r.0) s' r.2)
    ∙ ap (λ f. f.pred_pc) (fetch_at-f_out b (current_pc b.pipe l s.f_out) _ r.0 r.1)

-- A write to the register file leaves the flags.
pub regfile_write-nzcv :
    (p p' : Proc) (dst val_w : ℕ) (w_enable : Bool)
    → regfile_write p dst val_w w_enable ≡ some p'
    → p'.nzcv ≡ p.nzcv
unfolding regfile_write
regfile_write-nzcv p p' dst val_w false h = ap (λ q. q.nzcv) (sym (some-injective _ _ h))
regfile_write-nzcv p p' dst val_w true h = elim (Bool-cases (dst == xzr_num)) [
  | inl e ↦ ap (λ q. q.nzcv) (sym (some-injective _ _ (rw e at h)))
  | inr e ↦
      let h' = rw e at h in
      elim (Bool-cases (dst == sp_num)) [
        | inl f ↦ ap (λ q. q.nzcv) (sym (some-injective _ _ (rw f at h')))
        | inr f ↦
            let h'' = rw f at h' in
            elim (Bool-cases (ltb dst (length p.gpr))) [
              | inl g ↦ ap (λ q. q.nzcv) (sym (some-injective _ _ (rw g at h'')))
              | inr g ↦ let bad = rw g at h'' in absurd (grind (arith, bad))
            ]
      ]
]

-- What `hazards` comes to.
module _ (b : Build) (s : Machine) (r : Ran) (fresh : no_error s.controls ≡ true) where
  hazards-in_flight :
      b.pipe ≡ true
      → r.memory.mem.dmem_status ≡ in_flight
      → hazards b s r ≡ record {
        controls = record { f = p_stall; d = p_stall; x = p_stall; m = p_stall; w = p_bubble };
        deassert_flags = true;
        f_pc = r.memory.f_pc;
      }
  unfolding hazards
  hazards-in_flight pipe e = rw pipe (handle_hazards-in_flight _ _ fresh e)

  pub hazards-ready :
      b.pipe ≡ true
      → r.memory.mem.dmem_status ≡ ready
      → ((hazards b s r).controls.w ≡ p_load)
        × ((hazards b s r).deassert_flags
            ≡ (is_exception r.memory.out.status || is_exception s.outs.m.status))
  unfolding hazards
  hazards-ready pipe e = rw pipe (handle_hazards-ready _ _ fresh e)

-- A cycle that only waits: the instructions stay where they are, and the one that was written back
-- leaves.
pub record IsFrozen (s s' : Machine) : Type 0 where
  pub pred_pc : s'.outs.f.pred_pc ≡ s.outs.f.pred_pc
  pub d : s'.outs.d ≡ s.outs.d
  pub x : s'.outs.x ≡ s.outs.x
  pub m : s'.outs.m ≡ s.outs.m
  pub w : s'.outs.w ≡ zero_w
  pub nzcv : s'.proc.nzcv ≡ s.proc.nzcv

frozen :
    (b : Build) (s : Machine) {s' : Machine} (c : IsCycle b s s')
    → b.pipe ≡ true
    → no_error s.controls ≡ true
    → c.ran.memory.mem.dmem_status ≡ in_flight
    → IsFrozen s (clocked b s c.ran (hazards b s c.ran) c.p)
unfolding latch_all latch
frozen b s c pipe fresh busy =
    let e = hazards-in_flight b s c.ran fresh pipe busy in
    record {
      pred_pc = rw e (fetch_instr-pred_pc b _ _ _ (run_stages-IsRan b s c.ran c.stages).fetches);
      d = rw e refl;
      x = rw e refl;
      m = rw e refl;
      w = rw e refl;
      nzcv = regfile_write-nzcv _ c.p _ _ _ c.commits ∙ rw e refl;
    }

-- In a build with PIPE, from a machine with no register in error, a cycle that does not end the
-- program, and after which the memory is busy, keeps the instructions of the fetch, decode, execute
-- and memory registers, and the flags, and empties the writeback register, so that no instruction
-- is lost, or written back twice.
pub cycle-IsFrozen :
    (b : Build) (s s' : Machine)
    → b.pipe ≡ true
    → no_error s.controls ≡ true
    → cycle b s ≡ some s'
    → s'.mem.dmem_status ≡ in_flight
    → IsFrozen s s'
cycle-IsFrozen b s s' pipe fresh h busy =
    let c = cycle-IsCycle b s s' h in
    subst (IsFrozen s) (some-injective _ _ c.result)
      (frozen b s c pipe fresh (ap (λ t. t.mem.dmem_status) (some-injective _ _ c.result) ∙ busy))
