-- ===== src/Pipe/Cycle/Fetches.antt =====
-- The fetch stage leaves the data memory as it is.
use se_lab_public.Prelude.{
  ℕ, ◌^◌, ◌<◌, ◌≡◌, refl, ap, sym, ◌∙◌, arith, Bool, false, not, ◌&&◌, ◌||◌, ◌==◌, some, bind-some,
  some-injective, Bool-cases, inl, inr, ◌⊎◌, subst, length,
}
use se_lab_public.Mem.{Mem}
use se_lab_public.Mem.Plain.{is_special_addr}
use se_lab_public.Hw.Memory.{Access, imem_err}
use se_lab_public.Hw.Memory.Laws.{IsDataMemory}
use se_lab_public.Hw.Memory.Fetched.{IsFetched, imem-IsFetched}
use se_lab_public.Words.{u8}
use se_lab_public.Instr.Bitfield.{bitfield_u32}
use se_lab_public.Hw.Regfile.{regfile_read}
use se_lab_public.Pipe.Hazard.{stops_fetch}
use se_lab_public.Pipe.Fetch.{is_ret}
use se_lab_public.Pipe.Regs.{xzr_num}
use se_lab_public.Pipe.Fetch.Stage.{
  halt, cleared_status, Build, Later, Fetching, current_pc, fetch_instr, fetch_at, after_imem,
  set_status, unpiped_return,
}
use se_lab_public.Pipe.Cycle.Registers.{unpiped_return-some}

-- A memory of the same bytes, segments and cache.
pub record IsSameMemory (k n : ℕ) (m m' : Mem) (bytes : ℕ → ℕ) : Type 0 where
  pub memory : IsDataMemory k n m' bytes
  pub segs : m'.segs ≡ m.segs
  pub cache : m'.cache ≡ m.cache
  pub flight : m'.flight ≡ m.flight

-- A PC at which nothing is fetched, or an instruction.
abbrev pub IsPlainPc : Mem → ℕ → Type 0
IsPlainPc m pc = (pc ≡ 0) ⊎ ((pc < 2 ^ 64) × (is_special_addr pc ≡ false) × (imem_err m pc ≡ false))

module _ (k n : ℕ) (bytes : ℕ → ℕ) where
  fetch_at-IsSame :
      (b : Build) (pc : ℕ) (s : Fetching)
      → IsDataMemory k n s.mem bytes
      → IsPlainPc s.mem pc
      → (out : Fetching) × (fetch_at b pc s ≡ some out) × IsSameMemory k n s.mem out.mem bytes
  unfolding fetch_at
  fetch_at-IsSame b pc s v plain = elim (Bool-cases (pc == 0 || stops_fetch s.f_in.status)) [
    | inl e ↦ (
      record s { d_in = halt b s.d_in },
      rw e refl,
      record { memory = v; segs = refl; cache = refl; flight = refl },
    )
    | inr e ↦ elim plain [
      | inl z ↦ absurd (grind (arith, rw z at e))
      | inr (small, special, right) ↦
          let done = imem-IsFetched k n s.mem bytes pc v small special right in
          (after_imem b pc s done.0, rw (e, done.1) refl, fetched_mem b pc s done.0 done.2)
    ]
  ]
    where
      fetched_mem :
          (b : Build) (pc : ℕ) (s : Fetching) (a : Access)
          → IsFetched k n pc s.mem bytes a
          → IsSameMemory k n s.mem (after_imem b pc s a).mem bytes
      fetched_mem b pc s a f =
          rw (f.right)
            (record { memory = f.memory; segs = f.segs; cache = f.cache; flight = f.flight })

  unpiped_return-mem :
      (pipe : Bool) (l : Later) (s out : Fetching)
      → unpiped_return pipe l s ≡ some out
      → out.mem ≡ s.mem
  unfolding unpiped_return
  unpiped_return-mem pipe l s out h = elim (Bool-cases (not pipe && is_ret l.d_out.op)) [
    | inr e ↦ ap (λ (t : Fetching). t.mem) (sym (some-injective _ _ (rw e at h)))
    | inl e ↦
        let r =
          bind-some (regfile_read l.proc (u8 (bitfield_u32 l.d_out.insnbits 5 5)) xzr_num) _ out
            (rw e at h) in
        ap (λ (t : Fetching). t.mem) (sym (some-injective _ _ r.2)) ∙ ground arith
  ]

  pub fetch_instr-IsSame :
      (b : Build) (l : Later) (s : Fetching)
      → length l.proc.gpr ≡ 31
      → l.d_out.insnbits < 2 ^ 32
      → IsDataMemory k n s.mem bytes
      → IsPlainPc s.mem (current_pc b.pipe l s.f_out)
      → (out : Fetching) × (fetch_instr b l s ≡ some out) × IsSameMemory k n s.mem out.mem bytes
  unfolding fetch_instr set_status
  fetch_instr-IsSame b l s size word v plain =
      let pc = current_pc b.pipe l s.f_out in
      let r =
        fetch_at-IsSame b pc
          (record s {
            f_in = record (s.f_in) { status = cleared_status b.pipe l pc s.f_in.status };
          })
          v plain in
      let back = unpiped_return-some b.pipe l (set_status r.0) size word in
      let kept = unpiped_return-mem b.pipe l (set_status r.0) back.0 back.1 in
      (
        back.0,
        rw (r.1) (back.1),
        subst (λ (t : Mem). IsSameMemory k n s.mem t bytes) (sym kept) r.2,
      )
