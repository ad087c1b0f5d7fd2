-- ===== src/Pipe/Memory/Laws.antt =====
-- The errors of the memory stage.
use se_lab_public.Prelude.{
  ℕ, ◌%◌, ◌≡◌, refl, sym, ap, ◌∙◌, arith, Bool, true, false, not, ◌&&◌, ◌||◌, ◌==◌, if◌then◌else◌,
  some, none, bind-some, some-injective, subst, Bool-cases, inl, inr, ◌>>=◌,
}
use se_lab_public.Bits.{bit_and-mask}
use se_lab_public.Words.{sub64}
use se_lab_public.Instr.{adr}
use se_lab_public.Mem.{Mem, mem_read, mem_write, mem_read_special, mem_write_special}
use se_lab_public.Mem.Plain.{Segments, addr_in_dmem, is_special_addr}
use se_lab_public.Hw.Memory.{Access, dmem, dmem_load, dmem_store, dmem_err}
use se_lab_public.Pipe.Regs.{MInstr}
use se_lab_public.Pipe.Hazard.{is_exception}
use se_lab_public.Pipe.Memory.{memory_instr, MemoryDone}

-- An address that an instruction may not use: none of the special ones, and not that of a word of
-- the data memory.
unfoldable pub bad_address : Segments → ℕ → Bool
bad_address segs addr = not (is_special_addr addr) && not (addr_in_dmem segs addr && addr % 8 == 0)

dmem_err-bad : (m : Mem) (addr : ℕ) → dmem_err m addr ≡ bad_address m.segs addr
unfolding bad_address
dmem_err-bad m addr = rw (bit_and-mask 3 addr) (ground arith)

dmem_load-err :
    (read : Bool) (a a' : Access) (addr : ℕ) → dmem_load read a addr ≡ some a' → a'.err ≡ a.err
dmem_load-err false a a' addr h = ap (λ t. t.err) (sym (some-injective _ _ h))
dmem_load-err true a a' addr h =
    let r = bind-some (mem_read a.mem addr 8) _ a' h in
    ap (λ t. t.err) (sym (some-injective _ _ r.2))

dmem_store-err :
    (write : Bool) (a a' : Access) (addr wval : ℕ)
    → dmem_store write a addr wval ≡ some a'
    → a'.err ≡ a.err
dmem_store-err false a a' addr wval h = ap (λ t. t.err) (sym (some-injective _ _ h))
dmem_store-err true a a' addr wval h =
    let r = bind-some (mem_write a.mem addr wval 8) _ a' h in
    ap (λ t. t.err) (sym (some-injective _ _ r.2))

-- The error of an access that is made.
accessed :
    (a a' : Access) (addr wval : ℕ) (read write : Bool)
    → (dmem_load read (record a { err = dmem_err a.mem addr }) addr
        >>= (λ loaded. dmem_store write loaded addr wval))
      ≡ some a'
    → a'.err ≡ bad_address a.mem.segs addr
accessed a a' addr wval read write h =
    let l = bind-some (dmem_load read (record a { err = dmem_err a.mem addr }) addr) _ a' h in
    dmem_store-err write l.0 a' addr wval l.2
    ∙ (dmem_load-err read (record a { err = dmem_err a.mem addr }) l.0 addr l.1
        ∙ dmem_err-bad a.mem addr)

dmem-err :
    (a a' : Access) (addr wval : ℕ) (read write : Bool)
    → dmem a addr wval read write ≡ some a'
    → a'.err ≡ (if read || write then bad_address a.mem.segs addr else a.err)
unfolding dmem
dmem-err a a' addr wval false false h = ap (λ t. t.err) (sym (some-injective _ _ h))
dmem-err a a' addr wval true write h = accessed a a' addr wval true write h
dmem-err a a' addr wval false true h = accessed a a' addr wval false true h

-- Where the memory stage does not end the program, an instruction that reads or writes at a bad
-- address gets the status of a bad address, and every other one keeps its status; in a build with
-- PIPE an instruction with an exception sets F_PC to its own PC, and nothing else changes F_PC.
pub memory_instr-status :
    (pipe : Bool) (mem : Mem) (f_pc : ℕ) (m : MInstr) (done : MemoryDone)
    → memory_instr pipe mem f_pc m ≡ some done
    → (done.out.status ≡ (
        if (m.m_sigs.dmem_read || m.m_sigs.dmem_write) && bad_address mem.segs m.val_ex
        then adr
        else m.status))
      × (done.f_pc
          ≡ (if pipe && is_exception done.out.status then sub64 m.multipurpose_val 4 else f_pc))
unfolding memory_instr
memory_instr-status pipe mem f_pc m done h =
    let fresh : Access = record { rval = 0; err = false; mem = mem } in
    let a =
      bind-some (dmem fresh m.val_ex m.val_b m.m_sigs.dmem_read m.m_sigs.dmem_write) _ done h in
    let e = dmem-err fresh a.0 m.val_ex m.val_b m.m_sigs.dmem_read m.m_sigs.dmem_write a.1 in
    subst
      (λ t.
        (t.out.status ≡ (
          if (m.m_sigs.dmem_read || m.m_sigs.dmem_write) && bad_address mem.segs m.val_ex
          then adr
          else m.status))
        × (t.f_pc
            ≡ (if pipe && is_exception t.out.status then sub64 m.multipurpose_val 4 else f_pc)))
      (some-injective _ _ a.2) (rw e (both (m.m_sigs.dmem_read || m.m_sigs.dmem_write)), refl)
  where
    both :
        (accesses : Bool)
        → (if (if accesses then bad_address mem.segs m.val_ex else false) then adr else m.status)
          ≡ (if accesses && bad_address mem.segs m.val_ex then adr else m.status)
    both true = refl
    both false = refl

-- The instruction without its access to the memory.
abbrev pub no_access : MInstr → MInstr
no_access m = record m { m_sigs = record { dmem_read = false; dmem_write = false } }

-- An instruction at the address NULL: one that reads ends the program, and every other one does what
-- it does without an access to the memory, so that a store there is lost without an error.
pub memory_instr-null :
    (pipe : Bool) (mem : Mem) (f_pc : ℕ) (m : MInstr)
    → m.val_ex ≡ 0
    → memory_instr pipe mem f_pc m
      ≡ (if m.m_sigs.dmem_read then none else memory_instr pipe mem f_pc (no_access m))
unfolding memory_instr dmem mem_read mem_write mem_read_special mem_write_special is_special_addr
memory_instr-null pipe mem f_pc m null = elim (Bool-cases m.m_sigs.dmem_read) [
  | inl e ↦ rw (e, null) refl
  | inr e ↦ elim (Bool-cases m.m_sigs.dmem_write) [
    | inl d ↦ rw (e, d, null) refl
    | inr d ↦ rw (e, d) refl
  ]
]
