-- ===== src/Pipe/Cycle/Data.antt =====
-- What a cycle does to the data memory.
use se_lab_public.Prelude.{
  ◌≤◌, ℕ, ◌^◌, ◌<◌, ◌≡◌, refl, sym, ◌∙◌, arith, Bool, true, false, ◌&&◌, ◌||◌, some, some-injective,
  Bool-cases, inl, inr, ◌⊎◌, subst,
}
use se_lab_public.Mem.{Mem}
use se_lab_public.Cache.{read}
use se_lab_public.Mem.Cached.Block.{is_past}
use se_lab_public.Mem.Cached.Overread.{is_ready, is_missing}
use se_lab_public.Mem.Status.{ready, in_flight}
use se_lab_public.Mem.Plain.{is_special_addr}
use se_lab_public.Mem.Plain.Laws.{word_at, with_word}
use se_lab_public.Hw.Memory.{Access, dmem, dmem_err}
use se_lab_public.Hw.Memory.Laws.{IsDataMemory, dmem-IsAccess}
use se_lab_public.Pipe.Regs.{MInstr}
use se_lab_public.Pipe.Fetch.Stage.{Build, Fetching, current_pc}
use se_lab_public.Pipe.Cycle.Laws.{cycle-IsCycle, run_stages-IsRan}
use se_lab_public.Pipe.Cycle.Ends.{cycle-some}
use se_lab_public.Pipe.Memory.{finish_memory, MemoryDone, memory_instr}
use se_lab_public.Pipe.Cycle.Registers.{IsMachine}
use se_lab_public.Pipe.Cycle.{Machine, cycle, later_of, fetching_of}
use se_lab_public.Pipe.Cycle.Fetches.{IsPlainPc, IsSameMemory, fetch_instr-IsSame}

-- An instruction in the memory stage that makes no access, or one that the port finds no error in.
abbrev pub IsPlainAccess : Mem → MInstr → Type 0
IsPlainAccess m i =
    ((i.m_sigs.dmem_read || i.m_sigs.dmem_write) ≡ false)
    ⊎ (((i.m_sigs.dmem_read && i.m_sigs.dmem_write) ≡ false)
        × (i.val_ex < 2 ^ 64)
        × (is_special_addr i.val_ex ≡ false)
        × (dmem_err m i.val_ex ≡ false))

-- What becomes of the data memory: it has the word of a store that is done, and keeps its bytes
-- otherwise. A load that is done has the word of the bytes, and may have read past a fetched block.
pub record IsAccessed (k n : ℕ) (bytes : ℕ → ℕ) (before : Mem) (i : MInstr) (val_mem : ℕ) (m : Mem)
    : Type 0 where
  pub stored :
      (IsDataMemory k n m bytes × ((i.m_sigs.dmem_write ≡ false) ⊎ (m.dmem_status ≡ in_flight)))
      ⊎ (IsDataMemory k n m (with_word bytes i.val_ex i.val_b 8)
          × (i.m_sigs.dmem_write ≡ true)
          × (m.dmem_status ≡ ready))
  pub loaded :
      (i.m_sigs.dmem_read ≡ false)
      ⊎ (m.dmem_status ≡ in_flight)
      ⊎ ((val_mem ≡ word_at bytes i.val_ex 8) × (m.dmem_status ≡ ready))
  pub past : m.flight.overread ≡ (
      before.flight.overread
      || (i.m_sigs.dmem_read
          && is_ready m.dmem_status
          && is_missing before.cache i.val_ex
          && is_past read k i.val_ex))

dmem-idle :
    (m : Mem) (i : MInstr)
    → dmem (record { rval = 0; err = false; mem = m }) i.val_ex i.val_b false false
      ≡ some (record { rval = 0; err = false; mem = m })
unfolding dmem
dmem-idle m i = refl

module _ (k n : ℕ) (bytes : ℕ → ℕ) (block : 3 ≤ k) where
  dmem-IsAccessed :
      (m : Mem) (i : MInstr)
      → IsDataMemory k n m bytes
      → IsPlainAccess m i
      → (a : Access) × (dmem
            (record { rval = 0; err = false; mem = m })
            i.val_ex
            i.val_b
            i.m_sigs.dmem_read
            i.m_sigs.dmem_write
          ≡ some a)
        × IsAccessed k n bytes m i a.rval a.mem
  dmem-IsAccessed m i v plain = elim plain [
    | inl no_access ↦
        let no_read : i.m_sigs.dmem_read ≡ false = ground (arith, no_access) in
        let no_write : i.m_sigs.dmem_write ≡ false = ground (arith, no_access) in
        (
          record { rval = 0; err = false; mem = m },
          rw (no_read, no_write) (dmem-idle m i),
          record {
            stored = inl (v, inl no_write);
            loaded = inl no_read;
            past = ground (arith, no_read);
          },
        )
    | inr (one, small, special, right) ↦
        let port = dmem-IsAccess k n m bytes i.val_ex i.val_b 0 false v block small special right in
        elim (Bool-cases i.m_sigs.dmem_read) [
          | inl reads ↦
              let no_write : i.m_sigs.dmem_write ≡ false = ground (arith, one, reads) in
              let a = port.0 in
              (
                a.0,
                rw (reads, no_write) a.1,
                record {
                  stored = inl (a.2.memory, inl no_write);
                  loaded = elim a.2.answer [
                    | inl answered ↦ inr (inr answered)
                    | inr (value, waits) ↦ inr (inl waits)
                  ];
                  past = ground (arith, reads, a.2.past);
                },
              )
          | inr no_read ↦ elim (Bool-cases i.m_sigs.dmem_write) [
            | inr no_write ↦ (
              record { rval = 0; err = false; mem = m },
              rw (no_read, no_write) (dmem-idle m i),
              record {
                stored = inl (v, inl no_write);
                loaded = inl no_read;
                past = ground (arith, no_read);
              },
            )
            | inl writes ↦
                let a = port.1 in
                (
                  a.0,
                  rw (no_read, writes) a.1,
                  record {
                    stored = elim a.2.memory [
                      | inl (after, done) ↦ inr (after, writes, done)
                      | inr (before, waits) ↦ inl (before, inr waits)
                    ];
                    loaded = inl no_read;
                    past = ground (arith, no_read, a.2.past);
                  },
                )
          ]
        ]
  ]

  memory_instr-IsAccessed :
      (pipe : Bool) (m : Mem) (f_pc : ℕ) (i : MInstr)
      → IsDataMemory k n m bytes
      → IsPlainAccess m i
      → (done : MemoryDone) × (memory_instr pipe m f_pc i ≡ some done)
        × IsAccessed k n bytes m i done.out.val_mem done.mem
  unfolding memory_instr
  memory_instr-IsAccessed pipe m f_pc i v plain =
      let a = dmem-IsAccessed m i v plain in (finish_memory pipe i f_pc a.0, rw (a.1) refl, a.2)

same_access : (m m' : Mem) (i : MInstr) → m'.segs ≡ m.segs → IsPlainAccess m i → IsPlainAccess m' i
same_access m m' i segs plain = elim plain [
  | inl no_access ↦ inl no_access
  | inr (one, small, special, right) ↦ inr (one, small, special, rw segs right)
]

-- The fetch leaves what an access finds.
before_fetch :
    {k n : ℕ} {bytes : ℕ → ℕ} {m m' m'' : Mem} {i : MInstr} {val_mem : ℕ}
    → IsSameMemory k n m m' bytes
    → IsAccessed k n bytes m' i val_mem m''
    → IsAccessed k n bytes m i val_mem m''
before_fetch f a = record {
  stored = a.stored;
  loaded = a.loaded;
  past = rw (f.flight, f.cache) at a.past;
}

-- A cycle does to the data memory what the instruction in the memory stage says. From a machine
-- with its 31 general registers, and register numbers of at most 32 and shifts below 64 in the
-- pipeline, whose cache has blocks of at least 8 bytes and is in step with the pages, and the two
-- hold certain bytes: if the PC is 0 or one that the instruction memory finds no error in, and the
-- instruction in the memory stage makes no access, or one access to a 64-bit address that is not
-- special and that the port finds no error in, then the cycle returns a machine, and the memory
-- still is an array of bytes. A store has put its word there, unless it waits; all other bytes, and
-- all bytes without a store, are as before. A load has the word of the bytes in the writeback
-- register, unless it waits. What C leaves undefined in the access is noted in the state: counters
-- of the cache may overflow, and exactly a load that is done, whose address was not in the cache
-- before and has 8 bytes at 8 times its offset not all in the block, reads past the end of the
-- fetched block.
pub cycle-IsAccessed :
    (k n : ℕ) (bytes : ℕ → ℕ) (b : Build) (s : Machine)
    → 3 ≤ k
    → IsMachine s
    → IsDataMemory k n s.mem bytes
    → IsPlainPc s.mem (current_pc b.pipe (later_of s) s.outs.f)
    → IsPlainAccess s.mem s.outs.m
    → (s' : Machine) × (cycle b s ≡ some s')
      × IsAccessed k n bytes s.mem s.outs.m s'.ins.w.val_mem s'.mem
cycle-IsAccessed k n bytes b s block v memory pc access =
    let f =
      fetch_instr-IsSame k n bytes b (later_of s) (fetching_of s) v.gpr v.insnbits memory pc in
    let done =
      memory_instr-IsAccessed k n bytes block b.pipe f.0.mem f.0.f_pc s.outs.m f.2.memory
        (same_access s.mem f.0.mem s.outs.m f.2.segs access) in
    let out = cycle-some b s f.0 done.0 v f.1 done.1 in
    let c = cycle-IsCycle b s out.0 out.1 in
    let r = run_stages-IsRan b s c.ran c.stages in
    let fetched : f.0 ≡ c.ran.fetched = some-injective _ _ (sym f.1 ∙ r.fetches) in
    let accessed : memory_instr b.pipe f.0.mem f.0.f_pc s.outs.m ≡ some c.ran.memory =
      subst (λ (t : Fetching). memory_instr b.pipe t.mem t.f_pc s.outs.m ≡ some c.ran.memory)
        (sym fetched) r.accesses in
    let same : done.0 ≡ c.ran.memory = some-injective _ _ (sym done.1 ∙ accessed) in
    let core : IsAccessed k n bytes s.mem s.outs.m c.ran.memory.out.val_mem c.ran.memory.mem =
      subst (λ (t : MemoryDone). IsAccessed k n bytes s.mem s.outs.m t.out.val_mem t.mem) same
        (before_fetch f.2 done.2) in
    (
      out.0,
      out.1,
      subst (λ (t : Machine). IsAccessed k n bytes s.mem s.outs.m t.ins.w.val_mem t.mem)
          (some-injective _ _ c.result) core,
    )
