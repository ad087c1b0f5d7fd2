-- ===== src/Tests/Mem.antt =====
-- A memory with the default segments, with and without a cache.
use se_lab_public.Mem.Cached.Answer.{IsRead, mem_read_cache-IsRead}
use se_lab_public.Mem.Cached.Store.{IsWrite, mem_write_cache-IsWrite}
use se_lab_public.Mem.{Mem}
use se_lab_public.Prelude.{[], true, some, ℕ, ◌≡◌, ◌^◌, refl, arith, false}
use se_lab_public.Boot.Laws.{none-IsBacked}
use se_lab_public.Hw.Memory.{Access, dmem}
use se_lab_public.Hw.Memory.Laws.{IsDataMemory, IsLoaded, IsStored, dmem-IsAccess}
use se_lab_public.Cache.{read, create_cache}
use se_lab_public.Mem.Cached.{mem_read_cache, mem_write_cache, Backed}
use se_lab_public.Mem.Cached.View.{IsBacked}
use se_lab_public.Cache.Create.{create_cache-IsValid}
use se_lab_public.Mem.Status.{ready}
use se_lab_public.Mem.Ptable.{empty_ptable}
use se_lab_public.Mem.Ptable.Laws.{IsPtable, byte_at, empty_ptable-IsPtable}
use se_lab_public.Mem.Plain.{is_special_addr, addr_in_dmem, mem_read_le, mem_write_le}
use se_lab_public.Mem.Plain.Laws.{
  IsSame, word_at, with_word, mem_read_le_lem, mem_write_le_lem, mem_read_le-mem_write_le,
}
use se_lab_public.Mem.Cached.Delay.{calls, IsServed, serve-waits}
use se_lab_public.Pipe.Run.{default_segs}

abbrev pub two : ℕ
two = 0x0102030405060708

mem_read_le_example :
    let out = mem_read_le default_segs (mem_write_le empty_ptable 0x800ffc two 8) 0x800ffc 4 in
    (out.0 ≡ word_at (byte_at (mem_write_le empty_ptable 0x800ffc two 8)) 0x800ffc 4)
    × IsSame (mem_write_le empty_ptable 0x800ffc two 8) out.1
mem_read_le_example =
    mem_read_le_lem default_segs (mem_write_le empty_ptable 0x800ffc two 8) 0x800ffc 4
      (mem_write_le_lem empty_ptable 0x800ffc two 8 (empty_ptable-IsPtable).0 (omega arith)
        (omega arith)).0
      (omega arith) (omega arith)

mem_write_le_example :
    IsPtable (mem_write_le empty_ptable 0x800ffc two 8)
    × ((a : ℕ)
        → byte_at (mem_write_le empty_ptable 0x800ffc two 8) a
          ≡ with_word (byte_at empty_ptable) 0x800ffc two 8 a)
mem_write_le_example =
    mem_write_le_lem empty_ptable 0x800ffc two 8 (empty_ptable-IsPtable).0 (omega arith)
      (omega arith)

-- The word lies across two pages.
write_read_example :
    (mem_read_le default_segs (mem_write_le empty_ptable 0x800ffc two 8) 0x800ffc 8).0 ≡ two
write_read_example =
    mem_read_le-mem_write_le default_segs empty_ptable 0x800ffc two 8 (empty_ptable-IsPtable).0
      (omega arith) (omega arith)

-- An empty cache of two ways with blocks of 16 bytes, before empty pages.
abbrev backed_with : ℕ → Backed
backed_with delay = record {
  segs = default_segs;
  ptable = empty_ptable;
  cache = create_cache 2 (2 ^ 4) 64 delay;
  flight = record { addr = 0; cycles = delay; busy = false; overread = false };
  dmem_status = ready;
}

abbrev backed : Backed
backed = backed_with 3

-- The offset is 8, so that the 8 bytes from 64 on are outside of the block of 16.
serve-waits_example :
    (m' : Backed) × (calls read 0x800008 0x800008 3 backed ≡ some (3, m'))
    × IsServed 4 1 0x800008 true m'
unfolding create_cache
serve-waits_example =
    let made =
      create_cache-IsValid 2 4 1 64 3 (omega arith) (omega arith) (omega arith) (omega arith)
        refl in
    serve-waits 4 1 read 0x800008 0x800008 backed (omega arith) made.0 (made.1 0x800008)
      (omega arith) (omega arith) refl

-- Nothing is cached, and the pages are empty.
backed-IsBacked : (delay : ℕ) → IsBacked 4 1 (backed_with delay).cache (backed_with delay).ptable
backed-IsBacked delay =
    let made =
      create_cache-IsValid 2 4 1 64 delay (omega arith) (omega arith) (omega arith) (omega arith)
        refl in
    (none-IsBacked 4 1 (create_cache 2 (2 ^ 4) 64 delay) empty_ptable made.0
      (empty_ptable-IsPtable).0 made.1).0

mem_read_cache_example :
    (out : ℕ × Backed) × (mem_read_cache backed 0x800008 8 ≡ some out)
    × IsRead 4 1 0x800008 backed out.0 out.1
mem_read_cache_example =
    mem_read_cache-IsRead 4 1 0x800008 backed (omega arith) (backed-IsBacked 3) (omega arith)

-- With a delay of one cycle, so that the write ends in its first call.
mem_write_cache_example :
    (m' : Backed) × (mem_write_cache (backed_with 1) 0x800008 two 8 ≡ some m')
    × IsWrite 4 1 0x800008 two (backed_with 1) m'
mem_write_cache_example =
    mem_write_cache-IsWrite 4 1 0x800008 two (backed_with 1) (omega arith) (backed-IsBacked 1)
      (omega arith)

-- The same cache behind the port of the data memory.
abbrev pub memory : Mem
memory = record {
  segs = default_segs;
  ptable = empty_ptable;
  cache = some (create_cache 2 (2 ^ 4) 64 1);
  flight = record { addr = 0; cycles = 1; busy = false; overread = false };
  dmem_status = ready;
  input = [];
  output = [];
}

pub memory-IsDataMemory : IsDataMemory 4 1 memory (byte_at empty_ptable)
memory-IsDataMemory =
    let made =
      create_cache-IsValid 2 4 1 64 1 (omega arith) (omega arith) (omega arith) (omega arith)
        refl in
    let both =
      none-IsBacked 4 1 (create_cache 2 (2 ^ 4) 64 1) empty_ptable made.0 (empty_ptable-IsPtable).0
        made.1 in
    record { cache = create_cache 2 (2 ^ 4) 64 1; there = refl; backed = both.0; holds = both.1 }

dmem_example :
    let a : Access = record { rval = 0; err = false; mem = memory } in
    ((a' : Access) × (dmem a 0x800008 two true false ≡ some a')
      × IsLoaded 4 1 0x800008 memory (byte_at empty_ptable) a')
    × ((a' : Access) × (dmem a 0x800008 two false true ≡ some a')
        × IsStored 4 1 0x800008 two memory (byte_at empty_ptable) a')
unfolding is_special_addr addr_in_dmem
dmem_example =
    dmem-IsAccess 4 1 memory (byte_at empty_ptable) 0x800008 two 0 false memory-IsDataMemory
      (omega arith) (omega arith) refl refl
