-- ===== src/Mem/Cached.antt =====
-- `_mem_read_cache` and `_mem_write_cache` of src/base/mem.c. The two loops are one here, which is
-- told the operation. The word that the read takes from the fetched block is overwritten before it
-- returns; of it the state only keeps whether it was read outside of the block. The calls of `free`
-- are left out.
pub mod Block
pub mod Delay
pub mod Transfer
pub mod View
pub mod Refill
pub mod Keeps
pub mod Reads
pub mod Word
pub mod Ends
pub mod Answer
pub mod Hits
pub mod Overread
pub mod Written
pub mod Store
use se_lab_public.Prelude.{
  ℕ, zero, suc, ◌+◌, ◌-◌, ◌*◌, bit_and, Bool, true, false, not, ◌==◌, ltb, ◌&&◌, ◌||◌,
  if◌then◌else◌, Option, some, List, [], ◌∷◌, get_or, ◌>>=◌,
}
use se_lab_public.Words.{u64, not64, sub64}
use se_lab_public.Cache.{
  EvictedLine, Cache, Operation, read, write, check_hit, handle_miss, get_word_cache,
  set_word_cache,
}
use se_lab_public.Mem.Status.{MemStatus, ready, in_flight}
use se_lab_public.Mem.Ptable.{Ptable}
use se_lab_public.Mem.Plain.{Segments, mem_read_le, mem_write_le}

-- `inflight_addr`, `inflight_cycles` and `inflight`, and whether a read has gone past the end of a
-- fetched block, which C leaves undefined.
pub record Flight : Type 0 where
  pub addr : ℕ
  pub cycles : ℕ
  pub busy : Bool
  pub overread : Bool

pub record Backed : Type 0 where
  pub segs : Segments
  pub ptable : Ptable
  pub cache : Cache
  pub flight : Flight
  pub dmem_status : MemStatus

-- `address & ~(B - 1)`.
abbrev pub block_start : ℕ → ℕ → ℕ
block_start block_size addr = bit_and addr (not64 (block_size - 1))

-- The block that is fetched: a read takes that of the whole access, a write that of the byte.
abbrev pub fetched_block : Operation → ℕ → ℕ → ℕ → ℕ
fetched_block read block_size addr current = block_start block_size addr
fetched_block write block_size addr current = block_start block_size current

-- A miss of a block that is not on its way yet starts the count; then a cycle is counted.
unfoldable pub count_cycle : Flight → ℕ → ℕ → Flight
count_cycle f block delay =
    let begun : Flight =
      if not (f.addr == block) || not f.busy
      then record f { addr = block; cycles = delay; busy = true }
      else f in
    record begun { cycles = sub64 begun.cycles 1 }

-- The loop that fetches a block, from byte `j` on with `n` bytes to go.
unfoldable pub fill_block : Segments → Ptable → ℕ → ℕ → ℕ → List ℕ × Ptable
fill_block segs pt start j zero = ([], pt)
fill_block segs pt start j (suc n) =
    let b = mem_read_le segs pt (u64 (start + j)) 1 in
    let rest = fill_block segs b.1 start (j + 1) n in (b.0 ∷ rest.0, rest.1)

-- The loop that writes an evicted block to memory.
unfoldable pub write_back : Ptable → ℕ → List ℕ → ℕ → ℕ → Ptable
write_back pt start bytes j zero = pt
write_back pt start bytes j (suc n) =
    write_back (mem_write_le pt (u64 (start + j)) (get_or bytes j 0) 1) start bytes (j + 1) n

-- The state once the block has taken its line: a dirty block that it replaced goes to memory.
abbrev pub landed : Backed → List ℕ × Ptable → EvictedLine × Cache → Backed
landed m filled placed =
    let e = placed.0 in
    record m {
      ptable =
          if e.valid && e.dirty
          then write_back filled.1 e.block_addr e.bytes 0 m.cache.block_size
          else filled.1;
      cache = placed.1;
      flight = record (m.flight) { busy = false };
    }

-- Whether `*((uint64_t *) block + (addr & (B - 1)))`, 8 bytes at 8 times the offset of the address, is
-- outside of the block; a write does not read it.
unfoldable pub reads_past : Operation → ℕ → ℕ → Bool
reads_past read block_size addr = ltb block_size (8 * bit_and addr (block_size - 1) + 8)
reads_past write block_size addr = false

abbrev pub note_read : Operation → ℕ → Backed → Backed
note_read op addr m =
    let past = reads_past op m.cache.block_size addr in
    record m { flight = record (m.flight) { overread = m.flight.overread || past } }

-- The end of a miss.
unfoldable pub finish_miss : Operation → ℕ → ℕ → Backed → Option Backed
finish_miss op addr current m = do
  let size = m.cache.block_size
  let filled = fill_block m.segs m.ptable (fetched_block op size addr current) 0 size
  placed ← handle_miss m.cache (block_start size current) op (some filled.0)
  some (landed (note_read op addr m) filled placed)

-- A miss: whether the data is there, and the state.
unfoldable pub serve_miss : Operation → ℕ → ℕ → Backed → Option (Bool × Backed)
serve_miss op addr current m =
    let f = count_cycle m.flight (block_start m.cache.block_size current) m.cache.delay in
    let m' = record m { flight = f } in
    if ltb 0 f.cycles
    then some (false, record m' { dmem_status = in_flight })
    else finish_miss op addr current m' >>= (λ m''. some (true, m''))

-- One round of the loop over the bytes of the access.
unfoldable pub serve : Operation → ℕ → ℕ → Backed → Option (Bool × Backed)
serve op addr current m = do
  looked ← check_hit m.cache current op
  let m' = record m { cache = looked.1 }
  if looked.0 then some (true, m') else serve_miss op addr current m'

unfoldable pub serve_from : Operation → ℕ → ℕ → ℕ → Backed → Option (Bool × Backed)
serve_from op addr current zero m = some (true, m)
serve_from op addr current (suc n) m = do
  r ← serve op addr current m
  if r.0 then serve_from op addr (u64 (current + 1)) n r.1 else some r

-- The end of a read: the word that the cache has, or 0 when the access waits for its block.
unfoldable pub end_read : Bool → Backed → ℕ → Option (ℕ × Backed)
end_read false m addr = some (0, m)
end_read true m addr =
    get_word_cache m.cache addr >>= (λ v. some (v, record m { dmem_status = ready }))

unfoldable pub mem_read_cache : Backed → ℕ → ℕ → Option (ℕ × Backed)
mem_read_cache m addr width = do r ← serve_from read addr addr width m; end_read r.0 r.1 addr

unfoldable pub end_write : Bool → Backed → ℕ → ℕ → Option Backed
end_write false m addr word = some m
end_write true m addr word =
    set_word_cache m.cache addr word >>= (λ c. some (record m { cache = c; dmem_status = ready }))

unfoldable pub mem_write_cache : Backed → ℕ → ℕ → ℕ → Option Backed
mem_write_cache m addr word width = do
  r ← serve_from write addr addr width m
  end_write r.0 r.1 addr word
