-- ===== src/Cache.antt =====
-- src/cache/cache.c and include/cache/cache.h: a set-associative write-back cache. The four
-- counters, global variables there, are part of the state here.
pub mod Lru
pub mod Lines
pub mod Shape
pub mod Valid
pub mod Update
pub mod Lookup
pub mod Evict
pub mod Fill
pub mod Create
pub mod Checkpoint
pub mod Trace
pub mod Word
use se_lab_public.Prelude.{
  ℕ, zero, suc, ◌+◌, ◌-◌, ◌*◌, ◌/◌, ◌^◌, bit_and, bit_or, Bool, true, false, not, ◌==◌, ltb, leb,
  ◌&&◌, if◌then◌else◌, Option, some, none, List, [], ◌∷◌, length, get_elem?, get_or, set, replicate,
  ◌>>=◌, ◌>>◌,
}
use se_lab_public.Words.{u32, u64, shl64, shr, not64}
use se_lab_public.Bytes.{read_le, write_le}
use se_lab_public.Instr.{to_ℕ}
use Lru.{lru, Chosen}
use mathlib.Core.Option

-- `cache_line_t`, with the bytes that `data` points to.
pub record Line : Type 0 where
  pub valid : Bool
  pub tag : ℕ
  pub dirty : Bool
  pub bytes : List ℕ

-- `cache_set_t`.
pub record CacheSet : Type 0 where
  pub lines : List Line
  pub lru_matrix : ℕ
  pub next_lru : ℕ

-- `cache_t` with A, B, C and d, and the counters. A counter is an `int`: 2 ^ 31 stands for one that
-- has overflowed, which C leaves undefined.
pub record Cache : Type 0 where
  pub sets : List CacheSet
  pub ways : ℕ
  pub block_size : ℕ
  pub capacity : ℕ
  pub delay : ℕ
  pub miss_count : ℕ
  pub hit_count : ℕ
  pub dirty_eviction_count : ℕ
  pub clean_eviction_count : ℕ

-- `operation_t`.
pub data Operation : Type 0 where
  read write : Operation

-- `evicted_line_t`.
pub record EvictedLine : Type 0 where
  pub valid : Bool
  pub dirty : Bool
  pub block_addr : ℕ
  pub bytes : List ℕ

-- A counter after `++`.
unfoldable pub count : ℕ → ℕ
count n = if ltb (n + 1) (2 ^ 31) then n + 1 else 2 ^ 31

abbrev pub count_if : Bool → ℕ → ℕ
count_if b n = if b then count n else n

abbrev pub is_write : Operation → Bool
is_write read = false
is_write write = true

-- The loop of `_log`, with fuel for the 64 bits of a `size_t`.
unfoldable pub log_from : ℕ → ℕ → ℕ → ℕ
log_from zero x result = result
log_from (suc fuel) x result =
    let rest = log_from fuel (x / 2) (result + 1) in if x / 2 == 0 then result else rest

unfoldable pub log : ℕ → ℕ
unfolding log_from
log x = log_from 64 x 0

-- The number of sets, `C / (A * B)`, in `unsigned int`.
abbrev pub set_count : Cache → ℕ
set_count c = c.capacity / u32 (c.ways * c.block_size)

-- A fresh line and a fresh set of `create_cache`.
abbrev pub empty_line : ℕ → Line
empty_line block_size = record {
  valid = false;
  tag = 0;
  dirty = false;
  bytes = replicate block_size 0;
}

abbrev pub empty_set : ℕ → ℕ → CacheSet
empty_set ways block_size = record {
  lines = replicate ways (empty_line block_size);
  lru_matrix = 0;
  next_lru = 2 ^ 64 - 1;
}

unfoldable pub create_cache : ℕ → ℕ → ℕ → ℕ → Cache
create_cache a b c d = record {
  sets = replicate (c / u32 (a * b)) (empty_set a b);
  ways = a;
  block_size = b;
  capacity = c;
  delay = d;
  miss_count = 0;
  hit_count = 0;
  dirty_eviction_count = 0;
  clean_eviction_count = 0;
}

-- The index of the set that `get_set` returns.
unfoldable pub set_index : Cache → ℕ → ℕ
set_index c addr = bit_and (shr addr (log c.block_size)) (u32 (set_count c + 2 ^ 32 - 1))

abbrev pub no_set : CacheSet
no_set = record { lines = []; lru_matrix = 0; next_lru = 0 }

unfoldable pub get_set : Cache → ℕ → CacheSet
get_set c addr = get_or c.sets (set_index c addr) no_set

-- The tag that `get_line` and `handle_miss` compute.
unfoldable pub tag_of : Cache → ℕ → ℕ
tag_of c addr = shr addr (log c.block_size + log (set_count c))

-- The loop of `get_line` over the lines of the set, the first of them at index `i`.
unfoldable pub find_line : ℕ → List Line → ℕ → Option ℕ
find_line tag [] i = none
find_line tag (l ∷ lines) i =
    let rest = find_line tag lines (i + 1) in if l.valid && l.tag == tag then some i else rest

-- The index, within its set, of the line that `get_line` returns; `none` is NULL.
unfoldable pub get_line : Cache → ℕ → Option ℕ
unfolding find_line
get_line c addr = find_line (tag_of c addr) (get_set c addr).lines 0

-- The loop of `select_line`: the first line that is not valid.
unfoldable pub find_invalid : List Line → ℕ → Option ℕ
find_invalid [] i = none
find_invalid (l ∷ lines) i =
    let rest = find_invalid lines (i + 1) in if l.valid then rest else some i

unfoldable pub select_line : CacheSet → ℕ
select_line s = elim (find_invalid s.lines 0) [ some i ↦ i | none ↦ s.next_lru ]

abbrev pub no_line : Line
no_line = record { valid = false; tag = 0; dirty = false; bytes = [] }

abbrev pub line_at : CacheSet → ℕ → Line
line_at s i = get_or s.lines i no_line

-- A set with line `i` replaced, and a cache with the set of `addr` replaced.
abbrev pub put_line : CacheSet → ℕ → Line → CacheSet
put_line s i l = record s { lines = set s.lines i l }

abbrev pub put_set : Cache → ℕ → CacheSet → Cache
put_set c addr s = record c { sets = set c.sets (set_index c addr) s }

-- `set->next_lru = lru(cache->A, line_idx, &set->lru_matrix)`.
unfoldable pub touch : ℕ → ℕ → CacheSet → Option CacheSet
touch ways i s = do
  chosen ← lru ways i s.lru_matrix
  some (record s { lru_matrix = chosen.matrix; next_lru = chosen.way })

-- `if (operation == WRITE) line->dirty = true`.
abbrev pub mark : Operation → Line → Line
mark op l = record l { dirty = if is_write op then true else l.dirty }

-- What `check_hit` does once `get_line` has answered: the result, and the cache after it.
unfoldable pub record_lookup : Cache → ℕ → Operation → Option ℕ → Option (Bool × Cache)
record_lookup c addr op none = some (false, record c { miss_count = count c.miss_count })
record_lookup c addr op (some i) = do
  let s = get_set c addr
  s' ← touch c.ways i (put_line s i (mark op (line_at s i)))
  some (true, record (put_set c addr s') { hit_count = count c.hit_count })

unfoldable pub check_hit : Cache → ℕ → Operation → Option (Bool × Cache)
unfolding record_lookup
check_hit c addr op = record_lookup c addr op (get_line c addr)

-- The line as it is described to the caller of `handle_miss`.
unfoldable pub evict : Cache → ℕ → Line → EvictedLine
evict c addr l =
    let b = log c.block_size in
    let s = log (set_count c) in
    record {
      valid = l.valid;
      dirty = l.dirty;
      block_addr =
          bit_or (shl64 l.tag (b + s))
            (shl64 (bit_and (shr addr b) (u32 (set_count c + 2 ^ 32 - 1))) b);
      bytes = l.bytes;
    }

-- The bytes of the new line: the incoming block, or zeros where it is NULL.
abbrev pub incoming_bytes : ℕ → Option (List ℕ) → List ℕ
incoming_bytes block_size none = replicate block_size 0
incoming_bytes block_size (some block) = block

unfoldable pub handle_miss : Cache → ℕ → Operation → Option (List ℕ) → Option (EvictedLine × Cache)
handle_miss c addr op incoming = do
  let s = get_set c addr
  let i = select_line s
  let old = line_at s i
  let new : Line = record {
    valid = true;
    tag = tag_of c addr;
    dirty = is_write op;
    bytes = incoming_bytes c.block_size incoming;
  }
  s' ← touch c.ways i (put_line s i new)
  some (
    evict c addr old,
    record (put_set c addr s') {
      dirty_eviction_count = count_if (old.valid && old.dirty) c.dirty_eviction_count;
      clean_eviction_count = count_if (old.valid && not old.dirty) c.clean_eviction_count;
    },
  )

abbrev pub block_offset : Cache → ℕ → ℕ
block_offset c addr = bit_and addr (u32 (c.block_size + 2 ^ 32 - 1))

-- `none` is the NULL line, or a word that runs past the end of its block.
unfoldable pub get_word_cache : Cache → ℕ → Option ℕ
get_word_cache c addr = do
  i ← get_line c addr
  let bytes = (line_at (get_set c addr) i).bytes
  leb (block_offset c addr + 8) (length bytes) >> some (read_le bytes (block_offset c addr) 8)

unfoldable pub set_word_cache : Cache → ℕ → ℕ → Option Cache
set_word_cache c addr val = do
  i ← get_line c addr
  let s = get_set c addr
  let l = line_at s i
  leb (block_offset c addr + 8) (length l.bytes)
      >> some (
          put_set c addr (
            put_line s i
              (record l { dirty = true; bytes = write_le l.bytes (block_offset c addr) val 8 })))

-- `access_data`: the caller of `handle_miss` drops the evicted line.
unfoldable pub access_data : Cache → ℕ → Operation → Option Cache
access_data c addr op = do
  looked ← check_hit c addr op
  if looked.0 then some looked.1 else Option.map (λ m. m.1) (handle_miss looked.1 addr op none)
