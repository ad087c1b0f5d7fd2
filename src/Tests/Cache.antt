-- ===== src/Tests/Cache.antt =====
-- A small cache: two ways, two sets, blocks of 16 bytes.
use se_lab_public.Cache.Checkpoint.{create_checkpoint}
use se_lab_public.Cache.Checkpoint.Laws.{IsCheckpoint, create_checkpoint-IsCheckpoint}
use se_lab_public.Prelude.{
  ==_refl, ◌/◌, ◌*◌, ℕ, ◌≡◌, ◌<◌, ◌+◌, ◌^◌, refl, arith, true, some, none, List, [], ◌∷◌, replicate,
  is_some,
}
use se_lab_public.Bits.{test_bit-zero}
use se_lab_public.Cache.{
  Cache, EvictedLine, read, write, create_cache, check_hit, handle_miss, set_word_cache,
  incoming_bytes,
}
use se_lab_public.Cache.Valid.{IsValid, cached}
use se_lab_public.Cache.Create.{create_cache-IsValid}
use se_lab_public.Cache.Lookup.{Looked, check_hit-IsLookup}
use se_lab_public.Cache.Fill.{IsFill, handle_miss-IsFill}
use se_lab_public.Cache.Word.{IsWordWrite, set_word-IsWordWrite}
use se_lab_public.Cache.Lru.{lru, Chosen}
use se_lab_public.Cache.Lru.Laws.{Ranks, use_at}
use se_lab_public.Cache.Lru.Victim.{IsOldest, lru_lem}
use se_lab_public.Cache.Trace.{Letter, store, load, modify, replay_trace}
use se_lab_public.Cache.Trace.Laws.{Replayed, replay_trace_lem, total, accesses_of, sure_hits_of}

abbrev small : Cache
small = create_cache 2 (2 ^ 4) 64 0

small-IsValid : IsValid 4 1 small
small-IsValid =
    (create_cache-IsValid 2 4 1 64 0 (omega arith) (omega arith) (omega arith) (omega arith) refl).0

create_cache_example :
    IsValid 4 1 (create_cache 2 (2 ^ 4) 64 0)
    × ((addr : ℕ) → cached (create_cache 2 (2 ^ 4) 64 0) addr ≡ none)
create_cache_example =
    create_cache-IsValid 2 4 1 64 0 (omega arith) (omega arith) (omega arith) (omega arith) refl

check_hit_example : Looked 4 1 small 0x48 write (check_hit small 0x48 write)
check_hit_example = check_hit-IsLookup 4 1 small 0x48 write small-IsValid

-- Nothing is cached yet.
small-none : (addr : ℕ) → cached small addr ≡ none
small-none =
    (create_cache-IsValid 2 4 1 64 0 (omega arith) (omega arith) (omega arith) (omega arith) refl).1

handle_miss_example :
    (out : EvictedLine × Cache) × (handle_miss small 0x48 write (some (replicate 16 9)) ≡ some out)
    × IsFill 4 1 small 0x48 write
        (incoming_bytes small.block_size (some (replicate 16 9)))
        out.0
        out.1
handle_miss_example =
    handle_miss-IsFill 4 1 small 0x48 write small-IsValid (omega arith) (small-none 0x48)
      (some (replicate 16 9)) refl

-- The cache after that miss.
filled_once :
    (out : EvictedLine × Cache) × (handle_miss small 0x48 read (some (replicate 16 9)) ≡ some out)
    × IsFill 4 1 small 0x48 read
        (incoming_bytes small.block_size (some (replicate 16 9)))
        out.0
        out.1
filled_once =
    handle_miss-IsFill 4 1 small 0x48 read small-IsValid (omega arith) (small-none 0x48)
      (some (replicate 16 9)) refl

filled_once-cached : is_some (cached filled_once.0.1 0x48) ≡ true
filled_once-cached = rw (filled_once.2.lines 0x48) (rw (==_refl (0x48 / small.block_size)) refl)

set_word_example :
    (c' : Cache) × (set_word_cache filled_once.0.1 0x48 77 ≡ some c')
    × IsWordWrite 4 1 filled_once.0.1 0x48 77 c'
set_word_example =
    set_word-IsWordWrite 4 1 filled_once.0.1 0x48 77 filled_once.2.valid filled_once-cached
      (omega arith)

lru_example :
    (out : Chosen) × (lru 4 2 0 ≡ some out)
    × Ranks 4 out.matrix (use_at 1 2 (λ w. 0))
    × (out.way < 4)
    × IsOldest 4 (use_at 1 2 (λ w. 0)) out.way
lru_example = lru_lem 4 2 0 1 (λ w. 0) (omega arith) (omega arith) unused (λ w. omega arith)
  where
    unused : Ranks 4 0 (λ w. 0)
    unused = record { word = omega arith; later = λ r c hr hc. test_bit-zero (r * 4 + c) }

abbrev trace : List (Letter × ℕ)
trace = (load, 0x48) ∷ (modify, 0x140) ∷ (store, 0x240) ∷ []

replay_trace_example :
    Replayed 4 1
      (total accesses_of trace)
      (total sure_hits_of trace)
      small
      (replay_trace small trace)
unfolding create_cache
replay_trace_example =
    replay_trace_lem 4 1 small trace small-IsValid (omega arith, (omega arith, (omega arith, tt)))
      (omega arith)

checkpoint_example : IsCheckpoint 4 1 filled_once.0.1 (create_checkpoint filled_once.0.1)
checkpoint_example = create_checkpoint-IsCheckpoint 4 1 filled_once.0.1 filled_once.2.valid
