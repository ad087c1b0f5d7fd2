-- ===== src/Mem/Cached/Delay.antt =====
-- The delay of a cache miss.
use native.Mathlib.Nat.{one-le-pow, div-mul-le_self, mul-div_cancel}
use se_lab_public.Prelude.{
  lt→ltb, ℕ, zero, suc, ◌*◌, ◌/◌, ◌^◌, ◌<◌, ◌≡◌, refl, ap, Bool, ◌∙◌, arith, true, false, not, ◌||◌,
  ◌==◌, ==_refl, if◌then◌else◌, Option, some, none, Option-cases, Bool-cases, inl, inr, ◌>>=◌,
  is_some,
}
use se_lab_public.Words.{sub64}
use se_lab_public.Cache.{Cache, Operation, count, check_hit, get_line, record_lookup}
use se_lab_public.Cache.Shape.{same_block}
use se_lab_public.Cache.Valid.{
  IsValid, cached, counters-IsValid, cached-counters, same_block-cached,
}
use se_lab_public.Cache.Lookup.{get_line-some}
use se_lab_public.Cache.Fill.{handle_miss-IsFill}
use se_lab_public.Mem.Status.{in_flight}
use se_lab_public.Mem.Cached.{
  Flight, Backed, block_start, fetched_block, count_cycle, fill_block, note_read, finish_miss,
  serve_miss, serve, landed, reads_past,
}
use se_lab_public.Mem.Cached.Block.{is_past, reads_past-is_past, block_start-eq, length-fill_block}

-- The number of calls until the byte is there, and the state then; at most `n` calls are made.
unfoldable pub calls : Operation → ℕ → ℕ → ℕ → Backed → Option (ℕ × Backed)
calls op addr current zero m = none
calls op addr current (suc n) m = do
  r ← serve op addr current m
  let later = calls op addr current n r.1
  if r.0 then some (1, r.1) else later >>= (λ q. some (suc q.0, q.1))

-- The cycles that an access to a block has still to wait for.
abbrev pub due : Flight → ℕ → ℕ → ℕ
due f block delay = if not (f.addr == block) || not f.busy then delay else f.cycles

count_cycle-due :
    (f : Flight) (block delay : ℕ)
    → count_cycle f block delay ≡ record {
      addr = block;
      cycles = sub64 (due f block delay) 1;
      busy = true;
      overread = f.overread;
    }
unfolding count_cycle
count_cycle-due f block delay = elim (Bool-cases (not (f.addr == block) || not f.busy)) [
  | inl e ↦ rw e refl
  | inr e ↦
      let here : f.addr ≡ block = ground (arith, e) in
      let going : f.busy ≡ true = ground (arith, e) in rw (e, here, going) refl
]

-- A lookup of an address that is not cached only counts a miss.
check_hit-miss :
    (b s : ℕ) (c : Cache) (addr : ℕ) (op : Operation)
    → IsValid b s c
    → cached c addr ≡ none
    → check_hit c addr op ≡ some (false, record c { miss_count = count c.miss_count })
unfolding check_hit record_lookup
check_hit-miss b s c addr op v miss = elim (Option-cases (get_line c addr)) [
  | inl e ↦ rw e refl
  | inr (i, e) ↦
      let found = (get_line-some b s c addr i v e).1 in absurd (grind (arith, miss, found))
]

still_missing :
    (c : Cache) (a n : ℕ) → cached c a ≡ none → cached (record c { miss_count = n }) a ≡ none
still_missing c a n miss =
    cached-counters c n c.hit_count c.dirty_eviction_count c.clean_eviction_count a ∙ miss

-- The start of the block of an address is in that block.
in_block :
    (b a : ℕ)
    → ((a / 2 ^ b * 2 ^ b / 2 ^ b == a / 2 ^ b) ≡ true)
      × ((a / 2 ^ b == a / 2 ^ b * 2 ^ b / 2 ^ b) ≡ true)
in_block b a =
    rw (mul-div_cancel (a / 2 ^ b) (one-le-pow b 2 (omega arith)))
      (==_refl (a / 2 ^ b), ==_refl (a / 2 ^ b))

-- The state once the miss is over: the byte is cached, and no block is on its way.
pub record IsServed (b s current : ℕ) (over : Bool) (m : Backed) : Type 0 where
  pub valid : IsValid b s m.cache
  pub held : is_some (cached m.cache current) ≡ true
  pub idle : m.flight.busy ≡ false
  pub past : m.flight.overread ≡ over

module _ (b s : ℕ) (op : Operation) (addr current : ℕ) (word : current < 2 ^ 64) where
  -- The end of a miss.
  pub finish_miss-IsServed :
      (m : Backed)
      → IsValid b s m.cache
      → cached m.cache current ≡ none
      → (m' : Backed) × (finish_miss op addr current m ≡ some m')
        × IsServed b s current (m.flight.overread || is_past op b addr) m'
  unfolding finish_miss
  finish_miss-IsServed m v miss =
      let c = m.cache in
      let start = block_start c.block_size current in
      let e : start ≡ current / 2 ^ b * 2 ^ b =
        rw (v.shape.block) (block_start-eq b current word (omega (arith, v.shape.small))) in
      let lt : start < 2 ^ 64 = omega (arith, e, div-mul-le_self current (2 ^ b)) in
      let same : same_block c start current ≡ true = rw (e, v.shape.block) (in_block b current).0 in
      let same' : same_block c current start ≡ true =
        rw (e, v.shape.block) (in_block b current).1 in
      let filled =
        fill_block m.segs m.ptable (fetched_block op c.block_size addr current) 0 c.block_size in
      let placed =
        handle_miss-IsFill b s c start op v lt (same_block-cached b s c v start current same ∙ miss)
          (some filled.0)
          (length-fill_block m.segs m.ptable (fetched_block op c.block_size addr current) 0
              c.block_size
            ∙ v.shape.block) in
      (
        landed (note_read op addr m) filled placed.0,
        rw (placed.1) refl,
        record {
          valid = placed.2.valid;
          held = rw (placed.2.lines current, same') refl;
          idle = refl;
          past =
              ap (λ (t : Bool). m.flight.overread || t)
                (ap (λ (n : ℕ). reads_past op n addr) v.shape.block ∙ reads_past-is_past op b addr);
        },
      )

  -- The call that finds the count at its end, and one before it.
  last_call :
      (m : Backed)
      → IsValid b s m.cache
      → cached m.cache current ≡ none
      → due m.flight (block_start m.cache.block_size current) m.cache.delay ≡ 1
      → (m' : Backed) × (serve op addr current m ≡ some (true, m'))
        × IsServed b s current (m.flight.overread || is_past op b addr) m'
  unfolding serve serve_miss
  last_call m v miss one =
      let c' : Cache = record (m.cache) { miss_count = count m.cache.miss_count } in
      let f : Flight = record {
        addr = block_start m.cache.block_size current;
        cycles = sub64 1 1;
        busy = true;
        overread = m.flight.overread;
      } in
      let done =
        finish_miss-IsServed (record m { cache = c'; flight = f })
          (counters-IsValid b s m.cache (count m.cache.miss_count) m.cache.hit_count
            m.cache.dirty_eviction_count m.cache.clean_eviction_count v)
          (still_missing m.cache current (count m.cache.miss_count) miss) in
      (
        done.0,
        rw
            (
              check_hit-miss b s m.cache current op v miss,
              count_cycle-due m.flight (block_start m.cache.block_size current) m.cache.delay,
              one,
              done.1,
            )
            refl,
        done.2,
      )

  early_call :
      (n : ℕ) (m : Backed)
      → IsValid b s m.cache
      → cached m.cache current ≡ none
      → suc (suc n) < 2 ^ 64
      → due m.flight (block_start m.cache.block_size current) m.cache.delay ≡ suc (suc n)
      → serve op addr current m
        ≡ some (
          false,
          record m {
            cache = record (m.cache) { miss_count = count m.cache.miss_count };
            flight = record {
              addr = block_start m.cache.block_size current;
              cycles = suc n;
              busy = true;
              overread = m.flight.overread;
            };
            dmem_status = in_flight;
          },
        )
  unfolding serve serve_miss
  early_call n m v miss lt left =
      let less : sub64 (suc (suc n)) 1 ≡ suc n = omega (arith, lt) in
      rw
        (
          check_hit-miss b s m.cache current op v miss,
          count_cycle-due m.flight (block_start m.cache.block_size current) m.cache.delay,
          left,
          less,
          lt→ltb 0 (suc n) (omega arith),
        )
        refl

  waits :
      (n : ℕ) (m : Backed)
      → IsValid b s m.cache
      → cached m.cache current ≡ none
      → suc n < 2 ^ 64
      → due m.flight (block_start m.cache.block_size current) m.cache.delay ≡ suc n
      → (m' : Backed) × (calls op addr current (suc n) m ≡ some (suc n, m'))
        × IsServed b s current (m.flight.overread || is_past op b addr) m'
  unfolding calls
  waits zero m v miss lt left =
      let last = last_call m v miss left in (last.0, rw (last.1) refl, last.2)
  waits (suc n) m v miss lt left =
      let c' : Cache = record (m.cache) { miss_count = count m.cache.miss_count } in
      let f : Flight = record {
        addr = block_start m.cache.block_size current;
        cycles = suc n;
        busy = true;
        overread = m.flight.overread;
      } in
      let m' : Backed = record m { cache = c'; flight = f; dmem_status = in_flight } in
      let later =
        waits n m'
          (counters-IsValid b s m.cache (count m.cache.miss_count) m.cache.hit_count
            m.cache.dirty_eviction_count m.cache.clean_eviction_count v)
          (still_missing m.cache current (count m.cache.miss_count) miss) (omega (arith, lt))
          (rw (==_refl (block_start m.cache.block_size current)) refl) in
      (later.0, rw (calls, early_call n m v miss lt left, later.1) refl, later.2)

  waits_for :
      (d : ℕ) (m : Backed)
      → IsValid b s m.cache
      → cached m.cache current ≡ none
      → 0 < d
      → d < 2 ^ 64
      → due m.flight (block_start m.cache.block_size current) m.cache.delay ≡ d
      → (m' : Backed) × (calls op addr current d m ≡ some (d, m'))
        × IsServed b s current (m.flight.overread || is_past op b addr) m'
  waits_for zero m v miss some_delay lt left = absurd (omega (arith, some_delay))
  waits_for (suc n) m v miss some_delay lt left = waits n m v miss lt left

-- A miss is over after as many cycles as the cache has delay: where a byte of a 64-bit address is
-- not in a valid cache, whose delay is at least 1 and below 2 ^ 64, and no block is on its way, or
-- another one, the lookup that is tried again in every cycle answers for the first time in that
-- cycle. The byte is then in the cache, which stays valid, and no block is on its way. The flag for
-- a read past the end of a fetched block, which C leaves undefined, is set by a read whose 8 bytes
-- at 8 times its offset are not all in the block, and otherwise as it was.
pub serve-waits :
    (b s : ℕ) (op : Operation) (addr current : ℕ) (m : Backed)
    → current < 2 ^ 64
    → IsValid b s m.cache
    → cached m.cache current ≡ none
    → 0 < m.cache.delay
    → m.cache.delay < 2 ^ 64
    → (not (m.flight.addr == block_start m.cache.block_size current) || not m.flight.busy) ≡ true
    → (m' : Backed) × (calls op addr current m.cache.delay m ≡ some (m.cache.delay, m'))
      × IsServed b s current (m.flight.overread || is_past op b addr) m'
serve-waits b s op addr current m word v miss some_delay lt fresh =
    waits_for b s op addr current word m.cache.delay m v miss some_delay lt (rw fresh refl)
