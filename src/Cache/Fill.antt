-- ===== src/Cache/Fill.antt =====
-- `handle_miss`: which line it replaces, what it reports of it, and what the cache holds then.
use se_lab_public.Prelude.{
  ap, ℕ, ◌+◌, ◌*◌, ◌^◌, ◌/◌, ◌≤◌, ◌<◌, ◌≡◌, arith, inl, refl, ◌∙◌, Bool, List, if◌then◌else◌, none,
  Option, length, some, true, ◌&&◌, not, set,
}
use mathlib.Core.Option
use native.Mathlib.Nat.{div-mul-le_self}
use se_lab_public.Cache.Evict.{select_line-lt, block_addr-parts, block_addr-whole}
use se_lab_public.Cache.Lines.{look, look-line, Fits}
use se_lab_public.Cache.{
  Cache, CacheSet, Line, evict, select_line, tag_of, set_index, Operation, EvictedLine,
  incoming_bytes, handle_miss, count_if, is_write, line_at, get_set, put_set,
}
use se_lab_public.Cache.Shape.{tag_of-eq, same_block, same_block-eq}
use se_lab_public.Cache.Valid.{
  IsValid, cached, get_set-IsGoodSet, counters-IsValid, put_set-IsValid, cached-counters,
}
use se_lab_public.Cache.Update.{update_lem, cached-update}
use se_lab_public.Cache.Lookup.{one_more, one_more-count}

-- What a description of an evicted line says of the contents.
abbrev pub contents : Line → Bool × List ℕ
contents l = (l.dirty, l.bytes)

-- After `handle_miss` the block of the address is cached with the incoming bytes, clean after a
-- read and dirty after a write; the block that is described as evicted is cached no more, if it was
-- valid, and had the contents described, those of a whole block of 64-bit addresses; all other
-- blocks stay. Exactly one eviction is counted if the line was valid, by whether it was dirty (a
-- counter of 2 ^ 31 - 1 overflows), and the invariant is kept.
pub record IsFill (b s : ℕ) (c : Cache) (addr : ℕ) (op : Operation) (block : List ℕ)
    (e : EvictedLine) (c' : Cache) : Type 0 where
  pub lines :
      (a : ℕ)
      → cached c' a ≡ (
          if same_block c a addr
          then some
              (record { valid = true; tag = tag_of c addr; dirty = is_write op; bytes = block })
          else (if e.valid && same_block c a e.block_addr then none else cached c a))
  pub evicted :
      (if e.valid then Option.map contents (cached c e.block_addr) else some (e.dirty, e.bytes))
      ≡ some (e.dirty, e.bytes)
  pub dirty_evictions :
      c'.dirty_eviction_count
      ≡ (if e.valid && e.dirty then one_more c.dirty_eviction_count else c.dirty_eviction_count)
  pub clean_evictions :
      c'.clean_eviction_count
      ≡ (if e.valid && not e.dirty then one_more c.clean_eviction_count else c.clean_eviction_count)
  pub whole :
      (e.block_addr / 2 ^ b * 2 ^ b ≡ e.block_addr)
      × (e.block_addr + 2 ^ b ≤ 2 ^ 64)
      × (length e.bytes ≡ 2 ^ b)
  pub lookups : (c'.hit_count ≡ c.hit_count) × (c'.miss_count ≡ c.miss_count)
  pub valid : IsValid b s c'

evict-fields :
    (c : Cache) (addr : ℕ) (l : Line)
    → ((evict c addr l).valid ≡ l.valid)
      × ((evict c addr l).dirty ≡ l.dirty)
      × ((evict c addr l).bytes ≡ l.bytes)
unfolding evict
evict-fields c addr l = (refl, refl, refl)

-- An address with the tag and the index of a line is looked up in its set.
cached_at :
    (b s : ℕ) (c : Cache) (addr a tag : ℕ)
    → (tag_of c a ≡ tag) × (set_index c a ≡ set_index c addr)
    → cached c a ≡ look tag (get_set c addr).lines
unfolding cached get_set
cached_at b s c addr a tag h = rw (h.0, h.1)

module _ (b s : ℕ) (c : Cache) (addr : ℕ) (op : Operation) (v : IsValid b s c)
    (word : addr < 2 ^ 64) (miss : cached c addr ≡ none) (incoming : Option (List ℕ))
    (len : length (incoming_bytes c.block_size incoming) ≡ 2 ^ b) where
  new_tag-fits : tag_of c addr * (2 ^ b * 2 ^ s) < 2 ^ 64
  new_tag-fits = rw (tag_of-eq b s c v.shape addr) (
      omega (
        arith,
        div-mul-le_self addr (2 ^ b),
        grow (addr / 2 ^ b / 2 ^ s * 2 ^ s) (addr / 2 ^ b) (2 ^ b)
            (div-mul-le_self (addr / 2 ^ b) (2 ^ s)),
      ))
    where
      grow : (x y m : ℕ) → x ≤ y → x * m ≤ y * m
      grow x y m h = grind arith

  -- A valid line of the set is the one that its address finds.
  evicted_line :
      (i : ℕ)
      → i < c.ways
      → let l = line_at (get_set c addr) i in
        let e = evict c addr l in
        (if e.valid then Option.map contents (cached c e.block_addr) else some (e.dirty, e.bytes))
        ≡ some (e.dirty, e.bytes)
  evicted_line i h =
      let t = get_set c addr in
      let l = line_at t i in
      let good = get_set-IsGoodSet b s c v addr in
      let e = evict c addr l in
      ground (
        arith,
        evict-fields c addr l,
        cached_at b s c addr e.block_addr l.tag
            (block_addr-parts b s c addr v.shape l (good.tags i h)),
        look-line l.tag t.lines i good.distinct (omega (arith, good.size)),
      )

  -- A new line at index `i` takes the place of the block of the old one.
  replaced :
      (i : ℕ) (h : i < c.ways) (new : Line) (fits : Fits (get_set c addr).lines i new)
      (t : CacheSet) (a : ℕ)
      → t.lines ≡ set (get_set c addr).lines i new
      → new.valid ≡ true
      → new.tag ≡ tag_of c addr
      → let e = evict c addr (line_at (get_set c addr) i) in
        cached (put_set c addr t) a ≡ (
          if same_block c a addr
          then some new
          else (if e.valid && same_block c a e.block_addr then none else cached c a))
  replaced i h new fits t a written valid tag =
      let l = line_at (get_set c addr) i in
      let good = get_set-IsGoodSet b s c v addr in
      let e = evict c addr l in
      ground (
        arith,
        evict-fields c addr l,
        cached-update b s c v addr i h new fits t a written valid tag,
        same_block-eq b s c a e.block_addr v.shape,
        block_addr-parts b s c addr v.shape l (good.tags i h),
      )

  -- In a valid cache that does not hold a 64-bit address, with a block of the right size or none,
  -- `handle_miss` ends normally and does what a fill is to do: the block of the address is then
  -- cached with the incoming bytes, clean after a read and dirty after a write; the block described
  -- as evicted is a whole one of 64-bit addresses and, if its line was valid, is cached no more and
  -- had the contents described; all other blocks stay, exactly one eviction is counted if the line
  -- was valid, by whether it was dirty, where a counter that is not below 2 ^ 31 - 1 overflows, and
  -- the cache stays valid.
  pub handle_miss-IsFill :
      (out : EvictedLine × Cache) × (handle_miss c addr op incoming ≡ some out)
      × IsFill b s c addr op (incoming_bytes c.block_size incoming) out.0 out.1
  unfolding handle_miss
  handle_miss-IsFill =
      let t = get_set c addr in
      let good = get_set-IsGoodSet b s c v addr in
      let i = select_line t in
      let in_set = select_line-lt c.ways b s t good in
      let old = line_at t i in
      let new : Line = record {
        valid = true;
        tag = tag_of c addr;
        dirty = is_write op;
        bytes = incoming_bytes c.block_size incoming;
      } in
      let fits : Fits t.lines i new = λ _. inl (unfold cached in miss) in
      let done = update_lem c.ways b s i t new v.few_ways good in_set fits len new_tag-fits in
      let c' = put_set c addr done.0 in
      let e = evict c addr old in
      let aligned = block_addr-whole b s c addr v.shape old (good.tags i in_set) in
      (
        (
          e,
          record c' {
            dirty_eviction_count = count_if (old.valid && old.dirty) c.dirty_eviction_count;
            clean_eviction_count = count_if (old.valid && not old.dirty) c.clean_eviction_count;
          },
        ),
        rw (done.1),
        record {
          lines = λ a.
              cached-counters c' c.miss_count c.hit_count
                (count_if (old.valid && old.dirty) c.dirty_eviction_count)
                (count_if (old.valid && not old.dirty) c.clean_eviction_count) a
              ∙ replaced i in_set new fits done.0 a done.2 refl refl;
          evicted = evicted_line i in_set;
          dirty_evictions =
              ground (arith, evict-fields c addr old, one_more-count c.dirty_eviction_count);
          clean_evictions =
              ground (arith, evict-fields c addr old, one_more-count c.clean_eviction_count);
          whole =
              (aligned.0, aligned.1, ap length (evict-fields c addr old).2 ∙ good.block i in_set);
          lookups = (refl, refl);
          valid =
              counters-IsValid b s c' c.miss_count c.hit_count
                (count_if (old.valid && old.dirty) c.dirty_eviction_count)
                (count_if (old.valid && not old.dirty) c.clean_eviction_count)
                (put_set-IsValid b s c v addr done.0 done.3);
        },
      )
