-- ===== src/Cache/Lookup.antt =====
-- `check_hit`: what it answers, what it counts, and what it changes.
use se_lab_public.Prelude.{
  is_some, Option-cases, inl, inr, ℕ, ◌<◌, ◌≡◌, refl, arith, Option, some, none, Bool, true, false,
  if◌then◌else◌, ◌||◌, suc, ◌-◌, ltb, length, ◌^◌, some-injective, sym, ◌∙◌, ap,
}
use mathlib.Core.Option
use se_lab_public.Cache.{
  Cache, Line, line_at, Operation, read, write, count, mark, check_hit, record_lookup, get_line,
  get_set, put_set, tag_of,
}
use se_lab_public.Cache.Lines.{Fits, has_tag, find_line-some, find_line-none}
use se_lab_public.Cache.Shape.{same_block, same_block-eq}
use se_lab_public.Cache.Valid.{
  IsValid, cached, get_set-IsGoodSet, put_set-IsValid, counters-IsValid, cached-counters,
  same_block-cached,
}
use se_lab_public.Cache.Update.{cached-update, update_lem}

-- The line of an address, as `get_line` finds it.
pub get_line-some :
    (b s : ℕ) (c : Cache) (addr i : ℕ)
    → IsValid b s c
    → get_line c addr ≡ some i
    → (i < c.ways)
      × (cached c addr ≡ some (line_at (get_set c addr) i))
      × (has_tag (tag_of c addr) (line_at (get_set c addr) i) ≡ true)
      × ((line_at (get_set c addr) i).tag ≡ tag_of c addr)
unfolding get_line cached
get_line-some b s c addr i v h =
    let found = find_line-some (tag_of c addr) (get_set c addr).lines 0 i h in
    let e : i ≡ found.0 = omega (arith, found.1) in
    let size = (get_set-IsGoodSet b s c v addr).size in
    rw e (omega (arith, found.2, size), found.3, found.4, ground (arith, found.4))

pub get_line-none : (c : Cache) (addr : ℕ) → get_line c addr ≡ none → cached c addr ≡ none
unfolding get_line cached
get_line-none c addr h = find_line-none (tag_of c addr) (get_set c addr).lines 0 h

-- A marked line holds the same tag.
has_tag-mark : (t : ℕ) (op : Operation) (l : Line) → has_tag t (mark op l) ≡ has_tag t l
has_tag-mark t op l = refl

-- A cached line has a whole block.
pub cached-length :
    (b s : ℕ) (c : Cache) (a : ℕ) (l : Line)
    → IsValid b s c
    → cached c a ≡ some l
    → length l.bytes ≡ 2 ^ b
cached-length b s c a l v held = elim (Option-cases (get_line c a)) [
  | inl miss ↦ absurd (grind (arith, get_line-none c a miss, held))
  | inr (i, found) ↦
      let at = get_line-some b s c a i v found in
      let same : line_at (get_set c a) i ≡ l = some-injective _ _ (sym at.1 ∙ held) in
      ap (λ (t : Line). length t.bytes) (sym same) ∙ (get_set-IsGoodSet b s c v a).block i at.0
]

-- A line that is hit: a write makes it dirty, a read leaves it, and the rest stays.
abbrev pub is_store : Operation → Bool
is_store read = false
is_store write = true

abbrev pub after_hit : Operation → Line → Line
after_hit op l = record {
  valid = l.valid;
  tag = l.tag;
  dirty = is_store op || l.dirty;
  bytes = l.bytes;
}

pub after_hit-mark : (op : Operation) (l : Line) → mark op l ≡ after_hit op l
after_hit-mark read l = refl
after_hit-mark write l = refl

-- A counter that an event is added to, of which 2 ^ 31 stands for an overflow.
abbrev pub one_more : ℕ → ℕ
one_more n = if ltb n (2 ^ 31 - 1) then suc n else 2 ^ 31

pub one_more-count : (n : ℕ) → count n ≡ one_more n
unfolding count
one_more-count n = ground arith

-- `check_hit` answers whether the address is cached. On a hit a write marks the line of the block
-- as dirty, on a miss nothing changes but the count; the lines of all other blocks stay as they are,
-- exactly one of the two counters goes up, those of the evictions do not change, and the invariant is
-- kept.
pub record IsLookup (b s : ℕ) (c : Cache) (addr : ℕ) (op : Operation) (hit : Bool) (c' : Cache)
    : Type 0 where
  pub answer : hit ≡ is_some (cached c addr)
  pub lines :
      (a : ℕ)
      → cached c' a
        ≡ (if same_block c a addr then Option.map (after_hit op) (cached c a) else cached c a)
  pub hits : c'.hit_count ≡ (if hit then one_more c.hit_count else c.hit_count)
  pub misses : c'.miss_count ≡ (if hit then c.miss_count else one_more c.miss_count)
  pub evictions :
      (c'.dirty_eviction_count ≡ c.dirty_eviction_count)
      × (c'.clean_eviction_count ≡ c.clean_eviction_count)
  pub valid : IsValid b s c'

abbrev pub Looked : ℕ → ℕ → Cache → ℕ → Operation → Option (Bool × Cache) → Type 0
Looked b s c addr op r = (out : Bool × Cache) × (r ≡ some out) × IsLookup b s c addr op out.0 out.1

module _ (b s : ℕ) (c : Cache) (addr : ℕ) (op : Operation) (v : IsValid b s c) where
  miss_lem : get_line c addr ≡ none → Looked b s c addr op (record_lookup c addr op none)
  unfolding record_lookup
  miss_lem h =
      let absent = get_line-none c addr h in
      (
        (false, record c { miss_count = count c.miss_count }),
        refl,
        record {
          answer = rw absent;
          lines = λ a. ground (
            arith,
            same_block-cached b s c v a addr,
            cached-counters c (count c.miss_count) c.hit_count c.dirty_eviction_count
                c.clean_eviction_count a,
          );
          hits = refl;
          misses = one_more-count c.miss_count;
          evictions = (refl, refl);
          valid =
              counters-IsValid b s c (count c.miss_count) c.hit_count c.dirty_eviction_count
                c.clean_eviction_count v;
        },
      )

  hit_lem :
      (i : ℕ) → get_line c addr ≡ some i → Looked b s c addr op (record_lookup c addr op (some i))
  unfolding record_lookup
  hit_lem i h =
      let found = get_line-some b s c addr i v h in
      let t = get_set c addr in
      let good = get_set-IsGoodSet b s c v addr in
      let old = line_at t i in
      let new = mark op old in
      let fits : Fits t.lines i new = λ _. inr (ground (arith, found.2)) in
      let done =
        update_lem c.ways b s i t new v.few_ways good found.0 fits (good.block i found.0)
          (good.tags i found.0) in
      let c' = put_set c addr done.0 in
      (
        (true, record c' { hit_count = count c.hit_count }),
        rw (done.1),
        record {
          answer = rw (found.1);
          lines = λ a. ground (
            arith,
            cached-counters c' c.miss_count (count c.hit_count) c.dirty_eviction_count
                c.clean_eviction_count a,
            cached-update b s c v addr i found.0 new fits done.0 a done.2,
            after_hit-mark op old,
            same_block-cached b s c v a addr,
            same_block-eq b s c a addr v.shape,
          );
          hits = one_more-count c.hit_count;
          misses = refl;
          evictions = (refl, refl);
          valid =
              counters-IsValid b s c' c.miss_count (count c.hit_count) c.dirty_eviction_count
                c.clean_eviction_count (put_set-IsValid b s c v addr done.0 done.3);
        },
      )

-- From every valid cache, `check_hit` ends normally and does what a lookup is to do: it answers
-- whether the address is cached, marks the line as dirty on a hit of a write, changes no other line,
-- counts exactly one hit or miss, where a counter that is not below 2 ^ 31 - 1 overflows, and no
-- eviction, and keeps the cache valid.
pub check_hit-IsLookup :
    (b s : ℕ) (c : Cache) (addr : ℕ) (op : Operation)
    → IsValid b s c
    → Looked b s c addr op (check_hit c addr op)
unfolding check_hit
check_hit-IsLookup b s c addr op v = elim (Option-cases (get_line c addr)) [
  | inl miss ↦ rw miss (miss_lem b s c addr op v miss)
  | inr (i, hit) ↦ rw hit (hit_lem b s c addr op v i hit)
]
