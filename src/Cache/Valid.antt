-- ===== src/Cache/Valid.antt =====
-- The invariant of the cache, and the cache as a partial map from addresses to lines.
use se_lab_public.Prelude.{
  ℕ, suc, ◌*◌, ◌^◌, ◌/◌, ◌≤◌, ◌<◌, ◌≡◌, refl, sym, ◌∙◌, arith, ◌==◌, ==_refl, ==_ne, ℕ_discrete,
  subst, if◌then◌else◌, length, Option, some, none, get_or, set, get_or-set_self, get_or-set_ne,
  length-set, true,
}
use native.Mathlib.Nat.{mod-lt, one-le-pow}
use se_lab_public.Cache.{
  Cache, CacheSet, Line, set_index, tag_of, get_set, put_set, no_set, line_at, find_invalid, touch,
}
use se_lab_public.Cache.Lines.{Distinct, look}
use se_lab_public.Cache.Shape.{IsShaped, same_block, same_block-eq, set_index-eq}
use se_lab_public.Cache.Lru.Laws.{Ranks, use_at}
use se_lab_public.Cache.Lru.Victim.{IsOldest, lru_lem}

-- The matrix of a set is in step with a history of uses, at some time after all of them.
pub record IsRanked (ways : ℕ) (s : CacheSet) (stamp : ℕ → ℕ) (now : ℕ) : Type 0 where
  pub ranks : Ranks ways s.lru_matrix stamp
  pub fresh : (w : ℕ) → stamp w < now

-- A set of `ways` lines of 2 ^ b bytes, with tags that stand for 64-bit addresses.
pub record IsGoodSet (ways b s : ℕ) (t : CacheSet) : Type 0 where
  pub size : length t.lines ≡ ways
  pub distinct : Distinct t.lines
  pub block : (i : ℕ) → i < ways → length (line_at t i).bytes ≡ 2 ^ b
  pub tags : (i : ℕ) → i < ways → (line_at t i).tag * (2 ^ b * 2 ^ s) < 2 ^ 64
  pub stamp : ℕ → ℕ
  pub now : ℕ
  pub ranked : IsRanked ways t stamp now
  pub victim : find_invalid t.lines 0 ≡ none → (t.next_lru < ways) × IsOldest ways stamp t.next_lru

pub record IsValid (b s : ℕ) (c : Cache) : Type 0 where
  pub shape : IsShaped b s c
  pub some_ways : 0 < c.ways
  pub few_ways : c.ways ≤ 8
  pub size : length c.sets ≡ 2 ^ s
  pub each : (i : ℕ) → i < 2 ^ s → IsGoodSet c.ways b s (get_or c.sets i no_set)

-- The line that holds an address.
unfoldable pub cached : Cache → ℕ → Option Line
cached c addr = look (tag_of c addr) (get_set c addr).lines

module _ (ways i : ℕ) (t : CacheSet) (stamp : ℕ → ℕ) (now : ℕ) (small : ways ≤ 8)
    (in_set : i < ways) (v : IsRanked ways t stamp now) where
  -- A use succeeds, leaves the lines alone, and names the line that was used longest ago.
  pub touch_lem :
      (t' : CacheSet) × (touch ways i t ≡ some t')
      × (t'.lines ≡ t.lines)
      × IsRanked ways t' (use_at now i stamp) (suc now)
      × (t'.next_lru < ways)
      × IsOldest ways (use_at now i stamp) t'.next_lru
  unfolding touch
  touch_lem =
      let done = lru_lem ways i t.lru_matrix now stamp small in_set v.ranks v.fresh in
      (
        record t { lru_matrix = done.0.matrix; next_lru = done.0.way },
        rw (done.1),
        refl,
        record { ranks = done.2; fresh = λ w. ground (arith, v.fresh w) },
        done.3,
        done.4,
      )

set_index-put_set :
    (c : Cache) (addr : ℕ) (t : CacheSet) (a : ℕ) → set_index (put_set c addr t) a ≡ set_index c a
unfolding set_index
set_index-put_set c addr t a = refl

tag_of-put_set :
    (c : Cache) (addr : ℕ) (t : CacheSet) (a : ℕ) → tag_of (put_set c addr t) a ≡ tag_of c a
unfolding tag_of
tag_of-put_set c addr t a = refl

module _ (b s : ℕ) (c : Cache) (v : IsValid b s c) (addr : ℕ) where
  pub set_index-lt : set_index c addr < 2 ^ s
  set_index-lt =
      rw (set_index-eq b s c v.shape addr) (mod-lt (addr / 2 ^ b) (one-le-pow s 2 (omega arith)))

  pub get_set-IsGoodSet : IsGoodSet c.ways b s (get_set c addr)
  unfolding get_set
  get_set-IsGoodSet = v.each (set_index c addr) set_index-lt

  -- Replacing the set of an address by a good one keeps the invariant.
  pub put_set-IsValid : (t : CacheSet) → IsGoodSet c.ways b s t → IsValid b s (put_set c addr t)
  put_set-IsValid t good = record {
    shape = record { block = v.shape.block; count = v.shape.count; small = v.shape.small };
    some_ways = v.some_ways;
    few_ways = v.few_ways;
    size = length-set c.sets (set_index c addr) t ∙ v.size;
    each = λ i h. elim (ℕ_discrete i (set_index c addr)) [
      | yes e ↦
          subst
            (λ (j : ℕ). IsGoodSet c.ways b s (get_or (set c.sets (set_index c addr) t) j no_set))
            (sym e)
            (rw (get_or-set_self c.sets (set_index c addr) t no_set (rw (v.size) set_index-lt))
              good)
      | no ne ↦
          rw (get_or-set_ne c.sets (set_index c addr) i t no_set (λ e. ne (sym e))) (v.each i h)
    ];
  }

  -- What each address finds after the set of `addr` was replaced.
  pub cached-put_set :
      (t : CacheSet) (a : ℕ)
      → cached (put_set c addr t) a
        ≡ (if set_index c a == set_index c addr then look (tag_of c a) t.lines else cached c a)
  unfolding cached get_set
  cached-put_set t a =
      rw (set_index-put_set c addr t a, tag_of-put_set c addr t a)
        (pick (ℕ_discrete (set_index c a) (set_index c addr)))
    where
      pick :
          Dec (set_index c a ≡ set_index c addr)
          → look
              (tag_of c a)
              (get_or (set c.sets (set_index c addr) t) (set_index c a) no_set).lines
            ≡ (if set_index c a == set_index c addr
                then look (tag_of c a) t.lines
                else look (tag_of c a) (get_or c.sets (set_index c a) no_set).lines)
      pick (yes e) = rw (
        e,
        get_or-set_self c.sets (set_index c addr) t no_set (rw (v.size) set_index-lt),
        ==_refl (set_index c addr),
      )
      pick (no ne) = rw (
        get_or-set_ne c.sets (set_index c addr) (set_index c a) t no_set (λ e. ne (sym e)),
        ==_ne ne,
      )

-- The invariant says nothing of the counters.
pub counters-IsValid :
    (b s : ℕ) (c : Cache) (miss hit dirty clean : ℕ)
    → IsValid b s c
    → IsValid b s (record c {
      miss_count = miss;
      hit_count = hit;
      dirty_eviction_count = dirty;
      clean_eviction_count = clean;
    })
counters-IsValid b s c miss hit dirty clean v = record {
  shape = record { block = v.shape.block; count = v.shape.count; small = v.shape.small };
  some_ways = v.some_ways;
  few_ways = v.few_ways;
  size = v.size;
  each = v.each;
}

pub cached-counters :
    (c : Cache) (miss hit dirty clean : ℕ) (a : ℕ)
    → cached
        (record c {
          miss_count = miss;
          hit_count = hit;
          dirty_eviction_count = dirty;
          clean_eviction_count = clean;
        })
        a
      ≡ cached c a
unfolding cached get_set set_index tag_of
cached-counters c miss hit dirty clean a = refl

-- Addresses of one block find the same line.
pub same_block-cached :
    (b s : ℕ) (c : Cache) (v : IsValid b s c) (a addr : ℕ)
    → same_block c a addr ≡ true
    → cached c a ≡ cached c addr
unfolding cached get_set
same_block-cached b s c v a addr h =
    let both = same_block-eq b s c a addr v.shape in
    let index : set_index c a ≡ set_index c addr = ground arith in
    let tag : tag_of c a ≡ tag_of c addr = ground arith in rw (index, tag)
