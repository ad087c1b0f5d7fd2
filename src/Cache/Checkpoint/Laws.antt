-- ===== src/Cache/Checkpoint/Laws.antt =====
-- What the copy of a cache holds.
use se_lab_public.Prelude.{
  ap, ℕ, zero, suc, ◌+◌, ◌-◌, ◌*◌, ◌^◌, ◌<◌, Option, some, none, ◌≡◌, refl, sym, ◌∙◌, arith, List,
  [], ◌∷◌, length, length-set, length-replicate, get_or, replicate, subst,
}
use mathlib.Core.Option
use native.Mathlib.Nat.{one-le-pow}
use se_lab_public.Bits.{test_bit-zero}
use se_lab_public.Cache.{
  Cache, CacheSet, Line, no_line, no_set, line_at, set_count, get_set, set_index, tag_of,
}
use se_lab_public.Cache.Lines.{Distinct, look}
use se_lab_public.Cache.Valid.{IsValid, IsGoodSet, cached, get_set-IsGoodSet, set_index-lt}
use se_lab_public.Cache.Checkpoint.{copy_line, copy_lines, copy_set, copy_sets, create_checkpoint}

-- The loops give what they copy, at its index.
get_or-copy_lines :
    (c : Cache) (lines : List Line) (n j i : ℕ)
    → i < n
    → get_or (copy_lines c lines j n) i no_line ≡ copy_line c (get_or lines (j + i) no_line)
unfolding copy_lines
get_or-copy_lines c lines zero j i lt = absurd (omega (arith, lt))
get_or-copy_lines c lines (suc n) j zero lt = let e : j + 0 ≡ j = omega arith in rw e refl
get_or-copy_lines c lines (suc n) j (suc i) lt =
    let e : j + suc i ≡ j + 1 + i = omega arith in
    rw e (get_or-copy_lines c lines n (j + 1) i (omega (arith, lt)))

length-copy_lines : (c : Cache) (lines : List Line) (n j : ℕ) → length (copy_lines c lines j n) ≡ n
unfolding copy_lines
length-copy_lines c lines zero j = refl
length-copy_lines c lines (suc n) j = ap suc (length-copy_lines c lines n (j + 1))

length-copy_sets : (c : Cache) (n i : ℕ) → length (copy_sets c i n) ≡ n
unfolding copy_sets
length-copy_sets c zero i = refl
length-copy_sets c (suc n) i = ap suc (length-copy_sets c n (i + 1))

get_or-copy_sets :
    (c : Cache) (n i k : ℕ)
    → k < n
    → get_or (copy_sets c i n) k no_set ≡ copy_set c (get_or c.sets (i + k) no_set)
unfolding copy_sets
get_or-copy_sets c zero i k lt = absurd (omega (arith, lt))
get_or-copy_sets c (suc n) i zero lt = let e : i + 0 ≡ i = omega arith in rw e refl
get_or-copy_sets c (suc n) i (suc k) lt =
    let e : i + suc k ≡ i + 1 + k = omega arith in
    rw e (get_or-copy_sets c n (i + 1) k (omega (arith, lt)))

-- A line more ahead of those that are copied makes no difference.
copy_lines-cons :
    (c : Cache) (l : Line) (lines : List Line) (n j : ℕ)
    → copy_lines c (l ∷ lines) (suc j) n ≡ copy_lines c lines j n
unfolding copy_lines
copy_lines-cons c l lines zero j = refl
copy_lines-cons c l lines (suc n) j =
    let e : suc j + 1 ≡ suc (j + 1) = omega arith in
    rw (e, copy_lines-cons c l lines n (j + 1)) refl

-- The lines that are copied have the tags of the set.
look-copy_lines :
    (c : Cache) (t : ℕ) (lines : List Line)
    → look t (copy_lines c lines 0 (length lines)) ≡ Option.map (copy_line c) (look t lines)
unfolding copy_lines look
look-copy_lines c t [] = refl
look-copy_lines c t (l ∷ lines) =
    let e : 0 + 1 ≡ suc 0 = refl in
    let rest = look-copy_lines c t lines in
    rw (copy_lines-cons c l lines (length lines) 0, rest) (ground arith)

copy_lines-Distinct :
    (c : Cache) (lines : List Line)
    → Distinct lines
    → Distinct (copy_lines c lines 0 (length lines))
unfolding copy_lines
copy_lines-Distinct c [] d = tt
copy_lines-Distinct c (l ∷ lines) d =
    rw (copy_lines-cons c l lines (length lines) 0)
      (λ v. look-copy_lines c l.tag lines ∙ rw (d.0 v) refl, copy_lines-Distinct c lines d.1)

-- A copied set is a good one, without a history.
copy_set-IsGoodSet :
    (b s : ℕ) (c : Cache) (t : CacheSet)
    → IsValid b s c
    → IsGoodSet c.ways b s t
    → IsGoodSet c.ways b s (copy_set c t)
copy_set-IsGoodSet b s c t v good = record {
  size = length-copy_lines c t.lines c.ways 0;
  distinct = distinct;
  block = λ i h. rw (line i h) (
      length-set (replicate c.block_size 0) 0 (get_or (line_at t i).bytes 0 0)
      ∙ (length-replicate c.block_size 0 ∙ v.shape.block));
  tags = λ i h. rw (line i h) (good.tags i h);
  stamp = λ w. 0;
  now = 1;
  ranked = record {
    ranks = record { word = omega arith; later = λ r k hr hk. test_bit-zero (r * c.ways + k) };
    fresh = λ w. omega arith;
  };
  victim = λ full. (v.some_ways, λ w h. omega arith);
}
  where
    line :
        (i : ℕ)
        → i < c.ways
        → get_or (copy_lines c t.lines 0 c.ways) i no_line ≡ copy_line c (get_or t.lines i no_line)
    line i h =
        let e : 0 + i ≡ i = omega arith in
        get_or-copy_lines c t.lines c.ways 0 i h
        ∙ ap (λ (k : ℕ). copy_line c (get_or t.lines k no_line)) e

    distinct : Distinct (copy_lines c t.lines 0 c.ways)
    distinct =
        subst (λ (n : ℕ). Distinct (copy_lines c t.lines 0 n)) (good.size)
          (copy_lines-Distinct c t.lines good.distinct)

copied_set :
    (b s : ℕ) (c : Cache) (i : ℕ)
    → IsValid b s c
    → i < 2 ^ s
    → get_or (create_checkpoint c).sets i no_set ≡ copy_set c (get_or c.sets i no_set)
unfolding create_checkpoint
copied_set b s c i v h =
    let e : 0 + i ≡ i = omega arith in
    get_or-copy_sets c (set_count c) 0 i (rw (v.shape.count) h)
    ∙ ap (λ (k : ℕ). copy_set c (get_or c.sets k no_set)) e

copied-IsValid : (b s : ℕ) (c : Cache) → IsValid b s c → IsValid b s (create_checkpoint c)
unfolding create_checkpoint
copied-IsValid b s c v = record {
  shape = record { block = v.shape.block; count = v.shape.count; small = v.shape.small };
  some_ways = v.some_ways;
  few_ways = v.few_ways;
  size = length-copy_sets c (set_count c) 0 ∙ v.shape.count;
  each = λ i h.
      subst (λ (t : CacheSet). IsGoodSet c.ways b s t) (sym (copied_set b s c i v h))
        (copy_set-IsGoodSet b s c (get_or c.sets i no_set) v (v.each i h));
}

-- The copy cuts addresses as the cache does.
same_index : (c : Cache) (a : ℕ) → set_index (create_checkpoint c) a ≡ set_index c a
unfolding create_checkpoint set_index
same_index c a = refl

same_tag : (c : Cache) (a : ℕ) → tag_of (create_checkpoint c) a ≡ tag_of c a
unfolding create_checkpoint tag_of
same_tag c a = refl

get_set-copied :
    (b s : ℕ) (c : Cache) (a : ℕ)
    → IsValid b s c
    → get_set (create_checkpoint c) a ≡ copy_set c (get_set c a)
unfolding get_set
get_set-copied b s c a v =
    rw (same_index c a) (copied_set b s c (set_index c a) v (set_index-lt b s c v a))

cached-copied :
    (b s : ℕ) (c : Cache) (a : ℕ)
    → IsValid b s c
    → cached (create_checkpoint c) a ≡ Option.map (copy_line c) (cached c a)
unfolding cached
cached-copied b s c a v =
    let size = (get_set-IsGoodSet b s c v a).size in
    let found = look-copy_lines c (tag_of c a) (get_set c a).lines in
    rw (get_set-copied b s c a v, same_tag c a)
      (subst
        (λ (n : ℕ).
          look (tag_of c a) (copy_lines c (get_set c a).lines 0 n)
          ≡ Option.map (copy_line c) (look (tag_of c a) (get_set c a).lines))
        size found)

-- A line with the flags and the tag of another, the first byte of its block, and zeros after it.
abbrev pub first_byte_of : ℕ → Line → Line
first_byte_of b l = record {
  valid = l.valid;
  tag = l.tag;
  dirty = l.dirty;
  bytes = get_or l.bytes 0 0 ∷ replicate (2 ^ b - 1) 0;
}

copy_line-first :
    (b : ℕ) (c : Cache) (l : Line) → c.block_size ≡ 2 ^ b → copy_line c l ≡ first_byte_of b l
copy_line-first b c l size =
    let some_bytes : 0 < 2 ^ b = one-le-pow b 2 (omega arith) in
    let whole : c.block_size ≡ suc (2 ^ b - 1) = omega (arith, size, some_bytes) in rw whole refl

map-copied :
    (b : ℕ) (c : Cache) (l : Option Line)
    → c.block_size ≡ 2 ^ b
    → Option.map (copy_line c) l ≡ Option.map (first_byte_of b) l
map-copied b c none size = refl
map-copied b c (some l) size = ap some (copy_line-first b c l size)

-- What the copy of a cache has: the same addresses, with the same flags and the first byte of each
-- block, and the first way of every set as its next victim.
pub record IsCheckpoint (b s : ℕ) (c c' : Cache) : Type 0 where
  pub valid : IsValid b s c'
  pub lines : (a : ℕ) → cached c' a ≡ Option.map (first_byte_of b) (cached c a)
  pub victims : (a : ℕ) → (get_set c' a).next_lru ≡ 0

-- The checkpoint of a valid cache is a valid cache in which the same addresses are cached, each with
-- the tag and the flags of its line and the first byte of its block; the other bytes of the block are
-- zeros. The next victim of every set is its first line, whichever was used last.
pub create_checkpoint-IsCheckpoint :
    (b s : ℕ) (c : Cache) → IsValid b s c → IsCheckpoint b s c (create_checkpoint c)
create_checkpoint-IsCheckpoint b s c v = record {
  valid = copied-IsValid b s c v;
  lines = λ a. cached-copied b s c a v ∙ map-copied b c (cached c a) v.shape.block;
  victims = λ a. rw (get_set-copied b s c a v) refl;
}
