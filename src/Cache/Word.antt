-- ===== src/Cache/Word.antt =====
-- `set_word_cache` and `get_word_cache`: a word that was written to a cached block is read back.
use mathlib.Core.Option
use se_lab_public.Prelude.{
  ℕ, zero, suc, ◌+◌, ◌^◌, ◌%◌, ◌≤◌, ◌<◌, ◌≡◌, refl, sym, ◌∙◌, arith, true, if◌then◌else◌, some,
  List, [], ◌∷◌, length, get_or, set, get_or-set_self, Option-cases, inl, inr, is_some,
}
use se_lab_public.Bytes.{write_le, length-write_le, read_le-write_le}
use se_lab_public.Cache.{
  Cache, CacheSet, Line, find_line, find_invalid, get_line, get_set, set_index, tag_of, put_line,
  put_set, line_at, no_line, no_set, block_offset, get_word_cache, set_word_cache,
}
use se_lab_public.Cache.Lines.{Fits, has_tag}
use se_lab_public.Cache.Shape.{same_block, same_block-eq, block_offset-eq}
use se_lab_public.Cache.Valid.{
  IsValid, IsGoodSet, IsRanked, cached, get_set-IsGoodSet, put_set-IsValid, set_index-lt,
  same_block-cached,
}
use se_lab_public.Cache.Update.{written_lines-IsGoodSet, cached-update}
use se_lab_public.Cache.Lookup.{get_line-some, get_line-none}

-- The two loops do not see a change of the bytes of a line.
module _ (new : Line) where
  find_line-set :
      (t : ℕ) (lines : List Line) (i k : ℕ)
      → has_tag t new ≡ has_tag t (get_or lines i no_line)
      → find_line t (set lines i new) k ≡ find_line t lines k
  unfolding find_line
  find_line-set t [] i k h = refl
  find_line-set t (l ∷ lines) zero k h = rw h
  find_line-set t (l ∷ lines) (suc i) k h = rw (find_line-set t lines i (k + 1) h)

  find_invalid-set :
      (lines : List Line) (i k : ℕ)
      → new.valid ≡ (get_or lines i no_line).valid
      → find_invalid (set lines i new) k ≡ find_invalid lines k
  unfolding find_invalid
  find_invalid-set [] i k h = refl
  find_invalid-set (l ∷ lines) zero k h = rw h
  find_invalid-set (l ∷ lines) (suc i) k h = rw (find_invalid-set lines i (k + 1) h)

-- The line after a word was written to it.
abbrev pub written_line : Cache → ℕ → ℕ → Line → Line
written_line c addr val l = record l {
  dirty = true;
  bytes = write_le l.bytes (block_offset c addr) val 8;
}

-- A word was written at an address: it is read back there, the line of the block has the word in
-- its bytes and is dirty, and the lines of all other blocks are the same.
pub record IsWordWrite (b s : ℕ) (c : Cache) (addr val : ℕ) (c' : Cache) : Type 0 where
  pub word : get_word_cache c' addr ≡ some (val % 2 ^ 64)
  pub lines :
      (a : ℕ)
      → cached c' a ≡ (
          if same_block c a addr
          then Option.map (written_line c addr val) (cached c a)
          else cached c a)
  pub valid : IsValid b s c'

module _ (b s : ℕ) (c : Cache) (addr val : ℕ) (v : IsValid b s c) (fits : addr % 2 ^ b + 8 ≤ 2 ^ b)
    (i : ℕ) (found : get_line c addr ≡ some i) where
  abbrev old_line : Line
  old_line = line_at (get_set c addr) i

  abbrev new_line : Line
  new_line = written_line c addr val old_line

  abbrev new_set : CacheSet
  new_set = put_line (get_set c addr) i new_line

  abbrev written : Cache
  written = put_set c addr new_set

  offset-fits : block_offset c addr + 8 ≤ 2 ^ b
  offset-fits = rw (block_offset-eq b s c v.shape addr) fits

  found_lem :
      (i < c.ways)
      × (cached c addr ≡ some old_line)
      × (has_tag (tag_of c addr) old_line ≡ true)
      × (old_line.tag ≡ tag_of c addr)
  found_lem = get_line-some b s c addr i v found

  old-length : length old_line.bytes ≡ 2 ^ b
  old-length = (get_set-IsGoodSet b s c v addr).block i found_lem.0

  new-length : length new_line.bytes ≡ 2 ^ b
  new-length = length-write_le 8 old_line.bytes (block_offset c addr) val ∙ old-length

  new-Fits : Fits (get_set c addr).lines i new_line
  new-Fits = λ _. inr (ground (arith, found_lem.2))

  new_set-IsGoodSet : IsGoodSet c.ways b s new_set
  new_set-IsGoodSet =
      let good = get_set-IsGoodSet b s c v addr in
      let ranked : IsRanked c.ways new_set good.stamp good.now = record {
        ranks = good.ranked.ranks;
        fresh = good.ranked.fresh;
      } in
      written_lines-IsGoodSet c.ways b s i (get_set c addr) new_line v.few_ways good found_lem.0
        new-Fits new-length (good.tags i found_lem.0) new_set good.stamp good.now refl ranked
        (λ full.
          good.victim (sym (find_invalid-set new_line (get_set c addr).lines i 0 refl) ∙ full))

  get_set-written : get_set written addr ≡ new_set
  unfolding get_set set_index
  get_set-written =
      get_or-set_self c.sets (set_index c addr) new_set no_set
        (rw (v.size) (set_index-lt b s c v addr))

  get_line-written : get_line written addr ≡ some i
  unfolding get_line tag_of
  get_line-written =
      rw get_set-written
        (find_line-set new_line (tag_of c addr) (get_set c addr).lines i 0 refl ∙ found)

  in_lines : i < length (get_set c addr).lines
  in_lines = rw ((get_set-IsGoodSet b s c v addr).size) found_lem.0

  line-written : line_at new_set i ≡ new_line
  line-written = get_or-set_self (get_set c addr).lines i new_line no_line in_lines

  set_word-eq : set_word_cache c addr val ≡ some written
  unfolding set_word_cache
  set_word-eq = rw found (ground (arith, offset-fits, old-length))

  get_word-eq : get_word_cache written addr ≡ some (val % 2 ^ 64)
  unfolding get_word_cache
  get_word-eq =
      rw (get_line-written, get_set-written, line-written)
        (ground (
          arith,
          offset-fits,
          new-length,
          read_le-write_le 8 old_line.bytes (block_offset c addr) val (rw old-length offset-fits),
        ))

  written-IsWordWrite : IsWordWrite b s c addr val written
  written-IsWordWrite = record {
    word = get_word-eq;
    lines = λ a. ground (
      arith,
      cached-update b s c v addr i found_lem.0 new_line new-Fits new_set a refl,
      found_lem,
      same_block-cached b s c v a addr,
      same_block-eq b s c a addr v.shape,
    );
    valid = put_set-IsValid b s c v addr new_set new_set-IsGoodSet;
  }

-- A word that lies within a block that is cached, in a valid cache, is written and read back; the
-- write reaches no other block and keeps the cache valid.
pub set_word-IsWordWrite :
    (b s : ℕ) (c : Cache) (addr val : ℕ)
    → IsValid b s c
    → is_some (cached c addr) ≡ true
    → addr % 2 ^ b + 8 ≤ 2 ^ b
    → (c' : Cache) × (set_word_cache c addr val ≡ some c') × IsWordWrite b s c addr val c'
set_word-IsWordWrite b s c addr val v present fits = elim (Option-cases (get_line c addr)) [
  | inl miss ↦ absurd (grind (arith, get_line-none c addr miss, present))
  | inr (i, found) ↦ (
    written b s c addr val v fits i found,
    set_word-eq b s c addr val v fits i found,
    written-IsWordWrite b s c addr val v fits i found,
  )
]
