-- ===== src/Cache/Update.antt =====
-- Replacing and using one line of a set, which is how a hit and a miss both change it.
use se_lab_public.Prelude.{
  ◌==◌, ◌&&◌, true, if◌then◌else◌, ℕ, ◌*◌, ◌^◌, ◌≤◌, ◌<◌, ◌≡◌, sym, subst, length, some, get_or,
  set, get_or-set_self, get_or-set_ne, length-set, ℕ_discrete, none, arith, ap,
}
use se_lab_public.Cache.{
  Cache, find_invalid, get_set, put_set, set_index, tag_of, CacheSet, Line, no_line, line_at,
  put_line, touch,
}
use se_lab_public.Cache.Shape.{same_block, same_block-eq}
use se_lab_public.Cache.Lines.{look-set, has_tag, Fits, Distinct-set, look}
use se_lab_public.Cache.Valid.{
  IsValid, cached, cached-put_set, get_set-IsGoodSet, IsGoodSet, IsRanked, touch_lem,
}
use se_lab_public.Cache.Lru.Victim.{IsOldest}

-- A property of lines that all lines of a set and the new one have, all lines after the write have.
set-all :
    (P : Line → Type 0) (ways i : ℕ) (t : CacheSet) (new : Line)
    → length t.lines ≡ ways
    → i < ways
    → ((j : ℕ) → j < ways → P (line_at t j))
    → P new
    → (j : ℕ) → j < ways
    → P (get_or (set t.lines i new) j no_line)
set-all P ways i t new size h old fresh j hj = elim (ℕ_discrete j i) [
  | yes e ↦
      subst (λ (k : ℕ). P (get_or (set t.lines i new) k no_line)) (sym e)
        (rw (get_or-set_self t.lines i new no_line (rw size h)) fresh)
  | no ne ↦ rw (get_or-set_ne t.lines i j new no_line (λ e. ne (sym e))) (old j hj)
]

module _ (ways b s i : ℕ) (t : CacheSet) (new : Line) (small : ways ≤ 8)
    (good : IsGoodSet ways b s t) (in_set : i < ways) (fits : Fits t.lines i new)
    (len : length new.bytes ≡ 2 ^ b) (tag : new.tag * (2 ^ b * 2 ^ s) < 2 ^ 64) where
  pub written_lines-IsGoodSet :
      (t' : CacheSet) (stamp : ℕ → ℕ) (now : ℕ)
      → t'.lines ≡ set t.lines i new
      → IsRanked ways t' stamp now
      → (find_invalid t'.lines 0 ≡ none → (t'.next_lru < ways) × IsOldest ways stamp t'.next_lru)
      → IsGoodSet ways b s t'
  written_lines-IsGoodSet t' stamp now e ranked victim = record {
    size = rw (e, length-set) (good.size);
    distinct = rw e (Distinct-set t.lines i new (rw (good.size) in_set) good.distinct fits);
    block =
        rw e (set-all (λ l. length l.bytes ≡ 2 ^ b) ways i t new good.size in_set good.block len);
    tags = rw e (
        set-all (λ l. l.tag * (2 ^ b * 2 ^ s) < 2 ^ 64) ways i t new good.size in_set good.tags
          tag);
    stamp = stamp;
    now = now;
    ranked = ranked;
    victim = victim;
  }

  -- The use succeeds and keeps the set good.
  pub update_lem :
      (t' : CacheSet) × (touch ways i (put_line t i new) ≡ some t')
      × (t'.lines ≡ set t.lines i new)
      × IsGoodSet ways b s t'
  update_lem =
      let ranked : IsRanked ways (put_line t i new) good.stamp good.now = record {
        ranks = good.ranked.ranks;
        fresh = good.ranked.fresh;
      } in
      let done = touch_lem ways i (put_line t i new) good.stamp good.now small in_set ranked in
      (
        done.0,
        done.1,
        done.2,
        written_lines-IsGoodSet done.0 _ _ done.2 done.3 (λ _. (done.4, done.5)),
      )

module _ (b s : ℕ) (c : Cache) (v : IsValid b s c) (addr i : ℕ) (in_set : i < c.ways) (new : Line)
    (fits : Fits (get_set c addr).lines i new) (t : CacheSet) (a : ℕ)
    (written : t.lines ≡ set (get_set c addr).lines i new) where
  -- After a line of its block was written for `addr`, the addresses of the block find that line,
  -- those of the block that it replaced find none, and all others what they found before.
  pub cached-update :
      new.valid ≡ true
      → new.tag ≡ tag_of c addr
      → cached (put_set c addr t) a ≡ (
          if same_block c a addr
          then some new
          else (if set_index c a == set_index c addr
                && has_tag (tag_of c a) (line_at (get_set c addr) i)
              then none
              else cached c a))
  cached-update valid tag =
      let good = get_set-IsGoodSet b s c v addr in
      ground (
        arith,
        cached-put_set b s c v addr t a,
        look-set (tag_of c a) (get_set c addr).lines i new (omega (arith, good.size)) good.distinct
            fits,
        ap (look (tag_of c a)) written,
        same_block-eq b s c a addr v.shape,
        look_of_index,
      )
    where
      look_of_index :
          (set_index c a ≡ set_index c addr) → look (tag_of c a) (get_set c addr).lines ≡ cached c a
      look_of_index e = unfold cached get_set in rw e
