-- ===== src/Mem/Cached/Hits.antt =====
-- Accesses to a block that is in the cache do not wait.
use se_lab_public.Prelude.{
  ℕ, zero, suc, ◌+◌, ◌/◌, ◌%◌, ◌^◌, ◌≤◌, ◌<◌, ◌≡◌, refl, sym, ◌∙◌, arith, true, some, is_some,
  subst, Bool,
}
use se_lab_public.Words.{u64}
use se_lab_public.Cache.{Operation, read}
use se_lab_public.Cache.Valid.{IsValid, cached}
use se_lab_public.Cache.Lookup.{IsLookup, check_hit-IsLookup}
use se_lab_public.Mem.Status.{ready}
use se_lab_public.Mem.Plain.Laws.{word_at, word_at_congr}
use se_lab_public.Mem.Cached.{Backed, serve, serve_from, mem_read_cache, end_read}
use se_lab_public.Mem.Cached.View.{IsBacked, view}
use se_lab_public.Mem.Cached.Reads.{one_byte, next_in_block, serve_from-Kept}
use se_lab_public.Mem.Cached.Ends.{hit-held, held-block}
use se_lab_public.Mem.Cached.Word.{get_word_cache-view}

module _ (b s : ℕ) (op : Operation) (addr : ℕ) (small : addr < 2 ^ 64) where
  serve-hit :
      (current : ℕ) (m : Backed)
      → current < 2 ^ 64
      → IsValid b s m.cache
      → is_some (cached m.cache current) ≡ true
      → (m' : Backed) × (serve op addr current m ≡ some (true, m'))
        × (is_some (cached m'.cache current) ≡ true)
        × (m'.flight ≡ m.flight)
  unfolding serve
  serve-hit current m word v held =
      let found = check_hit-IsLookup b s m.cache current op v in
      let hit = found.2.answer ∙ held in
      let l = subst (λ (t : Bool). IsLookup b s m.cache current op t found.0.1) hit found.2 in
      (
        record m { cache = found.0.1 },
        rw (found.1, hit) refl,
        hit-held b s op m.cache found.0.1 current l,
        refl,
      )

  pub serve_from-hit :
      (current n : ℕ) (m : Backed)
      → current < 2 ^ 64
      → IsBacked b s m.cache m.ptable
      → current / 2 ^ b ≡ addr / 2 ^ b
      → current % 2 ^ b + n ≤ 2 ^ b
      → is_some (cached m.cache addr) ≡ true
      → (m' : Backed) × (serve_from op addr current n m ≡ some (true, m'))
        × (is_some (cached m'.cache addr) ≡ true)
        × (m'.flight ≡ m.flight)
  unfolding serve_from
  serve_from-hit current zero m word v same fits held = (m, refl, held, refl)
  serve_from-hit current (suc zero) m word v same fits held =
      let here = held-block b s m.cache addr current v.valid (sym same) held in
      let one = serve-hit current m word v.valid here in
      let kept = one_byte b s op addr current m (true, one.0) small word v same one.1 in
      (
        one.0,
        rw (serve_from, one.1) refl,
        held-block b s one.0.cache current addr kept.backed.valid same one.2,
        one.3,
      )
  serve_from-hit current (suc (suc n)) m word v same fits held =
      let here = held-block b s m.cache addr current v.valid (sym same) held in
      let one = serve-hit current m word v.valid here in
      let kept = one_byte b s op addr current m (true, one.0) small word v same one.1 in
      let next = next_in_block b current n word (omega (arith, v.valid.shape.small)) fits in
      let rest =
        serve_from-hit (u64 (current + 1)) (suc n) one.0 (omega arith) kept.backed (next.0 ∙ same)
          next.1 (held-block b s one.0.cache current addr kept.backed.valid same one.2) in
      (rest.0, rw (serve_from, one.1) rest.1, rest.2, rest.3 ∙ one.3)

-- A read of a block that is cached answers at once, with the word of the memory.
pub mem_read_cache-hit :
    (b s addr : ℕ) (m : Backed)
    → addr < 2 ^ 64
    → IsBacked b s m.cache m.ptable
    → addr % 2 ^ b + 8 ≤ 2 ^ b
    → is_some (cached m.cache addr) ≡ true
    → (m' : Backed) × (mem_read_cache m addr 8
        ≡ some (word_at (view b m.cache m.ptable) addr 8, m'))
      × (m'.dmem_status ≡ ready)
unfolding mem_read_cache end_read
mem_read_cache-hit b s addr m small v fits held =
    let run = serve_from-hit b s read addr small addr 8 m small v refl fits held in
    let r = run.0 in
    let kept = serve_from-Kept b s read addr addr 8 m (true, r) small small v refl fits run.1 in
    let got = get_word_cache-view b s r.cache r.ptable addr kept.backed run.2 fits in
    let same =
      word_at_congr (view b r.cache r.ptable) (view b m.cache m.ptable) addr 8
        (λ a p q. kept.same a) in
    (record r { dmem_status = ready }, rw (run.1, got, same) refl, refl)
