-- ===== src/Mem/Cached/Store.antt =====
-- What `_mem_write_cache` does to the memory.
use se_lab_public.Mem.Cached.Overread.{serve_from-overread}
use se_lab_public.Prelude.{
  ℕ, ◌+◌, ◌%◌, ◌^◌, ◌≤◌, ◌<◌, ◌≡◌, refl, ap, ◌∙◌, arith, some, ◌⊎◌, inl, inr,
}
use se_lab_public.Cache.{write}
use se_lab_public.Cache.Word.{set_word-IsWordWrite}
use se_lab_public.Mem.Status.{ready, in_flight}
use se_lab_public.Mem.Plain.Laws.{with_word, word_at_congr, word_at-with_word_lem}
use se_lab_public.Mem.Cached.{Backed, end_write, mem_write_cache, mem_read_cache}
use se_lab_public.Mem.Cached.View.{IsBacked, view}
use se_lab_public.Mem.Cached.Reads.{serve_from-Kept}
use se_lab_public.Mem.Cached.Hits.{mem_read_cache-hit}
use se_lab_public.Mem.Cached.Ends.{serve_from-Ends}
use se_lab_public.Mem.Cached.Written.{written-IsBacked, written-view, written-held}

-- What a write comes to: the memory has the word, or it is as before and the access waits. The cache
-- stays in step with the pages in both cases.
pub record IsWrite (b s addr word : ℕ) (m m' : Backed) : Type 0 where
  pub backed : IsBacked b s m'.cache m'.ptable
  pub past : m'.flight.overread ≡ m.flight.overread
  pub effect :
      ((m'.dmem_status ≡ ready)
        × ((a : ℕ)
            → view b m'.cache m'.ptable a ≡ with_word (view b m.cache m.ptable) addr word 8 a)
        × ((m'' : Backed) × (mem_read_cache m' addr 8 ≡ some (word % 2 ^ 64, m''))
            × (m''.dmem_status ≡ ready)))
      ⊎ ((m'.dmem_status ≡ in_flight)
          × ((a : ℕ) → view b m'.cache m'.ptable a ≡ view b m.cache m.ptable a))

-- Where a valid cache is in step with the pages, a write through it of 8 bytes of one block, at a
-- 64-bit address, always ends normally. Either the access is ready, and of the bytes that the cache
-- and the pages together hold exactly those of the word are changed, to the word, which a read of
-- the same address then answers at once; or the access waits, and no byte is changed. In both cases
-- the cache stays in step with the pages, with whatever lines are fetched, evicted and written
-- back; a counter may overflow, and no read goes past the end of a fetched block.
pub mem_write_cache-IsWrite :
    (b s addr word : ℕ) (m : Backed)
    → addr < 2 ^ 64
    → IsBacked b s m.cache m.ptable
    → addr % 2 ^ b + 8 ≤ 2 ^ b
    → (m' : Backed) × (mem_write_cache m addr word 8 ≡ some m') × IsWrite b s addr word m m'
unfolding mem_write_cache end_write
mem_write_cache-IsWrite b s addr word m small v fits =
    let run = serve_from-Ends b s write addr addr 7 m small small v refl fits in
    let r = run.0 in
    let kept = serve_from-Kept b s write addr addr 8 m r small small v refl fits run.1 in
    let over : r.1.flight.overread ≡ m.flight.overread =
      ground (arith, serve_from-overread b s write addr 6 m r small v fits run.1) in
    elim run.2 [
      | inl (e, held) ↦
          let wrote = set_word-IsWordWrite b s r.1.cache addr word kept.backed.valid held fits in
          let c' = wrote.0 in
          let changed =
            written-view b s r.1.cache r.1.ptable addr word kept.backed fits c' wrote.2 held in
          let m' : Backed = record (r.1) { cache = c'; dmem_status = ready } in
          let backed =
            written-IsBacked b s r.1.cache r.1.ptable addr word kept.backed fits c' wrote.2 in
          let after : (a : ℕ)
              → view b c' r.1.ptable a ≡ with_word (view b m.cache m.ptable) addr word 8 a =
            λ a. changed a ∙ ground (arith, kept.same a) in
          let got =
            mem_read_cache-hit b s addr m' small backed fits
              (written-held b s r.1.cache r.1.ptable addr word kept.backed fits c' wrote.2 held) in
          let value =
            word_at_congr (view b c' r.1.ptable) (with_word (view b m.cache m.ptable) addr word 8)
              addr 8 (λ a p q. after a)
            ∙ word_at-with_word_lem (view b m.cache m.ptable) addr word 8 8 (omega arith) in
          (
            m',
            rw (run.1, e, wrote.1) refl,
            record {
              backed = backed;
              past = over;
              effect =
                  inl (refl, after, (got.0, got.1 ∙ ap (λ (t : ℕ). some (t, got.0)) value, got.2));
            },
          )
      | inr (e, waits) ↦ (
        r.1,
        rw (run.1, e) refl,
        record { backed = kept.backed; past = over; effect = inr (waits, kept.same) },
      )
    ]
