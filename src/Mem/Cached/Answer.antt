-- ===== src/Mem/Cached/Answer.antt =====
-- What `_mem_read_cache` answers.
use se_lab_public.Mem.Cached.Reads.{serve_from-Kept}
use se_lab_public.Mem.Cached.{mem_read_cache, end_read, Backed}
use se_lab_public.Mem.Plain.Laws.{word_at_congr, word_at}
use se_lab_public.Mem.Cached.View.{IsKept, view, IsBacked}
use se_lab_public.Mem.Status.{ready, in_flight}
use se_lab_public.Mem.Cached.Block.{is_past}
use se_lab_public.Mem.Cached.Overread.{is_ready, is_missing, serve_from-overread}
use se_lab_public.Prelude.{◌⊎◌, ℕ, ◌+◌, ◌%◌, ◌^◌, ◌≤◌, ◌<◌, ◌≡◌, refl, some, inl, inr, ◌&&◌, ◌||◌}
use se_lab_public.Cache.{read}
use se_lab_public.Mem.Cached.Word.{get_word_cache-view}
use se_lab_public.Mem.Cached.Ends.{serve_from-Ends}

-- What `_mem_read_cache` comes to: the word of the memory, or an access that waits. In both cases
-- every byte of the memory stays, and so do the validity of the cache and what its clean lines have
-- in common with the pages.
pub record IsRead (b s addr : ℕ) (m : Backed) (word : ℕ) (m' : Backed) : Type 0 where
  pub kept : IsKept b s m.cache m.ptable m'.cache m'.ptable
  pub answer :
      ((word ≡ word_at (view b m.cache m.ptable) addr 8) × (m'.dmem_status ≡ ready))
      ⊎ ((word ≡ 0) × (m'.dmem_status ≡ in_flight))
  pub past : m'.flight.overread ≡ (
      m.flight.overread
      || (is_ready m'.dmem_status && is_missing (some m.cache) addr && is_past read b addr))

-- Where a valid cache is in step with the pages, a read through it of 8 bytes of one block, at a
-- 64-bit address, always returns. It answers with the word that the cache and the pages together
-- hold there, or leaves the access waiting; in both cases no byte of that memory changes, with
-- whatever lines are fetched, evicted and written back, and the cache stays in step with the pages.
-- What C leaves undefined on the way is noted in the state: the counters may overflow, and the flag
-- for a read past the end of a fetched block is set in exactly one case, where the access is ready,
-- its address was not in the cache before, and 8 bytes at 8 times its offset are not all in the
-- block.
pub mem_read_cache-IsRead :
    (b s addr : ℕ) (m : Backed)
    → addr < 2 ^ 64
    → IsBacked b s m.cache m.ptable
    → addr % 2 ^ b + 8 ≤ 2 ^ b
    → (out : ℕ × Backed) × (mem_read_cache m addr 8 ≡ some out) × IsRead b s addr m out.0 out.1
unfolding mem_read_cache end_read
mem_read_cache-IsRead b s addr m word v fits =
    let run = serve_from-Ends b s read addr addr 7 m word word v refl fits in
    let r = run.0 in
    let kept = serve_from-Kept b s read addr addr 8 m r word word v refl fits run.1 in
    let over = serve_from-overread b s read addr 6 m r word v fits run.1 in
    elim run.2 [
      | inl (e, held) ↦
          let got = get_word_cache-view b s r.1.cache r.1.ptable addr kept.backed held fits in
          let same =
            word_at_congr (view b r.1.cache r.1.ptable) (view b m.cache m.ptable) addr 8
              (λ a p q. kept.same a) in
          (
            (word_at (view b r.1.cache r.1.ptable) addr 8, record (r.1) { dmem_status = ready }),
            rw (run.1, e, got) refl,
            record {
              kept = record { backed = kept.backed; same = kept.same };
              answer = inl (same, refl);
              past = rw e at over;
            },
          )
      | inr (e, waits) ↦ (
        (0, r.1),
        rw (run.1, e) refl,
        record { kept = kept; answer = inr (refl, waits); past = rw waits (rw e at over) },
      )
    ]
