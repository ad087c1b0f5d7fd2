-- ===== src/Mem/Cached/Overread.antt =====
-- When a read takes its word from outside of the block that it fetched.
use se_lab_public.Prelude.{
  ℕ, suc, ◌+◌, ◌%◌, ◌^◌, ◌≤◌, ◌<◌, ◌≡◌, refl, sym, ap, ◌∙◌, arith, Bool, true, false, not, ◌&&◌,
  ◌||◌, ltb, Option, none, some, bind-some, some-injective, Bool-cases, inl, inr, subst, is_some,
}
use se_lab_public.Words.{u64}
use se_lab_public.Cache.{Cache, Operation, check_hit, handle_miss}
use se_lab_public.Cache.Lookup.{IsLookup, check_hit-IsLookup}
use se_lab_public.Cache.Valid.{IsValid, cached}
use se_lab_public.Mem.Cached.{
  Flight, Backed, block_start, fetched_block, fill_block, count_cycle, reads_past, finish_miss,
  serve_miss, serve, serve_from,
}
use se_lab_public.Mem.Status.{MemStatus, ready, in_flight}
use se_lab_public.Mem.Cached.Block.{is_past, reads_past-is_past}
use se_lab_public.Mem.Cached.View.{IsBacked}
use se_lab_public.Mem.Cached.Reads.{next_in_block, one_byte}
use se_lab_public.Mem.Cached.Ends.{serve-Ends}
use se_lab_public.Mem.Cached.Hits.{serve_from-hit}

abbrev pub is_ready : MemStatus → Bool
is_ready ready = true
is_ready in_flight = false

-- Whether an address is in no line of a cache, or there is none.
abbrev pub is_missing : Option Cache → ℕ → Bool
is_missing none addr = true
is_missing (some c) addr = not (is_some (cached c addr))

count_cycle-overread :
    (f : Flight) (block delay : ℕ) → (count_cycle f block delay).overread ≡ f.overread
unfolding count_cycle
count_cycle-overread f block delay = ground arith

module _ (b s : ℕ) (op : Operation) (addr current : ℕ) (word : current < 2 ^ 64) where
  finish_miss-overread :
      (m m' : Backed)
      → m.cache.block_size ≡ 2 ^ b
      → finish_miss op addr current m ≡ some m'
      → m'.flight.overread ≡ (m.flight.overread || is_past op b addr)
  unfolding finish_miss
  finish_miss-overread m m' size h =
      let c = m.cache in
      let filled =
        fill_block m.segs m.ptable (fetched_block op c.block_size addr current) 0 c.block_size in
      let p =
        bind-some (handle_miss c (block_start c.block_size current) op (some filled.0)) _ m' h in
      let past : reads_past op c.block_size addr ≡ is_past op b addr =
        ap (λ (n : ℕ). reads_past op n addr) size ∙ reads_past-is_past op b addr in
      ap (λ (t : Backed). t.flight.overread) (sym (some-injective _ _ p.2))
      ∙ ap (λ (t : Bool). m.flight.overread || t) past

  serve_miss-overread :
      (m : Backed) (r : Bool × Backed)
      → m.cache.block_size ≡ 2 ^ b
      → serve_miss op addr current m ≡ some r
      → r.1.flight.overread ≡ (m.flight.overread || (r.0 && is_past op b addr))
  unfolding serve_miss
  serve_miss-overread m r size h =
      let f = count_cycle m.flight (block_start m.cache.block_size current) m.cache.delay in
      let m' : Backed = record m { flight = f } in
      let same =
        count_cycle-overread m.flight (block_start m.cache.block_size current) m.cache.delay in
      elim (Bool-cases (ltb 0 f.cycles)) [
        | inl e ↦
            subst
              (λ (t : Bool × Backed).
                t.1.flight.overread ≡ (m.flight.overread || (t.0 && is_past op b addr)))
              (some-injective _ _ (rw e at h)) (ground (arith, same))
        | inr e ↦
            let done = bind-some (finish_miss op addr current m') _ r (rw e at h) in
            let over = finish_miss-overread m' done.0 size done.1 in
            subst
              (λ (t : Bool × Backed).
                t.1.flight.overread ≡ (m.flight.overread || (t.0 && is_past op b addr)))
              (some-injective _ _ done.2) (ground (arith, same, over))
      ]

  -- A lookup reads past the block exactly if it ends a miss of a read at such an offset.
  serve-overread :
      (m : Backed) (r : Bool × Backed)
      → IsValid b s m.cache
      → serve op addr current m ≡ some r
      → r.1.flight.overread ≡ (
          m.flight.overread || (r.0 && not (is_some (cached m.cache current)) && is_past op b addr))
  unfolding serve
  serve-overread m r v h =
      let looked = bind-some (check_hit m.cache current op) _ r h in
      let found = check_hit-IsLookup b s m.cache current op v in
      let out : found.0 ≡ looked.0 = some-injective _ _ (sym found.1 ∙ looked.1) in
      let l = subst (λ (t : Bool × Cache). IsLookup b s m.cache current op t.0 t.1) out found.2 in
      let m' : Backed = record m { cache = looked.0.1 } in
      elim (Bool-cases looked.0.0) [
        | inl e ↦
            subst
              (λ (t : Bool × Backed). t.1.flight.overread ≡ (
                m.flight.overread
                || (t.0 && not (is_some (cached m.cache current)) && is_past op b addr)))
              (some-injective _ _ (rw e at looked.2)) (ground (arith, e, l.answer))
        | inr e ↦
            let over = serve_miss-overread m' r l.valid.shape.block (rw e at looked.2) in
            ground (arith, e, l.answer, over)
      ]

-- So does the whole access, which misses at its first byte or not at all.
pub serve_from-overread :
    (b s : ℕ) (op : Operation) (addr n : ℕ) (m : Backed) (r : Bool × Backed)
    → addr < 2 ^ 64
    → IsBacked b s m.cache m.ptable
    → addr % 2 ^ b + suc (suc n) ≤ 2 ^ b
    → serve_from op addr addr (suc (suc n)) m ≡ some r
    → r.1.flight.overread
      ≡ (m.flight.overread || (r.0 && not (is_some (cached m.cache addr)) && is_past op b addr))
unfolding serve_from
serve_from-overread b s op addr n m r word v fits h =
    let one = bind-some (serve op addr addr m) _ r h in
    let over = serve-overread b s op addr addr word m one.0 v.valid one.1 in
    let kept = one_byte b s op addr addr m one.0 word word v refl one.1 in
    let next = next_in_block b addr n word (omega (arith, v.valid.shape.small)) fits in
    elim (Bool-cases one.0.0) [
      | inr e ↦
          subst
            (λ (t : Bool × Backed). t.1.flight.overread ≡ (
              m.flight.overread
              || (t.0 && not (is_some (cached m.cache addr)) && is_past op b addr)))
            (some-injective _ _ (rw e at one.2)) over
      | inl e ↦ elim (serve-Ends b s op addr addr word m one.0 v.valid one.1) [
        | inr (waits, status) ↦ absurd (grind (arith, e, waits))
        | inl (done, held) ↦
            let rest =
              serve_from-hit b s op addr word (u64 (addr + 1)) (suc n) one.0.1 (omega arith)
                kept.backed next.0 next.1 held in
            let same : (true, rest.0) ≡ r = some-injective _ _ (sym rest.1 ∙ (rw e at one.2)) in
            subst
              (λ (t : Bool × Backed). t.1.flight.overread ≡ (
                m.flight.overread
                || (t.0 && not (is_some (cached m.cache addr)) && is_past op b addr)))
              same (ap (λ (f : Flight). f.overread) rest.3 ∙ (rw e at over))
      ]
    ]
