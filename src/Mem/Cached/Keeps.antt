-- ===== src/Mem/Cached/Keeps.antt =====
-- An access through the cache leaves every byte as it is, up to the word that it writes.
use se_lab_public.Prelude.{
  refl, inl, inr, Option-cases, Bool-cases, ℕ, ◌+◌, ◌*◌, ◌/◌, ◌^◌, ◌≤◌, ◌<◌, ◌≡◌, sym, ap, ◌∙◌,
  arith, true, ◌&&◌, ==_refl, if◌then◌else◌, some, none, bind-some, some-injective, subst, Bool,
  false, is_some, ltb,
}
use mathlib.Core.Option
use se_lab_public.Cache.{Cache, Operation, EvictedLine, handle_miss, check_hit}
use se_lab_public.Cache.Lookup.{after_hit, IsLookup, check_hit-IsLookup}
use se_lab_public.Mem.Ptable.Laws.{byte_at}
use se_lab_public.Cache.Shape.{same_block}
use se_lab_public.Cache.Valid.{cached, same_block-cached}
use se_lab_public.Cache.Fill.{handle_miss-IsFill}
use se_lab_public.Mem.Cached.{
  Backed, block_start, note_read, fetched_block, fill_block, write_back, landed, finish_miss, serve,
  serve_miss, count_cycle,
}
use se_lab_public.Mem.Cached.Block.{block_start-whole, length-fill_block}
use se_lab_public.Mem.Cached.Transfer.{fill_block_lem}
use se_lab_public.Mem.Cached.View.{IsBacked, IsKept, lookup-IsKept}
use se_lab_public.Mem.Cached.Refill.{refill-IsKept}

abbrev pub Kept : ℕ → ℕ → Backed → Backed → Type 0
Kept b s m m' = IsKept b s m.cache m.ptable m'.cache m'.ptable

pub Kept-trans : (b s : ℕ) (m m' m'' : Backed) → Kept b s m m' → Kept b s m' m'' → Kept b s m m''
Kept-trans b s m m' m'' h k = record { backed = k.backed; same = λ a. k.same a ∙ h.same a }

module _ (b s : ℕ) (op : Operation) (addr current : ℕ) (word : current < 2 ^ 64) where
  finish_miss-Kept :
      (m m' : Backed)
      → IsBacked b s m.cache m.ptable
      → cached m.cache current ≡ none
      → fetched_block op m.cache.block_size addr current ≡ block_start m.cache.block_size current
      → finish_miss op addr current m ≡ some m'
      → Kept b s m m'
  unfolding finish_miss
  finish_miss-Kept m m' v miss here h =
      let c = m.cache in
      let size = v.valid.shape.block in
      let start = block_start c.block_size current in
      let whole : (start / 2 ^ b * 2 ^ b ≡ start)
          × (start / 2 ^ b ≡ current / 2 ^ b)
          × (start + 2 ^ b ≤ 2 ^ 64) =
        rw size (block_start-whole b current word (omega (arith, v.valid.shape.small))) in
      let same : same_block c start current ≡ true =
        let t : start / c.block_size ≡ current / c.block_size =
          subst (λ (n : ℕ). start / n ≡ current / n) (sym size) whole.1 in
        rw t (==_refl (current / c.block_size)) in
      let absent : cached c start ≡ none =
        same_block-cached b s c v.valid start current same ∙ miss in
      let filled =
        fill_block m.segs m.ptable (fetched_block op c.block_size addr current) 0 c.block_size in
      let fetched =
        fill_block_lem m.segs (fetched_block op c.block_size addr current) c.block_size 0 m.ptable
          v.pages (omega (arith, here, whole.2, size)) in
      let placed =
        handle_miss-IsFill b s c start op v.valid (omega (arith, whole.2)) absent (some filled.0) (
          length-fill_block m.segs m.ptable (fetched_block op c.block_size addr current) 0
            c.block_size
          ∙ size) in
      let p = bind-some (handle_miss c start op (some filled.0)) _ m' h in
      let out : p.0 ≡ placed.0 = some-injective _ _ (sym p.1 ∙ placed.1) in
      let e = placed.0.0 in
      let core : Kept b s m (landed (note_read op addr m) filled placed.0) =
        subst
          (λ (n : ℕ).
            IsKept b s c m.ptable placed.0.1 (
              if e.valid && e.dirty
              then write_back filled.1 e.block_addr e.bytes 0 n
              else filled.1))
          (sym size)
          (refill-IsKept b s c m.ptable filled.1 v start op filled.0 e placed.0.1 placed.2 whole.0
            absent
            (λ i k. fetched.0 i (omega (arith, k, size)) ∙ ap (byte_at m.ptable) (shifted here i))
            fetched.1) in
      subst (Kept b s m) (some-injective _ _ p.2) (
        subst (λ (q : EvictedLine × Cache). Kept b s m (landed (note_read op addr m) filled q))
          (sym out) core)
    where
      shifted : {x y : ℕ} → x ≡ y → (i : ℕ) → x + 0 + i ≡ y + i
      shifted h i = omega (arith, h)

  module _ (here : fetched_block op (2 ^ b) addr current ≡ block_start (2 ^ b) current) where
    serve_miss-Kept :
        (m : Backed) (r : Bool × Backed)
        → IsBacked b s m.cache m.ptable
        → cached m.cache current ≡ none
        → serve_miss op addr current m ≡ some r
        → Kept b s m r.1
    unfolding serve_miss
    serve_miss-Kept m r v miss h =
        let f = count_cycle m.flight (block_start m.cache.block_size current) m.cache.delay in
        let m' : Backed = record m { flight = f } in
        elim (Bool-cases (ltb 0 f.cycles)) [
          | inl e ↦
              subst (λ (t : Bool × Backed). Kept b s m t.1) (some-injective _ _ (rw e at h))
                (record { backed = v; same = λ a. refl })
          | inr e ↦
              let done = bind-some (finish_miss op addr current m') _ r (rw e at h) in
              subst (λ (t : Bool × Backed). Kept b s m t.1) (some-injective _ _ done.2)
                (finish_miss-Kept m' done.0 v miss (rw (v.valid.shape.block) here) done.1)
        ]

    pub serve-Kept :
        (m : Backed) (r : Bool × Backed)
        → IsBacked b s m.cache m.ptable
        → serve op addr current m ≡ some r
        → Kept b s m r.1
    unfolding serve
    serve-Kept m r v h =
        let looked = bind-some (check_hit m.cache current op) _ r h in
        let found = check_hit-IsLookup b s m.cache current op v.valid in
        let out : found.0 ≡ looked.0 = some-injective _ _ (sym found.1 ∙ looked.1) in
        let l = subst (λ (t : Bool × Cache). IsLookup b s m.cache current op t.0 t.1) out found.2 in
        let kept = lookup-IsKept b s m.cache m.ptable v current op looked.0.0 looked.0.1 l in
        let m' : Backed = record m { cache = looked.0.1 } in
        elim (Bool-cases looked.0.0) [
          | inl e ↦
              subst (λ (t : Bool × Backed). Kept b s m t.1) (some-injective _ _ (rw e at looked.2))
                kept
          | inr e ↦ Kept-trans b s m m' r.1 kept (
              serve_miss-Kept m' r kept.backed
                (missing m looked.0.1 (λ a. l.lines a) (sym e ∙ l.answer)) (rw e at looked.2))
        ]
      where
        missing :
            (m : Backed) (c' : Cache)
            → ((a : ℕ)
                → cached c' a ≡ (
                    if same_block m.cache a current
                    then Option.map (after_hit op) (cached m.cache a)
                    else cached m.cache a))
            → false ≡ is_some (cached m.cache current)
            → cached c' current ≡ none
        missing m c' lines absent = elim (Option-cases (cached m.cache current)) [
          | inl n ↦ rw (lines current, ==_refl (current / m.cache.block_size), n) refl
          | inr (l, n) ↦ let bad : false ≡ true = rw n at absent in absurd (grind (arith, bad))
        ]
