-- ===== src/Mem/Cached/Ends.antt =====
-- The loop over the bytes of an access always ends: the byte is in the cache, or the access waits.
use se_lab_public.Mem.Cached.Reads.{next_in_block, one_byte}
use se_lab_public.Mem.Cached.{
  serve_from, Backed, block_start, count_cycle, finish_miss, serve, serve_miss,
}
use se_lab_public.Mem.Cached.View.{IsBacked}
use se_lab_public.Mem.Status.{in_flight}
use se_lab_public.Words.{u64}
use se_lab_public.Prelude.{
  ◌⊎◌, ℕ, zero, suc, ◌+◌, ◌/◌, ◌%◌, ◌^◌, ◌≤◌, ◌<◌, ◌≡◌, refl, sym, ap, ◌∙◌, arith, Bool, true,
  false, some, none, bind-some, some-injective, Bool-cases, Option-cases, inl, inr, subst, is_some,
  ==_refl, ltb,
}
use se_lab_public.Cache.Valid.{same_block-cached, IsValid, cached}
use se_lab_public.Cache.{Cache, Operation, check_hit}
use se_lab_public.Cache.Shape.{same_block}
use se_lab_public.Cache.Lookup.{after_hit, IsLookup, check_hit-IsLookup}
use se_lab_public.Mem.Cached.Delay.{finish_miss-IsServed}

-- What an access comes to: the byte is in the cache, or it waits for its block.
abbrev pub Ends : ℕ → Bool × Backed → Type 0
Ends a r =
    ((r.0 ≡ true) × (is_some (cached r.1.cache a) ≡ true))
    ⊎ ((r.0 ≡ false) × (r.1.dmem_status ≡ in_flight))

pub hit-held :
    (b s : ℕ) (op : Operation) (c c' : Cache) (a : ℕ)
    → IsLookup b s c a op true c'
    → is_some (cached c' a) ≡ true
hit-held b s op c c' a l = elim (Option-cases (cached c a)) [
  | inl n ↦ let bad : true ≡ false = rw n at l.answer in absurd (grind (arith, bad))
  | inr (x, n) ↦
      let now : cached c' a ≡ some (after_hit op x) =
        rw (==_refl (a / c.block_size), n) at (l.lines a) in
      rw now refl
]

miss-none :
    (b s : ℕ) (op : Operation) (c c' : Cache) (a : ℕ)
    → IsLookup b s c a op false c'
    → cached c' a ≡ none
miss-none b s op c c' a l = elim (Option-cases (cached c a)) [
  | inl n ↦ rw (==_refl (a / c.block_size), n) at (l.lines a)
  | inr (x, n) ↦ let bad : false ≡ true = rw n at l.answer in absurd (grind (arith, bad))
]

module _ (b s : ℕ) (op : Operation) (addr current : ℕ) (word : current < 2 ^ 64) where
  serve_miss-Ends :
      (m : Backed) (r : Bool × Backed)
      → IsValid b s m.cache
      → cached m.cache current ≡ none
      → serve_miss op addr current m ≡ some r
      → Ends current r
  unfolding serve_miss
  serve_miss-Ends m r v miss h =
      let f = count_cycle m.flight (block_start m.cache.block_size current) m.cache.delay in
      let m' : Backed = record m { flight = f } in
      elim (Bool-cases (ltb 0 f.cycles)) [
        | inl e ↦ subst (Ends current) (some-injective _ _ (rw e at h)) (inr (refl, refl))
        | inr e ↦
            let x = bind-some (finish_miss op addr current m') _ r (rw e at h) in
            let done = finish_miss-IsServed b s op addr current word m' v miss in
            let same : done.0 ≡ x.0 = some-injective _ _ (sym done.1 ∙ x.1) in
            subst (Ends current) (some-injective _ _ x.2) (
              inl (
                refl,
                subst (λ (t : Backed). is_some (cached t.cache current) ≡ true) same done.2.held,
              ))
      ]

  pub serve-Ends :
      (m : Backed) (r : Bool × Backed)
      → IsValid b s m.cache
      → serve op addr current m ≡ some r
      → Ends current r
  unfolding serve
  serve-Ends m r v h =
      let looked = bind-some (check_hit m.cache current op) _ r h in
      let found = check_hit-IsLookup b s m.cache current op v in
      let out : found.0 ≡ looked.0 = some-injective _ _ (sym found.1 ∙ looked.1) in
      let l = subst (λ (t : Bool × Cache). IsLookup b s m.cache current op t.0 t.1) out found.2 in
      let c' = looked.0.1 in
      let m' : Backed = record m { cache = c' } in
      elim (Bool-cases looked.0.0) [
        | inl e ↦
            let l' = subst (λ (t : Bool). IsLookup b s m.cache current op t c') e l in
            subst (Ends current) (some-injective _ _ (rw e at looked.2))
              (inl (refl, hit-held b s op m.cache c' current l'))
        | inr e ↦
            let l' = subst (λ (t : Bool). IsLookup b s m.cache current op t c') e l in
            serve_miss-Ends m' r l.valid (miss-none b s op m.cache c' current l') (rw e at looked.2)
      ]

  -- A lookup always ends.
  serve-some :
      (m : Backed) → IsValid b s m.cache → (r : Bool × Backed) × (serve op addr current m ≡ some r)
  unfolding serve serve_miss
  serve-some m v =
      let found = check_hit-IsLookup b s m.cache current op v in
      let l = found.2 in
      let m' : Backed = record m { cache = found.0.1 } in
      let f = count_cycle m.flight (block_start m'.cache.block_size current) m'.cache.delay in
      let m'' : Backed = record m' { flight = f } in
      elim (Bool-cases found.0.0) [
        | inl e ↦ ((true, m'), rw (found.1, e) refl)
        | inr e ↦ elim (Bool-cases (ltb 0 f.cycles)) [
          | inl k ↦ ((false, record m'' { dmem_status = in_flight }), rw (found.1, e, k) refl)
          | inr k ↦
              let l' = subst (λ (t : Bool). IsLookup b s m.cache current op t found.0.1) e l in
              let done =
                finish_miss-IsServed b s op addr current word m'' l.valid
                  (miss-none b s op m.cache found.0.1 current l') in
              ((true, done.0), rw (found.1, e, k, done.1) refl)
        ]
      ]

-- The same for another byte of the block.
pub held-block :
    (b s : ℕ) (c : Cache) (a p : ℕ)
    → IsValid b s c
    → a / 2 ^ b ≡ p / 2 ^ b
    → is_some (cached c a) ≡ true
    → is_some (cached c p) ≡ true
held-block b s c a p v same held =
    let block : same_block c a p ≡ true = rw (v.shape.block, same) (==_refl (p / 2 ^ b)) in
    rw (← same_block-cached b s c v a p block) held

Ends-block :
    (b s : ℕ) (a p : ℕ) (r : Bool × Backed)
    → IsValid b s r.1.cache
    → a / 2 ^ b ≡ p / 2 ^ b
    → Ends a r
    → Ends p r
Ends-block b s a p r v same h = elim h [
  | inl (e, held) ↦ inl (e, held-block b s r.1.cache a p v same held)
  | inr waits ↦ inr waits
]

pub serve_from-Ends :
    (b s : ℕ) (op : Operation) (addr current n : ℕ) (m : Backed)
    → addr < 2 ^ 64
    → current < 2 ^ 64
    → IsBacked b s m.cache m.ptable
    → current / 2 ^ b ≡ addr / 2 ^ b
    → current % 2 ^ b + suc n ≤ 2 ^ b
    → (r : Bool × Backed) × (serve_from op addr current (suc n) m ≡ some r) × Ends addr r
unfolding serve_from
serve_from-Ends b s op addr current zero m word word' v same fits =
    let one = serve-some b s op addr current word' m v.valid in
    let kept = one_byte b s op addr current m one.0 word word' v same one.1 in
    let ends =
      Ends-block b s current addr one.0 kept.backed.valid same
        (serve-Ends b s op addr current word' m one.0 v.valid one.1) in
    elim (Bool-cases one.0.0) [
      | inl e ↦
          (one.0, rw (serve_from, one.1, e) (ap (λ (t : Bool). some (t, one.0.1)) (sym e)), ends)
      | inr e ↦ (one.0, rw (serve_from, one.1, e) refl, ends)
    ]
serve_from-Ends b s op addr current (suc n) m word word' v same fits =
    let one = serve-some b s op addr current word' m v.valid in
    let kept = one_byte b s op addr current m one.0 word word' v same one.1 in
    let ends =
      Ends-block b s current addr one.0 kept.backed.valid same
        (serve-Ends b s op addr current word' m one.0 v.valid one.1) in
    let next = next_in_block b current n word' (omega (arith, v.valid.shape.small)) fits in
    elim (Bool-cases one.0.0) [
      | inl e ↦
          let later =
            serve_from-Ends b s op addr (u64 (current + 1)) n one.0.1 word (omega arith) kept.backed
              (next.0 ∙ same) next.1 in
          (later.0, rw (serve_from, one.1, e) later.1, later.2)
      | inr e ↦ (one.0, rw (serve_from, one.1, e) refl, ends)
    ]
