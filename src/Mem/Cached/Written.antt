-- ===== src/Mem/Cached/Written.antt =====
-- What a word that `set_word_cache` writes changes in the bytes that the cache and the pages hold.
use native.Mathlib.Nat.{mod-lt, mod-add-div', mul-div_cancel, one-le-pow}
use se_lab_public.Cache.Lookup.{cached-length}
use se_lab_public.Prelude.{
  ℕ, ◌+◌, ◌-◌, ◌*◌, ◌/◌, ◌%◌, ◌^◌, ◌≤◌, ◌<◌, ◌≡◌, refl, sym, ap, ◌∙◌, arith, true, false, ◌==◌,
  ◌&&◌, leb, ltb, if◌then◌else◌, some, none, some-injective, Option-cases, Bool-cases, inl, inr,
  ◌⊎◌, is_some, get_or, ==_refl,
}
use se_lab_public.Bytes.{get_or-write_le}
use se_lab_public.Cache.{Cache, Line}
use se_lab_public.Cache.Shape.{same_block, block_offset-eq}
use se_lab_public.Cache.Valid.{cached, same_block-cached}
use se_lab_public.Cache.Word.{written_line, IsWordWrite}
use se_lab_public.Mem.Ptable.{Ptable}
use se_lab_public.Mem.Plain.Laws.{with_word}
use se_lab_public.Mem.Cached.View.{IsBacked, view}
use se_lab_public.Mem.Cached.Refill.{in_range}

-- The byte of a block at the offset of an address, once a word is written to the block.
word_in_block :
    (b addr word a old : ℕ)
    → (a / 2 ^ b == addr / 2 ^ b) ≡ true
    → (if leb (addr % 2 ^ b) (a % 2 ^ b) && ltb (a % 2 ^ b) (addr % 2 ^ b + 8)
        then word / 2 ^ (8 * (a % 2 ^ b - addr % 2 ^ b)) % 2 ^ 8
        else old)
      ≡ (if leb addr a && ltb a (addr + 8) then word / 2 ^ (8 * (a - addr)) % 2 ^ 8 else old)
word_in_block b addr word a old same =
    let q : a / 2 ^ b * 2 ^ b ≡ addr / 2 ^ b * 2 ^ b =
      ap (λ (t : ℕ). t * 2 ^ b) (ground (arith, same)) in
    let up = mod-add-div' a (2 ^ b) in
    let low = mod-add-div' addr (2 ^ b) in
    let test : (leb (addr % 2 ^ b) (a % 2 ^ b) && ltb (a % 2 ^ b) (addr % 2 ^ b + 8))
        ≡ (leb addr a && ltb a (addr + 8)) =
      ground (arith, q, up, low) in
    let gap : a % 2 ^ b - addr % 2 ^ b ≡ a - addr = omega (arith, q, up, low) in rw (test, gap) refl

-- An address of another block is outside of the word.
other_block :
    (b addr a : ℕ)
    → addr % 2 ^ b + 8 ≤ 2 ^ b
    → (a / 2 ^ b == addr / 2 ^ b) ≡ false
    → (leb addr a && ltb a (addr + 8)) ≡ false
other_block b addr a fits other =
    let p = addr / 2 ^ b * 2 ^ b in
    let cancel : p / 2 ^ b ≡ addr / 2 ^ b =
      mul-div_cancel (addr / 2 ^ b) (one-le-pow b 2 (omega arith)) in
    let range = in_range b a p (ap (λ (t : ℕ). t * 2 ^ b) cancel) in
    let out : (leb p a && ltb a (p + 2 ^ b)) ≡ false = range ∙ rw cancel other in
    ground (arith, out, mod-add-div' addr (2 ^ b), fits)

module _ (b s : ℕ) (c : Cache) (pt : Ptable) (addr word : ℕ) (v : IsBacked b s c pt)
    (fits : addr % 2 ^ b + 8 ≤ 2 ^ b) (c' : Cache) (w : IsWordWrite b s c addr word c') where
  same_block-two_pow : (x y : ℕ) → same_block c x y ≡ (x / 2 ^ b == y / 2 ^ b)
  same_block-two_pow x y = rw (v.valid.shape.block) refl

  bytes-written :
      (a j : ℕ) (l : Line)
      → cached c a ≡ some l
      → get_or (written_line c addr word l).bytes j 0 ≡ (
          if leb (addr % 2 ^ b) j && ltb j (addr % 2 ^ b + 8)
          then word / 2 ^ (8 * (j - addr % 2 ^ b)) % 2 ^ 8
          else get_or l.bytes j 0)
  bytes-written a j l held =
      let off = block_offset-eq b s c v.valid.shape addr in
      rw off (
        get_or-write_le 8 l.bytes (addr % 2 ^ b) word j
          (rw (cached-length b s c a l v.valid held) fits))

  line_after :
      (a : ℕ) (l' : Line)
      → cached c' a ≡ some l'
      → ((l : Line) × (cached c a ≡ some l) × (written_line c addr word l ≡ l'))
        ⊎ (cached c a ≡ some l')
  line_after a l' e =
      let lines = rw (same_block-two_pow a addr) at (w.lines a) in
      elim (Bool-cases (a / 2 ^ b == addr / 2 ^ b)) [
        | inl k ↦ elim (Option-cases (cached c a)) [
          | inl n ↦
              let now : cached c' a ≡ none = rw (k, n) at lines in
              let bad : some l' ≡ none = sym e ∙ now in absurd (grind (arith, bad))
          | inr (l, n) ↦
              let now : cached c' a ≡ some (written_line c addr word l) = rw (k, n) at lines in
              inl (l, n, some-injective _ _ (sym now ∙ e))
        ]
        | inr k ↦ let now : cached c' a ≡ cached c a = rw k at lines in inr (sym now ∙ e)
      ]

  -- The lines hold bytes still, and the line of the word is dirty.
  pub written-IsBacked : IsBacked b s c' pt
  written-IsBacked = record {
    valid = w.valid;
    pages = v.pages;
    bytes = λ a i l' e lt. elim (line_after a l' e) [
      | inl (l, n, same) ↦ rw (← same) (byte_after a i l n (v.bytes a i l n lt))
      | inr n ↦ v.bytes a i l' n lt
    ];
    clean = λ a l' e d. elim (line_after a l' e) [
      | inl (l, n, same) ↦
          let bad : true ≡ false = ap (λ (t : Line). t.dirty) same ∙ d in
          absurd (grind (arith, bad))
      | inr n ↦ v.clean a l' n d
    ];
  }
    where
      byte_after :
          (a i : ℕ) (l : Line)
          → cached c a ≡ some l
          → get_or l.bytes i 0 < 2 ^ 8
          → get_or (written_line c addr word l).bytes i 0 < 2 ^ 8
      byte_after a i l n lt =
          rw (bytes-written a i l n)
            (ground (arith, lt, mod-lt (word / 2 ^ (8 * (i - addr % 2 ^ b))) {m = 2 ^ 8}))

  -- The bytes of the word change, and no other byte does.
  pub written-view :
      is_some (cached c addr) ≡ true
      → (a : ℕ) → view b c' pt a ≡ with_word (view b c pt) addr word 8 a
  unfolding view
  written-view held a =
      let lines = rw (same_block-two_pow a addr) at (w.lines a) in
      elim (Bool-cases (a / 2 ^ b == addr / 2 ^ b)) [
        | inr k ↦
            let now : cached c' a ≡ cached c a = rw k at lines in
            rw (now, other_block b addr a fits k) refl
        | inl k ↦
            let here : cached c a ≡ cached c addr =
              same_block-cached b s c v.valid a addr (rw (v.valid.shape.block) k) in
            elim (Option-cases (cached c a)) [
              | inl n ↦ absurd (grind (arith, n, here, held))
              | inr (l, n) ↦
                  let now : cached c' a ≡ some (written_line c addr word l) = rw (k, n) at lines in
                  rw (now, n)
                    (bytes-written a (a % 2 ^ b) l n
                      ∙ word_in_block b addr word a (get_or l.bytes (a % 2 ^ b) 0) k)
            ]
      ]

  -- The block of the word stays in the cache.
  pub written-held : is_some (cached c addr) ≡ true → is_some (cached c' addr) ≡ true
  written-held held =
      let lines = rw (same_block-two_pow addr addr, ==_refl (addr / 2 ^ b)) at (w.lines addr) in
      elim (Option-cases (cached c addr)) [
        | inl n ↦ absurd (grind (arith, n, held))
        | inr (l, n) ↦
            let now : cached c' addr ≡ some (written_line c addr word l) = rw n at lines in
            rw now refl
      ]
