-- ===== src/Mem/Cached/View.antt =====
-- The cache and the pages as one array of bytes, which a lookup and a fill leave as it is.
use se_lab_public.Prelude.{
  ℕ, ◌%◌, ◌^◌, ◌<◌, ◌≡◌, refl, sym, ap, ◌∙◌, arith, Bool, false, get_or, Option, some, none,
  some-injective, Option-cases, Bool-cases, inl, inr,
}
use se_lab_public.Cache.{Cache, Line, Operation}
use se_lab_public.Cache.Shape.{same_block}
use se_lab_public.Cache.Valid.{IsValid, cached}
use se_lab_public.Cache.Lookup.{after_hit, IsLookup}
use se_lab_public.Mem.Ptable.{Ptable}
use se_lab_public.Mem.Ptable.Laws.{IsPtable, byte_at}

-- The byte of a cached block, and that of the pages where there is none.
abbrev pub held_byte : Option Line → ℕ → ℕ → ℕ
held_byte none i byte = byte
held_byte (some l) i byte = get_or l.bytes i 0

unfoldable pub view : ℕ → Cache → Ptable → ℕ → ℕ
view b c pt a = held_byte (cached c a) (a % 2 ^ b) (byte_at pt a)

-- The cached lines hold bytes, and those that are not dirty the ones of the pages.
pub record IsBacked (b s : ℕ) (c : Cache) (pt : Ptable) : Type 0 where
  pub valid : IsValid b s c
  pub pages : IsPtable pt
  pub bytes : (a i : ℕ) (l : Line) → cached c a ≡ some l → i < 2 ^ b → get_or l.bytes i 0 < 2 ^ 8
  pub clean :
      (a : ℕ) (l : Line)
      → cached c a ≡ some l
      → l.dirty ≡ false
      → get_or l.bytes (a % 2 ^ b) 0 ≡ byte_at pt a

-- What a step of the memory system is to keep.
pub record IsKept (b s : ℕ) (c : Cache) (pt : Ptable) (c' : Cache) (pt' : Ptable) : Type 0 where
  pub backed : IsBacked b s c' pt'
  pub same : (a : ℕ) → view b c' pt' a ≡ view b c pt a

-- The line of an address after a lookup.
mark-bytes : (op : Operation) (l : Line) → (after_hit op l).dirty ≡ false → l.dirty ≡ false
mark-bytes op l h = ground (arith, h)

module _ (b s : ℕ) (c : Cache) (pt : Ptable) (v : IsBacked b s c pt) (addr : ℕ) (op : Operation)
    (hit : Bool) (c' : Cache) (h : IsLookup b s c addr op hit c') where
  looked :
      (a : ℕ) (l' : Line)
      → cached c' a ≡ some l'
      → (l : Line) × (cached c a ≡ some l)
        × (l'.bytes ≡ l.bytes)
        × (l'.dirty ≡ false → l.dirty ≡ false)
  looked a l' e = elim (Bool-cases (same_block c a addr)) [
    | inl k ↦ elim (Option-cases (cached c a)) [
      | inl n ↦
          let now : cached c' a ≡ none = rw (k, n) at (h.lines a) in
          let bad : some l' ≡ none = sym e ∙ now in absurd (grind (arith, bad))
      | inr (l, n) ↦
          let now : cached c' a ≡ some (after_hit op l) = rw (k, n) at (h.lines a) in
          let same : l' ≡ after_hit op l = some-injective _ _ (sym e ∙ now) in
          (
            l,
            n,
            ap (λ (t : Line). t.bytes) same,
            λ d. mark-bytes op l (ap (λ (t : Line). t.dirty) (sym same) ∙ d),
          )
    ]
    | inr k ↦
        let now : cached c' a ≡ cached c a = rw k at (h.lines a) in (l', sym now ∙ e, refl, λ d. d)
  ]

  pub lookup-IsKept : IsKept b s c pt c' pt
  unfolding view
  lookup-IsKept = record {
    backed = record {
      valid = h.valid;
      pages = v.pages;
      bytes = λ a i l' e k. let l = looked a l' e in rw (l.2) (v.bytes a i l.0 l.1 k);
      clean = λ a l' e d. let l = looked a l' e in rw (l.2) (v.clean a l.0 l.1 (l.3 d));
    };
    same = λ a. same a;
  }
    where
      same : (a : ℕ) → view b c' pt a ≡ view b c pt a
      same a = elim (Bool-cases (same_block c a addr)) [
        | inl k ↦ elim (Option-cases (cached c a)) [
          | inl n ↦ let now : cached c' a ≡ none = rw (k, n) at (h.lines a) in rw (now, n) refl
          | inr (l, n) ↦
              let now : cached c' a ≡ some (after_hit op l) = rw (k, n) at (h.lines a) in
              rw (now, n) refl
        ]
        | inr k ↦ let now : cached c' a ≡ cached c a = rw k at (h.lines a) in rw now refl
      ]
