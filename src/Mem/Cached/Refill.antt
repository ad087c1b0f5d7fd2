-- ===== src/Mem/Cached/Refill.antt =====
-- A block that takes its line, while the one that it replaces goes to memory, leaves the bytes.
use se_lab_public.Prelude.{
  ◌⊎◌, refl, ℕ, ◌+◌, ◌-◌, ◌*◌, ◌/◌, ◌%◌, ◌^◌, ◌≤◌, ◌<◌, ◌≡◌, ap, ◌∙◌, arith, Bool, true, false,
  ◌==◌, ◌&&◌, leb, ltb, if◌then◌else◌, List, get_or, some, none, some-injective, Option-cases,
  Bool-cases, inl, inr, ℕ_discrete, ==_refl, ==_ne, ◌≢◌, sym,
}
use se_lab_public.Cache.Shape.{same_block}
use native.Mathlib.Nat.{mod-add-div', mod-lt, one-le-pow}
use se_lab_public.Prelude.Order.{mul_le_right}
use se_lab_public.Cache.{Cache, Line, Operation, EvictedLine, tag_of, is_write}
use se_lab_public.Cache.Valid.{cached, same_block-cached}
use se_lab_public.Cache.Fill.{IsFill, contents}
use se_lab_public.Mem.Ptable.{Ptable}
use se_lab_public.Mem.Ptable.Laws.{IsPtable, byte_at, byte_at-lt}
use se_lab_public.Mem.Plain.Laws.{IsSame}
use se_lab_public.Mem.Cached.{write_back}
use se_lab_public.Mem.Cached.Transfer.{write_back_lem}
use se_lab_public.Mem.Cached.View.{IsBacked, view, IsKept}

-- An address in the block that starts at `p`.
offset_of : (b a p : ℕ) → p / 2 ^ b * 2 ^ b ≡ p → a / 2 ^ b ≡ p / 2 ^ b → p + a % 2 ^ b ≡ a
offset_of b a p whole same =
    let split = mod-add-div' a (2 ^ b) in
    let e : a / 2 ^ b * 2 ^ b ≡ p = ap (λ (t : ℕ). t * 2 ^ b) same ∙ whole in
    omega (arith, split, e)

outside :
    (q k m a p r : ℕ)
    → q ≢ k
    → r + q * m ≡ a
    → r < m
    → k * m ≡ p
    → (leb p a && ltb a (p + m)) ≡ false
outside q k m a p r ne split small whole = elim (Bool-cases (ltb q k)) [
  | inl e ↦
      let lt : q + 1 ≤ k = ground (arith, e) in
      let rows : (q + 1) * m ≤ k * m = mul_le_right (q + 1) k m lt in
      let below : a < p = omega (arith, rows, split, small, whole) in ground (arith, below)
  | inr e ↦
      let lt : k + 1 ≤ q = ground (arith, e, ne) in
      let rows : (k + 1) * m ≤ q * m = mul_le_right (k + 1) q m lt in
      let above : p + m ≤ a = omega (arith, rows, split, whole) in ground (arith, above)
]

pub in_range :
    (b a p : ℕ) → p / 2 ^ b * 2 ^ b ≡ p → (leb p a && ltb a (p + 2 ^ b)) ≡ (a / 2 ^ b == p / 2 ^ b)
in_range b a p whole =
    let q = a / 2 ^ b in
    let k = p / 2 ^ b in
    let split : a % 2 ^ b + q * 2 ^ b ≡ a = mod-add-div' a (2 ^ b) in
    let small : a % 2 ^ b < 2 ^ b = mod-lt a (one-le-pow b 2 (omega arith)) in
    elim (ℕ_discrete q k) [
      | yes e ↦ let off = offset_of b a p whole e in rw (e, ==_refl k) (ground (arith, off, small))
      | no ne ↦ rw (==_ne ne) (outside q k (2 ^ b) a p (a % 2 ^ b) ne split small whole)
    ]

module _ (b s : ℕ) (c : Cache) (pt pt1 : Ptable) (v : IsBacked b s c pt) (start : ℕ)
    (op : Operation) (block : List ℕ) (e : EvictedLine) (c' : Cache)
    (h : IsFill b s c start op block e c') (aligned : start / 2 ^ b * 2 ^ b ≡ start)
    (miss : cached c start ≡ none)
    (fetched : (i : ℕ) → i < 2 ^ b → get_or block i 0 ≡ byte_at pt (start + i))
    (unchanged : IsSame pt pt1) where
  -- The pages once the evicted block is written back, if it is to be.
  abbrev pages : Ptable
  pages = if e.valid && e.dirty then write_back pt1 e.block_addr e.bytes 0 (2 ^ b) else pt1

  -- The line of the evicted block.
  evicted_line :
      e.valid ≡ true
      → (l : Line) × (cached c e.block_addr ≡ some l) × (l.dirty ≡ e.dirty) × (l.bytes ≡ e.bytes)
  evicted_line valid = elim (Option-cases (cached c e.block_addr)) [
    | inl n ↦
        let bad : none ≡ some (e.dirty, e.bytes) = rw (valid, n) at h.evicted in
        absurd (grind (arith, bad))
    | inr (l, n) ↦
        let same : some (contents l) ≡ some (e.dirty, e.bytes) = rw (valid, n) at h.evicted in
        let both : contents l ≡ (e.dirty, e.bytes) = some-injective _ _ same in
        (l, n, ap (λ (t : Bool × List ℕ). t.0) both, ap (λ (t : Bool × List ℕ). t.1) both)
  ]

  written :
      (e.valid && e.dirty) ≡ true
      → (a : ℕ)
      → let pt' = write_back pt1 e.block_addr e.bytes 0 (2 ^ b) in
        byte_at pt' a ≡ (
          if leb (e.block_addr + 0) a && ltb a (e.block_addr + 0 + 2 ^ b)
          then get_or e.bytes (a - e.block_addr) 0
          else byte_at pt1 a)
        → byte_at pt' a ≡ (
            if a / 2 ^ b == e.block_addr / 2 ^ b
            then get_or e.bytes (a % 2 ^ b) 0
            else byte_at pt a)
  written k a wb =
      let z : e.block_addr + 0 ≡ e.block_addr = omega arith in
      let range = in_range b a e.block_addr h.whole.0 in
      elim (Bool-cases (a / 2 ^ b == e.block_addr / 2 ^ b)) [
        | inl t ↦
            let same : a / 2 ^ b ≡ e.block_addr / 2 ^ b = ground (arith, t) in
            let off = offset_of b a e.block_addr h.whole.0 same in
            let rest : a - e.block_addr ≡ a % 2 ^ b = omega (arith, off) in
            rw (t, ← rest) (rw (z, range, t) at wb)
        | inr t ↦ let kept = rw (z, range, t) at wb in rw (t, ← unchanged.reads a) kept
      ]

  pages_lem :
      IsPtable pages
      × ((a : ℕ)
          → byte_at pages a ≡ (
              if (e.valid && e.dirty) && a / 2 ^ b == e.block_addr / 2 ^ b
              then get_or e.bytes (a % 2 ^ b) 0
              else byte_at pt a))
  pages_lem = elim (Bool-cases (e.valid && e.dirty)) [
    | inl k ↦
        let l = evicted_line (ground (arith, k)) in
        let wrote =
          write_back_lem e.block_addr e.bytes (2 ^ b) 0 pt1 unchanged.valid
            (λ i hi. rw (← l.3) (v.bytes e.block_addr i l.0 l.1 (omega (arith, hi))))
            (omega (arith, h.whole.1)) in
        rw k (wrote.0, λ a. written k a (wrote.1 a))
    | inr k ↦ rw k (unchanged.valid, λ a. unchanged.reads a)
  ]

  abbrev filled : Line
  filled = record { valid = true; tag = tag_of c start; dirty = is_write op; bytes = block }

  abbrev in_new : ℕ → Bool
  in_new a = a / 2 ^ b == start / 2 ^ b

  abbrev in_old : ℕ → Bool
  in_old a = e.valid && a / 2 ^ b == e.block_addr / 2 ^ b

  same_block-two_pow : (x y : ℕ) → same_block c x y ≡ (x / 2 ^ b == y / 2 ^ b)
  same_block-two_pow x y = rw (v.valid.shape.block) refl

  lines_at :
      (a : ℕ)
      → cached c' a ≡ (if in_new a then some filled else (if in_old a then none else cached c a))
  lines_at a = rw (same_block-two_pow a start, same_block-two_pow a e.block_addr) at (h.lines a)

  cached_in : (a p : ℕ) → (a / 2 ^ b == p / 2 ^ b) ≡ true → cached c a ≡ cached c p
  cached_in a p same = same_block-cached b s c v.valid a p (rw (v.valid.shape.block) same)

  -- The block that is evicted is not the one that is fetched.
  not_evicted : (a : ℕ) → in_new a ≡ true → in_old a ≡ false
  not_evicted a n = elim (Bool-cases (in_old a)) [
    | inr k ↦ k
    | inl k ↦
        let l = evicted_line (ground (arith, k)) in
        let old : cached c a ≡ cached c e.block_addr =
          cached_in a e.block_addr (ground (arith, k)) in
        let bad : some l.0 ≡ none = sym (old ∙ l.1) ∙ (cached_in a start n ∙ miss) in
        absurd (grind (arith, bad))
  ]

  pages_same : (a : ℕ) → in_old a ≡ false → byte_at pages a ≡ byte_at pt a
  pages_same a k =
      let off : ((e.valid && e.dirty) && a / 2 ^ b == e.block_addr / 2 ^ b) ≡ false =
        ground (arith, k) in
      rw off at (pages_lem.1 a)

  new_byte : (a : ℕ) → in_new a ≡ true → get_or block (a % 2 ^ b) 0 ≡ byte_at pt a
  new_byte a n =
      let same : a / 2 ^ b ≡ start / 2 ^ b = ground (arith, n) in
      fetched (a % 2 ^ b) (mod-lt a (one-le-pow b 2 (omega arith)))
      ∙ ap (byte_at pt) (offset_of b a start aligned same)

  same_view : (a : ℕ) → view b c' pages a ≡ view b c pt a
  unfolding view
  same_view a = elim (Bool-cases (in_new a)) [
    | inl n ↦
        let now : cached c' a ≡ some filled = rw n at (lines_at a) in
        let before : cached c a ≡ none = cached_in a start n ∙ miss in
        rw (now, before) (new_byte a n)
    | inr n ↦ elim (Bool-cases (in_old a)) [
      | inl k ↦
          let now : cached c' a ≡ none = rw (n, k) at (lines_at a) in
          let l = evicted_line (ground (arith, k)) in
          let before : cached c a ≡ some l.0 = cached_in a e.block_addr (ground (arith, k)) ∙ l.1 in
          rw (now, before) (old_byte a l.0 k before l.2 l.3)
      | inr k ↦
          let now : cached c' a ≡ cached c a = rw (n, k) at (lines_at a) in
          rw (now, pages_same a k) refl
    ]
  ]
    where
      old_byte :
          (a : ℕ) (l : Line)
          → in_old a ≡ true
          → cached c a ≡ some l
          → l.dirty ≡ e.dirty
          → l.bytes ≡ e.bytes
          → byte_at pages a ≡ get_or l.bytes (a % 2 ^ b) 0
      old_byte a l k before d bytes = elim (Bool-cases e.dirty) [
        | inl t ↦
            let on : ((e.valid && e.dirty) && a / 2 ^ b == e.block_addr / 2 ^ b) ≡ true =
              ground (arith, k, t) in
            let wrote : byte_at pages a ≡ get_or e.bytes (a % 2 ^ b) 0 = rw on at (pages_lem.1 a) in
            wrote ∙ ap (λ (x : List ℕ). get_or x (a % 2 ^ b) 0) (sym bytes)
        | inr t ↦
            let off : ((e.valid && e.dirty) && a / 2 ^ b == e.block_addr / 2 ^ b) ≡ false =
              ground (arith, t) in
            let kept : byte_at pages a ≡ byte_at pt a = rw off at (pages_lem.1 a) in
            kept ∙ sym (v.clean a l before (d ∙ t))
      ]

  -- A line after the fill is the new one or one of before.
  line_of :
      (a : ℕ) (l : Line)
      → cached c' a ≡ some l
      → ((in_new a ≡ true) × (filled ≡ l)) ⊎ ((in_old a ≡ false) × (cached c a ≡ some l))
  line_of a l k = elim (Bool-cases (in_new a)) [
    | inl n ↦
        let now : cached c' a ≡ some filled = rw n at (lines_at a) in
        inl (n, some-injective _ _ (sym now ∙ k))
    | inr n ↦ elim (Bool-cases (in_old a)) [
      | inl o ↦
          let now : cached c' a ≡ none = rw (n, o) at (lines_at a) in
          let bad : some l ≡ none = sym k ∙ now in absurd (grind (arith, bad))
      | inr o ↦
          let now : cached c' a ≡ cached c a = rw (n, o) at (lines_at a) in inr (o, sym now ∙ k)
    ]
  ]

  -- The fill keeps every byte, and the relation of the clean lines to the pages.
  pub refill-IsKept : IsKept b s c pt c' pages
  refill-IsKept = record {
    backed = record {
      valid = h.valid;
      pages = pages_lem.0;
      bytes = λ a i l' k lt. bytes_of a i l' k lt;
      clean = λ a l' k d. clean_of a l' k d;
    };
    same = same_view;
  }
    where
      bytes_of :
          (a i : ℕ) (l' : Line) → cached c' a ≡ some l' → i < 2 ^ b → get_or l'.bytes i 0 < 2 ^ 8
      bytes_of a i l' k lt = elim (line_of a l' k) [
        | inl (n, new) ↦ rw (← new) (rw (fetched i lt) (byte_at-lt pt (start + i) v.pages))
        | inr (o, old) ↦ v.bytes a i l' old lt
      ]

      clean_of :
          (a : ℕ) (l' : Line)
          → cached c' a ≡ some l'
          → l'.dirty ≡ false
          → get_or l'.bytes (a % 2 ^ b) 0 ≡ byte_at pages a
      clean_of a l' k d = elim (line_of a l' k) [
        | inl (n, new) ↦ rw (← new, pages_same a (not_evicted a n)) (new_byte a n)
        | inr (o, old) ↦ v.clean a l' old d ∙ sym (pages_same a o)
      ]
