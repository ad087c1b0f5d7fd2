-- ===== src/Mem/Cached/Word.antt =====
-- The word that the cache reads of a block that it holds.
use se_lab_public.Cache.Valid.{same_block-cached, IsValid, cached, get_set-IsGoodSet}
use se_lab_public.Prelude.{
  ap₂, ℕ, zero, suc, ◌+◌, ◌*◌, ◌/◌, ◌%◌, ◌^◌, ◌≤◌, ◌<◌, ◌≡◌, refl, sym, ap, ◌∙◌, arith, true, some,
  Option-cases, inl, inr, is_some, ==_refl, get_or, List, length, leb,
}
use se_lab_public.Bytes.{two_pow-byte, read_le}
use native.Mathlib.Nat.{
  mod-add-div', one-le-pow, add-mul-div_right, mul-add-mod_self_right, div-eq_of_lt, mod-eq_of_lt,
}
use se_lab_public.Cache.{Cache, Line, get_line, get_set, line_at, get_word_cache}
use se_lab_public.Cache.Shape.{same_block, block_offset-eq}
use se_lab_public.Cache.Lookup.{get_line-some, get_line-none}
use se_lab_public.Mem.Plain.Laws.{word_at}
use se_lab_public.Mem.Ptable.{Ptable}
use se_lab_public.Mem.Cached.View.{view, IsBacked}

word_at-low :
    (f : ℕ → ℕ) (addr n : ℕ) → word_at f addr (suc n) ≡ f addr + 2 ^ 8 * word_at f (addr + 1) n
unfolding word_at
word_at-low f addr zero = let e : addr + 0 ≡ addr = omega arith in rw e (omega arith)
word_at-low f addr (suc n) =
    let e : addr + 1 + n ≡ addr + suc n = omega arith in
    let top : 2 ^ (8 * suc n) ≡ 2 ^ 8 * 2 ^ (8 * n) = two_pow-byte n in
    let rest = word_at-low f addr n in
    rw (rest, e, top) (regroup (f (addr + suc n)) (2 ^ (8 * n)) (f addr) (word_at f (addr + 1) n))
  where
    regroup : (x m y w : ℕ) → x * (2 ^ 8 * m) + (y + 2 ^ 8 * w) ≡ y + 2 ^ 8 * (x * m + w)
    regroup x m y w = grind arith

-- A word of a list of bytes, and the same bytes at addresses.
read_le-word_at :
    (bytes : List ℕ) (f : ℕ → ℕ) (off addr n : ℕ)
    → ((i : ℕ) → i < n → get_or bytes (off + i) 0 ≡ f (addr + i))
    → read_le bytes off n ≡ word_at f addr n
unfolding read_le word_at
read_le-word_at bytes f off addr zero h = refl
read_le-word_at bytes f off addr (suc n) h =
    let rest = read_le-word_at bytes f (off + 1) (addr + 1) n (λ i lt.
      ap (λ (t : ℕ). get_or bytes t 0) (next off i)
      ∙ (h (suc i) (omega (arith, lt)) ∙ sym (ap f (next addr i)))) in
    let first : get_or bytes off 0 ≡ f addr =
      ap (λ (t : ℕ). get_or bytes t 0) (sym (start off))
      ∙ (h 0 (omega arith) ∙ ap f (start addr)) in
    ap₂ (λ (x y : ℕ). x + 2 ^ 8 * y) first rest ∙ sym (word_at-low f addr n)
  where
    next : (x i : ℕ) → x + 1 + i ≡ x + suc i
    next x i = omega arith

    start : (x : ℕ) → x + 0 ≡ x
    start x = omega arith

-- An address of the same block.
inside :
    (b a k : ℕ)
    → a % 2 ^ b + k < 2 ^ b
    → ((a + k) / 2 ^ b ≡ a / 2 ^ b) × ((a + k) % 2 ^ b ≡ a % 2 ^ b + k)
inside b a k fits =
    let m = 2 ^ b in
    let q = a / m in
    let r = a % m in
    let split : r + q * m ≡ a = mod-add-div' a m in
    let left : a + k ≡ r + k + q * m = omega (arith, split) in
    let right : a + k ≡ q * m + (r + k) = omega (arith, split) in
    let low : (r + k) / m ≡ 0 = div-eq_of_lt fits in
    (
      ap (λ (t : ℕ). t / m) left
          ∙ (add-mul-div_right (r + k) q (one-le-pow b 2 (omega arith)) ∙ omega (arith, low)),
      ap (λ (t : ℕ). t % m) right ∙ (mul-add-mod_self_right q m (r + k) ∙ mod-eq_of_lt fits),
    )

view-held :
    (b s : ℕ) (c : Cache) (pt : Ptable) (addr k : ℕ) (l : Line)
    → IsValid b s c
    → cached c addr ≡ some l
    → addr % 2 ^ b + k < 2 ^ b
    → get_or l.bytes (addr % 2 ^ b + k) 0 ≡ view b c pt (addr + k)
unfolding view
view-held b s c pt addr k l v held fits =
    let e = inside b addr k fits in
    let same : same_block c (addr + k) addr ≡ true =
      rw (v.shape.block, e.0) (==_refl (addr / 2 ^ b)) in
    let here : cached c (addr + k) ≡ some l =
      same_block-cached b s c v (addr + k) addr same ∙ held in
    rw (here, e.1) refl

-- The word of a cached block is the one of the memory.
pub get_word_cache-view :
    (b s : ℕ) (c : Cache) (pt : Ptable) (addr : ℕ)
    → IsBacked b s c pt
    → is_some (cached c addr) ≡ true
    → addr % 2 ^ b + 8 ≤ 2 ^ b
    → get_word_cache c addr ≡ some (word_at (view b c pt) addr 8)
unfolding get_word_cache
get_word_cache-view b s c pt addr v held fits = elim (Option-cases (get_line c addr)) [
  | inl e ↦ absurd (grind (arith, get_line-none c addr e, held))
  | inr (i, e) ↦
      let found = get_line-some b s c addr i v.valid e in
      let l = line_at (get_set c addr) i in
      let off = block_offset-eq b s c v.valid.shape addr in
      let good = get_set-IsGoodSet b s c v.valid addr in
      let long : leb (addr % 2 ^ b + 8) (length l.bytes) ≡ true =
        ground (arith, good.block i found.0, fits) in
      rw (e, off, long)
        (ap some (
          read_le-word_at l.bytes (view b c pt) (addr % 2 ^ b) addr 8
            (λ k lt. view-held b s c pt addr k l v.valid found.1 (omega (arith, lt, fits)))))
]
