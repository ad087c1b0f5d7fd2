-- ===== src/Cache/Evict.antt =====
-- The line that a miss replaces, and the address by which it is reported.
use native.Mathlib.Nat.{
  lt_of_mul-lt-mul_right, mul-add-div_right, mul-add-mod_self_right, mod-eq_of_lt, div-eq_of_lt,
  mod-lt, one-le-pow, mul-div_cancel, pow-le-pow_right,
}
use se_lab_public.Prelude.{
  sym, ◌∙◌, refl, ◌-◌, ℕ, ◌+◌, ◌*◌, ◌^◌, ◌/◌, ◌%◌, ◌≤◌, ◌<◌, ◌≡◌, ap, arith, Option-cases, inl, inr,
}
use se_lab_public.Prelude.Order.{mul_le_right}
use se_lab_public.Bits.{bit_and-mask, bit_or-fields, two_pow-add}
use se_lab_public.Words.{shl64}
use se_lab_public.Cache.Lines.{find_invalid-some}
use se_lab_public.Cache.{Cache, CacheSet, Line, evict, select_line, find_invalid, tag_of, set_index}
use se_lab_public.Cache.Shape.{IsShaped, set_index-eq, tag_of-eq, log-block, log-count, low_mask}
use se_lab_public.Cache.Valid.{IsGoodSet}

-- The line that is replaced lies in the set.
pub select_line-lt : (ways b s : ℕ) (t : CacheSet) → IsGoodSet ways b s t → select_line t < ways
unfolding select_line
select_line-lt ways b s t good = elim (Option-cases (find_invalid t.lines 0)) [
  | inl full ↦ rw (full, select_line) (good.victim full).0
  | inr (i, free) ↦
      let found = find_invalid-some t.lines 0 i free in
      rw (free, select_line) (omega (arith, found.1, found.2, good.size))
]

pub two_pow-split : (k : ℕ) → k ≤ 64 → 2 ^ (64 - k) * 2 ^ k ≡ 2 ^ 64
two_pow-split k h =
    let e : 64 - k + k ≡ 64 = omega arith in sym (two_pow-add (64 - k) k) ∙ ap (λ (t : ℕ). 2 ^ t) e

module _ (b s : ℕ) (c : Cache) (addr : ℕ) (shape : IsShaped b s c) (l : Line)
    (fits : l.tag * (2 ^ b * 2 ^ s) < 2 ^ 64) where
  -- The address that is put together from the tag of a line and the index of its set.
  pub block_addr-eq : (evict c addr l).block_addr ≡ (l.tag * 2 ^ s + addr / 2 ^ b % 2 ^ s) * 2 ^ b
  unfolding evict
  block_addr-eq =
      let idx = addr / 2 ^ b % 2 ^ s in
      let idx_lt : idx < 2 ^ s = mod-lt (addr / 2 ^ b) (one-le-pow s 2 (omega arith)) in
      let rows : (idx + 1) * 2 ^ b ≤ 2 ^ s * 2 ^ b = grind arith in
      let whole : 2 ^ (b + s) ≡ 2 ^ b * 2 ^ s = two_pow-add b s in
      let words : 2 ^ (b + s) ≤ 2 ^ 31 = pow-le-pow_right (omega arith) shape.small in
      let pos : 0 < 2 ^ b = one-le-pow b 2 (omega arith) in
      let below : idx * 2 ^ b < 2 ^ (b + s) = omega arith in
      let high : shl64 l.tag (b + s) ≡ l.tag * 2 ^ (b + s) = mod-eq_of_lt (rw whole fits) in
      let low : shl64 idx b ≡ idx * 2 ^ b = mod-eq_of_lt (omega arith) in
      rw
        (
          log-block b s c shape addr,
          log-count b s c shape addr,
          shape.count,
          low_mask s (omega (arith, shape.small)),
          bit_and-mask s (addr / 2 ^ b),
          high,
          low,
          bit_or-fields (b + s) l.tag (idx * 2 ^ b) below,
        )
        (omega (arith, ap (λ (t : ℕ). l.tag * t) whole))

  -- It has the tag of the line and the index of the set.
  pub block_addr-parts :
      (tag_of c (evict c addr l).block_addr ≡ l.tag)
      × (set_index c (evict c addr l).block_addr ≡ set_index c addr)
  block_addr-parts =
      let idx = addr / 2 ^ b % 2 ^ s in
      let idx_lt : idx < 2 ^ s = mod-lt (addr / 2 ^ b) (one-le-pow s 2 (omega arith)) in
      (
        rw
            (
              tag_of-eq b s c shape,
              block_addr-eq,
              mul-div_cancel (l.tag * 2 ^ s + idx) (one-le-pow b 2 (omega arith)),
              mul-add-div_right (one-le-pow s 2 (omega arith)) l.tag idx,
              div-eq_of_lt idx_lt,
            )
            (omega arith),
        rw (
          set_index-eq b s c shape (evict c addr l).block_addr,
          set_index-eq b s c shape addr,
          block_addr-eq,
          mul-div_cancel (l.tag * 2 ^ s + idx) (one-le-pow b 2 (omega arith)),
          mul-add-mod_self_right l.tag (2 ^ s) idx,
          mod-eq_of_lt idx_lt,
        ),
      )

  -- It is the start of a block of 64-bit addresses.
  pub block_addr-whole :
      ((evict c addr l).block_addr / 2 ^ b * 2 ^ b ≡ (evict c addr l).block_addr)
      × ((evict c addr l).block_addr + 2 ^ b ≤ 2 ^ 64)
  block_addr-whole =
      let idx = addr / 2 ^ b % 2 ^ s in
      let idx_lt : idx < 2 ^ s = mod-lt (addr / 2 ^ b) (one-le-pow s 2 (omega arith)) in
      let rows : (idx + 1) * 2 ^ b ≤ 2 ^ s * 2 ^ b =
        mul_le_right (idx + 1) (2 ^ s) (2 ^ b) (omega arith) in
      let k = b + s in
      let whole : 2 ^ k ≡ 2 ^ b * 2 ^ s = two_pow-add b s in
      let tags : l.tag * 2 ^ k < 2 ^ 64 = rw whole fits in
      let split : 2 ^ (64 - k) * 2 ^ k ≡ 2 ^ 64 = two_pow-split k (omega (arith, shape.small)) in
      let small : l.tag < 2 ^ (64 - k) =
        lt_of_mul-lt-mul_right (2 ^ k) (omega (arith, split, tags)) in
      let room : (l.tag + 1) * 2 ^ k ≤ 2 ^ (64 - k) * 2 ^ k =
        mul_le_right (l.tag + 1) (2 ^ (64 - k)) (2 ^ k) (omega (arith, small)) in
      (
        rw (block_addr-eq, mul-div_cancel (l.tag * 2 ^ s + idx) (one-le-pow b 2 (omega arith)))
            refl,
        rw block_addr-eq (omega (arith, room, rows, split, ap (λ (t : ℕ). l.tag * t) whole)),
      )
