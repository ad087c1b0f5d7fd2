-- ===== src/Mem/Cached/Block.antt =====
-- The block that an access works on, and the bytes that are fetched for it.
use native.Mathlib.Nat.{
  mul-div_cancel, lt_of_mul-lt-mul_right, one-le-pow, pow-le-pow_right, div-mul-le_self,
}
use se_lab_public.Prelude.Order.{mul_le_right}
use se_lab_public.Cache.Evict.{two_pow-split}
use se_lab_public.Prelude.{
  ℕ, zero, suc, ◌+◌, ◌-◌, ◌*◌, ◌/◌, ◌%◌, ◌^◌, ◌≤◌, ◌<◌, ◌≡◌, refl, arith, Bool, false, not, ◌&&◌,
  ltb, leb, length, Bool-cases, inl, inr, ap,
}
use se_lab_public.Bits.{
  test_bit, test_bit-ext, test_bit-and, test_bit-complement, test_bit-ones, test_bit-mul-two_pow,
  test_bit-div-two_pow, bit_and-le, bit_and-mask,
}
use se_lab_public.Mem.Ptable.{Ptable}
use se_lab_public.Mem.Plain.{Segments, mem_read_le}
use se_lab_public.Mem.Cached.{block_start, fill_block, reads_past}
use se_lab_public.Cache.{Operation, read, write}
use se_lab_public.Words.{u64}

-- Masking clears the low bits of an address.
pub block_start-eq : (k a : ℕ) → a < 2 ^ 64 → k ≤ 64 → block_start (2 ^ k) a ≡ a / 2 ^ k * 2 ^ k
block_start-eq k a word small =
    let mask : 2 ^ k ≤ 2 ^ 64 = pow-le-pow_right (omega arith) small in
    let below = div-mul-le_self a (2 ^ k) in
    test_bit-ext 64 (block_start (2 ^ k) a) (a / 2 ^ k * 2 ^ k)
      (omega (arith, bit_and-le 64 a (2 ^ 64 - 1 - (2 ^ k - 1)) word)) (omega (arith, below))
      (λ i h. same_bit i h mask)
  where
    masked : (t : ℕ → Bool) (i : ℕ) → (t i && not (ltb i k)) ≡ (leb k i && t (i - k + k))
    masked t i = elim (Bool-cases (ltb i k)) [
      | inl e ↦ ground arith
      | inr e ↦ let back : i - k + k ≡ i = ground arith in rw back (ground arith)
    ]

    same_bit :
        (i : ℕ)
        → i < 64
        → 2 ^ k ≤ 2 ^ 64
        → test_bit (block_start (2 ^ k) a) i ≡ test_bit (a / 2 ^ k * 2 ^ k) i
    same_bit i h mask =
        rw
          (
            test_bit-and a (2 ^ 64 - 1 - (2 ^ k - 1)) i,
            test_bit-complement 64 (2 ^ k - 1) i (omega arith) h,
            test_bit-ones k i,
            test_bit-mul-two_pow (a / 2 ^ k) k i,
            test_bit-div-two_pow a k (i - k),
          )
          (masked (test_bit a) i)

pub length-fill_block :
    (segs : Segments) (pt : Ptable) (start j n : ℕ) → length (fill_block segs pt start j n).0 ≡ n
unfolding fill_block
length-fill_block segs pt start j zero = refl
length-fill_block segs pt start j (suc n) =
    ap suc (length-fill_block segs (mem_read_le segs pt (u64 (start + j)) 1).1 start (j + 1) n)

-- The block of a 64-bit address is a whole one, and holds the address.
pub block_start-whole :
    (k a : ℕ)
    → a < 2 ^ 64
    → k ≤ 64
    → (block_start (2 ^ k) a / 2 ^ k * 2 ^ k ≡ block_start (2 ^ k) a)
      × (block_start (2 ^ k) a / 2 ^ k ≡ a / 2 ^ k)
      × (block_start (2 ^ k) a + 2 ^ k ≤ 2 ^ 64)
block_start-whole k a word small =
    let q = a / 2 ^ k in
    let e = block_start-eq k a word small in
    let cancel : q * 2 ^ k / 2 ^ k ≡ q = mul-div_cancel q (one-le-pow k 2 (omega arith)) in
    let split = two_pow-split k small in
    let below : q * 2 ^ k ≤ a = div-mul-le_self a (2 ^ k) in
    let lt : q < 2 ^ (64 - k) =
      lt_of_mul-lt-mul_right (2 ^ k) (omega (arith, split, below, word)) in
    let room : (q + 1) * 2 ^ k ≤ 2 ^ (64 - k) * 2 ^ k =
      mul_le_right (q + 1) (2 ^ (64 - k)) (2 ^ k) (omega (arith, lt)) in
    rw (e, cancel) (refl, refl, omega (arith, room, split))

-- Whether 8 bytes at 8 times the offset of an address are outside of its block.
abbrev pub is_past : Operation → ℕ → ℕ → Bool
is_past read b addr = ltb (2 ^ b) (8 * (addr % 2 ^ b) + 8)
is_past write b addr = false

pub reads_past-is_past :
    (op : Operation) (b addr : ℕ) → reads_past op (2 ^ b) addr ≡ is_past op b addr
unfolding reads_past
reads_past-is_past read b addr = rw (bit_and-mask b addr) refl
reads_past-is_past write b addr = refl
