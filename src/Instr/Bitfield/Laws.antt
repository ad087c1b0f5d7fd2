-- ===== src/Instr/Bitfield/Laws.antt =====
-- A bit field is a slice of the instruction word, read as an unsigned or as a signed number.
use native.Mathlib.Nat.{
  mod-eq_of_lt, one-le-pow, pow-suc, mod-lt, pow-le-pow_right, div-le_self, mul-div_cancel,
  mul-add-div_right, div-eq_of_lt,
}
use se_lab_public.Prelude.Order.{mul_le_right}
use se_lab_public.Prelude.{
  bit_and, ℕ, zero, suc, ◌+◌, ◌-◌, ◌*◌, ◌/◌, ◌%◌, ◌^◌, ◌≤◌, ◌<◌, ◌≡◌, arith, ap, ◌∙◌, sym, ltb,
  if◌then◌else◌, dec_lt,
}
use se_lab_public.Prelude.Int.{ℤ, pos, negsuc}
use se_lab_public.Bits.{
  bit_and-mask, two_pow-add, test_bit, test_bit-mod-two_pow, test_bit-complement,
  test_bit-div-two_pow, test_bit-ext,
}
use se_lab_public.Words.{shl64, sar64, signed64}
use se_lab_public.Instr.Bitfield.{sar32, extend32, bitfield_u32, bitfield_s64}

-- The bits of a word from `frompos` on, `width` of them.
abbrev pub slice : ℕ → ℕ → ℕ → ℕ
slice src frompos width = src / 2 ^ frompos % 2 ^ width

-- A number of `width` bits in two's complement.
abbrev pub twos_complement : ℕ → ℕ → ℤ
twos_complement field width =
    if ltb field (2 ^ (width - 1)) then pos field else negsuc (2 ^ width - field - 1)

-- Copies of the sign above a word of `n` bits do not reach a slice within it.
sign_copies :
    (m n p w src : ℕ)
    → n ≤ m
    → src < 2 ^ n
    → p + w ≤ n
    → (2 ^ m - 1 - (2 ^ n - 1 - src) / 2 ^ p) % 2 ^ w ≡ slice src p w
sign_copies m n p w src h small fits =
    let pos = one-le-pow w 2 (omega arith) in test_bit-ext w _ _ (mod-lt _ pos) (mod-lt _ pos) same
  where
    wide : 2 ^ n ≤ 2 ^ m
    wide = pow-le-pow_right (omega arith) h

    same :
        (i : ℕ)
        → i < w
        → test_bit ((2 ^ m - 1 - (2 ^ n - 1 - src) / 2 ^ p) % 2 ^ w) i ≡ test_bit (slice src p w) i
    same i hi =
        rw
          (
            test_bit-mod-two_pow _ w i,
            test_bit-mod-two_pow (src / 2 ^ p) w i,
            test_bit-complement m ((2 ^ n - 1 - src) / 2 ^ p) i
                (omega (
                  arith,
                  div-le_self (2 ^ n - 1 - src) (2 ^ p),
                  wide,
                  one-le-pow n 2 (omega arith),
                ))
                (omega arith),
            test_bit-div-two_pow (2 ^ n - 1 - src) p i,
            test_bit-div-two_pow src p i,
            test_bit-complement n src (i + p) small (omega arith),
          )
          (ground arith)

module _ (src p w : ℕ) (h : src < 2 ^ 32) (fits : p + w ≤ 32) where
  slice-lt : slice src p w < 2 ^ 32
  slice-lt =
      let pos = one-le-pow w 2 (omega arith) in
      let narrow : w ≤ 32 = omega arith in
      let wide : 2 ^ w ≤ 2 ^ 32 = pow-le-pow_right (omega arith) narrow in
      omega (arith, mod-lt (src / 2 ^ p) pos)

  slice-sar32 : sar32 src p % 2 ^ w ≡ slice src p w
  slice-sar32 = let copies = sign_copies 32 32 p w src (omega arith) h fits in ground arith

  slice-sar64 : sar64 (extend32 src) p % 2 ^ w ≡ slice src p w
  slice-sar64 = pick (dec_lt src (2 ^ 31))
    where
      pick : Dec (src < 2 ^ 31) → sar64 (extend32 src) p % 2 ^ w ≡ slice src p w
      pick (yes q) = ground arith
      pick (no q) =
          let copies = sign_copies 64 32 p w src (omega arith) h fits in
          let e : 2 ^ 64 - 1 - (src + 2 ^ 64 - 2 ^ 32) ≡ 2 ^ 32 - 1 - src = omega arith in
          ground (arith, ap (λ (t : ℕ). t / 2 ^ p) e)

  -- `bitfield_u32` of a word of 32 bits, at a field within them, is the slice.
  pub bitfield_u32_lem : bitfield_u32 src p w ≡ slice src p w
  unfolding bitfield_u32
  bitfield_u32_lem = rw (bit_and-mask w (sar32 src p), slice-sar32) (mod-eq_of_lt slice-lt)

-- The same over numbers: `p` is half the range of the field, and `q` the weight of the shift.
module _ (f p q : ℕ) (pos_q : 0 < q) (whole : p * q ≡ 2 ^ 63) (h : f < p * 2)
    (small : p * 2 ≤ 2 ^ 32) where
  shifted_back : ℕ
  shifted_back =
      let top = f * q % 2 ^ 64 in
      if ltb top (2 ^ 63) then top / q else 2 ^ 64 - 1 - (2 ^ 64 - 1 - top) / q

  shifted_back_lem : signed64 shifted_back ≡ (if ltb f p then pos f else negsuc (p * 2 - f - 1))
  unfolding shifted_back
  shifted_back_lem = pick (dec_lt f p)
    where
      rows : (f + 1) * q ≤ p * 2 * q
      rows = mul_le_right (f + 1) (p * 2) q (omega arith)

      fits : f * q % 2 ^ 64 ≡ f * q
      fits = mod-eq_of_lt (omega (arith, rows, pos_q, whole))

      pick :
          Dec (f < p)
          → signed64 (
              if ltb (f * q % 2 ^ 64) (2 ^ 63)
              then f * q % 2 ^ 64 / q
              else 2 ^ 64 - 1 - (2 ^ 64 - 1 - f * q % 2 ^ 64) / q)
            ≡ (if ltb f p then pos f else negsuc (p * 2 - f - 1))
      pick (yes k) =
          let low : (f + 1) * q ≤ p * q = mul_le_right (f + 1) p q (omega arith) in
          rw fits (ground (arith, mul-div_cancel f pos_q))
      pick (no k) =
          let high : p * q ≤ f * q = mul_le_right p f q (omega arith) in
          let g = p * 2 - 1 - f in
          let split : 2 ^ 64 - 1 - f * q ≡ g * q + (q - 1) =
            omega (arith, ap (λ (t : ℕ). t * q) (complement)) in
          let back : (2 ^ 64 - 1 - f * q) / q ≡ g =
            ap (λ (t : ℕ). t / q) split
            ∙ mul-add-div_right pos_q g (q - 1)
            ∙ rw (div-eq_of_lt last) (omega arith) in
          rw fits (ground (arith, back))
        where
          last : q - 1 < q
          last = omega arith

          complement : p * 2 - 1 - f + f + 1 ≡ p * 2
          complement = omega arith

-- Shifting a field of `w` bits to the top of a word and back copies its sign.
sign_extend :
    (f w : ℕ)
    → 0 < w
    → w ≤ 32
    → f < 2 ^ w
    → signed64 (sar64 (shl64 f (64 - w)) (64 - w)) ≡ twos_complement f w
unfolding shifted_back
sign_extend f w some_bits small h =
    let half : 2 ^ w ≡ 2 ^ (w - 1) * 2 = halves w some_bits in
    let top : w - 1 + (64 - w) ≡ 63 = omega arith in
    let whole : 2 ^ (w - 1) * 2 ^ (64 - w) ≡ 2 ^ 63 =
      sym (two_pow-add (w - 1) (64 - w)) ∙ ap (λ (t : ℕ). 2 ^ t) top in
    let fits : 2 ^ w ≤ 2 ^ 32 = pow-le-pow_right (omega arith) small in
    rw half (
      shifted_back_lem f (2 ^ (w - 1)) (2 ^ (64 - w)) (one-le-pow (64 - w) 2 (omega arith)) whole
        (omega arith) (omega arith))
  where
    halves : (n : ℕ) → 0 < n → 2 ^ n ≡ 2 ^ (n - 1) * 2
    halves zero k = absurd (omega arith)
    halves (suc n) k = let e : suc n - 1 ≡ n = omega arith in rw (e, pow-suc)

-- `bitfield_s64` of a word of 32 bits, at a field within them of 1 to 30 bits, reads the slice as a
-- two's complement number of its width.
pub bitfield_s64_lem :
    (src p w : ℕ)
    → src < 2 ^ 32
    → 0 < w
    → w < 31
    → p + w ≤ 32
    → signed64 (bitfield_s64 src p w) ≡ twos_complement (slice src p w) w
unfolding bitfield_s64
bitfield_s64_lem src p w h some_bits narrow fits =
    rw (bit_and-mask w (sar64 (extend32 src) p), slice-sar64 src p w h fits)
      (sign_extend (slice src p w) w some_bits (omega arith)
        (mod-lt (src / 2 ^ p) (one-le-pow w 2 (omega arith))))

-- As a word, the field is extended by its sign.
pub bitfield_s64-word :
    (src p w : ℕ)
    → src < 2 ^ 32
    → 0 < w
    → w < 31
    → p + w ≤ 32
    → bitfield_s64 src p w
      ≡ (let f = slice src p w in if ltb f (2 ^ (w - 1)) then f else f + 2 ^ 64 - 2 ^ w)
unfolding bitfield_s64
bitfield_s64-word src p w h some_bits few fits =
    let narrow : w ≤ 32 = omega arith in
    let wide : 2 ^ w ≤ 2 ^ 32 = pow-le-pow_right (omega arith) narrow in
    let x = shl64 (bit_and (sar64 (extend32 src) p) (2 ^ w - 1)) (64 - w) in
    ground (
      arith,
      bitfield_s64_lem src p w h some_bits few fits,
      mod-lt (src / 2 ^ p) (one-le-pow w 2 (omega arith)),
      div-le_self x (2 ^ (64 - w)),
      div-le_self (2 ^ 64 - 1 - x) (2 ^ (64 - w)),
    )
