-- ===== src/Cli/Sizes.antt =====
-- The tests of the sizes accept the powers of two.
use native.Mathlib.Nat.{pow-le-pow_right, div-le_self, one-le-pow, div-mul-le_self}
use se_lab_public.Prelude.{
  ℕ, zero, suc, ◌+◌, ◌*◌, ◌/◌, ◌%◌, ◌^◌, ◌≤◌, ◌<◌, ◌≡◌, refl, ap, arith, Bool, true, false, not,
  ◌==◌, ltb, ◌||◌, some, Bool-cases, inl, inr, subst, none,
}
use se_lab_public.Bits.{two_pow-add}
use se_lab_public.Prelude.Order.{mul_le_right}
use se_lab_public.Cache.{create_cache}
use se_lab_public.Cache.Valid.{IsValid, cached}
use se_lab_public.Cache.Create.{create_cache-IsValid}
use se_lab_public.Prelude.Int.{pos_part, ℤ, pos, negsuc, ltb_ℤ}
use se_lab_public.Cli.{
  popcount, popcount_from, is_bad_block, is_bad_count, is_int, u64_of, mul_int, div_int, count_sets,
  to_int, signed,
}
use se_lab_public.Cli.Popcount.{popcount-one, popcount-two_pow}

-- A negative `int` has more than one bit.
negative-bits : (n : ℕ) → is_int (negsuc n) ≡ true → (popcount (u64_of (negsuc n)) == 1) ≡ false
negative-bits n h = elim (Bool-cases (popcount (u64_of (negsuc n)) == 1)) [
  | inr e ↦ e
  | inl e ↦
      let small : n < 2 ^ 31 = ground (arith, h) in
      let one = popcount-one (u64_of (negsuc n)) (omega arith) (ground (arith, e)) in
      let room : one.0 ≤ 63 = omega (arith, one.1) in
      let top : 2 ^ one.0 ≤ 2 ^ 63 = pow-le-pow_right (omega arith) room in
      absurd (omega (arith, small, top, one.2))
]

-- An `int` with one bit is a power of two.
pub good_count-two_pow :
    (n : ℤ) → is_int n ≡ true → is_bad_count n ≡ false → (s : ℕ) × (s < 31) × (n ≡ pos (2 ^ s))
unfolding is_bad_count
good_count-two_pow (negsuc n) h e =
    let bad : true ≡ false = rw (negative-bits n h) at e in absurd (grind (arith, bad))
good_count-two_pow (pos n) h e =
    let small : n < 2 ^ 31 = ground (arith, h) in
    let same : n % 2 ^ 64 ≡ n = omega (arith, small) in
    let one = popcount-one (n % 2 ^ 64) (omega arith) (ground (arith, e)) in
    let whole : n ≡ 2 ^ one.0 = omega (arith, same, one.2) in
    (one.0, below one.0 (omega (arith, whole, small)), ap pos whole)
  where
    below : (k : ℕ) → 2 ^ k < 2 ^ 31 → k < 31
    below k lt = elim (Bool-cases (ltb k 31)) [
      | inl e ↦ ground (arith, e)
      | inr e ↦
          let above : 31 ≤ k = ground (arith, e) in
          let up : 2 ^ 31 ≤ 2 ^ k = pow-le-pow_right (omega arith) above in
          absurd (omega (arith, up, lt))
    ]

pub two_pow-good_count : (s : ℕ) → s < 64 → is_bad_count (pos (2 ^ s)) ≡ false
unfolding is_bad_count
two_pow-good_count s lt =
    let room : s ≤ 63 = omega (arith, lt) in
    let fits : 2 ^ s ≤ 2 ^ 63 = pow-le-pow_right (omega arith) room in
    let same : 2 ^ s % 2 ^ 64 ≡ 2 ^ s = omega (arith, fits) in rw (same, popcount-two_pow s lt) refl

or-false : (x y : Bool) → (x || y) ≡ false → (x ≡ false) × (y ≡ false)
or-false true y e = absurd (grind (arith, e))
or-false false y e = (refl, e)

-- A block size that is accepted is a power of two of at least 8.
pub good_block-two_pow :
    (b : ℤ)
    → is_int b ≡ true
    → is_bad_block b ≡ false
    → (k : ℕ) × (3 ≤ k) × (k < 31) × (b ≡ pos (2 ^ k))
unfolding is_bad_block is_bad_count
good_block-two_pow b h e =
    let both = or-false (ltb_ℤ b (pos 8)) (not (popcount (u64_of b) == 1)) e in
    let count = good_count-two_pow b h both.1 in
    let size : ltb_ℤ (pos (2 ^ count.0)) (pos 8) ≡ false =
      subst (λ (z : ℤ). ltb_ℤ z (pos 8) ≡ false) count.2 both.0 in
    (count.0, at_least count.0 size, count.1, count.2)
  where
    at_least : (k : ℕ) → ltb_ℤ (pos (2 ^ k)) (pos 8) ≡ false → 3 ≤ k
    at_least zero e = absurd (ground (arith, e))
    at_least (suc zero) e = absurd (ground (arith, e))
    at_least (suc (suc zero)) e = absurd (ground (arith, e))
    at_least (suc (suc (suc k))) e = omega arith

pub two_pow-good_block : (k : ℕ) → 3 ≤ k → k < 64 → is_bad_block (pos (2 ^ k)) ≡ false
unfolding is_bad_block is_bad_count
two_pow-good_block k word lt =
    let size : 2 ^ 3 ≤ 2 ^ k = pow-le-pow_right (omega arith) word in
    let big : ltb_ℤ (pos (2 ^ k)) (pos 8) ≡ false = ground (arith, size) in
    let count = two_pow-good_count k lt in rw big (unfold is_bad_count in count)

to_int-pos : (n : ℕ) → n < 2 ^ 31 → to_int (signed false n) ≡ some (pos n)
to_int-pos zero lt = refl
to_int-pos (suc n) lt = ground (arith, lt)

-- The quotient of sizes that are not negative.
pub count_sets-pos :
    (a b c : ℕ)
    → 0 < a * b
    → a * b < 2 ^ 31
    → c < 2 ^ 31
    → count_sets (pos a) (pos b) (pos c) ≡ some (pos (c / (a * b)))
unfolding count_sets mul_int div_int
count_sets-pos a b c some_bytes small fits =
    let plain : (n : ℕ) → n + 0 ≡ n = λ n. omega arith in
    let there : (a * b == 0) ≡ false = ground (arith, some_bytes) in
    let less : c / (a * b) < 2 ^ 31 = omega (arith, div-le_self c (a * b), fits) in
    rw
      (
        plain a,
        plain b,
        to_int-pos (a * b) small,
        plain (a * b),
        plain c,
        there,
        to_int-pos (c / (a * b)) less,
      )
      refl

-- That of a negative capacity is not positive, and not accepted.
signed-negative :
    (n : ℕ) → n ≤ 2 ^ 31 → (q : ℤ) × (to_int (signed true n) ≡ some q) × (is_bad_count q ≡ true)
unfolding is_bad_count popcount popcount_from
signed-negative zero lt = (pos 0, refl, refl)
signed-negative (suc n) lt =
    let int : is_int (negsuc n) ≡ true = ground (arith, lt) in
    (negsuc n, rw int refl, rw (negative-bits n int) refl)

pub count_sets-negsuc :
    (a b c : ℕ)
    → 0 < a * b
    → a * b < 2 ^ 31
    → c < 2 ^ 31
    → (q : ℤ) × (count_sets (pos a) (pos b) (negsuc c) ≡ some q) × (is_bad_count q ≡ true)
unfolding count_sets mul_int div_int
count_sets-negsuc a b c some_bytes small fits =
    let plain : (n : ℕ) → n + 0 ≡ n = λ n. omega arith in
    let there : (a * b == 0) ≡ false = ground (arith, some_bytes) in
    let whole : 0 + suc c ≡ suc c = omega arith in
    let q = signed-negative (suc c / (a * b)) (omega (arith, div-le_self (suc c) (a * b), fits)) in
    (q.0, rw (plain a, plain b, to_int-pos (a * b) small, plain (a * b), there, whole) q.1, q.2)

-- What `-A` and `-B` are to be given: 1 to 8 lines in a set, and an `int` of at most 2 ^ 27, so that a
-- set has at most 2 ^ 30 bytes.
abbrev pub IsWays : ℤ → Type 0
IsWays z = (n : ℕ) × (0 < n) × (n ≤ 8) × (z ≡ pos n)

abbrev pub IsBlockSize : ℤ → Type 0
IsBlockSize (pos b) = b ≤ 2 ^ 27
IsBlockSize (negsuc b) = b < 2 ^ 31

-- A block size that was accepted.
abbrev pub IsBlock : ℤ → Type 0
IsBlock z = (k : ℕ) × (3 ≤ k) × (2 ^ k ≤ 2 ^ 27) × (z ≡ pos (2 ^ k))

pub is_bad_block-IsBlock : (b : ℤ) → IsBlockSize b → is_bad_block b ≡ false → IsBlock b
is_bad_block-IsBlock (negsuc n) h e =
    let good = good_block-two_pow (negsuc n) (ground (arith, h)) e in absurd (grind (arith, good.3))
is_bad_block-IsBlock (pos n) h e =
    let good = good_block-two_pow (pos n) (ground (arith, h)) e in
    let same : n ≡ 2 ^ good.0 = ap pos_part good.3 in
    (good.0, good.1, omega (arith, same, h), good.3)

-- The bytes of a set.
pub set_bytes-bounds :
    (a k : ℕ) → 0 < a → a ≤ 8 → 2 ^ k ≤ 2 ^ 27 → (0 < a * 2 ^ k) × (a * 2 ^ k ≤ 2 ^ 30)
set_bytes-bounds a k some_ways few_ways fits =
    let one : 1 * 2 ^ k ≤ a * 2 ^ k = mul_le_right 1 a (2 ^ k) some_ways in
    let all : a * 2 ^ k ≤ 8 * 2 ^ k = mul_le_right a 8 (2 ^ k) few_ways in
    (omega (arith, one, one-le-pow k 2), omega (arith, all, fits))

-- The exponents of sizes that are bounded.
pub exponent_lt : (k n : ℕ) → 2 ^ k < 2 ^ n → k < n
exponent_lt k n lt = elim (Bool-cases (ltb k n)) [
  | inl e ↦ ground (arith, e)
  | inr e ↦
      let above : n ≤ k = ground (arith, e) in
      let up : 2 ^ n ≤ 2 ^ k = pow-le-pow_right (omega arith) above in
      absurd (omega (arith, up, lt))
]

-- Sizes that are accepted make a valid cache.
pub accepted-IsValid :
    (a k s c d : ℕ)
    → 0 < a
    → a ≤ 8
    → 2 ^ k ≤ 2 ^ 27
    → c < 2 ^ 31
    → c / (a * 2 ^ k) ≡ 2 ^ s
    → IsValid k s (create_cache a (2 ^ k) c d)
      × ((addr : ℕ) → cached (create_cache a (2 ^ k) c d) addr ≡ none)
accepted-IsValid a k s c d some_ways few_ways fits small sets =
    let bytes = set_bytes-bounds a k some_ways few_ways fits in
    let whole : c / (a * 2 ^ k) * (a * 2 ^ k) ≤ c = div-mul-le_self c (a * 2 ^ k) in
    let one : 1 * (2 ^ k * 2 ^ s) ≤ a * (2 ^ k * 2 ^ s) = mul_le_right 1 a _ some_ways in
    let regroup : 2 ^ s * (a * 2 ^ k) ≡ a * (2 ^ k * 2 ^ s) = grind arith in
    let filled : 2 ^ s * (a * 2 ^ k) ≤ c = rw sets at whole in
    let power : 2 ^ (k + s) ≡ 2 ^ k * 2 ^ s = two_pow-add k s in
    let lt : 2 ^ (k + s) < 2 ^ 31 = omega (arith, power, one, regroup, filled, small) in
    create_cache-IsValid a k s c d some_ways few_ways (omega (arith, exponent_lt (k + s) 31 lt))
      (omega (arith, bytes)) sets
