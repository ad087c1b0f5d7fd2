-- ===== src/Bits/Mask.antt =====
-- Masks, disjoint fields and bounds of `&`, `|` and `^`, at every width.
use Prim.Native.Nat.{bit_and-bitwise}
use native.Mathlib.Nat.{add-zero, pow-suc, one-le-pow, mod-one}
use se_lab_public.Prelude.{
  ℕ, zero, suc, ◌+◌, ◌-◌, ◌*◌, ◌/◌, ◌%◌, ◌^◌, ◌≤◌, ◌<◌, ◌≡◌, refl, arith, bit_and, bit_or, bit_xor,
}
use se_lab_public.Bits.Step.{bit_and-halves, bit_or-halves}
use se_lab_public.Bits.Digit.{xor_parts, mod-two_pow-suc, mul-two_pow-half}

one_digit : 0 < 1
one_digit = omega arith

zero-bit_and : (mask : ℕ) → bit_and 0 mask ≡ 0
zero-bit_and mask = bit_and-bitwise 0 mask

-- With `n` digits left.
bit_and-zero : (n a : ℕ) → a ≤ n → bit_and a 0 ≡ 0
bit_and-zero zero zero h = refl
bit_and-zero zero (suc a) h = absurd (omega arith)
bit_and-zero (suc n) zero h = refl
bit_and-zero (suc n) (suc a) h =
    omega (arith, bit_and-halves (suc a) 0, bit_and-zero n (suc a / 2) (omega arith))

bit_or-zero : (n a : ℕ) → a ≤ n → bit_or a 0 ≡ a
bit_or-zero zero zero h = refl
bit_or-zero zero (suc a) h = absurd (omega arith)
bit_or-zero (suc n) zero h = refl
bit_or-zero (suc n) (suc a) h =
    omega (arith, bit_or-halves (suc a) 0, bit_or-zero n (suc a / 2) (omega arith))

pub bit_or-lt : (k a b : ℕ) → a < 2 ^ k → b < 2 ^ k → bit_or a b < 2 ^ k
bit_or-lt zero a b p q =
    let e : a ≡ 0 = omega arith in let d : b ≡ 0 = omega arith in rw (e, d) one_digit
bit_or-lt (suc k) a b p q = ground (
  arith,
  pow-suc 2 k,
  bit_or-halves a b,
  bit_or-lt k (a / 2) (b / 2) (omega (arith, pow-suc 2 k)) (omega (arith, pow-suc 2 k)),
)

pub bit_and-le : (k a b : ℕ) → a < 2 ^ k → bit_and a b ≤ a
bit_and-le zero a b p = let e : a ≡ 0 = omega arith in rw (e, zero-bit_and b) (omega arith)
bit_and-le (suc k) a b p =
    ground (arith, bit_and-halves a b, bit_and-le k (a / 2) (b / 2) (omega (arith, pow-suc 2 k)))

pub bit_xor-lt : (k a b : ℕ) → a < 2 ^ k → b < 2 ^ k → bit_xor a b < 2 ^ k
bit_xor-lt zero a b p q =
    let e : a ≡ 0 = omega arith in let d : b ≡ 0 = omega arith in rw (e, d) one_digit
bit_xor-lt (suc k) a b p q = ground (
  arith,
  pow-suc 2 k,
  xor_parts a b,
  bit_xor-lt k (a / 2) (b / 2) (omega (arith, pow-suc 2 k)) (omega (arith, pow-suc 2 k)),
)

-- A mask of `k` ones takes the remainder.
pub bit_and-mask : (k a : ℕ) → bit_and a (2 ^ k - 1) ≡ a % 2 ^ k
bit_and-mask zero a = rw (mod-one, bit_and-zero a a (omega arith))
bit_and-mask (suc k) a = ground (
  arith,
  pow-suc 2 k,
  one-le-pow k 2,
  bit_and-halves a (2 ^ suc k - 1),
  mod-two_pow-suc a k,
  bit_and-mask k (a / 2),
)

-- Setting a bit above all the others adds it.
pub bit_or-two_pow : (k r : ℕ) → r < 2 ^ k → bit_or r (2 ^ k) ≡ r + 2 ^ k
bit_or-two_pow zero r p = let e : r ≡ 0 = omega arith in rw e refl
bit_or-two_pow (suc k) r p = ground (
  arith,
  pow-suc 2 k,
  bit_or-halves r (2 ^ suc k),
  bit_or-two_pow k (r / 2) (omega (arith, pow-suc 2 k)),
)

-- Disjoint fields add up.
pub bit_or-fields : (k q r : ℕ) → r < 2 ^ k → bit_or (q * 2 ^ k) r ≡ q * 2 ^ k + r
bit_or-fields zero q r p =
    let e : r ≡ 0 = omega arith in
    rw e (omega (arith, bit_or-zero (q * 2 ^ 0) (q * 2 ^ 0) (omega arith)))
bit_or-fields (suc k) q r p = ground (
  arith,
  pow-suc 2 k,
  bit_or-halves (q * 2 ^ suc k) r,
  mul-two_pow-half q k,
  bit_or-fields k q (r / 2) (omega (arith, pow-suc 2 k)),
)

pub two_pow-add : (b s : ℕ) → 2 ^ (b + s) ≡ 2 ^ b * 2 ^ s
two_pow-add b zero = rw add-zero (omega arith)
two_pow-add b (suc s) =
    let e : b + suc s ≡ suc (b + s) = omega arith in
    rw (e, pow-suc, pow-suc, two_pow-add b s) (omega arith)
