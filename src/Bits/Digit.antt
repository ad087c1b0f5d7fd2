-- ===== src/Bits/Digit.antt =====
-- `test_bit x i` is bit `i` of `x`, with its laws under the word operations.
use Prim.Native.Nat.{differ}
use native.Mathlib.Nat.{
  pow-suc, pow-succ', div-one, add-zero, div-div-eq-div-mul, mod-one, mod-add-div', mod-lt,
  mod-eq_of_lt, one-le-pow, mul-add-mod_self_right,
}
use se_lab_public.Prelude.{
  ℕ, zero, suc, ◌+◌, ◌-◌, ◌*◌, ◌/◌, ◌%◌, ◌^◌, ◌≤◌, ◌<◌, ◌≡◌, refl, arith, bit_and, bit_or, bit_xor,
  ltb, leb, ◌==◌, Bool, true, false, not, if◌then◌else◌, xor, ◌&&◌, ◌||◌, ap, sym,
}
use se_lab_public.Bits.Step.{bit_and-halves, bit_or-halves, bit_xor-halves}

-- Bit `i` of `x`, that is `(x >> i) & 1`.
abbrev pub test_bit : ℕ → ℕ → Bool
test_bit x zero = x % 2 == 1
test_bit x (suc i) = test_bit (x / 2) i

pub test_bit-zero : (i : ℕ) → test_bit 0 i ≡ false
test_bit-zero zero = refl
test_bit-zero (suc i) = test_bit-zero i

and_half : (a b : ℕ) → bit_and a b / 2 ≡ bit_and (a / 2) (b / 2)
and_half a b = omega (arith, bit_and-halves a b)

or_half : (a b : ℕ) → bit_or a b / 2 ≡ bit_or (a / 2) (b / 2)
or_half a b = omega (arith, bit_or-halves a b)

-- Two digits differ in the sense of exclusive or.
differ_digits : (p q : ℕ) → p < 2 → q < 2 → differ p q ≡ (if p == q then 0 else 1)
differ_digits zero zero h k = refl
differ_digits zero (suc zero) h k = refl
differ_digits zero (suc (suc q)) h k = absurd (omega arith)
differ_digits (suc zero) zero h k = refl
differ_digits (suc zero) (suc zero) h k = refl
differ_digits (suc zero) (suc (suc q)) h k = absurd (omega arith)
differ_digits (suc (suc p)) q h k = absurd (omega arith)

pub xor_parts :
    (a b : ℕ)
    → (bit_xor a b / 2 ≡ bit_xor (a / 2) (b / 2))
      × (bit_xor a b % 2 ≡ (if a % 2 == b % 2 then 0 else 1))
xor_parts a b =
    ground (arith, bit_xor-halves a b, differ_digits (a % 2) (b % 2) (omega arith) (omega arith))

pub test_bit-and : (a b i : ℕ) → test_bit (bit_and a b) i ≡ (test_bit a i && test_bit b i)
test_bit-and a b zero = ground (arith, bit_and-halves a b)
test_bit-and a b (suc i) = rw (and_half a b) (test_bit-and (a / 2) (b / 2) i)

pub test_bit-or : (a b i : ℕ) → test_bit (bit_or a b) i ≡ (test_bit a i || test_bit b i)
test_bit-or a b zero = ground (arith, bit_or-halves a b)
test_bit-or a b (suc i) = rw (or_half a b) (test_bit-or (a / 2) (b / 2) i)

pub test_bit-xor : (a b i : ℕ) → test_bit (bit_xor a b) i ≡ xor (test_bit a i) (test_bit b i)
test_bit-xor a b zero = ground (arith, xor_parts a b)
test_bit-xor a b (suc i) = rw ((xor_parts a b).0) (test_bit-xor (a / 2) (b / 2) i)

pub mul-two_pow-half : (x k : ℕ) → x * 2 ^ suc k ≡ x * 2 ^ k * 2
mul-two_pow-half x k = omega (arith, ap (λ (t : ℕ). x * t) (pow-suc 2 k))

leb-suc : (a b : ℕ) → leb (suc a) (suc b) ≡ leb a b
leb-suc a b = ground arith

ltb-suc : (a b : ℕ) → ltb (suc a) (suc b) ≡ ltb a b
ltb-suc a b = ground arith

-- A left shift moves the bits up and fills with zeros.
pub test_bit-mul-two_pow : (x k i : ℕ) → test_bit (x * 2 ^ k) i ≡ (leb k i && test_bit x (i - k))
test_bit-mul-two_pow x zero i =
    let e : x * 2 ^ 0 ≡ x = omega arith in
    let d : i - 0 ≡ i = omega arith in let t : leb 0 i ≡ true = ground arith in rw (e, d, t)
test_bit-mul-two_pow x (suc k) zero = ground (arith, mul-two_pow-half x k)
test_bit-mul-two_pow x (suc k) (suc i) =
    let e : x * 2 ^ suc k / 2 ≡ x * 2 ^ k = omega (arith, mul-two_pow-half x k) in
    let d : suc i - suc k ≡ i - k = omega arith in
    rw (e, d, leb-suc k i) (test_bit-mul-two_pow x k i)

pub test_bit-div-two_pow : (x k i : ℕ) → test_bit (x / 2 ^ k) i ≡ test_bit x (i + k)
test_bit-div-two_pow x zero i = rw (add-zero, div-one)
test_bit-div-two_pow x (suc k) i =
    let e : x / 2 ^ suc k ≡ x / 2 / 2 ^ k = rw (pow-succ', ← div-div-eq-div-mul) in
    let d : i + suc k ≡ suc (i + k) = omega arith in rw (e, d) (test_bit-div-two_pow (x / 2) k i)

-- The digits of a remainder by a power of two, lowest digit first.
pub mod-two_pow-suc : (x k : ℕ) → (x % 2 ^ suc k % 2 ≡ x % 2) × (x % 2 ^ suc k / 2 ≡ x / 2 % 2 ^ k)
mod-two_pow-suc x k =
    let q = x / 2 ^ suc k in
    let r = x % 2 ^ suc k in
    let split : r + q * 2 ^ suc k ≡ x = mod-add-div' x (2 ^ suc k) in
    let fits : r < 2 ^ suc k = mod-lt x (one-le-pow (suc k) 2 (omega arith)) in
    let twice : q * 2 ^ suc k ≡ q * 2 ^ k * 2 = mul-two_pow-half q k in
    let half : x / 2 ≡ q * 2 ^ k + r / 2 = omega arith in
    let low : r / 2 < 2 ^ k = omega (arith, pow-suc 2 k) in
    (omega arith, rw (half, mul-add-mod_self_right) (sym (mod-eq_of_lt low)))

pub test_bit-mod-two_pow : (x k i : ℕ) → test_bit (x % 2 ^ k) i ≡ (ltb i k && test_bit x i)
test_bit-mod-two_pow x zero i = rw (mod-one, test_bit-zero) (ground arith)
test_bit-mod-two_pow x (suc k) zero = ground (arith, mod-two_pow-suc x k)
test_bit-mod-two_pow x (suc k) (suc i) =
    rw ((mod-two_pow-suc x k).1, ltb-suc i k) (test_bit-mod-two_pow (x / 2) k i)

pub test_bit-complement :
    (k x i : ℕ) → x < 2 ^ k → i < k → test_bit (2 ^ k - 1 - x) i ≡ not (test_bit x i)
test_bit-complement zero x i p q = absurd (omega arith)
test_bit-complement (suc k) x zero p q = ground (arith, pow-suc 2 k)
test_bit-complement (suc k) x (suc i) p q =
    let e : (2 ^ suc k - 1 - x) / 2 ≡ 2 ^ k - 1 - x / 2 = omega (arith, pow-suc 2 k) in
    rw e (test_bit-complement k (x / 2) i (omega (arith, pow-suc 2 k)) (omega arith))

pub test_bit-ext :
    (k x y : ℕ) → x < 2 ^ k → y < 2 ^ k → ((i : ℕ) → i < k → test_bit x i ≡ test_bit y i) → x ≡ y
test_bit-ext zero x y p q h = omega arith
test_bit-ext (suc k) x y p q h = ground (
  arith,
  h 0,
  pow-suc 2 k,
  test_bit-ext k (x / 2) (y / 2) (omega (arith, pow-suc 2 k)) (omega (arith, pow-suc 2 k))
      (λ i r. h (suc i) (omega arith)),
)

-- The bits above a number are clear.
pub test_bit_of_lt : (k x i : ℕ) → x < 2 ^ k → k ≤ i → test_bit x i ≡ false
test_bit_of_lt k x i p q =
    let e : x % 2 ^ k ≡ x = mod-eq_of_lt p in
    let clear : ltb i k ≡ false = ground arith in rw (← e, test_bit-mod-two_pow x k i, clear)

-- A mask of ones.
pub test_bit-ones : (k i : ℕ) → test_bit (2 ^ k - 1) i ≡ ltb i k
test_bit-ones zero i = rw (test_bit-zero i) (ground arith)
test_bit-ones (suc k) zero = ground (arith, pow-suc 2 k, one-le-pow k 2)
test_bit-ones (suc k) (suc i) =
    let e : (2 ^ suc k - 1) / 2 ≡ 2 ^ k - 1 = omega (arith, pow-suc 2 k) in
    rw (e, ltb-suc i k) (test_bit-ones k i)
