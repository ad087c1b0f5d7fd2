-- ===== src/Cli/Popcount.antt =====
-- A number with one bit is a power of two.
use native.Mathlib.Nat.{pow-suc}
use se_lab_public.Prelude.{ℕ, zero, suc, ◌*◌, ◌/◌, ◌%◌, ◌^◌, ◌<◌, ◌≡◌, refl, arith, ◌⊎◌, inl, inr}
use se_lab_public.Cli.{popcount, popcount_from}

two_pow-suc : (n : ℕ) → 2 ^ suc n ≡ 2 ^ n * 2
two_pow-suc n = pow-suc 2 n

popcount_from-zero : (n x : ℕ) → x < 2 ^ n → popcount_from n x ≡ 0 → x ≡ 0
unfolding popcount_from
popcount_from-zero zero x lt e = omega (arith, lt)
popcount_from-zero (suc n) x lt e =
    let half : x / 2 ≡ 0 =
      popcount_from-zero n (x / 2) (omega (arith, lt, two_pow-suc n)) (omega (arith, e)) in
    omega (arith, e, half)

popcount_from-one : (n x : ℕ) → x < 2 ^ n → popcount_from n x ≡ 1 → (k : ℕ) × (k < n) × (x ≡ 2 ^ k)
unfolding popcount_from
popcount_from-one zero x lt e = absurd (omega (arith, e))
popcount_from-one (suc n) x lt e =
    let small : x / 2 < 2 ^ n = omega (arith, lt, two_pow-suc n) in
    elim (parity x) [
      | inl even ↦
          let half = popcount_from-one n (x / 2) small (omega (arith, e, even)) in
          (suc half.0, omega (arith, half.1), omega (arith, half.2, even, two_pow-suc half.0))
      | inr odd ↦
          let half = popcount_from-zero n (x / 2) small (omega (arith, e, odd)) in
          (0, omega arith, omega (arith, half, odd))
    ]
  where
    parity : (x : ℕ) → (x % 2 ≡ 0) ⊎ (x % 2 ≡ 1)
    parity x = omega arith

popcount_from-none : (n : ℕ) → popcount_from n 0 ≡ 0
unfolding popcount_from
popcount_from-none zero = refl
popcount_from-none (suc n) = omega (arith, popcount_from-none n)

popcount_from-two_pow : (n k : ℕ) → k < n → popcount_from n (2 ^ k) ≡ 1
unfolding popcount_from
popcount_from-two_pow zero k lt = absurd (omega (arith, lt))
popcount_from-two_pow (suc n) zero lt = omega (arith, popcount_from-none n)
popcount_from-two_pow (suc n) (suc k) lt =
    let half : 2 ^ suc k / 2 ≡ 2 ^ k = omega (arith, two_pow-suc k) in
    let even : 2 ^ suc k % 2 ≡ 0 = omega (arith, two_pow-suc k) in
    rw (half, even) (omega (arith, popcount_from-two_pow n k (omega (arith, lt))))

pub popcount-one : (x : ℕ) → x < 2 ^ 64 → popcount x ≡ 1 → (k : ℕ) × (k < 64) × (x ≡ 2 ^ k)
unfolding popcount
popcount-one x lt e = popcount_from-one 64 x lt e

pub popcount-two_pow : (k : ℕ) → k < 64 → popcount (2 ^ k) ≡ 1
unfolding popcount
popcount-two_pow k lt = popcount_from-two_pow 64 k lt
