-- ===== src/Bits/Step.antt =====
-- One equation for the lowest binary digit of `&`, `|` and `^`. The native operations are
-- `bitwise`, which recurs on the digits with the first operand for fuel.
use Prim.Native.Nat.{differ, digits, bitwise, bit_and-bitwise, bit_or-bitwise, bit_xor-bitwise}
use se_lab_public.Prelude.{
  ℕ, zero, suc, ◌+◌, ◌*◌, ◌/◌, ◌%◌, ◌≤◌, ◌≡◌, refl, arith, bit_and, bit_or, bit_xor, min, max,
}

module _ (rest : ℕ → ℕ) (digit : ℕ → ℕ → ℕ) where
  -- Any fuel that is at least the first operand gives the same digits.
  enough_fuel : (n m x y : ℕ) → x ≤ n → x ≤ m → digits rest digit n x y ≡ digits rest digit m x y
  enough_fuel zero zero x y p q = refl
  enough_fuel zero (suc m) (suc x) y p q = absurd (omega arith)
  enough_fuel zero (suc m) zero y p q = refl
  enough_fuel (suc n) zero (suc x) y p q = absurd (omega arith)
  enough_fuel (suc n) zero zero y p q = refl
  enough_fuel (suc n) (suc m) zero y p q = refl
  enough_fuel (suc n) (suc m) (suc x) y p q =
      rw (enough_fuel n m (suc x / 2) (y / 2) (omega arith) (omega arith))

  lowest_digit :
      (x y : ℕ)
      → bitwise rest digit (suc x) y
        ≡ bitwise rest digit (suc x / 2) (y / 2) * 2 + digit (suc x % 2) (y % 2)
  lowest_digit x y =
      omega (arith, enough_fuel x (suc x / 2) (suc x / 2) (y / 2) (omega arith) (omega arith))

pub bit_and-halves : (x y : ℕ) → bit_and x y ≡ bit_and (x / 2) (y / 2) * 2 + min (x % 2) (y % 2)
bit_and-halves zero y = simp bit_and-bitwise (omega arith)
bit_and-halves (suc x) y = simp bit_and-bitwise (lowest_digit (λ t. 0) min x y)

pub bit_or-halves : (x y : ℕ) → bit_or x y ≡ bit_or (x / 2) (y / 2) * 2 + max (x % 2) (y % 2)
bit_or-halves zero y = simp bit_or-bitwise (omega arith)
bit_or-halves (suc x) y = simp bit_or-bitwise (lowest_digit (λ t. t) max x y)

pub bit_xor-halves : (x y : ℕ) → bit_xor x y ≡ bit_xor (x / 2) (y / 2) * 2 + differ (x % 2) (y % 2)
bit_xor-halves zero y = simp bit_xor-bitwise (omega arith)
bit_xor-halves (suc x) y = simp bit_xor-bitwise (lowest_digit (λ t. t) differ x y)
