-- ===== src/Prelude/Order.antt =====
-- `<` on the native numbers is well founded. (The library proves it of the unary numbers.)
use Prim.Native.Nat.{suc, ◌*◌, ◌≤◌}
use native.Mathlib.Omega.{arith}
use mathlib.Core.WellFounded.{Acc, WellFounded}
use se_lab_public.Prelude.{ℕ, zero, suc, ◌<◌, arith}

Acc-below : (k n : ℕ) → n < k → Acc ◌<◌ n
Acc-below zero n h = elim h [ ]
Acc-below (suc k) n h = Acc.intro n (λ m hm. Acc-below k m (omega arith))

unfoldable pub lt_wf : WellFounded ◌<◌
unfolding Acc-below
lt_wf = record { apply = λ n. Acc-below (suc n) n (omega arith) }

-- Products grow with their factors.
pub mul_le_right : (x y m : ℕ) → x ≤ y → x * m ≤ y * m
mul_le_right zero y m h = omega arith
mul_le_right (suc x) zero m h = absurd (omega arith)
mul_le_right (suc x) (suc y) m h = let smaller = mul_le_right x y m (omega arith) in omega arith
