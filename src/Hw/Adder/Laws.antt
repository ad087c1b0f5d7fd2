-- ===== src/Hw/Adder/Laws.antt =====
-- The ripple carry adder adds.
use native.Mathlib.Nat.{pow-suc, div-div-eq-div-mul, mod-one}
use native.Mathlib.Numerals.{add-one}
use se_lab_public.Prelude.{
  ℕ, zero, suc, ◌+◌, ◌*◌, ◌/◌, ◌%◌, ◌^◌, ◌<◌, ◌≡◌, refl, arith, Bool, true, false, not, ◌==◌,
  if◌then◌else◌, List, [], ◌∷◌, bit_and, bit_or, ap, length, get_or,
}
use se_lab_public.Words.{shr}
use se_lab_public.Bits.{bit_and-mask, bit_or-two_pow, mod-two_pow-suc}
use se_lab_public.Instr.{to_ℕ}
use se_lab_public.Hw.Adder.{
  FullAdder, init_from, init_rca, full_add, ripple_from, ripple_carry_add, carry_out, Rippled, idle,
}

-- The carry that leaves the last adder, or the one that came in.
abbrev last_carry : Bool → List FullAdder → Bool
last_carry c [] = c
last_carry c (fa ∷ rca) = last_carry fa.c_out rca

-- The loop from bit `i` adds the bits of both words from `i` on, and the carry, above what it has.
record IsSum (a b i n r : ℕ) (c : Bool) (out : Rippled) : Type 0 where
  adds :
      out.sum + 2 ^ i * 2 ^ n * to_ℕ (last_carry c out.rca)
      ≡ r + 2 ^ i * (shr a i % 2 ^ n + shr b i % 2 ^ n + to_ℕ c)
  bounded : out.sum < 2 ^ i * 2 ^ n
  size : length out.rca ≡ n

bit_of : (x : ℕ) → to_ℕ (not (bit_and x 1 == 0)) ≡ x % 2
bit_of x = ground (arith, bit_and-mask 1 x)

full_add-IsSum :
    (fa : FullAdder)
    → to_ℕ (full_add fa).s + 2 * to_ℕ (full_add fa).c_out
      ≡ to_ℕ fa.bit_a + to_ℕ fa.bit_b + to_ℕ fa.c_in
unfolding full_add
full_add-IsSum fa = ground arith

-- The sum bit goes above the bits that are there.
add_bit :
    (s : Bool) (i r : ℕ)
    → r < 2 ^ i
    → let r' = if s then bit_or r (2 ^ i) else r in (r' ≡ r + 2 ^ i * to_ℕ s) × (r' < 2 ^ suc i)
add_bit true i r h = ground (arith, bit_or-two_pow i r h, pow-suc 2 i)
add_bit false i r h = ground (arith, pow-suc 2 i)

half_shr : (a i : ℕ) → shr a (suc i) ≡ shr a i / 2
half_shr a i = rw (pow-suc, ← div-div-eq-div-mul)

-- The step of the sum, over numbers: `p` is the weight of the bit, and `q` that of the rest.
carry_step :
    (p q u v x y c s c' k r r' sum : ℕ)
    → r' ≡ r + p * s
    → s + 2 * c' ≡ x + y + c
    → sum + p * 2 * q * k ≡ r' + p * 2 * (u + v + c')
    → sum + p * (q * 2) * k ≡ r + p * (u * 2 + x + (v * 2 + y) + c)
carry_step p q u v x y c s c' k r r' sum e bits rest = omega (arith, ap (λ (t : ℕ). p * t) bits)

-- The `suc n` bits of `x` are its lowest and the `n` bits above.
mod-suc : (x n : ℕ) → x % 2 ^ suc n ≡ x / 2 % 2 ^ n * 2 + x % 2
mod-suc x n = omega (arith, mod-two_pow-suc x n)

module _ (a b n i r : ℕ) (c s c' : Bool) (r' : ℕ) (fa : FullAdder) (out : Rippled) where
  IsSum-cons :
      fa.c_out ≡ c'
      → r' ≡ r + 2 ^ i * to_ℕ s
      → to_ℕ s + 2 * to_ℕ c' ≡ shr a i % 2 + shr b i % 2 + to_ℕ c
      → IsSum a b (suc i) n r' c' out
      → IsSum a b i (suc n) r c (record { rca = fa ∷ out.rca; sum = out.sum })
  IsSum-cons e r_e bits rest = record {
    adds =
        rw (e, mod-suc, mod-suc, pow-suc 2 n)
          (carry_step (2 ^ i) (2 ^ n) _ _ _ _ _ (to_ℕ s) (to_ℕ c') _ r r' _ r_e bits
            (rw (half_shr, half_shr, pow-suc) at rest.adds));
    bounded = rw (pow-suc 2 n) (omega (arith, (rw (pow-suc 2 i) at rest.bounded)));
    size = ap suc rest.size;
  }

abbrev read_adder : ℕ → ℕ → ℕ → Bool → FullAdder
read_adder a b i c = record {
  bit_a = not (bit_and (shr a i) 1 == 0);
  bit_b = not (bit_and (shr b i) 1 == 0);
  c_in = c;
  c_out = false;
  s = false;
}

ripple_from-IsSum :
    (a b n i r : ℕ) (c : Bool)
    → r < 2 ^ i
    → IsSum a b i n r c (ripple_from i c r (init_from a b i n))
unfolding ripple_from init_from
ripple_from-IsSum a b zero i r c h = record {
  adds = rw (mod-one, mod-one) (omega arith);
  bounded = omega arith;
  size = refl;
}
ripple_from-IsSum a b (suc n) i r c h =
    let fa : FullAdder = read_adder a b i c in
    let fa' = full_add fa in
    let r' = if fa'.s then bit_or r (2 ^ i) else r in
    let above = add_bit fa'.s i r h in
    let bits = full_add-IsSum fa in
    let rest = ripple_from-IsSum a b n (suc i) r' fa'.c_out above.1 in
    rw add-one (
      IsSum-cons a b n i r c fa'.s fa'.c_out r' fa' _ refl above.0
        (omega (arith, bits, bit_of (shr a i), bit_of (shr b i))) rest)

last_carry-eq :
    (rca : List FullAdder) (n : ℕ) (c : Bool) (d : FullAdder)
    → length rca ≡ suc n
    → last_carry c rca ≡ (get_or rca n d).c_out
last_carry-eq [] n c d h = absurd (omega arith)
last_carry-eq (fa ∷ []) zero c d h = refl
last_carry-eq (fa ∷ []) (suc n) c d h = absurd (omega arith)
last_carry-eq (fa ∷ fb ∷ rca) zero c d h = absurd (omega arith)
last_carry-eq (fa ∷ fb ∷ rca) (suc n) c d h = last_carry-eq (fb ∷ rca) n fa.c_out d (omega arith)

-- The adder adds: on two words and a carry in, the 64 sum bits and the carry out of the last adder
-- are together the sum of the words and the carry.
pub ripple_carry_add_lem :
    (a b : ℕ) (c : Bool)
    → a < 2 ^ 64
    → b < 2 ^ 64
    → let out = ripple_carry_add (init_rca a b c) in
      (out.sum + 2 ^ 64 * to_ℕ (carry_out out) ≡ a + b + to_ℕ c) × (out.sum < 2 ^ 64)
unfolding ripple_carry_add init_rca carry_out
ripple_carry_add_lem a b c ha hb =
    let out = ripple_carry_add (init_rca a b c) in
    let run : IsSum a b 0 64 0 c out = ripple_from-IsSum a b 64 0 0 c (omega arith) in
    let carry : last_carry c out.rca ≡ carry_out out = last_carry-eq out.rca 63 c idle run.size in
    (omega (arith, run.adds, ap to_ℕ carry), omega (arith, run.bounded))
