-- ===== src/Hw/Adder.antt =====
-- The ripple carry adder of src/base/hw_elts.c. The array `rca` of 64 full adders is a list, lowest
-- bit first.
pub mod Laws
use se_lab_public.Prelude.{
  ℕ, zero, suc, ◌+◌, ◌^◌, bit_and, bit_or, Bool, false, not, ◌==◌, ◌&&◌, ◌||◌, xor, get_or,
  if◌then◌else◌, List, [], ◌∷◌,
}
use se_lab_public.Words.{shr}

-- `fa_t`.
pub record FullAdder : Type 0 where
  pub bit_a : Bool
  pub bit_b : Bool
  pub c_in : Bool
  pub c_out : Bool
  pub s : Bool

-- The loop of `init_rca` from bit `i` on, with `n` adders to go.
unfoldable pub init_from : ℕ → ℕ → ℕ → ℕ → List FullAdder
init_from val_a val_b i zero = []
init_from val_a val_b i (suc n) =
    record {
      bit_a = not (bit_and (shr val_a i) 1 == 0);
      bit_b = not (bit_and (shr val_b i) 1 == 0);
      c_in = false;
      c_out = false;
      s = false;
    }
    ∷ init_from val_a val_b (i + 1) n

-- `rca[0].c_in = c`; also the write of a carry into the next adder, which the last one has not.
unfoldable pub set_c_in : Bool → List FullAdder → List FullAdder
set_c_in c [] = []
set_c_in c (fa ∷ rca) = record fa { c_in = c } ∷ rca

unfoldable pub init_rca : ℕ → ℕ → Bool → List FullAdder
unfolding init_from set_c_in
init_rca val_a val_b c_in = set_c_in c_in (init_from val_a val_b 0 64)

-- One adder: its sum bit and its carry out.
unfoldable pub full_add : FullAdder → FullAdder
full_add fa = record fa {
  s = xor (xor fa.bit_a fa.bit_b) fa.c_in;
  c_out = fa.bit_a && fa.bit_b || fa.bit_a && fa.c_in || fa.bit_b && fa.c_in;
}

-- What a run of the adder leaves: the array and the sum.
pub record Rippled : Type 0 where
  pub rca : List FullAdder
  pub sum : ℕ

-- The loop of `ripple_carry_add` at bit `i`: the adders from there on, and the sum so far. The
-- carry goes to the next adder before that one is read.
unfoldable pub ripple_from : ℕ → Bool → ℕ → List FullAdder → Rippled
unfolding full_add
ripple_from i carry result [] = record { rca = []; sum = result }
ripple_from i carry result (fa ∷ rca) =
    let fa' = full_add (record fa { c_in = carry }) in
    let rest =
      ripple_from (i + 1) fa'.c_out (if fa'.s then bit_or result (2 ^ i) else result) rca in
    record { rca = fa' ∷ rest.rca; sum = rest.sum }

unfoldable pub ripple_carry_add : List FullAdder → Rippled
unfolding ripple_from
ripple_carry_add [] = record { rca = []; sum = 0 }
ripple_carry_add (fa ∷ rca) = ripple_from 0 fa.c_in 0 (fa ∷ rca)

abbrev pub idle : FullAdder
idle = record { bit_a = false; bit_b = false; c_in = false; c_out = false; s = false }

-- `rca[63].c_out` after a run.
unfoldable pub carry_out : Rippled → Bool
carry_out r = (get_or r.rca 63 idle).c_out
