-- ===== src/Pipe/Isa/Reads.antt =====
-- The operands of an instruction, as the register file gives them.
use native.Mathlib.Nat.{mod-eq_of_lt, mod-lt}
use se_lab_public.Prelude.{
  ℕ, zero, suc, ◌+◌, ◌/◌, ◌^◌, ◌≤◌, ◌<◌, ◌≡◌, refl, arith, some, List, [], ◌∷◌, length, get_or,
  get_elem?,
}
use se_lab_public.Instr.Bitfield.Laws.{slice, bitfield_u32_lem}
use se_lab_public.Hw.Regfile.{Proc, read_reg}
use se_lab_public.Pipe.Regs.{xzr_num}
use se_lab_public.Pipe.Decode.Regnums.{reg_at, to_xzr}
use se_lab_public.Pipe.Isa.{x_reg, sp_reg}

-- Registers that hold words, 31 of them.
pub record IsProc (p : Proc) : Type 0 where
  pub size : length p.gpr ≡ 31
  pub words : (n : ℕ) → get_or p.gpr n 0 < 2 ^ 64
  pub sp_word : p.sp < 2 ^ 64

get_elem?-get_or : (xs : List ℕ) (i : ℕ) → i < length xs → get_elem? xs i ≡ some (get_or xs i 0)
get_elem?-get_or [] i h = absurd (omega arith)
get_elem?-get_or (x ∷ xs) zero h = refl
get_elem?-get_or (x ∷ xs) (suc i) h = get_elem?-get_or xs i (omega arith)

module _ (p : Proc) (v : IsProc p) (r : ℕ) (h : r < 32) where
  pub read-x_reg : read_reg p (to_xzr r) ≡ some (x_reg p r)
  unfolding read_reg
  read-x_reg = ground (arith, get_elem?-get_or p.gpr r, v.size)

  pub read-sp_reg : read_reg p r ≡ some (sp_reg p r)
  unfolding read_reg
  read-sp_reg = ground (arith, get_elem?-get_or p.gpr r, v.size)

pub read-zero : (p : Proc) → read_reg p xzr_num ≡ some 0
unfolding read_reg
read-zero p = refl

pub x_reg-lt : (p : Proc) (v : IsProc p) (r : ℕ) → x_reg p r < 2 ^ 64
x_reg-lt p v r = ground (arith, v.words r)

pub sp_reg-lt : (p : Proc) (v : IsProc p) (r : ℕ) → sp_reg p r < 2 ^ 64
sp_reg-lt p v r = ground (arith, v.words r, v.sp_word)

module _ (i pos : ℕ) (word : i < 2 ^ 32) (fits : pos + 5 ≤ 32) where
  pub slice-lt : slice i pos 5 < 32
  slice-lt = mod-lt (i / 2 ^ pos) (omega arith)

  pub reg_at-eq : reg_at i pos ≡ slice i pos 5
  reg_at-eq = rw (bitfield_u32_lem i pos 5 word fits) (mod-eq_of_lt (omega (arith, slice-lt)))

  pub read-x :
      (p : Proc) → IsProc p → read_reg p (to_xzr (reg_at i pos)) ≡ some (x_reg p (slice i pos 5))
  read-x p v = rw reg_at-eq (read-x_reg p v (slice i pos 5) slice-lt)

  pub read-sp : (p : Proc) → IsProc p → read_reg p (reg_at i pos) ≡ some (sp_reg p (slice i pos 5))
  read-sp p v = rw reg_at-eq (read-sp_reg p v (slice i pos 5) slice-lt)
