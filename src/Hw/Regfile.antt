-- ===== src/Hw/Regfile.antt =====
-- `regfile_read` and `regfile_write` of src/base/hw_elts.c, on the architectural state of
-- include/base/proc.h.
use se_lab_public.Prelude.{
  ◌>>=◌, refl, get_elem?, get_elem?-set_self, get_elem?-set_ne, length-set, ℕ_discrete, ◌∙◌, sym,
  arith, not, ◌&&◌, ◌≡◌, ◌<◌, ◌≤◌, ℕ, Bool, true, false, ◌==◌, ltb, if◌then◌else◌, Option, some,
  List, length, set, ◌>>◌,
}
use se_lab_public.Pipe.Regs.{sp_num, xzr_num}

-- The architectural part of `proc_t`; `gpr` is GPR, of 31 elements.
pub record Proc : Type 0 where
  pub sp : ℕ
  pub pc : ℕ
  pub nzcv : ℕ
  pub gpr : List ℕ

-- One port of `regfile_read`; `none` is a register that GPR does not have.
unfoldable pub read_reg : Proc → ℕ → Option ℕ
read_reg p src =
    if src == xzr_num then some 0 else if src == sp_num then some p.sp else get_elem? p.gpr src

unfoldable pub regfile_read : Proc → ℕ → ℕ → Option (ℕ × ℕ)
regfile_read p src1 src2 = do val_a ← read_reg p src1; val_b ← read_reg p src2; some (val_a, val_b)

unfoldable pub regfile_write : Proc → ℕ → ℕ → Bool → Option Proc
regfile_write p dst val_w false = some p
regfile_write p dst val_w true =
    if dst == xzr_num
    then some p
    else if dst == sp_num
    then some (record p { sp = val_w })
    else ltb dst (length p.gpr) >> some (record p { gpr = set p.gpr dst val_w })

-- What a write leaves for the next reads: a register reads as the value that was written to it, the
-- zero register as 0 whatever was written, and every other register as before.
pub record IsWritten (p : Proc) (dst val_w : ℕ) (w_enable : Bool) (p' : Proc) : Type 0 where
  pub size : length p'.gpr ≡ 31
  pub reads :
      (src : ℕ)
      → read_reg p' src
        ≡ (if w_enable && src == dst && not (src == xzr_num) then some val_w else read_reg p src)

IsWritten-gpr :
    (p : Proc) (dst val_w : ℕ)
    → length p.gpr ≡ 31
    → dst < 31
    → IsWritten p dst val_w true (record p { gpr = set p.gpr dst val_w })
unfolding read_reg
IsWritten-gpr p dst val_w size h = record {
  size = length-set p.gpr dst val_w ∙ size;
  reads = λ src. elim (ℕ_discrete src dst) [
    | yes e ↦ rw e (ground (arith, get_elem?-set_self p.gpr dst val_w (omega (arith, size))))
    | no ne ↦ ground (arith, get_elem?-set_ne p.gpr dst src val_w (λ e. ne (sym e)))
  ];
}

discarded : (p : Proc) (dst val_w : ℕ) → length p.gpr ≡ 31 → dst ≡ 32 → IsWritten p dst val_w true p
discarded p dst val_w size e = record { size = size; reads = λ src. rw e (ground arith) }

IsWritten-sp :
    (p : Proc) (dst val_w : ℕ)
    → length p.gpr ≡ 31
    → dst ≡ 31
    → IsWritten p dst val_w true (record p { sp = val_w })
unfolding read_reg
IsWritten-sp p dst val_w size e = record { size = size; reads = λ src. rw e (ground arith) }

-- With 31 general registers a write to any of the 33 register numbers succeeds, keeps their
-- number, and changes what that register reads as and nothing else; a disabled write changes
-- nothing.
pub regfile_write-IsWritten :
    (p : Proc) (dst val_w : ℕ) (w_enable : Bool)
    → length p.gpr ≡ 31
    → dst ≤ 32
    → (p' : Proc) × (regfile_write p dst val_w w_enable ≡ some p')
      × IsWritten p dst val_w w_enable p'
unfolding regfile_write
regfile_write-IsWritten p dst val_w false size d =
    (p, refl, record { size = size; reads = λ src. refl })
regfile_write-IsWritten p dst val_w true size d = pick (ℕ_discrete dst 32) (ℕ_discrete dst 31)
  where
    pick :
        Dec (dst ≡ 32)
        → Dec (dst ≡ 31)
        → (p' : Proc) × ((if dst == xzr_num
              then some p
              else if dst == sp_num
              then some (record p { sp = val_w })
              else ltb dst (length p.gpr) >> some (record p { gpr = set p.gpr dst val_w }))
            ≡ some p')
          × IsWritten p dst val_w true p'
    pick (yes e) k = (p, ground arith, discarded p dst val_w size e)
    pick (no n) (yes e) = (record p { sp = val_w }, ground arith, IsWritten-sp p dst val_w size e)
    pick (no n) (no m) = (
      record p { gpr = set p.gpr dst val_w },
      ground (arith, size),
      IsWritten-gpr p dst val_w size (omega arith),
    )
