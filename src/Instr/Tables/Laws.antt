-- ===== src/Instr/Tables/Laws.antt =====
-- The tables hold what the encodings of the instruction set say, and no assertion fails while they
-- are filled.
use se_lab_public.Prelude.{
  ℕ, zero, suc, ◌<◌, ◌≡◌, refl, ap, sym, ◌∙◌, arith, Bool, true, false, ◌==◌, ◌&&◌, bit_and,
  if◌then◌else◌, Option, some, none, List, [], ◌∷◌, get_or, ==_iff, ltb, ℕ_discrete, ◌^◌,
}
use se_lab_public.Instr.{
  Opcode, Format, error, nop, ldur, stur, movk, movz, adrp, add_ri, adds_rr, cmn_rr, sub_ri,
  subs_rr, cmp_rr, mvn, orr_rr, eor_rr, ands_rr, tst_rr, lsl_ri, lsr_ri, ubfm, lsl_rr, lsr_rr,
  ubfmv, asr, b, b_cond, bl, ret, hlt, csel, csinv, csinc, csneg, cbz, cbnz, br, blr, format_error,
  format_m, format_i1, format_i2, format_rr, format_ri, format_b1, format_b2, format_b3, format_s,
  format_ec,
}
use se_lab_public.Instr.Tables.{
  init_itable, init_ftable, init_itable_range, init_ranges, init_formats, init_ftable_entry,
  opcode_index, append_if, num_opcodes,
}

-- A pattern of the eleven bits: those of the mask are fixed.
pub record Pattern : Type 0 where
  pub op : Opcode
  pub mask : ℕ
  pub value : ℕ

abbrev pattern_of : Opcode → ℕ → ℕ → Pattern
pattern_of op mask value = record { op = op; mask = mask; value = value }

abbrev pub base_patterns : List Pattern
base_patterns =
    pattern_of ldur 0x7ff 0x7c2
    ∷ pattern_of stur 0x7ff 0x7c0
    ∷ pattern_of movk 0x7fc 0x794
    ∷ pattern_of movz 0x7fc 0x694
    ∷ pattern_of add_ri 0x7fe 0x488
    ∷ pattern_of adds_rr 0x7ff 0x558
    ∷ pattern_of sub_ri 0x7fe 0x688
    ∷ pattern_of subs_rr 0x7ff 0x758
    ∷ pattern_of mvn 0x7ff 0x551
    ∷ pattern_of orr_rr 0x7ff 0x550
    ∷ pattern_of eor_rr 0x7ff 0x650
    ∷ pattern_of ands_rr 0x7ff 0x750
    ∷ pattern_of ubfm 0x7fe 0x69a
    ∷ pattern_of ubfmv 0x7ff 0x4d6
    ∷ pattern_of asr 0x7fe 0x49a
    ∷ pattern_of b 0x7e0 0xa0
    ∷ pattern_of b_cond 0x7f8 0x2a0
    ∷ pattern_of bl 0x7e0 0x4a0
    ∷ pattern_of ret 0x7ff 0x6b2
    ∷ pattern_of nop 0x7ff 0x6a8
    ∷ pattern_of hlt 0x7ff 0x6a2
    ∷ pattern_of adrp 0x4f8 0x480
    ∷ []

abbrev pub ec_patterns : List Pattern
ec_patterns =
    pattern_of csel 0x7ff 0x4d4
    ∷ pattern_of csneg 0x7ff 0x6d4
    ∷ pattern_of cbz 0x7f8 0x5a0
    ∷ pattern_of cbnz 0x7f8 0x5a8
    ∷ pattern_of br 0x7ff 0x6b0
    ∷ pattern_of blr 0x7ff 0x6b1
    ∷ []

-- The opcode of the first pattern that the bits match.
unfoldable pub matching : List Pattern → ℕ → Opcode
matching [] i = error
matching (p ∷ ps) i = let rest = matching ps i in if bit_and i p.mask == p.value then p.op else rest

unfoldable pub encoded : Bool → ℕ → Opcode
encoded ec i = matching (append_if ec base_patterns ec_patterns) i

-- Opcodes are told apart by their values.
abbrev opcodes : List Opcode
opcodes =
    nop ∷ ldur ∷ stur ∷ movk ∷ movz ∷ adrp ∷ add_ri ∷ adds_rr ∷ cmn_rr ∷ sub_ri ∷ subs_rr ∷ cmp_rr
    ∷ mvn ∷ orr_rr ∷ eor_rr ∷ ands_rr ∷ tst_rr ∷ lsl_ri ∷ lsr_ri ∷ ubfm ∷ lsl_rr ∷ lsr_rr ∷ ubfmv
    ∷ asr ∷ b ∷ b_cond ∷ bl ∷ ret ∷ hlt ∷ csel ∷ csinv ∷ csinc ∷ csneg ∷ cbz ∷ cbnz ∷ br ∷ blr ∷ []

opcode_index_inv : (op : Opcode) → get_or opcodes (opcode_index op) error ≡ op
opcode_index_inv nop = refl
opcode_index_inv op = refl

abbrev agree : (ℕ → Opcode) → (ℕ → Opcode) → ℕ → Bool
agree t u zero = true
agree t u (suc n) = opcode_index (t n) == opcode_index (u n) && agree t u n

agree-eq : (t u : ℕ → Opcode) (n i : ℕ) → agree t u n ≡ true → i < n → t i ≡ u i
agree-eq t u zero i h k = absurd (omega arith)
agree-eq t u (suc n) i h k = elim (ℕ_discrete i n) [
  | yes e ↦ rw e (
      sym (opcode_index_inv (t n))
      ∙ ap (λ j. get_or opcodes j error)
          ((==_iff (opcode_index (t n)) (opcode_index (u n))).0 (ground (arith, h)))
      ∙ opcode_index_inv (u n))
  | no ne ↦ agree-eq t u n i (ground (arith, h)) (omega arith)
]

-- The table that was filled.
abbrev pub filled {ℓ} : {A : Type ℓ} → A → Option (ℕ → A) → ℕ → A
filled d none i = d
filled d (some t) i = t i

itable-agrees : (ec : Bool) → agree (filled error (init_itable ec)) (encoded ec) 2048 ≡ true
unfolding init_itable init_ranges init_itable_range encoded matching
itable-agrees true = refl
itable-agrees false = refl

init_itable-runs : (ec : Bool) → init_itable ec ≡ some (filled error (init_itable ec))
unfolding init_itable init_ranges init_itable_range
init_itable-runs true = refl
init_itable-runs false = refl

-- `init_itable` runs to its end in both builds, and the table that it fills maps the eleven top bits
-- of an instruction to the opcode whose encoding has them, and to OP_ERROR if there is none.
pub init_itable_lem :
    (ec : Bool)
    → (init_itable ec ≡ some (filled error (init_itable ec)))
      × ((i : ℕ) → i < 2 ^ 11 → filled error (init_itable ec) i ≡ encoded ec i)
init_itable_lem ec = (
  init_itable-runs ec,
  λ i h. agree-eq (filled error (init_itable ec)) (encoded ec) 2048 i (itable-agrees ec) h,
)

-- The format of each opcode.
unfoldable pub format_of : Opcode → Format
format_of ldur = format_m
format_of stur = format_m
format_of movk = format_i1
format_of movz = format_i1
format_of adrp = format_i2
format_of add_ri = format_ri
format_of sub_ri = format_ri
format_of lsl_ri = format_ri
format_of lsr_ri = format_ri
format_of ubfm = format_ri
format_of asr = format_ri
format_of b = format_b1
format_of bl = format_b1
format_of b_cond = format_b2
format_of ret = format_b3
format_of nop = format_s
format_of hlt = format_s
format_of csel = format_ec
format_of csinv = format_ec
format_of csinc = format_ec
format_of csneg = format_ec
format_of cbz = format_ec
format_of cbnz = format_ec
format_of br = format_ec
format_of blr = format_ec
format_of error = format_error
format_of op = format_rr

ftable_entry :
    (ec : Bool) (op : Opcode)
    → ltb (opcode_index op) (num_opcodes ec) ≡ true
    → filled format_error (init_ftable ec) (opcode_index op) ≡ format_of op
unfolding init_ftable init_formats init_ftable_entry format_of
ftable_entry true nop h = refl
ftable_entry true error h = cc
ftable_entry true op h = refl
ftable_entry false nop h = refl
ftable_entry false csel h = cc
ftable_entry false csinv h = cc
ftable_entry false csinc h = cc
ftable_entry false csneg h = cc
ftable_entry false cbz h = cc
ftable_entry false cbnz h = cc
ftable_entry false br h = cc
ftable_entry false blr h = cc
ftable_entry false error h = cc
ftable_entry false op h = refl

-- `init_ftable` runs to its end in both builds, and gives every opcode of the build its format.
pub init_ftable_lem :
    (ec : Bool)
    → (init_ftable ec ≡ some (filled format_error (init_ftable ec)))
      × ((op : Opcode)
          → ltb (opcode_index op) (num_opcodes ec) ≡ true
          → filled format_error (init_ftable ec) (opcode_index op) ≡ format_of op)
unfolding init_ftable init_formats init_ftable_entry
init_ftable_lem true = (refl, ftable_entry true)
init_ftable_lem false = (refl, ftable_entry false)
