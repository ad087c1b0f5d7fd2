-- ===== src/Instr/Tables.antt =====
-- `init_itable` and `init_ftable` of src/pipe/instr_base.c. A table is a function from its indices;
-- `none` is the failure of an assertion. The flag `ec` says whether the build has EC.
pub mod Laws
use se_lab_public.Prelude.{
  ℕ, zero, suc, ◌+◌, ◌-◌, Bool, true, false, ◌==◌, ltb, ◌&&◌, if◌then◌else◌, Option, some, none,
  List, [], ◌∷◌, ◌>>=◌, ◌>>◌,
}
use se_lab_public.Instr.{
  Opcode, Format, nop, ldur, stur, movk, movz, adrp, add_ri, adds_rr, cmn_rr, sub_ri, subs_rr,
  cmp_rr, mvn, orr_rr, eor_rr, ands_rr, tst_rr, lsl_ri, lsr_ri, ubfm, lsl_rr, lsr_rr, ubfmv, asr, b,
  b_cond, bl, ret, hlt, csel, csinv, csinc, csneg, cbz, cbnz, br, blr, error, format_error,
  format_m, format_i1, format_i2, format_rr, format_ri, format_b1, format_b2, format_b3, format_s,
  format_ec,
}

abbrev pub is_error : Opcode → Bool
is_error error = true
is_error op = false

abbrev pub is_format_error : Format → Bool
is_format_error format_error = true
is_format_error f = false

-- A table with one entry changed.
abbrev pub put {ℓ} : {A : Type ℓ} → (ℕ → A) → ℕ → A → ℕ → A
put t idx a i = if i == idx then a else t i

-- `init_itable_range` with `n` entries to go; `init_itable_entry` is a range of one.
unfoldable pub init_itable_range : Opcode → ℕ → ℕ → (ℕ → Opcode) → Option (ℕ → Opcode)
init_itable_range op idx zero t = some t
init_itable_range op idx (suc n) t = do
  t' ← is_error (t idx) >> some (put t idx op)
  init_itable_range op (idx + 1) n t'

-- One call of `init_itable`: an opcode, its first and its last index.
pub record Range : Type 0 where
  pub op : Opcode
  pub first : ℕ
  pub last : ℕ

abbrev range : Opcode → ℕ → ℕ → Range
range op first last = record { op = op; first = first; last = last }

abbrev pub base_ranges : List Range
base_ranges =
    range ldur 0x7c2 0x7c2
    ∷ range stur 0x7c0 0x7c0
    ∷ range movk 0x794 0x797
    ∷ range movz 0x694 0x697
    ∷ range adrp 0x480 0x487
    ∷ range adrp 0x580 0x587
    ∷ range adrp 0x680 0x687
    ∷ range adrp 0x780 0x787
    ∷ range add_ri 0x488 0x489
    ∷ range adds_rr 0x558 0x558
    ∷ range sub_ri 0x688 0x689
    ∷ range subs_rr 0x758 0x758
    ∷ range mvn 0x551 0x551
    ∷ range orr_rr 0x550 0x550
    ∷ range eor_rr 0x650 0x650
    ∷ range ands_rr 0x750 0x750
    ∷ range ubfm 0x69a 0x69b
    ∷ range ubfmv 0x4d6 0x4d6
    ∷ range asr 0x49a 0x49b
    ∷ range b 0x0a0 0x0bf
    ∷ range b_cond 0x2a0 0x2a7
    ∷ range bl 0x4a0 0x4bf
    ∷ range ret 0x6b2 0x6b2
    ∷ range nop 0x6a8 0x6a8
    ∷ range hlt 0x6a2 0x6a2
    ∷ []

abbrev pub ec_ranges : List Range
ec_ranges =
    range csel 0x4d4 0x4d4
    ∷ range csneg 0x6d4 0x6d4
    ∷ range cbz 0x5a0 0x5a7
    ∷ range cbnz 0x5a8 0x5af
    ∷ range br 0x6b0 0x6b0
    ∷ range blr 0x6b1 0x6b1
    ∷ []

abbrev pub append_if {ℓ} : {A : Type ℓ} → Bool → List A → List A → List A
append_if c [] ys = if c then ys else []
append_if c (x ∷ xs) ys = x ∷ append_if c xs ys

unfoldable pub init_ranges : List Range → (ℕ → Opcode) → Option (ℕ → Opcode)
init_ranges [] t = some t
init_ranges (r ∷ rs) t = do
  t' ← init_itable_range r.op r.first (r.last + 1 - r.first) t
  init_ranges rs t'

unfoldable pub init_itable : Bool → Option (ℕ → Opcode)
init_itable ec = init_ranges (append_if ec base_ranges ec_ranges) (λ i. error)

-- The value of an opcode in the enumeration, below NUM_OPCODES for all but OP_ERROR, which is -1 and
-- stands for an index out of the range.
abbrev pub opcode_index : Opcode → ℕ
opcode_index nop = 0
opcode_index ldur = 1
opcode_index stur = 2
opcode_index movk = 3
opcode_index movz = 4
opcode_index adrp = 5
opcode_index add_ri = 6
opcode_index adds_rr = 7
opcode_index cmn_rr = 8
opcode_index sub_ri = 9
opcode_index subs_rr = 10
opcode_index cmp_rr = 11
opcode_index mvn = 12
opcode_index orr_rr = 13
opcode_index eor_rr = 14
opcode_index ands_rr = 15
opcode_index tst_rr = 16
opcode_index lsl_ri = 17
opcode_index lsr_ri = 18
opcode_index ubfm = 19
opcode_index lsl_rr = 20
opcode_index lsr_rr = 21
opcode_index ubfmv = 22
opcode_index asr = 23
opcode_index b = 24
opcode_index b_cond = 25
opcode_index bl = 26
opcode_index ret = 27
opcode_index hlt = 28
opcode_index csel = 29
opcode_index csinv = 30
opcode_index csinc = 31
opcode_index csneg = 32
opcode_index cbz = 33
opcode_index cbnz = 34
opcode_index br = 35
opcode_index blr = 36
opcode_index error = 100

abbrev pub num_opcodes : Bool → ℕ
num_opcodes ec = if ec then 37 else 29

unfoldable pub init_ftable_entry : Bool → Opcode → Format → (ℕ → Format) → Option (ℕ → Format)
init_ftable_entry ec op format t =
    (is_format_error (t (opcode_index op)) && ltb (opcode_index op) (num_opcodes ec))
    >> some (put t (opcode_index op) format)

unfoldable pub init_formats : Bool → List (Opcode × Format) → (ℕ → Format) → Option (ℕ → Format)
init_formats ec [] t = some t
init_formats ec (e ∷ es) t = do t' ← init_ftable_entry ec e.0 e.1 t; init_formats ec es t'

abbrev pub base_formats : List (Opcode × Format)
base_formats =
    (ldur, format_m)
    ∷ (stur, format_m)
    ∷ (movk, format_i1)
    ∷ (movz, format_i1)
    ∷ (adrp, format_i2)
    ∷ (add_ri, format_ri)
    ∷ (adds_rr, format_rr)
    ∷ (cmn_rr, format_rr)
    ∷ (sub_ri, format_ri)
    ∷ (subs_rr, format_rr)
    ∷ (cmp_rr, format_rr)
    ∷ (mvn, format_rr)
    ∷ (orr_rr, format_rr)
    ∷ (eor_rr, format_rr)
    ∷ (ands_rr, format_rr)
    ∷ (tst_rr, format_rr)
    ∷ (lsl_ri, format_ri)
    ∷ (lsr_ri, format_ri)
    ∷ (ubfm, format_ri)
    ∷ (lsl_rr, format_rr)
    ∷ (lsr_rr, format_rr)
    ∷ (ubfmv, format_rr)
    ∷ (asr, format_ri)
    ∷ (b, format_b1)
    ∷ (b_cond, format_b2)
    ∷ (bl, format_b1)
    ∷ (ret, format_b3)
    ∷ (nop, format_s)
    ∷ (hlt, format_s)
    ∷ []

abbrev pub ec_formats : List (Opcode × Format)
ec_formats =
    (csel, format_ec)
    ∷ (csinv, format_ec)
    ∷ (csinc, format_ec)
    ∷ (csneg, format_ec)
    ∷ (cbz, format_ec)
    ∷ (cbnz, format_ec)
    ∷ (br, format_ec)
    ∷ (blr, format_ec)
    ∷ []

unfoldable pub init_ftable : Bool → Option (ℕ → Format)
init_ftable ec = init_formats ec (append_if ec base_formats ec_formats) (λ i. format_error)
