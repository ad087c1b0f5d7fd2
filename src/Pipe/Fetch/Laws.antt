-- ===== src/Pipe/Fetch/Laws.antt =====
-- Aliases and the prediction of the next instruction.
use se_lab_public.Prelude.{
  ◌∙◌, ℕ, ◌+◌, ◌-◌, ◌*◌, ◌/◌, ◌%◌, ◌^◌, ◌<◌, ◌≡◌, refl, arith, Bool, true, false, ◌==◌, ltb,
  if◌then◌else◌,
}
use se_lab_public.Instr.{b, bl, b_cond, cbz, cbnz, Opcode, ubfm, ubfmv}
use se_lab_public.Instr.Bitfield.Laws.{slice, bitfield_u32_lem, bitfield_s64-word}
use se_lab_public.Pipe.Fetch.{predict_pc, target, fix_instr_aliases, selecting, discarding}
use native.Mathlib.Nat.{mod-lt}
use se_lab_public.Words.{add64, shl64, u8}
use se_lab_public.Instr.Bitfield.{bitfield_u32, bitfield_s64}
use se_lab_public.Instr.Tables.Laws.{format_of}

-- The two opcodes that only stand for their aliases.
abbrev pub is_alias_only : Opcode → Bool
is_alias_only ubfm = true
is_alias_only ubfmv = true
is_alias_only op = false

selecting-format_of : (bit : ℕ) (op : Opcode) → format_of (selecting bit op) ≡ format_of op
unfolding format_of
selecting-format_of bit Opcode.csel = ground arith
selecting-format_of bit Opcode.csneg = ground arith
selecting-format_of bit op = refl

discarding-format_of : (op : Opcode) → format_of (discarding op) ≡ format_of op
unfolding format_of
discarding-format_of Opcode.subs_rr = refl
discarding-format_of op = refl

selecting-is_alias_only :
    (bit : ℕ) (op : Opcode) → is_alias_only (selecting bit op) ≡ is_alias_only op
selecting-is_alias_only bit Opcode.csel = ground arith
selecting-is_alias_only bit Opcode.csneg = ground arith
selecting-is_alias_only bit op = refl

discarding-is_alias_only : (op : Opcode) → is_alias_only (discarding op) ≡ is_alias_only op
discarding-is_alias_only Opcode.subs_rr = refl
discarding-is_alias_only op = refl

rest_lem :
    (bit : ℕ) (c : Bool) (op : Opcode)
    → (is_alias_only (selecting bit (if c then discarding op else op)) ≡ is_alias_only op)
      × (format_of (selecting bit (if c then discarding op else op)) ≡ format_of op)
rest_lem bit true op = (
  selecting-is_alias_only bit (discarding op) ∙ discarding-is_alias_only op,
  selecting-format_of bit (discarding op) ∙ discarding-format_of op,
)
rest_lem bit false op = (selecting-is_alias_only bit op, selecting-format_of bit op)

-- The instruction that the fields of a word say: a UBFM is a shift to the right if its `imms` is 63,
-- a UBFMV one if its bits 11 and 10 are not 0; CMP, CMN and TST are the operations that discard their
-- result; bit 10 tells CSINC from CSEL, and CSNEG from CSINV.
unfoldable pub alias_of : ℕ → Opcode → Opcode
alias_of i ubfm = if slice i 10 6 == 63 then Opcode.lsr_ri else Opcode.lsl_ri
alias_of i ubfmv = if slice i 10 2 == 0 then Opcode.lsl_rr else Opcode.lsr_rr
alias_of i Opcode.subs_rr = if slice i 0 5 == 31 then Opcode.cmp_rr else Opcode.subs_rr
alias_of i Opcode.adds_rr = if slice i 0 5 == 31 then Opcode.cmn_rr else Opcode.adds_rr
alias_of i Opcode.ands_rr = if slice i 0 5 == 31 then Opcode.tst_rr else Opcode.ands_rr
alias_of i Opcode.csel = if slice i 10 1 == 1 then Opcode.csinc else Opcode.csel
alias_of i Opcode.csneg = if slice i 10 1 == 0 then Opcode.csinv else Opcode.csneg
alias_of i op = op

aliases : (i : ℕ) (op : Opcode) → i < 2 ^ 32 → fix_instr_aliases i op ≡ alias_of i op
unfolding fix_instr_aliases alias_of
aliases i op word = go op
  where
    imms : bitfield_u32 i 10 6 ≡ slice i 10 6
    imms = bitfield_u32_lem i 10 6 word (omega arith)

    kind : bitfield_u32 i 10 2 ≡ slice i 10 2
    kind = bitfield_u32_lem i 10 2 word (omega arith)

    rd : u8 (bitfield_u32 i 0 5) ≡ slice i 0 5
    rd = rw (bitfield_u32_lem i 0 5 word (omega arith)) (omega arith)

    bit : bitfield_u32 i 10 1 ≡ slice i 10 1
    bit = bitfield_u32_lem i 10 1 word (omega arith)

    go : (op : Opcode) → fix_instr_aliases i op ≡ alias_of i op
    go Opcode.ubfm = rw imms refl
    go Opcode.ubfmv = rw kind refl
    go Opcode.subs_rr = ground (arith, rd)
    go Opcode.adds_rr = ground (arith, rd)
    go Opcode.ands_rr = ground (arith, rd)
    go Opcode.csel = ground (arith, bit, rd)
    go Opcode.csneg = ground (arith, bit, rd)
    go op = ground arith

fix_instr_aliases-format_of :
    (insnbits : ℕ) (op : Opcode)
    → (is_alias_only (fix_instr_aliases insnbits op) ≡ false)
      × (format_of (fix_instr_aliases insnbits op) ≡ format_of op)
unfolding fix_instr_aliases format_of
fix_instr_aliases-format_of insnbits Opcode.ubfm = (ground arith, ground arith)
fix_instr_aliases-format_of insnbits Opcode.ubfmv = (ground arith, ground arith)
fix_instr_aliases-format_of insnbits op =
    rest_lem (bitfield_u32 insnbits 10 1) (u8 (bitfield_u32 insnbits 0 5) == 31) op

-- For a word of 32 bits, `fix_instr_aliases` gives the instruction that the fields of the word say. No
-- instruction is a UBFM or a UBFMV any more, and each has the format that it had before, so that its
-- registers are read from the same fields.
pub fix_instr_aliases-alias_of :
    (insnbits : ℕ) (op : Opcode)
    → insnbits < 2 ^ 32
    → (fix_instr_aliases insnbits op ≡ alias_of insnbits op)
      × (is_alias_only (fix_instr_aliases insnbits op) ≡ false)
      × (format_of (fix_instr_aliases insnbits op) ≡ format_of op)
fix_instr_aliases-alias_of insnbits op word =
    let kept = fix_instr_aliases-format_of insnbits op in (aliases insnbits op word, kept.0, kept.1)

-- The address that lies a signed number of instructions, of `w` bits, away.
abbrev pub displaced : ℕ → ℕ → ℕ → ℕ
displaced pc f w =
    if ltb f (2 ^ (w - 1)) then (pc + 4 * f) % 2 ^ 64 else (pc + 2 ^ 64 - 4 * (2 ^ w - f)) % 2 ^ 64

-- Where the processor expects to go next: branches with an immediate are taken.
unfoldable pub expected : ℕ → ℕ → Opcode → ℕ
expected pc i b = displaced pc (slice i 0 26) 26
expected pc i bl = displaced pc (slice i 0 26) 26
expected pc i b_cond = displaced pc (slice i 5 19) 19
expected pc i cbz = displaced pc (slice i 5 19) 19
expected pc i cbnz = displaced pc (slice i 5 19) 19
expected pc i op = (pc + 4) % 2 ^ 64

displaced_long :
    (pc f : ℕ)
    → pc < 2 ^ 64
    → f < 2 ^ 26
    → add64 pc (shl64 (if ltb f (2 ^ 25) then f else f + 2 ^ 64 - 2 ^ 26) 2) ≡ displaced pc f 26
displaced_long pc f h k = ground arith

displaced_short :
    (pc f : ℕ)
    → pc < 2 ^ 64
    → f < 2 ^ 19
    → add64 pc (shl64 (if ltb f (2 ^ 18) then f else f + 2 ^ 64 - 2 ^ 19) 2) ≡ displaced pc f 19
displaced_short pc f h k = ground arith

module _ (pc i : ℕ) (h : pc < 2 ^ 64) (word : i < 2 ^ 32) where
  long_branch : add64 pc (shl64 (bitfield_s64 i 0 26) 2) ≡ displaced pc (slice i 0 26) 26
  long_branch =
      rw (bitfield_s64-word i 0 26 word (omega arith) (omega arith) (omega arith))
        (displaced_long pc (slice i 0 26) h (mod-lt (i / 2 ^ 0) (omega arith)))

  short_branch : add64 pc (shl64 (bitfield_s64 i 5 19) 2) ≡ displaced pc (slice i 5 19) 19
  short_branch =
      rw (bitfield_s64-word i 5 19 word (omega arith) (omega arith) (omega arith))
        (displaced_short pc (slice i 5 19) h (mod-lt (i / 2 ^ 5) (omega arith)))

  target-expected : (op : Opcode) → target pc i op ≡ expected pc i op
  unfolding target expected
  target-expected Opcode.b = long_branch
  target-expected Opcode.bl = long_branch
  target-expected Opcode.b_cond = short_branch
  target-expected Opcode.cbz = short_branch
  target-expected Opcode.cbnz = short_branch
  target-expected op = refl

-- From an address other than 0, a 64-bit one, the predicted PC is that of the branch target for the
-- branches with an immediate, as a signed number of instructions from the branch, and of the next
-- instruction for all others; the sequential successor is the next instruction. All are taken
-- modulo 2 ^ 64, and the instruction has 32 bits.
pub predict_pc-expected :
    (pc i : ℕ) (op : Opcode) (old : ℕ × ℕ)
    → 0 < pc
    → pc < 2 ^ 64
    → i < 2 ^ 32
    → predict_pc pc i op old ≡ (expected pc i op, (pc + 4) % 2 ^ 64)
unfolding predict_pc
predict_pc-expected pc i op old some_pc h word = rw (target-expected pc i h word op) (ground arith)
