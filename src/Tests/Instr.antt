-- ===== src/Tests/Instr.antt =====
-- The fields, the flags and the tables of the instructions.
use se_lab_public.Prelude.{ℕ, ◌≡◌, ◌<◌, ◌^◌, arith, true, some}
use se_lab_public.Words.{signed64}
use se_lab_public.Instr.{error}
use se_lab_public.Instr.Bitfield.{bitfield_s64}
use se_lab_public.Instr.Bitfield.Laws.{slice, twos_complement, bitfield_s64_lem}
use se_lab_public.Instr.Tables.{init_itable}
use se_lab_public.Instr.Tables.Laws.{init_itable_lem, filled, encoded}

-- LDUR X1, [X2, #-8].
abbrev load_back : ℕ
load_back = 0xf85f8041

bitfield_s64_example :
    signed64 (bitfield_s64 load_back 12 9) ≡ twos_complement (slice load_back 12 9) 9
bitfield_s64_example =
    bitfield_s64_lem load_back 12 9 (omega arith) (omega arith) (omega arith) (omega arith)

init_itable_example :
    (init_itable true ≡ some (filled error (init_itable true)))
    × ((i : ℕ) → i < 2 ^ 11 → filled error (init_itable true) i ≡ encoded true i)
init_itable_example = init_itable_lem true
