-- ===== src/Instr/Bitfield.antt =====
-- `bitfield_u32` and `bitfield_s64` of src/pipe/instr_base.c. The `int32_t` argument is its bit
-- pattern, and so is an `int64_t` result. The width is below 31, as in all calls: the mask
-- `(1 << width) - 1` is an `int`, which C leaves undefined from there on.
pub mod Laws
use se_lab_public.Prelude.{ℕ, ◌-◌, ◌/◌, ◌^◌, ◌+◌, bit_and, ltb, if◌then◌else◌}
use se_lab_public.Words.{u32, shl64, sar64}

-- `src >> k` of an `int32_t`: the sign is copied in from the left.
abbrev pub sar32 : ℕ → ℕ → ℕ
sar32 x k = if ltb x (2 ^ 31) then x / 2 ^ k else 2 ^ 32 - 1 - (2 ^ 32 - 1 - x) / 2 ^ k

-- The cast of an `int32_t` to `int64_t`.
abbrev pub extend32 : ℕ → ℕ
extend32 x = if ltb x (2 ^ 31) then x else x + 2 ^ 64 - 2 ^ 32

unfoldable pub bitfield_u32 : ℕ → ℕ → ℕ → ℕ
bitfield_u32 src frompos width = u32 (bit_and (sar32 src frompos) (2 ^ width - 1))

unfoldable pub bitfield_s64 : ℕ → ℕ → ℕ → ℕ
bitfield_s64 src frompos width =
    sar64 (shl64 (bit_and (sar64 (extend32 src) frompos) (2 ^ width - 1)) (64 - width)) (64 - width)
