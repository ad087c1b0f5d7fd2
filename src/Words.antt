-- ===== src/Words.antt =====
-- The machine words of the program. A `uint64_t` is a number below 2 ^ 64 and an `int64_t` the
-- number with the same bits; the arithmetic wraps where it is written out.
use se_lab_public.Prelude.{ℕ, ◌+◌, ◌-◌, ◌*◌, ◌/◌, ◌%◌, ◌^◌, Bool, ◌||◌, ltb, if◌then◌else◌}
use se_lab_public.Prelude.Int.{ℤ, pos, negsuc, ltb_ℤ}

-- The cast to `uint64_t`.
abbrev pub u64 : ℕ → ℕ
u64 x = x % 2 ^ 64

abbrev pub u32 : ℕ → ℕ
u32 x = x % 2 ^ 32

abbrev pub u8 : ℕ → ℕ
u8 x = x % 2 ^ 8

-- `~x` on 64 bits.
abbrev pub not64 : ℕ → ℕ
not64 x = 2 ^ 64 - 1 - x

-- `x << k` on 64 bits, for a count below 64.
abbrev pub shl64 : ℕ → ℕ → ℕ
shl64 x k = u64 (x * 2 ^ k)

-- `x >> k`, of an unsigned word.
abbrev pub shr : ℕ → ℕ → ℕ
shr x k = x / 2 ^ k

-- `a + b` and `a - b` on 64 bits.
abbrev pub add64 : ℕ → ℕ → ℕ
add64 a b = u64 (a + b)

abbrev pub sub64 : ℕ → ℕ → ℕ
sub64 a b = u64 (a + 2 ^ 64 - b)

-- `(int64_t) x >> k`: the sign is copied in from the left.
abbrev pub sar64 : ℕ → ℕ → ℕ
sar64 x k = if ltb x (2 ^ 63) then shr x k else not64 (shr (not64 x) k)

-- The value of an `int64_t`.
abbrev pub signed64 : ℕ → ℤ
signed64 w = if ltb w (2 ^ 63) then pos w else negsuc (2 ^ 64 - w - 1)

-- An integer that no `int64_t` holds.
abbrev pub overflows : ℤ → Bool
overflows z = ltb_ℤ z (negsuc (2 ^ 63 - 1)) || ltb_ℤ (pos (2 ^ 63 - 1)) z
