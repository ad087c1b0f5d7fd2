-- ===== src/Cli.antt =====
-- The command lines of src/cache/csim.c and src/base/handle_args.c. What `getopt`, `atoi` and
-- `fopen` give is a list of options with their values.
pub mod Popcount
pub mod Sizes
pub mod Counts
pub mod Csim
use se_lab_public.Prelude.{
  ℕ, zero, suc, ◌+◌, ◌-◌, ◌*◌, ◌/◌, ◌%◌, ◌^◌, Bool, true, false, not, ◌==◌, ltb, leb, ◌&&◌, ◌||◌,
  xor, ◌>>=◌, if◌then◌else◌, Option, some, none,
}
use se_lab_public.Prelude.Int.{ℤ, pos, negsuc, pos_part, neg_part, ltb_ℤ}

-- `__builtin_popcountll`, over the low bits.
unfoldable pub popcount_from : ℕ → ℕ → ℕ
popcount_from zero x = 0
popcount_from (suc n) x = x % 2 + popcount_from n (x / 2)

unfoldable pub popcount : ℕ → ℕ
popcount x = popcount_from 64 x

-- An `int` as an `unsigned int` and as an `unsigned long long`.
abbrev pub u32_of : ℤ → ℕ
u32_of (pos n) = n % 2 ^ 32
u32_of (negsuc n) = 2 ^ 32 - 1 - n % 2 ^ 32

abbrev pub u64_of : ℤ → ℕ
u64_of (pos n) = n % 2 ^ 64
u64_of (negsuc n) = 2 ^ 64 - 1 - n % 2 ^ 64

-- The options of a cache that are not given are -1.
abbrev pub unset : ℤ
unset = negsuc 0

abbrev pub is_unset : ℤ → Bool
is_unset (negsuc zero) = true
is_unset z = false

-- The test of a block size.
unfoldable pub is_bad_block : ℤ → Bool
is_bad_block b = ltb_ℤ b (pos 8) || not (popcount (u64_of b) == 1)

abbrev pub is_int : ℤ → Bool
is_int (pos n) = ltb n (2 ^ 31)
is_int (negsuc n) = ltb n (2 ^ 31)

abbrev pub magnitude : ℤ → ℕ
magnitude z = pos_part z + neg_part z

-- A sign and a magnitude as an integer.
abbrev pub signed : Bool → ℕ → ℤ
signed negative zero = pos 0
signed false (suc n) = pos (suc n)
signed true (suc n) = negsuc n

abbrev pub is_negative : ℤ → Bool
is_negative (pos n) = false
is_negative (negsuc n) = true

-- The product and the quotient of two `int`s. An overflow or a division by 0 is undefined.
abbrev pub to_int : ℤ → Option ℤ
to_int z = if is_int z then some z else none

unfoldable pub mul_int : ℤ → ℤ → Option ℤ
mul_int a b = to_int (signed (xor (is_negative a) (is_negative b)) (magnitude a * magnitude b))

unfoldable pub div_int : ℤ → ℤ → Option ℤ
div_int a b =
    if magnitude b == 0
    then none
    else to_int (signed (xor (is_negative a) (is_negative b)) (magnitude a / magnitude b))

-- `C / (A * B)`.
unfoldable pub count_sets : ℤ → ℤ → ℤ → Option ℤ
count_sets a b c = do p ← mul_int a b; div_int c p

-- The test of the number of sets.
unfoldable pub is_bad_count : ℤ → Bool
is_bad_count n = not (popcount (u64_of n) == 1)
