-- ===== src/Cache/Lru.antt =====
-- `lru` of src/cache/cache.c: the replacement matrix, a square of A * A bits in one word. Row r holds
-- bit c when way r was used after way c.
pub mod Laws
pub mod Victim
use se_lab_public.Prelude.{
  ℕ, zero, suc, ◌+◌, ◌-◌, ◌*◌, bit_and, bit_or, Bool, ◌==◌, leb, if◌then◌else◌, Option, some, none,
}
use se_lab_public.Words.{shl64, shr, not64}

-- The loop that builds `col_mask`, from row `r` on with `n` rows to go.
unfoldable pub col_mask_from : ℕ → ℕ → ℕ → ℕ → ℕ → ℕ
col_mask_from ways access mask r zero = mask
col_mask_from ways access mask r (suc n) =
    col_mask_from ways access (bit_or mask (shl64 1 (r * ways + access))) (r + 1) n

abbrev pub row_mask : ℕ → ℕ
row_mask ways = shl64 1 ways - 1

-- The new matrix: row `access` is set, then column `access` is cleared.
unfoldable pub touch_matrix : ℕ → ℕ → ℕ → ℕ
unfolding col_mask_from
touch_matrix ways access matrix =
    bit_and (bit_or matrix (shl64 (row_mask ways) (access * ways)))
      (not64 (col_mask_from ways access 0 0 ways))

-- The loop that looks for a row of zeros, from row `r` on with `n` rows to go.
unfoldable pub zero_row_from : ℕ → ℕ → ℕ → ℕ → ℕ
zero_row_from ways m r zero = 0
zero_row_from ways m r (suc n) =
    let rest = zero_row_from ways m (r + 1) n in
    if bit_and (shr m (r * ways)) (row_mask ways) == 0 then r else rest

-- What `lru` leaves: `*matrix` and the row that it returns.
pub record Chosen : Type 0 where
  pub matrix : ℕ
  pub way : ℕ

-- `none` is the failure of the assertion on the associativity.
unfoldable pub lru : ℕ → ℕ → ℕ → Option Chosen
unfolding touch_matrix zero_row_from
lru ways access matrix =
    let m = touch_matrix ways access matrix in
    if leb ways 8 then some (record { matrix = m; way = zero_row_from ways m 0 ways }) else none
