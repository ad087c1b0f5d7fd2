-- ===== src/Cache/Lru/Laws.antt =====
-- The matrix ranks the ways by their last use, so that the row of zeros is the way that was used
-- longest ago.
use native.Mathlib.Nat.{
  pow-le-pow_right, mul-add-div_right, mul-add-mod_self_right, mod-eq_of_lt, div-eq_of_lt,
}
use se_lab_public.Prelude.{
  ℕ, zero, suc, ◌+◌, ◌-◌, ◌*◌, ◌^◌, ◌/◌, ◌%◌, ◌≤◌, ◌<◌, ◌≡◌, refl, ap, arith, bit_or, Bool, not,
  ◌==◌, ltb, leb, ◌&&◌, ◌||◌, if◌then◌else◌, dec_lt,
}
use se_lab_public.Words.{shl64, not64}
use se_lab_public.Bits.{
  test_bit, test_bit-and, test_bit-or, test_bit-mod-two_pow, test_bit-mul-two_pow,
  test_bit-complement, test_bit-ones, test_bit-zero, bit_or-lt, bit_and-le,
}
use se_lab_public.Cache.Lru.{col_mask_from, row_mask, touch_matrix}

-- Row `r` of the matrix at column `c`.
abbrev pub cell : ℕ → ℕ → ℕ → ℕ → Bool
cell ways m r c = test_bit m (r * ways + c)

-- A history gives each way the time of its last use, 0 for never.
abbrev pub use_at : ℕ → ℕ → (ℕ → ℕ) → ℕ → ℕ
use_at now access stamp w = if w == access then now else stamp w

-- The matrix stands for a history: way `r` has the bit of way `c` exactly when it was used later.
pub record Ranks (ways m : ℕ) (stamp : ℕ → ℕ) : Type 0 where
  pub word : m < 2 ^ 64
  pub later : (r c : ℕ) → r < ways → c < ways → cell ways m r c ≡ ltb (stamp c) (stamp r)

cell_row : (ways r c : ℕ) → c < ways → (r * ways + c) / ways ≡ r
cell_row ways r c h =
    rw (mul-add-div_right {m = ways} (omega arith) r c, div-eq_of_lt h) (omega arith)

cell_column : (ways r c : ℕ) → c < ways → (r * ways + c) % ways ≡ c
cell_column ways r c h = rw (mul-add-mod_self_right r ways c) (mod-eq_of_lt h)

cell_bound : (ways r c : ℕ) → ways ≤ 8 → r < ways → c < ways → r * ways + c < 64
cell_bound ways r c h hr hc = let rows : (r + 1) * ways ≤ 8 * ways = grind arith in omega arith

-- Cells of the matrix do not overlap.
same_cell :
    (ways r c r' c' : ℕ)
    → c < ways
    → c' < ways
    → (r * ways + c == r' * ways + c') ≡ (r == r' && c == c')
same_cell ways r c r' c' h h' = ground (
  arith,
  cell_row ways r c h,
  cell_row ways r' c' h',
  cell_column ways r c h,
  cell_column ways r' c' h',
  ap (λ (t : ℕ). t * ways) {x = r} {y = r'},
)

test_bit-one : (j : ℕ) → test_bit 1 j ≡ (j == 0)
test_bit-one zero = refl
test_bit-one (suc j) = rw (test_bit-zero j) (ground arith)

test_bit-one_shift : (k i : ℕ) → i < 64 → test_bit (shl64 1 k) i ≡ (i == k)
test_bit-one_shift k i hi =
    rw (test_bit-mod-two_pow (1 * 2 ^ k) 64 i, test_bit-mul-two_pow 1 k i, test_bit-one (i - k))
      (ground arith)

pub row_mask-eq : (ways : ℕ) → ways ≤ 8 → row_mask ways ≡ 2 ^ ways - 1
row_mask-eq ways h = let fits : 2 ^ ways ≤ 2 ^ 8 = pow-le-pow_right (omega arith) h in omega arith

module _ (ways access : ℕ) (small : ways ≤ 8) (in_set : access < ways) where
  col_mask-lt : (n mask r : ℕ) → mask < 2 ^ 64 → col_mask_from ways access mask r n < 2 ^ 64
  unfolding col_mask_from
  col_mask-lt zero mask r h = h
  col_mask-lt (suc n) mask r h =
      col_mask-lt n _ (r + 1) (bit_or-lt 64 mask (shl64 1 (r * ways + access)) h (omega arith))

  cell-col_mask :
      (n mask r r0 c : ℕ)
      → r0 < ways
      → c < ways
      → cell ways (col_mask_from ways access mask r n) r0 c
        ≡ (cell ways mask r0 c || c == access && leb r r0 && ltb r0 (r + n))
  unfolding col_mask_from
  cell-col_mask zero mask r r0 c h hc = ground arith
  cell-col_mask (suc n) mask r r0 c h hc =
      rw
        (
          cell-col_mask n (bit_or mask (shl64 1 (r * ways + access))) (r + 1) r0 c h hc,
          test_bit-or,
          test_bit-one_shift (r * ways + access) (r0 * ways + c) (cell_bound ways r0 c small h hc),
          same_cell ways r0 c r access hc in_set,
        )
        (ground arith)

  row_bits :
      (r c : ℕ)
      → r < ways
      → c < ways
      → test_bit (shl64 (row_mask ways) (access * ways)) (r * ways + c) ≡ (r == access)
  row_bits r c h hc =
      rw
        (
          test_bit-mod-two_pow (row_mask ways * 2 ^ (access * ways)) 64 (r * ways + c),
          test_bit-mul-two_pow (row_mask ways) (access * ways) (r * ways + c),
          row_mask-eq ways small,
          test_bit-ones ways (r * ways + c - access * ways),
        )
        (in_row (dec_lt r access) (dec_lt access r))
    where
      in_row :
          Dec (r < access)
          → Dec (access < r)
          → (ltb (r * ways + c) 64
              && (leb (access * ways) (r * ways + c) && ltb (r * ways + c - access * ways) ways))
            ≡ (r == access)
      in_row (yes p) q = let above : (r + 1) * ways ≤ access * ways = grind arith in ground arith
      in_row (no p) (yes q) =
          let above : (access + 1) * ways ≤ r * ways = grind arith in ground arith
      in_row (no p) (no q) =
          let e : r ≡ access = omega arith in
          ground (arith, cell_bound ways r c small h hc, ap (λ (t : ℕ). t * ways) e)

  -- One use sets the row of the way and clears its column.
  cell-touch_matrix :
      (m r c : ℕ)
      → m < 2 ^ 64
      → r < ways
      → c < ways
      → cell ways (touch_matrix ways access m) r c
        ≡ ((cell ways m r c || r == access) && not (c == access))
  unfolding touch_matrix
  cell-touch_matrix m r c hm h hc =
      rw
        (
          test_bit-and,
          test_bit-or,
          row_bits r c h hc,
          test_bit-complement 64 (col_mask_from ways access 0 0 ways) (r * ways + c)
              (col_mask-lt ways 0 0 (omega arith)) (cell_bound ways r c small h hc),
          cell-col_mask ways 0 0 r c h hc,
          test_bit-zero,
        )
        (ground arith)

  touch_matrix-lt : (m : ℕ) → m < 2 ^ 64 → touch_matrix ways access m < 2 ^ 64
  unfolding touch_matrix
  touch_matrix-lt m h =
      let row = shl64 (row_mask ways) (access * ways) in
      omega (
        arith,
        bit_or-lt 64 m row h (omega arith),
        bit_and-le 64 (bit_or m row) (not64 (col_mask_from ways access 0 0 ways))
            (bit_or-lt 64 m row h (omega arith)),
      )

  -- A use at a time after all others keeps the matrix in step with the history.
  pub touch_matrix-Ranks :
      (m now : ℕ) (stamp : ℕ → ℕ)
      → Ranks ways m stamp
      → ((w : ℕ) → stamp w < now)
      → Ranks ways (touch_matrix ways access m) (use_at now access stamp)
  touch_matrix-Ranks m now stamp v fresh = record {
    word = touch_matrix-lt m v.word;
    later = λ r c h hc.
        ground (arith, cell-touch_matrix m r c v.word h hc, v.later r c h hc, fresh r, fresh c);
  }
