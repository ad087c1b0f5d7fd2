-- ===== src/Cache/Shape.antt =====
-- Set index, tag and block offset of an address, and the loop of `_log`.
use native.Mathlib.Nat.{one-le-pow, pow-suc, div-div-eq-div-mul, pow-le-pow_right, mod-add-div'}
use se_lab_public.Prelude.{
  ℕ, zero, suc, ◌+◌, ◌-◌, ◌^◌, ◌/◌, ◌%◌, ◌≤◌, ◌<◌, ◌≡◌, sym, ap, arith, Bool, ◌==◌, ◌&&◌, ◌*◌,
}
use se_lab_public.Words.{u32}
use se_lab_public.Bits.{bit_and-mask, two_pow-add}
use se_lab_public.Cache.{Cache, log_from, log, set_count, set_index, tag_of, block_offset}

-- The loop of `_log` counts the shifts until one is left, if there is fuel for them.
log_from-two_pow : (k fuel r : ℕ) → k < fuel → log_from fuel (2 ^ k) r ≡ r + k
unfolding log_from
log_from-two_pow k zero r h = absurd (omega arith)
log_from-two_pow zero (suc fuel) r h = omega arith
log_from-two_pow (suc k) (suc fuel) r h = ground (
  arith,
  pow-suc 2 k,
  one-le-pow k 2,
  ap (λ (t : ℕ). log_from fuel t (r + 1)) {x = 2 ^ suc k / 2} {y = 2 ^ k},
  log_from-two_pow k fuel (r + 1),
)

-- `_log` inverts the powers of two of a `size_t`, those below 2 ^ 64.
pub log-two_pow : (k : ℕ) → k < 64 → log (2 ^ k) ≡ k
unfolding log
log-two_pow k h = omega (arith, log_from-two_pow k 64 0 h)

-- The sizes are powers of two, as the command line checks, and fit an `unsigned int`.
pub record IsShaped (b s : ℕ) (c : Cache) : Type 0 where
  pub block : c.block_size ≡ 2 ^ b
  pub count : set_count c ≡ 2 ^ s
  pub small : b + s ≤ 31

pub low_mask : (k : ℕ) → k ≤ 31 → u32 (2 ^ k + 2 ^ 32 - 1) ≡ 2 ^ k - 1
low_mask k h =
    let fits : 2 ^ k ≤ 2 ^ 31 = pow-le-pow_right (omega arith) h in omega (arith, one-le-pow k 2)

module _ (b s : ℕ) (c : Cache) (shape : IsShaped b s c) (addr : ℕ) where
  pub log-block : log c.block_size ≡ b
  log-block = rw (shape.block) (log-two_pow b (omega (arith, shape.small)))

  pub log-count : log (set_count c) ≡ s
  log-count = rw (shape.count) (log-two_pow s (omega (arith, shape.small)))

  -- The address is cut into a tag, the index of a set, and an offset in the block.
  pub set_index-eq : set_index c addr ≡ addr / 2 ^ b % 2 ^ s
  unfolding set_index
  set_index-eq =
      rw (log-block, shape.count, low_mask s (omega (arith, shape.small)))
        (bit_and-mask s (addr / 2 ^ b))

  pub tag_of-eq : tag_of c addr ≡ addr / 2 ^ b / 2 ^ s
  unfolding tag_of
  tag_of-eq =
      rw (log-block, log-count, two_pow-add b s) (sym (div-div-eq-div-mul addr (2 ^ b) (2 ^ s)))

  pub block_offset-eq : block_offset c addr ≡ addr % 2 ^ b
  block_offset-eq = rw (shape.block, low_mask b (omega (arith, shape.small))) (bit_and-mask b addr)

-- Two addresses of one block.
abbrev pub same_block : Cache → ℕ → ℕ → Bool
same_block c a addr = a / c.block_size == addr / c.block_size

-- In a cache whose sizes are powers of two, set index and tag together are the number of the block.
pub same_block-eq :
    (b s : ℕ) (c : Cache) (a addr : ℕ)
    → IsShaped b s c
    → same_block c a addr ≡ (set_index c a == set_index c addr && tag_of c a == tag_of c addr)
same_block-eq b s c a addr shape =
    rw
      (
        set_index-eq b s c shape a,
        set_index-eq b s c shape addr,
        tag_of-eq b s c shape a,
        tag_of-eq b s c shape addr,
        shape.block,
      )
      (cut (a / 2 ^ b) (addr / 2 ^ b) (2 ^ s))
  where
    cut : (x y m : ℕ) → (x == y) ≡ (x % m == y % m && x / m == y / m)
    cut x y m = ground (
      arith,
      mod-add-div' x m,
      mod-add-div' y m,
      ap (λ (t : ℕ). t * m) {x = x / m} {y = y / m},
      ap (λ (t : ℕ). t / m) {x = x} {y = y},
      ap (λ (t : ℕ). t % m) {x = x} {y = y},
    )
