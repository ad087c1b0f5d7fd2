-- ===== src/Cli/Counts.antt =====
-- The number of sets, and what the test of it accepts.
use native.Mathlib.Nat.{div-le_self}
use se_lab_public.Prelude.{
  ℕ, ◌*◌, ◌/◌, ◌^◌, ◌≤◌, ◌<◌, ◌≡◌, refl, ap, arith, true, false, some, ◌⊎◌, inl, inr, Bool-cases,
}
use se_lab_public.Prelude.Int.{ℤ, pos, negsuc, pos_part}
use se_lab_public.Cli.{is_bad_count, is_int, count_sets}
use se_lab_public.Cli.Sizes.{
  set_bytes-bounds, good_count-two_pow, two_pow-good_count, count_sets-pos, count_sets-negsuc,
  exponent_lt,
}

-- The number of sets is accepted if it is a power of two.
module _ (a k : ℕ) (some_ways : 0 < a) (few_ways : a ≤ 8) (fits : 2 ^ k ≤ 2 ^ 27) where
  abbrev pub IsCount : ℤ → ℤ → Type 0
  IsCount c q =
      ((is_bad_count q ≡ false)
        × ((size : ℕ) × (count : ℕ) × (c ≡ pos size)
            × (size < 2 ^ 31)
            × (size / (a * 2 ^ k) ≡ 2 ^ count)))
      ⊎ ((is_bad_count q ≡ true)
          × ¬ ((size : ℕ) × (count : ℕ) × (c ≡ pos size) × (size / (a * 2 ^ k) ≡ 2 ^ count)))

  pub count_sets_lem :
      (c : ℤ)
      → is_int c ≡ true
      → (q : ℤ) × (count_sets (pos a) (pos (2 ^ k)) c ≡ some q) × IsCount c q
  count_sets_lem (negsuc c) int =
      let bytes = set_bytes-bounds a k some_ways few_ways fits in
      let q = count_sets-negsuc a (2 ^ k) c bytes.0 (omega (arith, bytes)) (ground (arith, int)) in
      (q.0, q.1, inr (q.2, λ r. absurd (grind (arith, r.2))))
  count_sets_lem (pos c) int =
      let bytes = set_bytes-bounds a k some_ways few_ways fits in
      let small : c < 2 ^ 31 = ground (arith, int) in
      let q = c / (a * 2 ^ k) in
      let less : q < 2 ^ 31 = omega (arith, div-le_self c (a * 2 ^ k), small) in
      (
        pos q,
        count_sets-pos a (2 ^ k) c bytes.0 (omega (arith, bytes)) small,
        elim (Bool-cases (is_bad_count (pos q))) [
          | inr good ↦
              let two = good_count-two_pow (pos q) (ground (arith, less)) good in
              inl (good, (c, two.0, refl, small, ap pos_part two.2))
          | inl bad ↦ inr (bad, λ r. absurd (refused c r.0 r.1 (ap pos_part r.2) less r.3 bad))
        ],
      )
    where
      refused :
          (c size count : ℕ)
          → c ≡ size
          → c / (a * 2 ^ k) < 2 ^ 31
          → size / (a * 2 ^ k) ≡ 2 ^ count
          → is_bad_count (pos (c / (a * 2 ^ k))) ≡ true
          → ⊥
      refused c size count same less two bad =
          let whole : c / (a * 2 ^ k) ≡ 2 ^ count = rw same two in
          let lt = exponent_lt count 31 (omega (arith, whole, less)) in
          let good : is_bad_count (pos (c / (a * 2 ^ k))) ≡ false =
            rw whole (two_pow-good_count count (omega (arith, lt))) in
          absurd (grind (arith, bad, good))
