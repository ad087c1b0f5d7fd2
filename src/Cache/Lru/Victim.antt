-- ===== src/Cache/Lru/Victim.antt =====
-- The row of zeros is the way that was used longest ago.
use native.Mathlib.Nat.{one-le-pow, mod-lt}
use se_lab_public.Prelude.{
  ℕ, zero, suc, ◌+◌, ◌*◌, ◌^◌, ◌%◌, ◌≤◌, ◌<◌, ◌≡◌, sym, ap, ◌∙◌, arith, bit_and, Bool, true, false,
  ◌==◌, leb, some, ==_iff, dec_lt,
}
use se_lab_public.Words.{shr}
use se_lab_public.Bits.{
  test_bit, test_bit-mod-two_pow, test_bit-zero, test_bit-div-two_pow, bit_and-mask, test_bit-ext,
}
use se_lab_public.Cache.Lru.{row_mask, touch_matrix, zero_row_from, Chosen, lru}
use se_lab_public.Cache.Lru.Laws.{cell, use_at, Ranks, row_mask-eq, touch_matrix-Ranks}

abbrev is_zero_row : ℕ → ℕ → ℕ → Bool
is_zero_row ways m r = bit_and (shr m (r * ways)) (row_mask ways) == 0

-- No way was used before this one.
abbrev pub IsOldest : ℕ → (ℕ → ℕ) → ℕ → Type 0
IsOldest ways stamp w = (c : ℕ) → c < ways → stamp w ≤ stamp c

row_bit : (ways m r c : ℕ) → c < ways → test_bit (shr m (r * ways) % 2 ^ ways) c ≡ cell ways m r c
row_bit ways m r c h =
    let order : c + r * ways ≡ r * ways + c = omega arith in
    rw (test_bit-mod-two_pow (shr m (r * ways)) ways c, test_bit-div-two_pow m (r * ways) c, order)
      (ground arith)

zero_row-eq : (ways m r : ℕ) → ways ≤ 8 → is_zero_row ways m r ≡ (shr m (r * ways) % 2 ^ ways == 0)
zero_row-eq ways m r h = rw (row_mask-eq ways h, bit_and-mask ways (shr m (r * ways)))

module _ (ways m : ℕ) (stamp : ℕ → ℕ) (small : ways ≤ 8) (v : Ranks ways m stamp) where
  zero_row-IsOldest : (r : ℕ) → r < ways → is_zero_row ways m r ≡ true → IsOldest ways stamp r
  zero_row-IsOldest r h z c hc =
      let x = shr m (r * ways) % 2 ^ ways in
      let e : x ≡ 0 = (==_iff x 0).0 (sym (zero_row-eq ways m r small) ∙ z) in
      let clear : cell ways m r c ≡ false =
        sym (row_bit ways m r c hc) ∙ ap (λ (t : ℕ). test_bit t c) e ∙ test_bit-zero c in
      ground (arith, v.later r c h hc, clear)

  oldest-is_zero_row : (r : ℕ) → r < ways → IsOldest ways stamp r → is_zero_row ways m r ≡ true
  oldest-is_zero_row r h oldest =
      let x = shr m (r * ways) % 2 ^ ways in
      zero_row-eq ways m r small
      ∙ (==_iff x 0).1 (
          test_bit-ext ways x 0 (mod-lt _ (one-le-pow ways 2 (omega arith)))
            (one-le-pow ways 2 (omega arith))
            (λ c hc.
              ground
                (arith, row_bit ways m r c hc, v.later r c h hc, oldest c hc, test_bit-zero c)))

-- Some way was used first.
IsOldest-exists : (n : ℕ) (stamp : ℕ → ℕ) → (w : ℕ) × (w ≤ n) × IsOldest (suc n) stamp w
IsOldest-exists zero stamp =
    (0, omega arith, λ c h. let e : c ≡ 0 = omega arith in rw e (omega arith))
IsOldest-exists (suc n) stamp =
    extend (IsOldest-exists n stamp) (dec_lt (stamp (suc n)) (stamp (IsOldest-exists n stamp).0))
  where
    extend :
        (o : (w : ℕ) × (w ≤ n) × IsOldest (suc n) stamp w)
        → Dec (stamp (suc n) < stamp o.0)
        → (w : ℕ) × (w ≤ suc n) × IsOldest (suc (suc n)) stamp w
    extend o (yes p) = (suc n, omega arith, λ c h. older c h (dec_lt c (suc n)))
      where
        older : (c : ℕ) → c < suc (suc n) → Dec (c < suc n) → stamp (suc n) ≤ stamp c
        older c h (yes q) = omega (arith, o.2 c q)
        older c h (no q) = let e : c ≡ suc n = omega arith in rw e (omega arith)
    extend o (no p) = (o.0, omega arith, λ c h. older c h (dec_lt c (suc n)))
      where
        older : (c : ℕ) → c < suc (suc n) → Dec (c < suc n) → stamp o.0 ≤ stamp c
        older c h (yes q) = o.2 c q
        older c h (no q) = let e : c ≡ suc n = omega arith in rw e (omega arith)

-- The search finds a row of zeros if there is one.
zero_row_from-finds :
    (ways m n r r0 : ℕ)
    → r ≤ r0
    → r0 < r + n
    → is_zero_row ways m r0 ≡ true
    → let w = zero_row_from ways m r n in (is_zero_row ways m w ≡ true) × (w < r + n)
unfolding zero_row_from
zero_row_from-finds ways m zero r r0 h hr z = absurd (omega arith)
zero_row_from-finds ways m (suc n) r r0 h hr z =
    ground
      (arith, zero_row_from-finds ways m n (r + 1) r0, ap (is_zero_row ways m) {x = r} {y = r0})

-- With at most 8 ways, a use of a way at a time after all others succeeds, keeps the matrix in
-- step with the history, and returns a way of the set that no other way was used before.
pub lru_lem :
    (ways access m now : ℕ) (stamp : ℕ → ℕ)
    → ways ≤ 8
    → access < ways
    → Ranks ways m stamp
    → ((w : ℕ) → stamp w < now)
    → (out : Chosen) × (lru ways access m ≡ some out)
      × Ranks ways out.matrix (use_at now access stamp)
      × (out.way < ways)
      × IsOldest ways (use_at now access stamp) out.way
unfolding lru
lru_lem zero access m now stamp small in_set v fresh = absurd (omega arith)
lru_lem (suc n) access m now stamp small in_set v fresh =
    let stamp' = use_at now access stamp in
    let m' = touch_matrix (suc n) access m in
    let ranks = touch_matrix-Ranks (suc n) access small in_set m now stamp v fresh in
    let old = IsOldest-exists n stamp' in
    let row = oldest-is_zero_row (suc n) m' stamp' small ranks old.0 (omega (arith, old.1)) old.2 in
    let found =
      zero_row_from-finds (suc n) m' (suc n) 0 old.0 (omega arith) (omega (arith, old.1)) row in
    let within : leb (suc n) 8 ≡ true = ground arith in
    let below : zero_row_from (suc n) m' 0 (suc n) < suc n = omega (arith, found.1) in
    (
      record { matrix = m'; way = zero_row_from (suc n) m' 0 (suc n) },
      rw within,
      ranks,
      below,
      zero_row-IsOldest (suc n) m' stamp' small ranks _ below found.0,
    )
