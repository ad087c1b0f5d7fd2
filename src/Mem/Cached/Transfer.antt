-- ===== src/Mem/Cached/Transfer.antt =====
-- The two loops that move a block between the memory and the cache.
use se_lab_public.Prelude.{
  ◌∷◌, Bool-cases, inl, inr, ℕ, zero, suc, ◌+◌, ◌-◌, ◌^◌, ◌≤◌, ◌<◌, ◌≡◌, ap, ◌∙◌, arith, ◌==◌, ◌&&◌,
  leb, ltb, if◌then◌else◌, List, get_or,
}
use se_lab_public.Words.{u64}
use se_lab_public.Mem.Ptable.{Ptable}
use se_lab_public.Mem.Ptable.Laws.{IsPtable, byte_at}
use se_lab_public.Mem.Plain.{Segments, mem_read_le, mem_write_le}
use se_lab_public.Mem.Plain.Laws.{
  IsSame, IsSame-refl, IsSame-trans, word_at, with_word, mem_read_le_lem, mem_write_le_lem,
}
use se_lab_public.Mem.Cached.{fill_block, write_back}

word_at-one : (f : ℕ → ℕ) (a : ℕ) → word_at f a 1 ≡ f a
unfolding word_at
word_at-one f a = let e : a + 0 ≡ a = omega arith in rw e (omega arith)

with_word-one :
    (f : ℕ → ℕ) (addr byte a : ℕ)
    → byte < 2 ^ 8
    → with_word f addr byte 1 a ≡ (if a == addr then byte else f a)
with_word-one f addr byte a small = elim (Bool-cases (a == addr)) [
  | inl e ↦
      let same : a ≡ addr = ground (arith, e) in
      let gone : addr - addr ≡ 0 = omega arith in rw (same, gone) (ground arith)
  | inr e ↦ ground (arith, e)
]

cons_bytes :
    (x : ℕ) (xs : List ℕ) (f : ℕ → ℕ) (k n : ℕ)
    → x ≡ f k
    → ((i : ℕ) → i < n → get_or xs i 0 ≡ f (k + 1 + i))
    → (i : ℕ) → i < suc n
    → get_or (x ∷ xs) i 0 ≡ f (k + i)
cons_bytes x xs f k n e h zero lt = let here : k + 0 ≡ k = omega arith in rw here e
cons_bytes x xs f k n e h (suc i) lt =
    let there : k + suc i ≡ k + 1 + i = omega arith in rw there (h i (omega arith))

-- The block that is fetched has the bytes of the memory, which keeps them all.
pub fill_block_lem :
    (segs : Segments) (start : ℕ) (n j : ℕ) (pt : Ptable)
    → IsPtable pt
    → start + j + n ≤ 2 ^ 64
    → ((i : ℕ) → i < n → get_or (fill_block segs pt start j n).0 i 0 ≡ byte_at pt (start + j + i))
      × IsSame pt (fill_block segs pt start j n).1
unfolding fill_block
fill_block_lem segs start zero j pt v fits = ((λ i h. absurd (omega (arith, h))), IsSame-refl pt v)
fill_block_lem segs start (suc n) j pt v fits =
    let e : u64 (start + j) ≡ start + j = omega (arith, fits) in
    let one =
      mem_read_le_lem segs pt (u64 (start + j)) 1 v (omega arith) (omega (arith, e, fits)) in
    let pt' = (mem_read_le segs pt (u64 (start + j)) 1).1 in
    let first = one.0 ∙ (word_at-one (byte_at pt) (u64 (start + j)) ∙ ap (byte_at pt) e) in
    let next : (i : ℕ) → start + (j + 1) + i ≡ start + j + 1 + i = λ i. omega arith in
    let rest = fill_block_lem segs start n (j + 1) pt' one.1.valid (omega (arith, fits)) in
    (
      cons_bytes _ _ (byte_at pt) (start + j) n first
          (λ i h. rest.0 i h ∙ (one.1.reads _ ∙ ap (byte_at pt) (next i))),
      IsSame-trans pt pt' _ one.1 rest.1,
    )

-- A block that is written back becomes the bytes of the memory, and no other byte changes.
pub write_back_lem :
    (start : ℕ) (bytes : List ℕ) (n j : ℕ) (pt : Ptable)
    → IsPtable pt
    → ((i : ℕ) → i < j + n → get_or bytes i 0 < 2 ^ 8)
    → start + j + n ≤ 2 ^ 64
    → IsPtable (write_back pt start bytes j n)
      × ((a : ℕ)
          → byte_at (write_back pt start bytes j n) a ≡ (
              if leb (start + j) a && ltb a (start + j + n)
              then get_or bytes (a - start) 0
              else byte_at pt a))
unfolding write_back
write_back_lem start bytes zero j pt v small fits = (v, λ a. ground arith)
write_back_lem start bytes (suc n) j pt v small fits =
    let e : u64 (start + j) ≡ start + j = omega (arith, fits) in
    let one =
      mem_write_le_lem pt (u64 (start + j)) (get_or bytes j 0) 1 v (omega arith)
        (omega (arith, e, fits)) in
    let pt' = mem_write_le pt (u64 (start + j)) (get_or bytes j 0) 1 in
    let rest =
      write_back_lem start bytes n (j + 1) pt' one.0 (λ i h. small i (omega (arith, h)))
        (omega (arith, fits)) in
    (
      rest.0,
      λ a. ground (
        arith,
        rest.1 a,
        one.1 a,
        with_word-one (byte_at pt) (u64 (start + j)) (get_or bytes j 0) a (small j (omega arith)),
        e,
        ap (λ (t : ℕ). get_or bytes t 0) {x = a - start} {y = j},
      ),
    )
