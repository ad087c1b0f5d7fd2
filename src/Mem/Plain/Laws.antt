-- ===== src/Mem/Plain/Laws.antt =====
-- The pages read and written as an array of bytes.
use native.Mathlib.Nat.{mod-one, mod-lt, mod-eq_of_lt, one-le-pow, pow-le-pow_right}
use native.Mathlib.Numerals.{towards_suc}
use se_lab_public.Prelude.Order.{mul_le_right}
use se_lab_public.Prelude.{
  ℕ, zero, suc, ◌+◌, ◌-◌, ◌/◌, ◌%◌, ◌*◌, ◌^◌, ◌<◌, ◌≤◌, ◌≡◌, refl, ap, ◌∙◌, arith, true, ◌==◌, ltb,
  leb, ◌&&◌, if◌then◌else◌, Option-cases, inl, inr,
}
use se_lab_public.Words.{u64}
use se_lab_public.Bytes.{mod-mul-split}
use se_lab_public.Mem.Ptable.{Ptable, page_size, get_page}
use se_lab_public.Mem.Ptable.Chains.{is_page}
use se_lab_public.Mem.Ptable.Laws.{
  IsPtable, byte_at, byte_at-lt, add_page-IsPtable, add_page-byte_at, add_page-is_page,
  store_byte-IsPtable, store_byte-byte_at,
}
use se_lab_public.Mem.Plain.{
  Segments, touch_page, mem_read_byte, get_prot_bits, read_from, mem_read_le, mem_write_byte,
  write_from, mem_write_le,
}

-- A table that holds the same bytes.
pub record IsSame (pt pt' : Ptable) : Type 0 where
  pub valid : IsPtable pt'
  pub reads : (a : ℕ) → byte_at pt' a ≡ byte_at pt a

pub IsSame-refl : (pt : Ptable) → IsPtable pt → IsSame pt pt
IsSame-refl pt v = record { valid = v; reads = λ a. refl }

pub IsSame-trans : (a b c : Ptable) → IsSame a b → IsSame b c → IsSame a c
IsSame-trans a b c p q = record { valid = q.valid; reads = λ x. q.reads x ∙ p.reads x }

module _ (pt : Ptable) (v : IsPtable pt) (pnum prot : ℕ) where
  pub touch_page_lem :
      IsSame pt (touch_page pt pnum prot)
      × (is_page (get_page (touch_page pt pnum prot) pnum) ≡ true)
  unfolding touch_page
  touch_page_lem = elim (Option-cases (get_page pt pnum)) [
    | inl absent ↦
        rw (absent, touch_page)
          (
            record {
              valid = add_page-IsPtable pt v pnum prot absent;
              reads = add_page-byte_at pt v pnum prot absent;
            },
            add_page-is_page pt v pnum prot absent,
          )
    | inr (p, there) ↦ rw (there, touch_page) (IsSame-refl pt v, rw there refl)
  ]

-- `_mem_read_byte` returns the byte at the address and changes no byte.
pub mem_read_byte_lem :
    (segs : Segments) (pt : Ptable) (addr : ℕ)
    → IsPtable pt
    → let out = mem_read_byte segs pt addr in (out.0 ≡ byte_at pt addr) × IsSame pt out.1
unfolding mem_read_byte byte_at
mem_read_byte_lem segs pt addr v =
    let touched = touch_page_lem pt v (addr / page_size) (get_prot_bits segs addr) in
    (touched.0.reads addr, touched.0)

-- The word in `n` bytes of memory from an address on, the highest byte last.
unfoldable pub word_at : (ℕ → ℕ) → ℕ → ℕ → ℕ
word_at f addr zero = 0
word_at f addr (suc n) = f (addr + n) * 2 ^ (8 * n) + word_at f addr n

two_pow-bytes : (n : ℕ) → 2 ^ (8 * suc n) ≡ 2 ^ (8 * n) * 2 ^ 8
two_pow-bytes n =
    let e : 8 * suc n ≡ 8 * n + 8 = omega arith in rw e (simp towards_suc (omega arith))

pub word_at-lt : (f : ℕ → ℕ) (addr n : ℕ) → ((a : ℕ) → f a < 2 ^ 8) → word_at f addr n < 2 ^ (8 * n)
unfolding word_at
word_at-lt f addr zero h = omega arith
word_at-lt f addr (suc n) h =
    let top : (f (addr + n) + 1) * 2 ^ (8 * n) ≤ 2 ^ 8 * 2 ^ (8 * n) =
      mul_le_right (f (addr + n) + 1) (2 ^ 8) (2 ^ (8 * n)) (omega (arith, h (addr + n))) in
    omega (arith, two_pow-bytes n, word_at-lt f addr n h, top)

pub word_at_congr :
    (f g : ℕ → ℕ) (addr n : ℕ)
    → ((a : ℕ) → addr ≤ a → a < addr + n → f a ≡ g a)
    → word_at f addr n ≡ word_at g addr n
unfolding word_at
word_at_congr f g addr zero h = refl
word_at_congr f g addr (suc n) h = rw (
  h (addr + n) (omega arith) (omega arith),
  word_at_congr f g addr n (λ a p q. h a p (omega arith)),
)

-- The loop appends the lower bytes to the value so far.
read_from_lem :
    (segs : Segments) (n k : ℕ) (pt : Ptable) (addr retval : ℕ)
    → IsPtable pt
    → addr + n ≤ 2 ^ 64
    → retval < 2 ^ (8 * k)
    → n + k ≤ 8
    → let out = read_from segs pt addr retval n in
      (out.0 ≡ retval * 2 ^ (8 * n) + word_at (byte_at pt) addr n) × IsSame pt out.1
unfolding read_from word_at
read_from_lem segs zero k pt addr retval v fits small width = (omega arith, IsSame-refl pt v)
read_from_lem segs (suc n) k pt addr retval v fits small width =
    let here : u64 (addr + n) ≡ addr + n = mod-eq_of_lt (omega arith) in
    let b = mem_read_byte_lem segs pt (addr + n) v in
    let byte = byte_at pt (addr + n) in
    let low : byte < 2 ^ 8 = byte_at-lt pt (addr + n) v in
    let narrow : 8 * suc k ≤ 64 = omega arith in
    let wide : 2 ^ (8 * suc k) ≤ 2 ^ 64 = pow-le-pow_right (omega arith) narrow in
    let grown : (retval * 2 ^ 8 + byte) < 2 ^ (8 * suc k) = omega (arith, two_pow-bytes k) in
    let value : u64 (u64 (retval * 2 ^ 8) + byte) ≡ retval * 2 ^ 8 + byte = omega arith in
    let pt' = (mem_read_byte segs pt (addr + n)).1 in
    let rest =
      read_from_lem segs n (suc k) pt' addr (retval * 2 ^ 8 + byte) b.1.valid (omega arith) grown
        (omega arith) in
    let same = word_at_congr (byte_at pt') (byte_at pt) addr n (λ a p q. b.1.reads a) in
    rw (read_from, here, b.0, value)
      (
        omega (arith, rest.0, same, two_pow-bytes n, ap (λ (t : ℕ). retval * t) (two_pow-bytes n)),
        IsSame-trans pt pt' _ b.1 rest.1,
      )

-- `_mem_read_LE` of at most 8 bytes that do not wrap around returns the word at the address, lowest
-- byte first, and changes no byte of memory.
pub mem_read_le_lem :
    (segs : Segments) (pt : Ptable) (addr width : ℕ)
    → IsPtable pt
    → width ≤ 8
    → addr + width ≤ 2 ^ 64
    → let out = mem_read_le segs pt addr width in
      (out.0 ≡ word_at (byte_at pt) addr width) × IsSame pt out.1
unfolding mem_read_le
mem_read_le_lem segs pt addr width v small fits =
    let done = read_from_lem segs width 0 pt addr 0 v fits (omega arith) (omega arith) in
    (omega (arith, done.0), done.1)

module _ (pt : Ptable) (addr byte : ℕ) (v : IsPtable pt) (small : byte < 2 ^ 8) where
  -- A byte that is written reads back, and no other changes.
  pub mem_write_byte_lem :
      IsPtable (mem_write_byte pt addr byte)
      × ((a : ℕ)
          → byte_at (mem_write_byte pt addr byte) a ≡ (if a == addr then byte else byte_at pt a))
  unfolding mem_write_byte
  mem_write_byte_lem =
      let touched = touch_page_lem pt v (addr / page_size) 7 in
      let pt' = touch_page pt (addr / page_size) 7 in
      (
        store_byte-IsPtable pt' touched.0.valid addr byte small touched.1,
        λ a.
            store_byte-byte_at pt' touched.0.valid addr byte small touched.1 a
            ∙ ground (arith, touched.0.reads a),
      )

-- Memory after the bytes of a word were written from an address on.
abbrev pub with_word : (ℕ → ℕ) → ℕ → ℕ → ℕ → ℕ → ℕ
with_word f addr word n a =
    if leb addr a && ltb a (addr + n) then word / 2 ^ (8 * (a - addr)) % 2 ^ 8 else f a

write_from_lem :
    (n i : ℕ) (pt : Ptable) (addr word : ℕ)
    → IsPtable pt
    → addr + (i + n) ≤ 2 ^ 64
    → IsPtable (write_from pt addr word i n)
      × ((a : ℕ)
          → byte_at (write_from pt addr word i n) a ≡ (
              if leb (addr + i) a && ltb a (addr + i + n)
              then word / 2 ^ (8 * (a - addr)) % 2 ^ 8
              else byte_at pt a))
unfolding write_from
write_from_lem zero i pt addr word v fits = (v, λ a. ground arith)
write_from_lem (suc n) i pt addr word v fits =
    let here : u64 (addr + i) ≡ addr + i = mod-eq_of_lt (omega arith) in
    let byte = word / 2 ^ (8 * i) % 2 ^ 8 in
    let low : byte < 2 ^ 8 = mod-lt (word / 2 ^ (8 * i)) (omega arith) in
    let one = mem_write_byte_lem pt (addr + i) byte v low in
    let rest =
      write_from_lem n (i + 1) (mem_write_byte pt (addr + i) byte) addr word one.0 (omega arith) in
    rw here (
      rest.0,
      λ a. ground (
        arith,
        rest.1 a,
        one.1 a,
        ap (λ (t : ℕ). word / 2 ^ (8 * t) % 2 ^ 8) {x = a - addr} {y = i},
      ),
    )

-- `_mem_write_LE` of at most 8 bytes that do not wrap around writes the bytes of the word, lowest
-- first, and changes no other; the page table is well formed, and stays so.
pub mem_write_le_lem :
    (pt : Ptable) (addr word width : ℕ)
    → IsPtable pt
    → width ≤ 8
    → addr + width ≤ 2 ^ 64
    → IsPtable (mem_write_le pt addr word width)
      × ((a : ℕ)
          → byte_at (mem_write_le pt addr word width) a ≡ with_word (byte_at pt) addr word width a)
unfolding mem_write_le
mem_write_le_lem pt addr word width v small fits =
    let done = write_from_lem width 0 pt addr word v (omega arith) in
    (done.0, λ a. ground (arith, done.1 a))

pub word_at-with_word_lem :
    (f : ℕ → ℕ) (addr word width n : ℕ)
    → n ≤ width
    → word_at (with_word f addr word width) addr n ≡ word % 2 ^ (8 * n)
unfolding word_at
word_at-with_word_lem f addr word width zero h = rw mod-one
word_at-with_word_lem f addr word width (suc n) h =
    let top : with_word f addr word width (addr + n) ≡ word / 2 ^ (8 * n) % 2 ^ 8 =
      let e : addr + n - addr ≡ n = omega arith in rw e (ground arith) in
    let split =
      mod-mul-split word (2 ^ (8 * n)) (2 ^ 8) (one-le-pow (8 * n) 2 (omega arith)) (omega arith) in
    rw (two_pow-bytes n, split, top, word_at-with_word_lem f addr word width n (omega arith))
      (omega arith)

-- A word that `_mem_write_LE` wrote, of at most 8 bytes that do not wrap around, is what
-- `_mem_read_LE` reads back, modulo the width.
pub mem_read_le-mem_write_le :
    (segs : Segments) (pt : Ptable) (addr word width : ℕ)
    → IsPtable pt
    → width ≤ 8
    → addr + width ≤ 2 ^ 64
    → (mem_read_le segs (mem_write_le pt addr word width) addr width).0 ≡ word % 2 ^ (8 * width)
mem_read_le-mem_write_le segs pt addr word width v small fits =
    let wrote = mem_write_le_lem pt addr word width v small fits in
    let pt' = mem_write_le pt addr word width in
    (mem_read_le_lem segs pt' addr width wrote.0 small fits).0
    ∙ word_at_congr (byte_at pt') (with_word (byte_at pt) addr word width) addr width
        (λ a p q. wrote.1 a)
    ∙ word_at-with_word_lem (byte_at pt) addr word width width (omega arith)
