-- ===== src/Bytes.antt =====
-- Little-endian words in arrays of bytes, as the `memcpy`s of the program read and write them.
use native.Mathlib.Numerals.{towards_suc}
use native.Mathlib.Nat.{
  mod-one, mod-lt, mod-eq_of_lt, mod-add-div', mul-add-mod_self_right, one-le-pow,
  div-div-eq-div-mul,
}
use se_lab_public.Prelude.{
  leb, ltb, ◌&&◌, if◌then◌else◌, ◌-◌, ℕ_discrete, Bool-cases, inr, sym, ℕ, zero, suc, ◌+◌, ◌*◌, ◌/◌,
  ◌%◌, ◌^◌, ◌≤◌, ◌<◌, ◌≡◌, ◌⊎◌, inl, refl, arith, ap, ◌∙◌, List, length, get_or, set, length-set,
  get_or-set_self, get_or-set_ne,
}

-- The word in `n` bytes from index `i` on, lowest byte first.
unfoldable pub read_le : List ℕ → ℕ → ℕ → ℕ
read_le bytes i zero = 0
read_le bytes i (suc n) = get_or bytes i 0 + 2 ^ 8 * read_le bytes (i + 1) n

-- The `n` low bytes of a word, written from index `i` on.
unfoldable pub write_le : List ℕ → ℕ → ℕ → ℕ → List ℕ
write_le bytes i word zero = bytes
write_le bytes i word (suc n) = write_le (set bytes i (word % 2 ^ 8)) (i + 1) (word / 2 ^ 8) n

pub length-write_le :
    (n : ℕ) (bytes : List ℕ) (i word : ℕ) → length (write_le bytes i word n) ≡ length bytes
unfolding write_le
length-write_le zero bytes i word = refl
length-write_le (suc n) bytes i word =
    length-write_le n (set bytes i (word % 2 ^ 8)) (i + 1) (word / 2 ^ 8) ∙ length-set bytes i _

-- Bytes outside of the written ones are kept.
pub write_le-outside :
    (n : ℕ) (bytes : List ℕ) (i word j : ℕ)
    → (j < i) ⊎ (i + n ≤ j)
    → get_or (write_le bytes i word n) j 0 ≡ get_or bytes j 0
unfolding write_le
write_le-outside zero bytes i word j h = refl
write_le-outside (suc n) bytes i word j h =
    write_le-outside n (set bytes i (word % 2 ^ 8)) (i + 1) (word / 2 ^ 8) j (omega arith)
    ∙ get_or-set_ne bytes i j _ 0 (omega arith)

-- The remainder by a product, lowest digit first.
pub mod-mul-split : (w a b : ℕ) → 0 < a → 0 < b → w % (a * b) ≡ w % a + a * (w / a % b)
mod-mul-split w a b ha hb =
    let q = w / a / b in
    let r = w / a % b in
    let low : w % a < a = mod-lt w ha in
    let fits : r < b = mod-lt (w / a) hb in
    let whole : w ≡ q * (a * b) + (w % a + a * r) =
      omega (arith, mod-add-div' w a, ap (λ (t : ℕ). t * a) (mod-add-div' (w / a) b)) in
    let rows : (r + 1) * a ≤ b * a = grind arith in
    let small : w % a + a * r < a * b = omega arith in
    ap (λ (t : ℕ). t % (a * b)) whole
    ∙ mul-add-mod_self_right q (a * b) (w % a + a * r)
    ∙ mod-eq_of_lt small

pub two_pow-byte : (n : ℕ) → 2 ^ (8 * suc n) ≡ 2 ^ 8 * 2 ^ (8 * n)
two_pow-byte n =
    let e : 8 * suc n ≡ 8 * n + 8 = omega arith in rw e (simp towards_suc (omega arith))

-- What was written is read back.
pub read_le-write_le :
    (n : ℕ) (bytes : List ℕ) (i word : ℕ)
    → i + n ≤ length bytes
    → read_le (write_le bytes i word n) i n ≡ word % 2 ^ (8 * n)
unfolding read_le write_le
read_le-write_le zero bytes i word h = rw mod-one
read_le-write_le (suc n) bytes i word h =
    let bytes' = set bytes i (word % 2 ^ 8) in
    let rest = read_le-write_le n bytes' (i + 1) (word / 2 ^ 8) (rw length-set (omega arith)) in
    let first =
      write_le-outside n bytes' (i + 1) (word / 2 ^ 8) i (inl (omega arith))
      ∙ get_or-set_self bytes i (word % 2 ^ 8) 0 (omega arith) in
    let split =
      mod-mul-split word (2 ^ 8) (2 ^ (8 * n)) (omega arith) (one-le-pow (8 * n) 2 (omega arith)) in
    rw (two_pow-byte n, split, first, rest)

-- The bytes after a word was written.
pub get_or-write_le :
    (n : ℕ) (bytes : List ℕ) (i word j : ℕ)
    → i + n ≤ length bytes
    → get_or (write_le bytes i word n) j 0
      ≡ (if leb i j && ltb j (i + n) then word / 2 ^ (8 * (j - i)) % 2 ^ 8 else get_or bytes j 0)
unfolding write_le
get_or-write_le zero bytes i word j h = ground arith
get_or-write_le (suc n) bytes i word j h =
    let byte = word % 2 ^ 8 in
    let rest =
      get_or-write_le n (set bytes i byte) (i + 1) (word / 2 ^ 8) j (rw length-set (omega arith)) in
    elim (ℕ_discrete j i) [
      | yes e ↦
          let z : 8 * (i - i) ≡ 0 = omega arith in
          let first = get_or-set_self bytes i byte 0 (omega arith) in
          rw (e, z) (ground (arith, rw e at rest, first))
      | no ne ↦ elim (Bool-cases (leb (i + 1) j)) [
        | inl l ↦
            let below : i + 1 ≤ j = ground (arith, l) in
            let k : 8 * (j - i) ≡ 8 * suc (j - (i + 1)) = omega (arith, below) in
            let top : word / 2 ^ (8 * (j - i)) ≡ word / 2 ^ 8 / 2 ^ (8 * (j - (i + 1))) =
              rw (k, two_pow-byte (j - (i + 1)))
                (sym (div-div-eq-div-mul word (2 ^ 8) (2 ^ (8 * (j - (i + 1)))))) in
            ground (arith, rest, top, get_or-set_ne bytes i j byte 0)
        | inr l ↦ ground (arith, rest, get_or-set_ne bytes i j byte 0 (omega (arith, ne)))
      ]
    ]
