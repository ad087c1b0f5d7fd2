-- ===== src/Cache/Create.antt =====
-- A new cache is valid and empty.
use native.Mathlib.Nat.{mod-eq_of_lt}
use se_lab_public.Prelude.{
  ℕ, zero, suc, ◌*◌, ◌+◌, ◌^◌, ◌/◌, ◌≤◌, ◌<◌, ◌≡◌, ◌∙◌, sym, refl, arith, none, length-replicate,
  get_or, get_or-replicate_lt, replicate, ◌≢◌, subst,
}
use se_lab_public.Words.{u32}
use se_lab_public.Bits.{test_bit-zero}
use se_lab_public.Cache.{
  Cache, create_cache, empty_set, empty_line, no_set, no_line, get_set, tag_of, find_invalid,
  set_index,
}
use se_lab_public.Cache.Lines.{Distinct, look}
use se_lab_public.Cache.Valid.{IsValid, IsGoodSet, cached, set_index-lt}

look-empty : (n t size : ℕ) → look t (replicate n (empty_line size)) ≡ none
unfolding look
look-empty zero t size = refl
look-empty (suc n) t size = look-empty n t size

empty-Distinct : (n size : ℕ) → Distinct (replicate n (empty_line size))
empty-Distinct zero size = tt
empty-Distinct (suc n) size = (λ h. cc, empty-Distinct n size)

find_invalid-empty : (n size : ℕ) → find_invalid (replicate (suc n) (empty_line size)) 0 ≢ none
unfolding find_invalid
find_invalid-empty n size h = cc

empty_set-IsGoodSet : (n b s : ℕ) → IsGoodSet (suc n) b s (empty_set (suc n) (2 ^ b))
empty_set-IsGoodSet n b s = record {
  size = length-replicate (suc n) (empty_line (2 ^ b));
  distinct = empty-Distinct (suc n) (2 ^ b);
  block = λ i h.
      rw (get_or-replicate_lt (suc n) i (empty_line (2 ^ b)) no_line h)
        (length-replicate (2 ^ b) 0);
  tags = λ i h. rw (get_or-replicate_lt (suc n) i (empty_line (2 ^ b)) no_line h) (omega arith);
  stamp = λ w. 0;
  now = 1;
  ranked = record {
    ranks = record { word = omega arith; later = λ r c hr hc. test_bit-zero (r * suc n + c) };
    fresh = λ w. omega arith;
  };
  victim = λ full. absurd (find_invalid-empty n (2 ^ b) full);
}

module _ (n b s size d : ℕ) (few_ways : suc n ≤ 8) (small : b + s ≤ 31)
    (fits : suc n * 2 ^ b < 2 ^ 32) (whole : size / (suc n * 2 ^ b) ≡ 2 ^ s) where
  fresh : Cache
  fresh = create_cache (suc n) (2 ^ b) size d

  count : size / u32 (suc n * 2 ^ b) ≡ 2 ^ s
  count = rw (mod-eq_of_lt fits) whole

  each_set : (i : ℕ) → i < 2 ^ s → get_or fresh.sets i no_set ≡ empty_set (suc n) (2 ^ b)
  unfolding fresh create_cache
  each_set i h =
      get_or-replicate_lt (size / u32 (suc n * 2 ^ b)) i (empty_set (suc n) (2 ^ b)) no_set
        (rw count h)

  fresh-IsValid : IsValid b s fresh
  unfolding fresh create_cache
  fresh-IsValid = record {
    shape = record { block = refl; count = count; small = small };
    some_ways = omega arith;
    few_ways = few_ways;
    size = length-replicate (size / u32 (suc n * 2 ^ b)) (empty_set (suc n) (2 ^ b)) ∙ count;
    each = λ i h.
        subst (λ t. IsGoodSet (suc n) b s t) (sym (each_set i h)) (empty_set-IsGoodSet n b s);
  }

  fresh-none : (addr : ℕ) → cached fresh addr ≡ none
  unfolding cached get_set
  fresh-none addr =
      rw (each_set (set_index fresh addr) (set_index-lt b s fresh fresh-IsValid addr))
        (look-empty (suc n) (tag_of fresh addr) (2 ^ b))

-- A cache of at most 8 ways whose block size and number of sets are powers of two is valid when it
-- is created, and holds no address; the bytes of a set are fewer than 2 ^ 32, and those of a block
-- times the number of sets at most 2 ^ 31.
pub create_cache-IsValid :
    (a b s size d : ℕ)
    → 0 < a
    → a ≤ 8
    → b + s ≤ 31
    → a * 2 ^ b < 2 ^ 32
    → size / (a * 2 ^ b) ≡ 2 ^ s
    → IsValid b s (create_cache a (2 ^ b) size d)
      × ((addr : ℕ) → cached (create_cache a (2 ^ b) size d) addr ≡ none)
unfolding fresh
create_cache-IsValid zero b s size d some_ways few_ways small fits whole = absurd (omega arith)
create_cache-IsValid (suc n) b s size d some_ways few_ways small fits whole = (
  fresh-IsValid n b s size d few_ways small fits whole,
  fresh-none n b s size d few_ways small fits whole,
)
