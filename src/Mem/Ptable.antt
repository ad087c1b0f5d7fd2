-- ===== src/Mem/Ptable.antt =====
-- src/base/ptable.c and include/base/ptable.h: pages that are made when they are first touched. The
-- table is a list of HASHSIZE chains; a pointer to a page is its number, and a write through it
-- replaces the page in its chain. The bytes of a page are unsigned.
pub mod Chains
pub mod Laws
use se_lab_public.Prelude.{
  ℕ, zero, suc, ◌+◌, ◌-◌, ◌*◌, ◌/◌, ◌%◌, ◌^◌, bit_and, bit_xor, Bool, ◌==◌, ltb, if◌then◌else◌,
  Option, some, none, List, [], ◌∷◌, get_or, set, replicate,
}
use se_lab_public.Words.{u64, not64, shr}

-- PAGESIZE and HASHSIZE.
abbrev pub page_size : ℕ
page_size = 4096

abbrev pub hash_size : ℕ
hash_size = 128

-- `pte_t`.
pub record Pte : Type 0 where
  pub p_num : ℕ
  pub p_prot : ℕ
  pub p_data : List ℕ

abbrev pub Ptable : Type 0
Ptable = List (List Pte)

-- The static table `ptable`, in which no page is made yet.
unfoldable pub empty_ptable : Ptable
empty_ptable = replicate hash_size []

-- `*s++` as it is added to an `unsigned long`: a `char` is signed.
abbrev pub char_value : ℕ → ℕ
char_value c = if ltb c 128 then c else c + 2 ^ 64 - 256

-- One round of the loop of `ptable_hash`.
unfoldable pub hash_round : ℕ → ℕ → ℕ
hash_round h c =
    let sum = u64 (h * 2 ^ 4 + char_value c) in
    let high = bit_and sum 0xf0000000 in
    bit_and (if high == 0 then sum else bit_xor sum (shr high 24)) (not64 high)

-- The loop, with `n` bytes of the page number to go.
unfoldable pub hash_from : ℕ → ℕ → ℕ → ℕ
hash_from h pnum zero = h
hash_from h pnum (suc n) = hash_from (hash_round h (pnum % 2 ^ 8)) (pnum / 2 ^ 8) n

unfoldable pub ptable_hash : ℕ → ℕ
ptable_hash pnum = hash_from 0 pnum 7 % hash_size

-- The loop of `get_page` over a chain.
unfoldable pub find_page : ℕ → List Pte → Option Pte
find_page pnum [] = none
find_page pnum (p ∷ chain) =
    let rest = find_page pnum chain in if pnum == p.p_num then some p else rest

-- `page->p_data[i]`; 0 stands for NULL, which no caller leaves a page at.
abbrev pub byte_of : Option Pte → ℕ → ℕ
byte_of none i = 0
byte_of (some p) i = get_or p.p_data i 0

abbrev pub chain_of : Ptable → ℕ → List Pte
chain_of pt pnum = get_or pt (ptable_hash pnum) []

unfoldable pub get_page : Ptable → ℕ → Option Pte
get_page pt pnum = find_page pnum (chain_of pt pnum)

-- The bytes that `calloc` gives.
unfoldable pub zero_page : List ℕ
zero_page = replicate page_size 0

abbrev pub new_page : ℕ → ℕ → Pte
new_page num prot = record { p_num = num; p_prot = prot; p_data = zero_page }

unfoldable pub add_page : Ptable → ℕ → ℕ → Ptable
add_page pt num prot = set pt (ptable_hash num) (new_page num prot ∷ chain_of pt num)

-- `page->p_data[poff] = byte`, on the page of that number.
unfoldable pub store_in : ℕ → ℕ → ℕ → List Pte → List Pte
store_in pnum poff byte [] = []
store_in pnum poff byte (p ∷ chain) =
    let rest = store_in pnum poff byte chain in
    if pnum == p.p_num then record p { p_data = set p.p_data poff byte } ∷ chain else p ∷ rest

unfoldable pub store_byte : Ptable → ℕ → ℕ → ℕ → Ptable
store_byte pt pnum poff byte =
    set pt (ptable_hash pnum) (store_in pnum poff byte (chain_of pt pnum))
