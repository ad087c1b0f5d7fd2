-- ===== src/Mem/Ptable/Chains.antt =====
-- One chain of the page table.
use se_lab_public.Prelude.{
  ℕ, ◌≡◌, ◌<◌, ◌^◌, sym, ap, ◌∙◌, arith, Bool, true, false, ◌==◌, if◌then◌else◌, Option, some, none,
  List, [], ◌∷◌, length, length-set, get_or, set, Bool-cases, inl, inr, get_or-set_self,
  get_or-set_ne, get_or-replicate, length-replicate, ℕ_discrete, ◌&&◌,
}
use se_lab_public.Mem.Ptable.{Pte, byte_of, page_size, find_page, store_in, new_page, zero_page}

-- A page that has its size and holds bytes.
pub record IsPage (p : Pte) : Type 0 where
  pub size : length p.p_data ≡ page_size
  pub bytes : (i : ℕ) → get_or p.p_data i 0 < 2 ^ 8

abbrev pub IsChain : List Pte → Type 0
IsChain [] = Unit {0}
IsChain (p ∷ chain) = IsPage p × IsChain chain

abbrev pub is_page : Option Pte → Bool
is_page none = false
is_page (some p) = true

pub byte_of-lt :
    (pnum : ℕ) (chain : List Pte) (i : ℕ) → IsChain chain → byte_of (find_page pnum chain) i < 2 ^ 8
unfolding find_page
byte_of-lt pnum [] i h = omega arith
byte_of-lt pnum (p ∷ chain) i h = ground (arith, byte_of-lt pnum chain i h.1, h.0.bytes i)

length-zero_page : length zero_page ≡ page_size
unfolding zero_page
length-zero_page = length-replicate {A = ℕ} page_size 0

pub get_or-zero_page : (i : ℕ) → get_or zero_page i 0 ≡ 0
unfolding zero_page
get_or-zero_page i = get_or-replicate {A = ℕ} page_size i 0

pub new_page-IsPage : (num prot : ℕ) → IsPage (new_page num prot)
new_page-IsPage num prot = record {
  size = length-zero_page;
  bytes = λ i. rw (get_or-zero_page i) (omega arith);
}

pub set-IsPage :
    (p : Pte) (poff byte : ℕ)
    → IsPage p
    → byte < 2 ^ 8
    → poff < page_size
    → IsPage (record p { p_data = set p.p_data poff byte })
set-IsPage p poff byte h d k = record {
  size = length-set p.p_data poff byte ∙ h.size;
  bytes = λ i. elim (ℕ_discrete i poff) [
    | yes e ↦ rw (e, get_or-set_self p.p_data poff byte 0 (omega (arith, h.size))) d
    | no ne ↦ rw (get_or-set_ne p.p_data poff i byte 0 (λ e. ne (sym e))) (h.bytes i)
  ];
}

module _ (pnum poff byte : ℕ) (small : byte < 2 ^ 8) (k : poff < page_size) where
  pub store_in-IsChain :
      (chain : List Pte) → IsChain chain → IsChain (store_in pnum poff byte chain)
  unfolding store_in
  store_in-IsChain [] h = tt
  store_in-IsChain (p ∷ chain) h = elim (Bool-cases (pnum == p.p_num)) [
    | inl e ↦ rw e (set-IsPage p poff byte h.0 small k, h.1)
    | inr e ↦ rw e (h.0, store_in-IsChain chain h.1)
  ]

  -- A byte after a store to a page that is there.
  pub find_page-store_in :
      (chain : List Pte) (q i : ℕ)
      → IsChain chain
      → is_page (find_page pnum chain) ≡ true
      → byte_of (find_page q (store_in pnum poff byte chain)) i
        ≡ (if q == pnum && i == poff then byte else byte_of (find_page q chain) i)
  unfolding store_in find_page
  find_page-store_in [] q i h e = cc
  find_page-store_in (p ∷ chain) q i h e = ground (
    arith,
    find_page-store_in chain q i h.1,
    get_or-set_self p.p_data poff byte 0,
    get_or-set_ne p.p_data poff i byte 0,
    h.0.size,
    ap (λ (t : ℕ). get_or (set p.p_data poff byte) t 0) {x = i} {y = poff},
  )
