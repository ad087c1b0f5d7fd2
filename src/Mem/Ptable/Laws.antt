-- ===== src/Mem/Ptable/Laws.antt =====
-- The page table as an array of bytes: a page that is made changes no byte, and a store changes one.
use se_lab_public.Prelude.{
  length-replicate, get_or-replicate, refl, ℕ, ◌/◌, ◌%◌, ◌^◌, ◌<◌, ◌≡◌, sym, ap, ◌∙◌, subst, arith,
  Bool, true, false, ◌==◌, ◌&&◌, if◌then◌else◌, none, List, [], ◌∷◌, length, length-set, get_or,
  set, get_or-set_self, get_or-set_ne, ℕ_discrete,
}
use se_lab_public.Mem.Ptable.{
  empty_ptable, Pte, Ptable, page_size, hash_size, ptable_hash, find_page, chain_of, get_page,
  add_page, new_page, store_in, store_byte, byte_of,
}
use native.Mathlib.Nat.{mod-lt}
use se_lab_public.Mem.Ptable.Chains.{
  IsChain, is_page, byte_of-lt, new_page-IsPage, get_or-zero_page, store_in-IsChain,
  find_page-store_in,
}

pub record IsPtable (pt : Ptable) : Type 0 where
  pub size : length pt ≡ hash_size
  pub chains : (i : ℕ) → IsChain (get_or pt i [])

-- The byte at an address; a page that is missing reads as zeros.
unfoldable pub byte_at : Ptable → ℕ → ℕ
byte_at pt addr = byte_of (get_page pt (addr / page_size)) (addr % page_size)

pub byte_at-lt : (pt : Ptable) (addr : ℕ) → IsPtable pt → byte_at pt addr < 2 ^ 8
unfolding byte_at get_page
byte_at-lt pt addr v =
    let pnum = addr / page_size in
    byte_of-lt pnum (chain_of pt pnum) (addr % page_size) (v.chains (ptable_hash pnum))

hash-lt : (pnum : ℕ) → ptable_hash pnum < hash_size
unfolding ptable_hash
hash-lt pnum = omega arith

module _ (pt : Ptable) (v : IsPtable pt) (pnum : ℕ) (chain : List Pte) where
  -- One chain is replaced.
  set-IsPtable : IsChain chain → IsPtable (set pt (ptable_hash pnum) chain)
  set-IsPtable h = record {
    size = length-set pt (ptable_hash pnum) chain ∙ v.size;
    chains = λ i. elim (ℕ_discrete i (ptable_hash pnum)) [
      | yes e ↦
          rw (e, get_or-set_self pt (ptable_hash pnum) chain [] (rw (v.size) (hash-lt pnum))) h
      | no ne ↦ rw (get_or-set_ne pt (ptable_hash pnum) i chain [] (λ e. ne (sym e))) (v.chains i)
    ];
  }

  set-byte_of :
      (q i byte : ℕ) (hit : Bool)
      → byte_of (find_page q chain) i
        ≡ (if hit then byte else byte_of (find_page q (chain_of pt pnum)) i)
      → (hit ≡ true → q ≡ pnum)
      → byte_of (get_page (set pt (ptable_hash pnum) chain) q) i
        ≡ (if hit then byte else byte_of (get_page pt q) i)
  unfolding get_page
  set-byte_of q i byte hit e same = elim (ℕ_discrete (ptable_hash q) (ptable_hash pnum)) [
    | yes k ↦ rw (k, get_or-set_self pt (ptable_hash pnum) chain [] (rw (v.size) (hash-lt pnum))) e
    | no ne ↦
        rw (get_or-set_ne pt (ptable_hash pnum) (ptable_hash q) chain [] (λ k. ne (sym k)))
          (ground (arith, same, ap ptable_hash {x = q} {y = pnum}))
  ]

-- A new page reads as the missing one did.
module _ (pt : Ptable) (v : IsPtable pt) (pnum prot : ℕ) (absent : get_page pt pnum ≡ none) where
  pub add_page-IsPtable : IsPtable (add_page pt pnum prot)
  unfolding add_page
  add_page-IsPtable =
      set-IsPtable pt v pnum (new_page pnum prot ∷ chain_of pt pnum)
        (new_page-IsPage pnum prot, v.chains (ptable_hash pnum))

  pub add_page-byte_at : (a : ℕ) → byte_at (add_page pt pnum prot) a ≡ byte_at pt a
  unfolding add_page byte_at find_page
  add_page-byte_at a =
      set-byte_of pt v pnum (new_page pnum prot ∷ chain_of pt pnum) (a / page_size) (a % page_size)
        0 false new_reads (λ h. cc)
    where
      none_found : find_page pnum (chain_of pt pnum) ≡ none
      none_found = unfold get_page in absent

      new_reads :
          byte_of
            (find_page (a / page_size) (new_page pnum prot ∷ chain_of pt pnum))
            (a % page_size)
          ≡ byte_of (find_page (a / page_size) (chain_of pt pnum)) (a % page_size)
      new_reads = ground (
        arith,
        none_found,
        get_or-zero_page (a % page_size),
        ap (λ (t : ℕ). find_page t (chain_of pt pnum)) {x = a / page_size} {y = pnum},
      )

  pub add_page-is_page : is_page (get_page (add_page pt pnum prot) pnum) ≡ true
  unfolding add_page get_page find_page
  add_page-is_page =
      rw
        (get_or-set_self pt (ptable_hash pnum) (new_page pnum prot ∷ chain_of pt pnum) []
          (rw (v.size) (hash-lt pnum)))
        (ground arith)

module _ (pt : Ptable) (v : IsPtable pt) (addr byte : ℕ) (small : byte < 2 ^ 8)
    (there : is_page (get_page pt (addr / page_size)) ≡ true) where
  abbrev stored : Ptable
  stored = store_byte pt (addr / page_size) (addr % page_size) byte

  pub store_byte-IsPtable : IsPtable stored
  unfolding store_byte
  store_byte-IsPtable =
      let pnum = addr / page_size in
      set-IsPtable pt v pnum _ (
        store_in-IsChain pnum (addr % page_size) byte small (mod-lt addr (omega arith))
          (chain_of pt pnum) (v.chains (ptable_hash pnum)))

  pub store_byte-byte_at : (a : ℕ) → byte_at stored a ≡ (if a == addr then byte else byte_at pt a)
  unfolding store_byte byte_at
  store_byte-byte_at a =
      let pnum = addr / page_size in
      let poff = addr % page_size in
      let hit = a / page_size == pnum && a % page_size == poff in
      let same : hit ≡ (a == addr) = ground arith in
      subst
        (λ (t : Bool).
          byte_of (get_page (store_byte pt pnum poff byte) (a / page_size)) (a % page_size)
          ≡ (if t then byte else byte_of (get_page pt (a / page_size)) (a % page_size)))
        same
        (set-byte_of pt v pnum (store_in pnum poff byte (chain_of pt pnum)) (a / page_size)
          (a % page_size) byte hit
          (find_page-store_in pnum poff byte small (mod-lt addr (omega arith)) (chain_of pt pnum)
            (a / page_size) (a % page_size) (v.chains (ptable_hash pnum))
            (unfold get_page in there))
          (λ h. ground (arith, h)))

-- The static table is one, and all of its bytes are 0.
pub empty_ptable-IsPtable : IsPtable empty_ptable × ((addr : ℕ) → byte_at empty_ptable addr ≡ 0)
unfolding empty_ptable byte_at get_page find_page
empty_ptable-IsPtable = (
  record {
    size = length-replicate {A = List Pte} hash_size [];
    chains = λ i. rw (get_or-replicate {A = List Pte} hash_size i []) tt;
  },
  λ addr. rw (get_or-replicate {A = List Pte} hash_size (ptable_hash (addr / page_size)) []) refl,
)
