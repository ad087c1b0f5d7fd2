-- ===== src/Hw/Memory/Fetched.antt =====
-- An instruction that is fetched leaves the data memory as it is.
use se_lab_public.Prelude.{
  ℕ, ◌%◌, ◌^◌, ◌<◌, ◌≡◌, refl, sym, ◌∙◌, arith, false, not, ◌||◌, ◌==◌, leb, some, none, bit_and,
  Option-cases, inl, inr,
}
use se_lab_public.Bits.{bit_and-mask}
use se_lab_public.Cache.{Cache}
use se_lab_public.Cache.Valid.{cached}
use se_lab_public.Mem.{Mem, mem_read, uses_cache}
use se_lab_public.Mem.Ptable.{Ptable}
use se_lab_public.Mem.Plain.{is_special_addr, addr_in_imem, start_of, data_seg, mem_read_le}
use se_lab_public.Mem.Plain.Laws.{IsSame, mem_read_le_lem}
use se_lab_public.Mem.Cached.View.{view}
use se_lab_public.Hw.Memory.{Access, imem_err, imem}
use se_lab_public.Hw.Memory.Laws.{IsDataMemory}

-- Pages that hold the same bytes.
IsSame-view :
    (b : ℕ) (c : Cache) (pt pt' : Ptable) → IsSame pt pt' → (a : ℕ) → view b c pt' a ≡ view b c pt a
unfolding view
IsSame-view b c pt pt' same a = elim (Option-cases (cached c a)) [
  | inl e ↦ rw e (same.reads a)
  | inr (l, e) ↦ rw e refl
]

IsSame-IsDataMemory :
    (b s : ℕ) (m : Mem) (bytes : ℕ → ℕ) (pt : Ptable)
    → IsDataMemory b s m bytes
    → IsSame m.ptable pt
    → IsDataMemory b s (record m { ptable = pt }) bytes
IsSame-IsDataMemory b s m bytes pt v same = record {
  cache = v.cache;
  there = v.there;
  backed = record {
    valid = v.backed.valid;
    pages = same.valid;
    bytes = v.backed.bytes;
    clean = λ a l e d. v.backed.clean a l e d ∙ sym (same.reads a);
  };
  holds = λ a. IsSame-view b v.cache m.ptable pt same a ∙ v.holds a;
}

-- What a fetch comes to: no error, and a memory of the same bytes.
pub record IsFetched (b s addr : ℕ) (m : Mem) (bytes : ℕ → ℕ) (a : Access) : Type 0 where
  pub right : a.err ≡ false
  pub memory : IsDataMemory b s a.mem bytes
  pub segs : a.mem.segs ≡ m.segs
  pub cache : a.mem.cache ≡ m.cache
  pub flight : a.mem.flight ≡ m.flight

-- An address that `imem` finds no error in is read from the pages.
pub imem-IsFetched :
    (b s : ℕ) (m : Mem) (bytes : ℕ → ℕ) (addr : ℕ)
    → IsDataMemory b s m bytes
    → addr < 2 ^ 64
    → is_special_addr addr ≡ false
    → imem_err m addr ≡ false
    → (a : Access) × (imem m addr ≡ some a) × IsFetched b s addr m bytes a
unfolding imem mem_read addr_in_imem
imem-IsFetched b s m bytes addr v small plain right =
    let both : (not (addr_in_imem m.segs addr) || not (bit_and addr 3 == 0)) ≡ false = right in
    let below : leb (start_of m.segs data_seg) addr ≡ false = ground (arith, both) in
    let word : bit_and addr 3 ≡ 0 = ground (arith, both) in
    let low : addr % 2 ^ 2 ≡ 0 = sym (bit_and-mask 2 addr) ∙ word in
    let r =
      mem_read_le_lem m.segs m.ptable addr 4 v.backed.pages (omega arith)
        (omega (arith, low, small)) in
    let pt = (mem_read_le m.segs m.ptable addr 4).1 in
    let uncached : uses_cache m addr m.cache ≡ none = rw (v.there, below) refl in
    (
      record {
        rval = (mem_read_le m.segs m.ptable addr 4).0 % 2 ^ 32;
        err = false;
        mem = record m { ptable = pt };
      },
      rw (plain, uncached, right) refl,
      record {
        right = refl;
        memory = IsSame-IsDataMemory b s m bytes pt v r.1;
        segs = refl;
        cache = refl;
        flight = refl;
      },
    )
