-- ===== src/Boot/Loader/Laws.antt =====
-- The bytes that the loader leaves in memory.
use native.Mathlib.Nat.{mod-lt}
use se_lab_public.Prelude.{
  ℕ, zero, suc, ◌+◌, ◌-◌, ◌/◌, ◌%◌, ◌^◌, ◌≤◌, ◌<◌, ◌≡◌, refl, ap, ◌∙◌, arith, false, ◌==◌, ltb, leb,
  ◌&&◌, if◌then◌else◌, List, [], ◌∷◌, Bool-cases, inl, inr,
}
use se_lab_public.Words.{u64}
use se_lab_public.Mem.Ptable.{Ptable, page_size}
use se_lab_public.Mem.Ptable.Laws.{IsPtable, byte_at, store_byte-IsPtable, store_byte-byte_at}
use se_lab_public.Mem.Plain.{touch_page}
use se_lab_public.Mem.Plain.Laws.{IsSame, IsSame-refl, IsSame-trans, touch_page_lem}
use se_lab_public.Boot.Loader.{
  Elf, any_outside, reads_outside, Phdr, prot_of, load_byte_at, load_bytes, map_bss, v_align_of,
  f_align_of, load_segment, load_segments,
}

-- A byte that is loaded reads back, and no other changes.
load_byte_at_lem :
    (pt : Ptable) (prot addr byte : ℕ)
    → IsPtable pt
    → byte < 2 ^ 8
    → IsPtable (load_byte_at pt prot addr byte)
      × ((a : ℕ)
          → byte_at (load_byte_at pt prot addr byte) a ≡ (if a == addr then byte else byte_at pt a))
unfolding load_byte_at
load_byte_at_lem pt prot addr byte v small =
    let touched = touch_page_lem pt v (addr / page_size) prot in
    let pt' = touch_page pt (addr / page_size) prot in
    (
      store_byte-IsPtable pt' touched.0.valid addr byte small touched.1,
      λ a.
          store_byte-byte_at pt' touched.0.valid addr byte small touched.1 a
          ∙ ground (arith, touched.0.reads a),
    )

load_bytes_lem :
    (contents : ℕ → ℕ) (ph : Phdr) (n j : ℕ) (pt : Ptable)
    → IsPtable pt
    → ph.vaddr + (j + n) ≤ 2 ^ 64
    → IsPtable (load_bytes contents ph pt j n)
      × ((a : ℕ)
          → byte_at (load_bytes contents ph pt j n) a ≡ (
              if leb (ph.vaddr + j) a && ltb a (ph.vaddr + j + n)
              then contents (ph.offset + (a - ph.vaddr)) % 2 ^ 8
              else byte_at pt a))
unfolding load_bytes
load_bytes_lem contents ph zero j pt v fits = (v, λ a. ground arith)
load_bytes_lem contents ph (suc n) j pt v fits =
    let here : u64 (ph.vaddr + j) ≡ ph.vaddr + j = omega (arith, fits) in
    let byte = contents (ph.offset + j) % 2 ^ 8 in
    let low : byte < 2 ^ 8 = mod-lt (contents (ph.offset + j)) (omega arith) in
    let one = load_byte_at_lem pt (prot_of ph.flags) (ph.vaddr + j) byte v low in
    let rest =
      load_bytes_lem contents ph n (j + 1) (load_byte_at pt (prot_of ph.flags) (ph.vaddr + j) byte)
        one.0 (omega (arith, fits)) in
    rw here (
      rest.0,
      λ a. ground (
        arith,
        rest.1 a,
        one.1 a,
        ap (λ (t : ℕ). contents (ph.offset + t) % 2 ^ 8) {x = a - ph.vaddr} {y = j},
      ),
    )

map_bss_lem :
    (ph : Phdr) (f_align n j : ℕ) (pt : Ptable)
    → IsPtable pt
    → IsSame pt (map_bss ph f_align pt j n)
unfolding map_bss
map_bss_lem ph f_align zero j pt v = IsSame-refl pt v
map_bss_lem ph f_align (suc n) j pt v =
    let pnum = u64 (ph.vaddr + f_align + j) / page_size in
    let touched = touch_page_lem pt v pnum (prot_of ph.flags) in
    IsSame-trans pt (touch_page pt pnum (prot_of ph.flags)) _ touched.0
      (map_bss_lem ph f_align n (j + 1) _ touched.0.valid)

-- The memory with the bytes of a segment: as many as the file has, and `v_align_of` more.
abbrev pub with_segment : (ℕ → ℕ) → (ℕ → ℕ) → Phdr → ℕ → ℕ
with_segment contents f ph a =
    if ph.is_load && (leb ph.vaddr a && ltb a (ph.vaddr + (ph.filesz + v_align_of ph)))
    then contents (ph.offset + (a - ph.vaddr)) % 2 ^ 8
    else f a

abbrev pub IsInMemory : Phdr → Type 0
IsInMemory ph = ph.vaddr + (ph.filesz + v_align_of ph) < 2 ^ 64

pub load_segment_lem :
    (contents : ℕ → ℕ) (ph : Phdr) (pt : Ptable)
    → IsPtable pt
    → IsInMemory ph
    → IsPtable (load_segment contents pt ph)
      × ((a : ℕ)
          → byte_at (load_segment contents pt ph) a ≡ with_segment contents (byte_at pt) ph a)
unfolding load_segment load_bytes map_bss
load_segment_lem contents ph pt v fits =
    let n = ph.filesz + v_align_of ph in
    let whole : u64 n ≡ n = omega (arith, fits) in
    let file = load_bytes_lem contents ph n 0 pt v (omega (arith, fits)) in
    let pt' = load_bytes contents ph pt 0 n in
    let bss = map_bss_lem ph (f_align_of ph) (ph.memsz - ph.filesz) 0 pt' file.0 in
    let z : ph.vaddr + 0 ≡ ph.vaddr = omega arith in
    elim (Bool-cases ph.is_load) [
      | inr no_load ↦ rw no_load (v, λ a. refl)
      | inl load ↦ elim (Bool-cases (ltb ph.filesz ph.memsz)) [
        | inr none_left ↦ rw (load, whole, none_left) (file.0, λ a. rw z at (file.1 a))
        | inl more ↦ rw (load, whole, more) (bss.valid, λ a. bss.reads a ∙ (rw z at (file.1 a)))
      ]
    ]

-- The memory with the bytes of all segments, a later one over the earlier ones.
abbrev pub with_segments : (ℕ → ℕ) → (ℕ → ℕ) → List Phdr → ℕ → ℕ
with_segments contents f [] a = f a
with_segments contents f (ph ∷ phs) a = with_segments contents (with_segment contents f ph) phs a

abbrev pub AreInMemory : List Phdr → Type 0
AreInMemory [] = Unit {0}
AreInMemory (ph ∷ phs) = IsInMemory ph × AreInMemory phs

-- A program that can be loaded: its segments are in the address space, and what the loader reads of
-- the file, `v_align_of` bytes more than the segment has, is in the mapping.
abbrev pub AreInFile : ℕ → List Phdr → Type 0
AreInFile mapped [] = Unit {0}
AreInFile mapped (ph ∷ phs) =
    (ph.offset + (ph.filesz + v_align_of ph) ≤ mapped) × AreInFile mapped phs

abbrev pub IsLoadable : Elf → Type 0
IsLoadable elf = AreInMemory elf.segments × AreInFile elf.mapped elf.segments

pub any_outside_lem :
    (mapped : ℕ) (phs : List Phdr)
    → AreInMemory phs
    → AreInFile mapped phs
    → any_outside mapped phs ≡ false
unfolding any_outside reads_outside
any_outside_lem mapped [] h k = refl
any_outside_lem mapped (ph ∷ phs) h k =
    let whole : u64 (ph.filesz + v_align_of ph) ≡ ph.filesz + v_align_of ph = omega (arith, h.0) in
    let inside : ltb mapped (ph.offset + (ph.filesz + v_align_of ph)) ≡ false =
      ground (arith, k.0) in
    rw (whole, inside, any_outside_lem mapped phs h.1 k.1) (ground arith)

pub with_segments-same :
    (contents f g : ℕ → ℕ) (phs : List Phdr)
    → ((a : ℕ) → f a ≡ g a)
    → (a : ℕ) → with_segments contents f phs a ≡ with_segments contents g phs a
with_segments-same contents f g [] h a = h a
with_segments-same contents f g (ph ∷ phs) h a =
    with_segments-same contents (with_segment contents f ph) (with_segment contents g ph) phs
      (λ x. ground (arith, h x)) a

pub load_segments_lem :
    (contents : ℕ → ℕ) (phs : List Phdr) (pt : Ptable)
    → IsPtable pt
    → AreInMemory phs
    → IsPtable (load_segments contents pt phs)
      × ((a : ℕ)
          → byte_at (load_segments contents pt phs) a ≡ with_segments contents (byte_at pt) phs a)
unfolding load_segments
load_segments_lem contents [] pt v h = (v, λ a. refl)
load_segments_lem contents (ph ∷ phs) pt v h =
    let one = load_segment_lem contents ph pt v h.0 in
    let rest = load_segments_lem contents phs (load_segment contents pt ph) one.0 h.1 in
    (
      rest.0,
      λ a.
          rest.1 a
          ∙ with_segments-same contents _ (with_segment contents (byte_at pt) ph) phs one.1 a,
    )
