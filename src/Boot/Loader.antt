-- ===== src/Boot/Loader.antt =====
-- `loadElf` of src/base/elf_loader.c. What the file holds is a parameter: its header, and its bytes by
-- their offset, as `mmap` gives them, with the number of bytes that can be read from the mapping.
pub mod Laws
use se_lab_public.Prelude.{
  ℕ, zero, suc, ◌+◌, ◌-◌, ◌*◌, ◌/◌, ◌%◌, ◌^◌, bit_and, bit_or, Bool, ◌==◌, ltb, if◌then◌else◌, List,
  [], ◌∷◌, set, false, not, ◌&&◌, ◌||◌,
}
use se_lab_public.Words.{u64}
use se_lab_public.Mem.Ptable.{Ptable, page_size, store_byte}
use se_lab_public.Mem.Plain.{Segments, text_seg, data_seg, touch_page}

-- The fields of `Elf64_Phdr` that are read; `is_load` says that the type is PT_LOAD.
pub record Phdr : Type 0 where
  pub is_load : Bool
  pub offset : ℕ
  pub vaddr : ℕ
  pub filesz : ℕ
  pub memsz : ℕ
  pub flags : ℕ

-- A section name, as the two calls of `strcmp` tell it.
pub data SectionName : Type 0 where
  text_name data_name other_name : SectionName

pub record Elf : Type 0 where
  pub is_exec : Bool
  pub entry : ℕ
  pub contents : ℕ → ℕ
  pub mapped : ℕ
  pub segments : List Phdr
  pub sections : List (SectionName × ℕ)

-- `read | write << 1 | exec << 2`.
abbrev pub flag_bit : ℕ → ℕ → ℕ
flag_bit flags mask = if bit_and flags mask == 0 then 0 else 1

unfoldable pub prot_of : ℕ → ℕ
prot_of flags = bit_or (bit_or (flag_bit flags 4) (flag_bit flags 2 * 2)) (flag_bit flags 1 * 4)

-- One turn of the loop over the bytes of the file.
unfoldable pub load_byte_at : Ptable → ℕ → ℕ → ℕ → Ptable
load_byte_at pt prot addr byte =
    store_byte (touch_page pt (addr / page_size) prot) (addr / page_size) (addr % page_size) byte

-- The loop over the bytes of the file, from byte `j` on with `n` to go.
unfoldable pub load_bytes : (ℕ → ℕ) → Phdr → Ptable → ℕ → ℕ → Ptable
load_bytes contents ph pt j zero = pt
load_bytes contents ph pt j (suc n) =
    load_bytes contents ph
      (load_byte_at pt (prot_of ph.flags) (u64 (ph.vaddr + j)) (contents (ph.offset + j) % 2 ^ 8))
      (j + 1) n

-- The loop over the addresses behind the file's part.
unfoldable pub map_bss : Phdr → ℕ → Ptable → ℕ → ℕ → Ptable
map_bss ph f_align pt j zero = pt
map_bss ph f_align pt j (suc n) =
    map_bss ph f_align (touch_page pt (u64 (ph.vaddr + f_align + j) / page_size) (prot_of ph.flags))
      (j + 1) n

-- `v_align` and `f_align`.
abbrev pub v_align_of : Phdr → ℕ
v_align_of ph = ph.vaddr % page_size

abbrev pub f_align_of : Phdr → ℕ
f_align_of ph = u64 (ph.filesz + (page_size - u64 (ph.filesz + ph.vaddr) % page_size))

-- The body of the loop over the program header.
unfoldable pub load_segment : (ℕ → ℕ) → Ptable → Phdr → Ptable
load_segment contents pt ph =
    if ph.is_load
    then (let pt' = load_bytes contents ph pt 0 (u64 (ph.filesz + v_align_of ph)) in
        if ltb ph.filesz ph.memsz
        then map_bss ph (f_align_of ph) pt' 0 (ph.memsz - ph.filesz)
        else pt')
    else pt

unfoldable pub load_segments : (ℕ → ℕ) → Ptable → List Phdr → Ptable
load_segments contents pt [] = pt
load_segments contents pt (ph ∷ phs) = load_segments contents (load_segment contents pt ph) phs

-- Whether the loop over the bytes of the file reads one outside of the mapping.
unfoldable pub reads_outside : ℕ → Phdr → Bool
reads_outside mapped ph =
    let n = u64 (ph.filesz + v_align_of ph) in ph.is_load && ltb 0 n && ltb mapped (ph.offset + n)

unfoldable pub any_outside : ℕ → List Phdr → Bool
any_outside mapped [] = false
any_outside mapped (ph ∷ phs) = reads_outside mapped ph || any_outside mapped phs

-- The loop over the section header.
unfoldable pub set_starts : Segments → List (SectionName × ℕ) → Segments
set_starts segs [] = segs
set_starts segs ((text_name, addr) ∷ rest) =
    set_starts (record segs { starts = set segs.starts text_seg addr }) rest
set_starts segs ((data_name, addr) ∷ rest) =
    set_starts (record segs { starts = set segs.starts data_seg addr }) rest
set_starts segs ((other_name, addr) ∷ rest) = set_starts segs rest

-- What the loader comes to: a failed assertion, a byte that is read outside of the mapping, which C
-- leaves undefined, or the entry point with the memory that is left.
pub data Loaded : Type 0 where
  asserted outside : Loaded
  loaded : ℕ → Segments → Ptable → Loaded

unfoldable pub load_elf : Segments → Ptable → Elf → Loaded
load_elf segs pt elf =
    if not elf.is_exec
    then asserted
    else if any_outside elf.mapped elf.segments
    then outside
    else loaded elf.entry (set_starts segs elf.sections)
        (load_segments elf.contents pt elf.segments)
