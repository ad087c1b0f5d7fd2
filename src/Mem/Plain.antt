-- ===== src/Mem/Plain.antt =====
-- The accesses of src/base/mem.c that go to the pages directly, with the segments of
-- include/base/mem.h. A page that is not there is made with the protection of its segment.
pub mod Laws
use se_lab_public.Prelude.{
  ℕ, zero, suc, ◌+◌, ◌*◌, ◌/◌, ◌%◌, ◌^◌, Bool, ◌==◌, ltb, leb, ◌&&◌, ◌||◌, if◌then◌else◌, Option,
  some, none, List, get_or, ◌-◌,
}
use se_lab_public.Words.{u64}
use se_lab_public.Mem.Ptable.{byte_of, Ptable, page_size, get_page, add_page, new_page, store_byte}

-- `seg_start_addr` and `seg_prot`, indexed by `seg_t`.
pub record Segments : Type 0 where
  pub starts : List ℕ
  pub prots : List ℕ

abbrev pub text_seg : ℕ
text_seg = 1

abbrev pub data_seg : ℕ
data_seg = 2

abbrev pub stack_seg : ℕ
stack_seg = 5

abbrev pub kernel_seg : ℕ
kernel_seg = 6

abbrev pub start_of : Segments → ℕ → ℕ
start_of segs i = get_or segs.starts i 0

unfoldable pub addr_in_imem : Segments → ℕ → Bool
addr_in_imem segs addr = leb (start_of segs text_seg) addr && ltb addr (start_of segs data_seg)

unfoldable pub addr_in_dmem : Segments → ℕ → Bool
addr_in_dmem segs addr = leb (start_of segs data_seg) addr && ltb addr (start_of segs kernel_seg)

-- NULL_ADDR and RET_FROM_MAIN_ADDR, which are the same, IO_CHAR_ADDR and CHECKPOINT_ADDR.
abbrev pub null_addr : ℕ
null_addr = 0

abbrev pub io_char_addr : ℕ
io_char_addr = 2 ^ 64 - 1

abbrev pub checkpoint_addr : ℕ
checkpoint_addr = 2 ^ 64 - 9

unfoldable pub is_special_addr : ℕ → Bool
is_special_addr addr =
    addr == null_addr || addr == io_char_addr || addr == null_addr || addr == checkpoint_addr

-- The loop of `get_prot_bits` from segment `i` on, with `n` segments to go.
unfoldable pub prot_from : Segments → ℕ → ℕ → ℕ → ℕ
prot_from segs addr i zero = get_or segs.prots kernel_seg 0
prot_from segs addr i (suc n) =
    let rest = prot_from segs addr (i + 1) n in
    if leb (start_of segs i) addr && ltb addr (start_of segs (i + 1))
    then get_or segs.prots i 0
    else rest

unfoldable pub get_prot_bits : Segments → ℕ → ℕ
get_prot_bits segs addr = prot_from segs addr 0 kernel_seg

-- The page of an access, and the table with it.
unfoldable pub touch_page : Ptable → ℕ → ℕ → Ptable
touch_page pt pnum prot = elim (get_page pt pnum) [ some p ↦ pt | none ↦ add_page pt pnum prot ]

abbrev pub load_byte : Ptable → ℕ → ℕ → ℕ
load_byte pt pnum poff = byte_of (get_page pt pnum) poff

unfoldable pub mem_read_byte : Segments → Ptable → ℕ → ℕ × Ptable
mem_read_byte segs pt addr =
    let pt' = touch_page pt (addr / page_size) (get_prot_bits segs addr) in
    (load_byte pt' (addr / page_size) (addr % page_size), pt')

-- The loop of `_mem_read_LE`, with the bytes below `n` to go.
unfoldable pub read_from : Segments → Ptable → ℕ → ℕ → ℕ → ℕ × Ptable
read_from segs pt addr retval zero = (retval, pt)
read_from segs pt addr retval (suc n) =
    let b = mem_read_byte segs pt (u64 (addr + n)) in
    read_from segs b.1 addr (u64 (u64 (retval * 2 ^ 8) + b.0)) n

unfoldable pub mem_read_le : Segments → Ptable → ℕ → ℕ → ℕ × Ptable
mem_read_le segs pt addr width = read_from segs pt addr 0 width

unfoldable pub mem_write_byte : Ptable → ℕ → ℕ → Ptable
mem_write_byte pt addr byte =
    store_byte (touch_page pt (addr / page_size) 7) (addr / page_size) (addr % page_size) byte

-- The loop of `_mem_write_LE` from byte `i` on, with `n` bytes to go; the width is at most 8, that of
-- the `uint64_t` that the bytes are taken from.
unfoldable pub write_from : Ptable → ℕ → ℕ → ℕ → ℕ → Ptable
write_from pt addr word i zero = pt
write_from pt addr word i (suc n) =
    write_from (mem_write_byte pt (u64 (addr + i)) (word / 2 ^ (8 * i) % 2 ^ 8)) addr word (i + 1) n

unfoldable pub mem_write_le : Ptable → ℕ → ℕ → ℕ → Ptable
mem_write_le pt addr word width = write_from pt addr word 0 width
