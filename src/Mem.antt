-- ===== src/Mem.antt =====
-- `_mem_read`, `_mem_write` and the special addresses of src/base/mem.c. What the C library reads
-- for `scanf` is a list of numbers, and what the program prints a list of words; a failed
-- assertion, an exit or a missing number is `none`.
pub mod Status
pub mod Ptable
pub mod Plain
pub mod Cached
use se_lab_public.Prelude.{
  ℕ, ◌+◌, ◌-◌, ◌%◌, ◌^◌, Bool, true, false, ◌==◌, leb, ltb, ◌&&◌, if◌then◌else◌, Option, some, none,
  List, [], ◌∷◌, ◌>>=◌, ◌>>◌, ◌*◌, ◌||◌,
}
use se_lab_public.Cache.{Cache}
use se_lab_public.Mem.Status.{MemStatus, ready, in_flight}
use se_lab_public.Mem.Ptable as Pages
use se_lab_public.Mem.Plain.{
  Segments, start_of, data_seg, null_addr, io_char_addr, checkpoint_addr, is_special_addr,
  mem_read_le, mem_write_le,
}
use se_lab_public.Mem.Cached.{Flight, Backed, mem_read_cache, mem_write_cache}

-- `mem_t`, the pages, the cache, where NULL is `none`, and the state of an access under way.
pub record Mem : Type 0 where
  pub segs : Segments
  pub ptable : Pages.Ptable
  pub cache : Option Cache
  pub flight : Flight
  pub dmem_status : MemStatus
  pub input : List ℕ
  pub output : List ℕ

-- An integer of `w` bits, extended by its sign to 64 bits.
abbrev pub extend : ℕ → ℕ → ℕ
extend w x = if ltb (x % 2 ^ w) (2 ^ (w - 1)) then x % 2 ^ w else x % 2 ^ w + 2 ^ 64 - 2 ^ w

-- A number of the four widths.
abbrev pub is_width : ℕ → Bool
is_width width = width == 1 || width == 2 || width == 4 || width == 8

-- The next number of the input, for an access of a width that there is a format for.
abbrev pub scan_number : ℕ → List ℕ → Mem → Option (ℕ × Mem)
scan_number width [] m = none
scan_number width (x ∷ xs) m =
    if is_width width then some (extend (width * 8) x, record m { input = xs }) else none

unfoldable pub mem_read_special : Mem → ℕ → ℕ → Option (ℕ × Mem)
mem_read_special m addr width =
    if addr == null_addr
    then none
    else if addr == io_char_addr
    then scan_number width m.input m
    else if addr == null_addr || addr == checkpoint_addr
    then some (0, m)
    else none

unfoldable pub mem_write_special : Mem → ℕ → ℕ → ℕ → Option Mem
mem_write_special m addr word width =
    if addr == null_addr
    then some m
    else if addr == io_char_addr
    then (if is_width width
        then some (record m { output = word % 2 ^ (width * 8) ∷ m.output })
        else none)
    else none

-- The part of the state that an access through the cache works on.
abbrev pub backed_of : Mem → Cache → Backed
backed_of m c = record {
  segs = m.segs;
  ptable = m.ptable;
  cache = c;
  flight = m.flight;
  dmem_status = m.dmem_status;
}

abbrev pub put_backed : Mem → Backed → Mem
put_backed m b = record m {
  ptable = b.ptable;
  cache = some b.cache;
  flight = b.flight;
  dmem_status = b.dmem_status;
}

-- The accesses that are not special: to a cache, if there is one and the address is not below the
-- data segment, and to the pages otherwise.
abbrev pub uses_cache : Mem → ℕ → Option Cache → Option Cache
uses_cache m addr none = none
uses_cache m addr (some c) = if leb (start_of m.segs data_seg) addr then some c else none

abbrev pub read_through : Mem → ℕ → ℕ → Option Cache → Option (ℕ × Mem)
read_through m addr width none =
    let out = mem_read_le m.segs m.ptable addr width in some (out.0, record m { ptable = out.1 })
read_through m addr width (some c) =
    mem_read_cache (backed_of m c) addr width >>= (λ out. some (out.0, put_backed m out.1))

unfoldable pub mem_read : Mem → ℕ → ℕ → Option (ℕ × Mem)
mem_read m addr width =
    if is_special_addr addr
    then mem_read_special m addr width
    else read_through m addr width (uses_cache m addr m.cache)

abbrev pub write_through : Mem → ℕ → ℕ → ℕ → Option Cache → Option Mem
write_through m addr word width none =
    some (record m { ptable = mem_write_le m.ptable addr word width })
write_through m addr word width (some c) =
    mem_write_cache (backed_of m c) addr word width >>= (λ out. some (put_backed m out))

-- The return code is dropped by every caller.
unfoldable pub mem_write : Mem → ℕ → ℕ → ℕ → Option Mem
mem_write m addr word width =
    if is_special_addr addr
    then mem_write_special m addr word width
    else write_through m addr word width (uses_cache m addr m.cache)
