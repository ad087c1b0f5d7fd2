-- ===== src/Tests/Boot.antt =====
-- The emulator on a small program.
use se_lab_public.Prelude.{◌+◌, ◌≡◌, arith, true, some, List, [], ◌∷◌}
use se_lab_public.Prelude.Int.{pos}
use se_lab_public.Mem.Ptable.{empty_ptable}
use se_lab_public.Mem.Ptable.Laws.{byte_at, empty_ptable-IsPtable}
use se_lab_public.Boot.Loader.Laws.{load_segments_lem}
use se_lab_public.Boot.Loader.{Phdr, Elf, text_name, load_segments}
use se_lab_public.Boot.Args.{Arg, input, limit, set_ways, set_block, set_capacity, set_delay}

-- A segment of 8 bytes of the file, from 16 bytes into a page on.
abbrev segment : Phdr
segment = record {
  is_load = true;
  offset = 0x1000;
  vaddr = 0x400010;
  filesz = 8;
  memsz = 32;
  flags = 5;
}

abbrev elf : Elf
elf = record {
  is_exec = true;
  entry = 0x400010;
  contents = λ i. i + 1;
  mapped = 8192;
  segments = segment ∷ [];
  sections = (text_name, 0x400010) ∷ [];
}

-- se -i <file> -A 2 -B 16 -C 64 -d 3 -l 4
abbrev args : List Arg
args =
    input (some elf)
    ∷ set_ways (pos 2)
    ∷ set_block (pos 16)
    ∷ set_capacity (pos 64)
    ∷ set_delay (pos 3)
    ∷ limit 4
    ∷ []

-- The byte of the bss that follows the 8 bytes is one of the file, and not zero.
bss_is_not_zero : byte_at (load_segments elf.contents empty_ptable elf.segments) 0x400018 ≡ 9
bss_is_not_zero =
    (load_segments_lem elf.contents elf.segments empty_ptable (empty_ptable-IsPtable).0
        (omega arith, tt)).1
      0x400018
