-- ===== src/Boot.antt =====
-- The start of the emulator: `main` of src/base/archsim.c.
pub mod Loader
pub mod Args
pub mod Laws
pub mod Start
use se_lab_public.Prelude.{
  ℕ, Option, some, none, List, Bool, ◌==◌, if◌then◌else◌, ◌*◌, ◌^◌, not, ◌&&◌,
}
use se_lab_public.Prelude.Int.{ℤ}
use se_lab_public.Words.{u32}
use se_lab_public.Cache.{Cache}
use se_lab_public.Mem.{Mem}
use se_lab_public.Mem.Ptable.{Ptable}
use se_lab_public.Mem.Plain.{Segments}
use se_lab_public.Pipe.Fetch.Stage.{Build}
use se_lab_public.Pipe.Run.{Outcome, init_machine, run_elf, zero_proc}
use se_lab_public.Cli.{is_unset, u32_of}
use Loader.{Elf, load_elf, asserted, outside, loaded}
use Args.{has_unset, Arg, Settings, handle_args, Parsed, stops, undefined, parsed}

-- How the emulator ends: with an exit status before the run, in a failed assertion of the loader, in
-- undefined behaviour, or as its run does.
pub data Ending : Type 0 where
  exits : ℕ → Ending
  asserts undefines : Ending
  runs : Outcome → Ending

-- An option of the cache, where it is given.
abbrev pub given : ℤ → Option ℕ
given z = if is_unset z then none else some (u32_of z)

-- `init_machine` on the options.
abbrev pub initial_mem : Settings → List ℕ → Mem
initial_mem s stdin =
    init_machine (given s.ways) (given s.block) (given s.capacity) (given s.delay) stdin

abbrev pub with_program : Mem → Segments → Ptable → Mem
with_program mem segs pt = record mem { segs = segs; ptable = pt }

-- `loadElf` and `runElf`.
abbrev pub run_program : Build → Settings → Mem → Elf → Ending
run_program b s mem elf = elim (load_elf mem.segs mem.ptable elf) [
  | asserted ↦ asserts
  | outside ↦ undefines
  | loaded entry segs pt ↦ runs (run_elf b s.cycle_max zero_proc (with_program mem segs pt) entry)
]

-- A file that cannot be opened ends the program with the status -1, of which 8 bits are left.
abbrev pub no_file : Ending
no_file = exits 255

abbrev pub open_program : Build → Settings → Mem → Option (Option Elf) → Ending
open_program b s mem none = no_file
open_program b s mem (some none) = no_file
open_program b s mem (some (some elf)) = run_program b s mem elf

-- Whether `create_cache` divides by 0.
abbrev pub is_sizeless : Settings → Bool
is_sizeless s = not (has_unset s) && u32 (u32_of s.ways * u32_of s.block) == 0

-- What follows `handle_args`.
abbrev pub start_from : Build → List ℕ → Settings → Ending
start_from b stdin s =
    if is_sizeless s then undefines else open_program b s (initial_mem s stdin) s.infile

unfoldable pub se_main : Build → List Arg → List ℕ → Ending
se_main b args stdin = elim (handle_args args) [
  | stops status ↦ exits status
  | undefined ↦ undefines
  | parsed m s ↦ start_from b stdin s
]
