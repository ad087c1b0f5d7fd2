-- ===== src/Boot/Start.antt =====
-- What the emulator does with its command line.
use se_lab_public.Prelude.{◌≡◌, true, false, Option, some, none, ◌⊎◌}
use se_lab_public.Mem.{Mem}
use se_lab_public.Mem.Ptable.{Ptable}
use se_lab_public.Pipe.Fetch.Stage.{Build}
use se_lab_public.Pipe.Run.{run_elf, zero_proc, start}
use se_lab_public.Pipe.Run.Laws.{IsOutcome}
use se_lab_public.Boot.Loader.{Elf}
use se_lab_public.Boot.Args.{Settings, Message, Parsed, stops, undefined, parsed}
use se_lab_public.Boot.{Ending, exits, asserts, runs}
use se_lab_public.Boot.Laws.{IsStarted}

-- A run of a program: from a memory with its bytes, to an end.
abbrev IsRun : Build → Option Message → Settings → Elf → Ending → Type 0
IsRun b m s elf e =
    (mem : Mem) × IsStarted m elf mem
    × (e ≡ runs (run_elf b s.cycle_max zero_proc mem elf.entry))
    × IsOutcome b s.cycle_max (start zero_proc mem elf.entry)
        (run_elf b s.cycle_max zero_proc mem elf.entry)

-- What follows the options: the status -1 if the program cannot be opened, a failed assertion if it is
-- no executable file, and its run if it is.
abbrev IsOpened : Build → Option Message → Settings → Option (Option Elf) → Ending → Type 0
IsOpened b m s none e = e ≡ exits 255
IsOpened b m s (some none) e = e ≡ exits 255
IsOpened b m s (some (some elf)) e =
    ((elf.is_exec ≡ false) × (e ≡ asserts)) ⊎ ((elf.is_exec ≡ true) × IsRun b m s elf e)

-- What the emulator comes to.
abbrev pub IsStart : Build → Parsed → Ending → Type 0
IsStart b (stops status) e = e ≡ exits status
IsStart b undefined e = ⊥
IsStart b (parsed m s) e = IsOpened b m s s.infile e
