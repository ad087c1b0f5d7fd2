-- ===== src/Pipe/Run.antt =====
-- `runElf` of src/base/proc.c and `init_machine` of src/base/machine.c.
pub mod Laws
pub mod Trap
pub mod Ends
use se_lab_public.Prelude.{
  ℕ, zero, suc, ◌+◌, ◌^◌, Bool, true, false, ◌&&◌, ◌||◌, ltb, if◌then◌else◌, Option, some, none,
  List, [], ◌∷◌, set, replicate, ◌>>=◌,
}
use se_lab_public.Words.{u64, sub64}
use se_lab_public.Instr.{Stat, bub, aok, pack_cc}
use se_lab_public.Cache.{Cache, create_cache}
use se_lab_public.Mem.{Mem}
use se_lab_public.Mem.Status.{ready}
use se_lab_public.Mem.Plain.{Segments, start_of, stack_seg}
use se_lab_public.Mem.Cached.{Flight}
use se_lab_public.Hw.Regfile.{Proc}
use se_lab_public.Pipe.Regs.{p_bubble}
use se_lab_public.Pipe.Hazard.{Controls}
use se_lab_public.Pipe.Fetch.Stage.{Build}
use se_lab_public.Pipe.Cycle.{Machine, Sides, zero_f, zero_d, zero_x, zero_m, zero_w, is_aok, cycle}
use se_lab_public.Mem.Ptable.{Ptable, hash_size, empty_ptable}

-- `seg_starts` and `seg_prots`.
abbrev pub default_segs : Segments
default_segs = record {
  starts = 0 ∷ 0x400000 ∷ 0x800000 ∷ 0x10000000 ∷ 0x400000000 ∷ 0x800000000 ∷ 0x1000000000000 ∷ [];
  prots = 0 ∷ 5 ∷ 6 ∷ 6 ∷ 5 ∷ 6 ∷ 0 ∷ [];
}

-- The flight before the first access.
abbrev pub first_flight : Option Cache → Flight
first_flight none = record { addr = 0; cycles = 0; busy = false; overread = false }
first_flight (some c) = record { addr = 0; cycles = c.delay; busy = false; overread = false }

abbrev pub empty_mem : Option Cache → List ℕ → Mem
empty_mem cache input = record {
  segs = default_segs;
  ptable = empty_ptable;
  cache = cache;
  flight = first_flight cache;
  dmem_status = ready;
  input = input;
  output = [];
}

-- The memory of `init_machine`. An option that is -1 is `none`.
unfoldable pub init_machine : (a b c d : Option ℕ) → List ℕ → Mem
init_machine (some a) (some b) (some c) (some d) input =
    empty_mem (some (create_cache a b c d)) input
init_machine a b c d input = empty_mem none input

-- The zeroed processor of `init_machine`.
abbrev pub zero_proc : Proc
zero_proc = record { sp = 0; pc = 0; nzcv = 0; gpr = replicate 31 0 }

-- `runElf` up to its loop.
unfoldable pub start : Proc → Mem → ℕ → Machine
start p mem entry = record {
  proc = record {
    sp = sub64 (start_of mem.segs stack_seg) 8;
    pc = entry;
    nzcv = pack_cc false true false false;
    gpr = set p.gpr 30 0;
  };
  status = bub;
  mem = record mem { dmem_status = ready };
  ins = record { f = zero_f; d = zero_d; x = zero_x; m = zero_m; w = zero_w };
  outs = record {
    f = record { pred_pc = entry; status = aok };
    d = zero_d;
    x = zero_x;
    m = zero_m;
    w = zero_w;
  };
  controls = record { f = p_bubble; d = p_bubble; x = p_bubble; m = p_bubble; w = p_bubble };
  deassert_flags = false;
  f_pc = 0;
}

-- How a run ends: at the test of the loop, or within the cycle that follows that many, by an exit
-- or a failed assertion. The third is a model that was given too little fuel.
pub data Outcome : Type 0 where
  finished : ℕ → Machine → Outcome
  ended : ℕ → Outcome
  out_of_fuel : Outcome

abbrev pub is_running : Stat → Bool
is_running aok = true
is_running bub = true
is_running s = false

-- The test of the loop.
unfoldable pub goes_on : ℕ → ℕ → Stat → Bool
goes_on cycle_max num_instr status = is_running status && ltb num_instr cycle_max

unfoldable pub run_from : Build → ℕ → ℕ → ℕ → Machine → Outcome
run_from b cycle_max zero num_instr s = out_of_fuel
run_from b cycle_max (suc n) num_instr s = elim (cycle b s) [
  | none ↦ ended num_instr
  | some s' ↦
      let rest = run_from b cycle_max n (u64 (num_instr + 1)) s' in
      if goes_on cycle_max (u64 (num_instr + 1)) s'.status
      then rest
      else finished (u64 (num_instr + 1)) s'
]

-- The fuel is enough: the loop is left after `cycle_max` cycles, or the first.
unfoldable pub run_elf : Build → ℕ → Proc → Mem → ℕ → Outcome
run_elf b cycle_max p mem entry = run_from b cycle_max (cycle_max + 1) 0 (start p mem entry)
