-- ===== src/Pipe/Run/Ends.antt =====
-- How a run can end before the test of its loop.
use se_lab_public.Prelude.{ℕ, ◌^◌, ◌<◌, ◌≡◌, ◌∙◌, arith, length, length-set, subst}
use se_lab_public.Mem.{Mem}
use se_lab_public.Hw.Regfile.{Proc}
use se_lab_public.Pipe.Fetch.Stage.{Build}
use se_lab_public.Pipe.Cycle.{Machine}
use se_lab_public.Pipe.Cycle.Registers.{IsMachine}
use se_lab_public.Pipe.Cycle.Ends.{EndsInMemory, cycle-IsMachine, cycle-EndsInMemory}
use se_lab_public.Pipe.Run.{ended, run_elf, start}
use se_lab_public.Pipe.Run.Laws.{Steps, here, then_cycle, IsOutcome, run_elf-IsOutcome}

start-IsMachine :
    (p : Proc) (mem : Mem) (entry : ℕ) → length p.gpr ≡ 31 → IsMachine (start p mem entry)
unfolding start
start-IsMachine p mem entry size = record {
  gpr = length-set p.gpr 30 0 ∙ size;
  insnbits = omega arith;
  x = omega arith;
  hw = omega arith;
  m = omega arith;
  w = omega arith;
}

Steps-IsMachine :
    (b : Build) (cycle_max : ℕ) (s : Machine) (k : ℕ) (t : Machine)
    → Steps b cycle_max s k t
    → IsMachine s
    → IsMachine t
Steps-IsMachine b cycle_max s k t here v = v
Steps-IsMachine b cycle_max s k t (then_cycle n r u steps more one) v =
    cycle-IsMachine b r u (Steps-IsMachine b cycle_max s n r steps v) one

-- A run from a processor with 31 general registers, and with a limit of 64 bits, that ends within a
-- cycle ends there in an access to the memory, from a machine that its cycles reached and whose
-- register numbers are those of the register file.
pub run_elf-EndsInMemory :
    (b : Build) (cycle_max : ℕ) (p : Proc) (mem : Mem) (entry k : ℕ)
    → length p.gpr ≡ 31
    → cycle_max < 2 ^ 64
    → run_elf b cycle_max p mem entry ≡ ended k
    → (t : Machine) × Steps b cycle_max (start p mem entry) k t × IsMachine t × EndsInMemory b t
unfolding IsOutcome
run_elf-EndsInMemory b cycle_max p mem entry k size lt e =
    let out =
      subst (IsOutcome b cycle_max (start p mem entry)) e
        (run_elf-IsOutcome b cycle_max p mem entry lt) in
    let v =
      Steps-IsMachine b cycle_max (start p mem entry) k out.0 out.1
        (start-IsMachine p mem entry size) in
    (out.0, out.1, v, cycle-EndsInMemory b out.0 v out.2)
