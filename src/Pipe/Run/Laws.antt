-- ===== src/Pipe/Run/Laws.antt =====
-- The loop of `runElf`.
use se_lab_public.Prelude.{
  ℕ, zero, suc, ◌+◌, ◌^◌, ◌≤◌, ◌<◌, ◌≡◌, true, false, ◌==◌, ◌||◌, some, none, refl, arith, max,
  Bool-cases, Option-cases, inl, inr,
}
use se_lab_public.Words.{u64}
use se_lab_public.Mem.{Mem}
use se_lab_public.Hw.Regfile.{Proc}
use se_lab_public.Pipe.Fetch.Stage.{Build}
use se_lab_public.Pipe.Cycle.{Machine, cycle}
use se_lab_public.Pipe.Run.{
  Outcome, finished, ended, out_of_fuel, goes_on, run_from, run_elf, start,
}
use se_lab_public.Instr.{Stat}

-- A machine after that many cycles of a run, which went on before each of them but the first.
pub data Steps (b : Build) (cycle_max : ℕ) (s : Machine) : ℕ → Machine → Type 0 where
  here : Steps b cycle_max s 0 s
  then_cycle :
      (k : ℕ) (t u : Machine)
      → Steps b cycle_max s k t
      → (k == 0 || goes_on cycle_max k t.status) ≡ true
      → cycle b t ≡ some u
      → Steps b cycle_max s (k + 1) u

-- What the outcome of a run from a machine is to be.
unfoldable pub IsOutcome : Build → ℕ → Machine → Outcome → Type 0
IsOutcome b cycle_max s (finished k t) =
    Steps b cycle_max s k t × (goes_on cycle_max k t.status ≡ false) × (k ≤ max 1 cycle_max)
IsOutcome b cycle_max s (ended k) =
    (t : Machine) × Steps b cycle_max s k t × (cycle b t ≡ none) × (k ≤ cycle_max)
IsOutcome b cycle_max s out_of_fuel = ⊥

-- A cycle that is begun does not leave the bound.
counted :
    (cycle_max k : ℕ) (status : Stat)
    → (k == 0 || goes_on cycle_max k status) ≡ true
    → k + 1 ≤ max 1 cycle_max
unfolding goes_on
counted cycle_max k status go = ground arith

goes_on→lt : (cycle_max k : ℕ) (status : Stat) → goes_on cycle_max k status ≡ true → k < cycle_max
unfolding goes_on
goes_on→lt cycle_max k status go = ground arith

-- The run from a machine that is reached after `k` cycles.
run_from-IsOutcome :
    (b : Build) (cycle_max fuel k : ℕ) (s t : Machine)
    → Steps b cycle_max s k t
    → (k == 0 || goes_on cycle_max k t.status) ≡ true
    → k ≤ cycle_max
    → cycle_max < 2 ^ 64
    → cycle_max < k + fuel
    → IsOutcome b cycle_max s (run_from b cycle_max fuel k t)
unfolding IsOutcome run_from
run_from-IsOutcome b cycle_max zero k s t steps go le lt fuel = absurd (omega (arith, le, fuel))
run_from-IsOutcome b cycle_max (suc n) k s t steps go le lt fuel = elim (Option-cases (cycle b t)) [
  | inl e ↦ rw (IsOutcome, run_from, e) (t, steps, e, le)
  | inr (u, e) ↦
      let bound : k + 1 ≤ max 1 cycle_max = counted cycle_max k t.status go in
      let small : u64 (k + 1) ≡ k + 1 = omega (arith, bound, lt) in
      let next : Steps b cycle_max s (k + 1) u = then_cycle k t u steps go e in
      elim (Bool-cases (goes_on cycle_max (k + 1) u.status)) [
        | inl more ↦
            let below : k + 1 < cycle_max = goes_on→lt cycle_max (k + 1) u.status more in
            rw (IsOutcome, run_from, e, small, more)
              (run_from-IsOutcome b cycle_max n (k + 1) s u next (ground (arith, more))
                (omega (arith, below)) lt (omega (arith, fuel)))
        | inr over ↦ rw (IsOutcome, run_from, e, small, over) (next, over, bound)
      ]
]

pub run_elf-IsOutcome :
    (b : Build) (cycle_max : ℕ) (p : Proc) (mem : Mem) (entry : ℕ)
    → cycle_max < 2 ^ 64
    → IsOutcome b cycle_max (start p mem entry) (run_elf b cycle_max p mem entry)
unfolding run_elf
run_elf-IsOutcome b cycle_max p mem entry lt =
    run_from-IsOutcome b cycle_max (cycle_max + 1) 0 (start p mem entry) (start p mem entry) here
      refl (omega arith) lt (omega arith)
