-- ===== src/Tests/Cli.antt =====
-- Command lines of the simulator.
use se_lab_public.Prelude.{List, refl, arith, some, [], ◌∷◌}
use se_lab_public.Prelude.Int.{pos}
use se_lab_public.Cache.Trace.{load, store, modify}
use se_lab_public.Cli.Csim.{Flag, set_ways, set_block, set_capacity, set_trace, csim}
use se_lab_public.Cli.Csim.Ends.{IsEnding, csim-IsEnding}

-- csim -A 2 -B 16 -C 64 -t <file>
abbrev flags : List Flag
flags =
    set_ways (pos 2)
    ∷ set_block (pos 16)
    ∷ set_capacity (pos 64)
    ∷ set_trace (some ((load, 0x10) ∷ (modify, 0x20) ∷ (load, 0x110) ∷ (store, 0x210) ∷ []))
    ∷ []

csim_example : IsEnding flags (csim flags)
csim_example = csim-IsEnding flags (
  (2, omega arith, omega arith, refl),
  (
    omega arith,
    (refl, (((omega arith, (omega arith, (omega arith, (omega arith, tt)))), omega arith), tt)),
  ),
)
