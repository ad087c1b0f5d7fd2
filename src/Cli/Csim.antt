-- ===== src/Cli/Csim.antt =====
-- `main` of src/cache/csim.c.
pub mod Laws
pub mod Ends
use se_lab_public.Prelude.{
  ℕ, ◌^◌, leb, Bool, true, false, ◌||◌, if◌then◌else◌, Option, some, none, is_some, not, List, [],
  ◌∷◌, ◌⊎◌, inl, inr,
}
use se_lab_public.Prelude.Int.{ℤ, pos}
use se_lab_public.Cache.{Cache, create_cache}
use se_lab_public.Cache.Trace.{Letter, replay_trace}
use se_lab_public.Cli.{is_bad_block, is_bad_count, is_unset, unset, u32_of, count_sets}

-- What `-t` names: the operations of the file, or none where it cannot be opened.
abbrev pub TraceFile : Type 0
TraceFile = Option (List (Letter × ℕ))

pub data Flag : Type 0 where
  set_ways set_block set_capacity : ℤ → Flag
  set_trace : TraceFile → Flag
  verbose help other : Flag

pub record Config : Type 0 where
  pub ways : ℤ
  pub block : ℤ
  pub capacity : ℤ
  pub trace_file : Option TraceFile

abbrev pub no_config : Config
no_config = record { ways = unset; block = unset; capacity = unset; trace_file = none }

-- The exit status of `printUsage`, which does not return.
abbrev pub usage_status : ℕ
usage_status = 0

-- The loop over the options: the exit status of an early end, or the configuration.
unfoldable pub scan_flags : List Flag → Config → ℕ ⊎ Config
scan_flags [] o = inr o
scan_flags (set_ways a ∷ flags) o = scan_flags flags (record o { ways = a })
scan_flags (set_block b ∷ flags) o =
    let rest = scan_flags flags (record o { block = b }) in
    if is_bad_block b then inl usage_status else rest
scan_flags (set_capacity c ∷ flags) o = scan_flags flags (record o { capacity = c })
scan_flags (set_trace t ∷ flags) o = scan_flags flags (record o { trace_file = some t })
scan_flags (verbose ∷ flags) o = scan_flags flags o
scan_flags (help ∷ flags) o = inl usage_status
scan_flags (other ∷ flags) o = inl usage_status

-- How the simulator ends: with an exit status, with its summary of hits, misses, dirty and clean
-- evictions, or in undefined behaviour.
pub data Ending : Type 0 where
  exits : ℕ → Ending
  summary : ℕ → ℕ → ℕ → ℕ → Ending
  undefined : Ending

-- Whether a counter has overflowed.
abbrev pub is_over : Cache → Bool
is_over c =
    leb (2 ^ 31) c.hit_count
    || leb (2 ^ 31) c.miss_count
    || leb (2 ^ 31) c.dirty_eviction_count
    || leb (2 ^ 31) c.clean_eviction_count

abbrev pub print_summary : Option Cache → Ending
print_summary none = undefined
print_summary (some c) =
    if is_over c
    then undefined
    else summary c.hit_count c.miss_count c.dirty_eviction_count c.clean_eviction_count

-- The replay, with an exit where the file cannot be opened.
abbrev pub simulate : Cache → TraceFile → Ending
simulate c none = exits 1
simulate c (some lines) = print_summary (replay_trace c lines)

-- What follows the test of the number of sets.
abbrev pub with_count : Config → TraceFile → Option ℤ → Ending
with_count o t none = undefined
with_count o t (some n) =
    if is_bad_count n
    then exits 1
    else simulate (create_cache (u32_of o.ways) (u32_of o.block) (u32_of o.capacity) 0) t

-- What follows the loop over the options.
unfoldable pub start_config : Config → Ending
start_config o = elim o.trace_file [
  | none ↦ exits usage_status
  | some t ↦
      if is_unset o.ways || is_unset o.block || is_unset o.capacity
      then exits usage_status
      else with_count o t (count_sets o.ways o.block o.capacity)
]

unfoldable pub csim : List Flag → Ending
csim flags = elim (scan_flags flags no_config) [
  | inl status ↦ exits status
  | inr o ↦ start_config o
]
