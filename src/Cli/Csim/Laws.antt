-- ===== src/Cli/Csim/Laws.antt =====
-- Which command lines the simulator runs, and what it prints for them.
use se_lab_public.Prelude.{
  ℕ, ◌+◌, ◌*◌, ◌/◌, ◌^◌, ◌≤◌, ◌<◌, ◌≡◌, refl, true, some, none, some-injective, List, [], ◌∷◌, ◌⊎◌,
  inl, inr, Bool-cases, subst,
}
use se_lab_public.Prelude.Int.{pos}
use se_lab_public.Cache.Trace.{Letter}
use se_lab_public.Cache.Trace.Laws.{IsTrace, accesses_of, sure_hits_of, total}
use se_lab_public.Cli.{is_bad_block, unset, is_int}
use se_lab_public.Cli.Sizes.{IsWays, IsBlockSize, IsBlock, is_bad_block-IsBlock}
use se_lab_public.Cli.Csim.{
  TraceFile, Flag, set_ways, set_block, set_capacity, set_trace, verbose, help, other, Config,
  scan_flags, Ending, summary,
}

-- What `-t` is to be given: a file of 64-bit addresses, of fewer than 2 ^ 31 accesses.
abbrev pub IsFile : TraceFile → Type 0
IsFile none = Unit {0}
IsFile (some lines) = IsTrace lines × (total accesses_of lines < 2 ^ 31)

-- What the options are to be given.
abbrev pub IsFlag : Flag → Type 0
IsFlag (set_ways a) = IsWays a
IsFlag (set_block b) = IsBlockSize b
IsFlag (set_capacity c) = is_int c ≡ true
IsFlag (set_trace t) = IsFile t
IsFlag flag = Unit {0}

abbrev pub AreFlags : List Flag → Type 0
AreFlags [] = Unit {0}
AreFlags (flag ∷ flags) = IsFlag flag × AreFlags flags

-- The configurations that are to be run: with lines of 2 ^ `bits` bytes, in 2 ^ `count` sets.
pub record IsRunnable (o : Config) : Type 0 where
  pub a : ℕ
  pub bits : ℕ
  pub count : ℕ
  pub size : ℕ
  pub lines : List (Letter × ℕ)
  pub ways : o.ways ≡ pos a
  pub block : o.block ≡ pos (2 ^ bits)
  pub word : 3 ≤ bits
  pub capacity : o.capacity ≡ pos size
  pub sets : size / (a * 2 ^ bits) ≡ 2 ^ count
  pub file : o.trace_file ≡ some (some lines)

-- A summary of a trace: each access is a hit or a miss, the second of an M a hit, and no more lines
-- are evicted than there are misses.
abbrev pub IsSummary : List (Letter × ℕ) → Ending → Type 0
IsSummary lines e =
    (hits misses dirty clean : ℕ) × (e ≡ summary hits misses dirty clean)
    × (hits + misses ≡ total accesses_of lines)
    × (total sure_hits_of lines ≤ hits)
    × (dirty + clean ≤ misses)

-- What the loop over the options has found so far.
pub record IsScanned (o : Config) : Type 0 where
  pub ways : (o.ways ≡ unset) ⊎ IsWays o.ways
  pub block : (o.block ≡ unset) ⊎ IsBlock o.block
  pub capacity : is_int o.capacity ≡ true
  pub file : (t : TraceFile) → o.trace_file ≡ some t → IsFile t

pub scan_flags-IsScanned :
    (flags : List Flag) (o : Config)
    → AreFlags flags
    → IsScanned o
    → (scan_flags flags o ≡ inl 0) ⊎ ((o' : Config) × (scan_flags flags o ≡ inr o') × IsScanned o')
unfolding scan_flags
scan_flags-IsScanned [] o h v = inr (o, refl, v)
scan_flags-IsScanned (set_ways a ∷ flags) o h v =
    scan_flags-IsScanned flags _ h.1
      (record { ways = inr h.0; block = v.block; capacity = v.capacity; file = v.file })
scan_flags-IsScanned (set_block b ∷ flags) o h v = elim (Bool-cases (is_bad_block b)) [
  | inl bad ↦ inl (rw bad refl)
  | inr good ↦ rw good (
      scan_flags-IsScanned flags (record o { block = b }) h.1
        (record {
          ways = v.ways;
          block = inr (is_bad_block-IsBlock b h.0 good);
          capacity = v.capacity;
          file = v.file;
        }))
]
scan_flags-IsScanned (set_capacity c ∷ flags) o h v =
    scan_flags-IsScanned flags _ h.1
      (record { ways = v.ways; block = v.block; capacity = h.0; file = v.file })
scan_flags-IsScanned (set_trace t ∷ flags) o h v = scan_flags-IsScanned flags _ h.1 (record {
  ways = v.ways;
  block = v.block;
  capacity = v.capacity;
  file = λ t' e. subst IsFile (some-injective _ _ e) h.0;
})
scan_flags-IsScanned (verbose ∷ flags) o h v = scan_flags-IsScanned flags o h.1 v
scan_flags-IsScanned (help ∷ flags) o h v = inl refl
scan_flags-IsScanned (other ∷ flags) o h v = inl refl
