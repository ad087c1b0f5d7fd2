-- ===== src/Boot/Args.antt =====
-- `handle_args` of src/base/handle_args.c.
pub mod Laws
pub mod Messages
use se_lab_public.Prelude.{
  ℕ, Bool, true, false, ◌||◌, ◌==◌, not, if◌then◌else◌, Option, some, none, List, [], ◌∷◌, ◌⊎◌, inl,
  inr, ◌>>=◌,
}
use se_lab_public.Prelude.Int.{ℤ, pos}
use se_lab_public.Cli.{is_bad_block, is_bad_count, is_unset, unset, count_sets}
use se_lab_public.Boot.Loader.{Elf}

-- The options: what `-i` names, whether the file of `-o` or `-c` can be opened, the value of `atol` as
-- a 64-bit word, the first character of the value of `-v`, and the values of `atoi`.
pub data Arg : Type 0 where
  help other : Arg
  input : Option Elf → Arg
  output checkpoint : Bool → Arg
  limit verbosity : ℕ → Arg
  set_ways set_block set_capacity set_delay : ℤ → Arg

-- The variables that the options set. `infile` is none where `infile_name` is null.
pub record Settings : Type 0 where
  pub infile : Option (Option Elf)
  pub proper_usage : Bool
  pub has_checkpoint : Bool
  pub cycle_max : ℕ
  pub debug_level : ℕ
  pub ways : ℤ
  pub block : ℤ
  pub capacity : ℤ
  pub delay : ℤ

-- The values before the loop, with those that `main` sets.
abbrev pub defaults : Settings
defaults = record {
  infile = none;
  proper_usage = false;
  has_checkpoint = false;
  cycle_max = 500;
  debug_level = 0;
  ways = unset;
  block = unset;
  capacity = unset;
  delay = unset;
}

-- The level of a character: those of '0' to '3', and 1 for all others.
unfoldable pub level_of : ℕ → ℕ
level_of c =
    if c == 0x30
    then 0
    else if c == 0x31
    then 1
    else if c == 0x32
    then 2
    else if c == 0x33
    then 3
    else 1

-- How the loop over the options ends: the program with an exit status, `handle_args` with a return, or
-- neither.
pub data Scan : Type 0 where
  exits : ℕ → Scan
  returns finished : Settings → Scan

unfoldable pub scan_args : List Arg → Settings → Scan
scan_args [] s = finished s
scan_args (help ∷ args) s = exits 0
scan_args (other ∷ args) s = scan_args args s
scan_args (input elf ∷ args) s =
    scan_args args (record s { infile = some elf; proper_usage = true })
scan_args (output opened ∷ args) s =
    let rest = scan_args args s in if opened then rest else returns s
scan_args (checkpoint opened ∷ args) s =
    let rest = scan_args args (record s { has_checkpoint = true }) in
    if opened then rest else returns (record s { has_checkpoint = false })
scan_args (limit n ∷ args) s = scan_args args (record s { cycle_max = n })
scan_args (verbosity c ∷ args) s = scan_args args (record s { debug_level = level_of c })
scan_args (set_ways a ∷ args) s = scan_args args (record s { ways = a })
scan_args (set_block b ∷ args) s =
    let rest = scan_args args (record s { block = b }) in
    if not (is_unset b) then (if is_bad_block b then exits 1 else rest) else rest
scan_args (set_capacity c ∷ args) s = scan_args args (record s { capacity = c })
scan_args (set_delay d ∷ args) s = scan_args args (record s { delay = d })

-- Whether an option of the cache is missing.
abbrev pub has_unset : Settings → Bool
has_unset s = is_unset s.ways || is_unset s.block || is_unset s.capacity || is_unset s.delay

-- The message on the cache.
pub data Message : Type 0 where
  missing invalid running : Message

-- None is undefined behaviour in `C / (A * B)`.
unfoldable pub cache_message : Settings → Option Message
cache_message s =
    if has_unset s
    then some missing
    else count_sets s.ways s.block s.capacity
      >>= (λ n. some (if is_bad_count n then invalid else running))

-- What `handle_args` comes to: an exit of the program, undefined behaviour, or a return, after a
-- message on the cache or before it.
pub data Parsed : Type 0 where
  stops : ℕ → Parsed
  undefined : Parsed
  parsed : Option Message → Settings → Parsed

abbrev pub end_args : Settings → Option Message → Parsed
end_args s none = undefined
end_args s (some m) = parsed (some m) s

unfoldable pub handle_args : List Arg → Parsed
handle_args args = elim (scan_args args defaults) [
  | exits status ↦ stops status
  | returns s ↦ parsed none s
  | finished s ↦ if s.proper_usage then end_args s (cache_message s) else stops 1
]
