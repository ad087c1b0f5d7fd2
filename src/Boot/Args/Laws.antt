-- ===== src/Boot/Args/Laws.antt =====
-- What the loop over the options comes to.
use se_lab_public.Prelude.{
  zero, suc, ◌^◌, ◌<◌, ◌≡◌, refl, arith, true, false, Option, some, none, some-injective, List, [],
  ◌∷◌, ◌⊎◌, inl, inr, Bool-cases, subst,
}
use se_lab_public.Prelude.Int.{ℤ, pos, negsuc}
use se_lab_public.Cli.{is_bad_block, is_unset, unset, is_int}
use se_lab_public.Cli.Sizes.{IsWays, IsBlockSize, IsBlock, is_bad_block-IsBlock}
use se_lab_public.Boot.Loader.{Elf}
use se_lab_public.Boot.Loader.Laws.{IsLoadable}
use se_lab_public.Boot.Args.{
  Arg, help, other, input, output, checkpoint, limit, verbosity, set_ways, set_block, set_capacity,
  set_delay, Settings, defaults, Scan, exits, returns, finished, scan_args,
}

-- What the options are to be given: 1 to 8 lines in a set, a block of at most 2 ^ 27 bytes, a capacity
-- that is an `int`, a limit of 64 bits, and a program whose segments are in the address space.
abbrev pub IsInput : Option Elf → Type 0
IsInput none = Unit {0}
IsInput (some elf) = IsLoadable elf

abbrev pub IsArg : Arg → Type 0
IsArg (set_ways a) = IsWays a
IsArg (set_block b) = IsBlockSize b
IsArg (set_capacity c) = is_int c ≡ true
IsArg (limit n) = n < 2 ^ 64
IsArg (input elf) = IsInput elf
IsArg arg = Unit {0}

abbrev pub AreArgs : List Arg → Type 0
AreArgs [] = Unit {0}
AreArgs (arg ∷ args) = IsArg arg × AreArgs args

-- What the settings are after them.
pub record IsSettings (s : Settings) : Type 0 where
  pub ways : (s.ways ≡ unset) ⊎ IsWays s.ways
  pub block : (s.block ≡ unset) ⊎ IsBlock s.block
  pub capacity : is_int s.capacity ≡ true
  pub limited : s.cycle_max < 2 ^ 64
  pub loads : (elf : Elf) → s.infile ≡ some (some elf) → IsLoadable elf

abbrev pub Scanned : Scan → Type 0
Scanned (exits status) = Unit {0}
Scanned (returns s) = IsSettings s
Scanned (finished s) = IsSettings s

pub with_block :
    (s : Settings) (b : ℤ)
    → IsSettings s
    → (b ≡ unset) ⊎ IsBlock b
    → IsSettings (record s { block = b })
with_block s b v h = record {
  ways = v.ways;
  block = h;
  capacity = v.capacity;
  limited = v.limited;
  loads = v.loads;
}

is_unset→unset : (z : ℤ) → is_unset z ≡ true → z ≡ unset
is_unset→unset (pos n) e = absurd (grind (arith, e))
is_unset→unset (negsuc zero) e = refl
is_unset→unset (negsuc (suc n)) e = absurd (grind (arith, e))

loads-input : (elf : Option Elf) → IsInput elf → (e : Elf) → some elf ≡ some (some e) → IsLoadable e
loads-input elf h e same = subst IsInput (some-injective _ _ same) h

pub scan_args-Scanned :
    (args : List Arg) (s : Settings) → AreArgs args → IsSettings s → Scanned (scan_args args s)
unfolding scan_args
scan_args-Scanned [] s h v = v
scan_args-Scanned (help ∷ args) s h v = tt
scan_args-Scanned (other ∷ args) s h v = scan_args-Scanned args s h.1 v
scan_args-Scanned (input elf ∷ args) s h v = scan_args-Scanned args _ h.1 (record {
  ways = v.ways;
  block = v.block;
  capacity = v.capacity;
  limited = v.limited;
  loads = loads-input elf h.0;
})
scan_args-Scanned (output true ∷ args) s h v = scan_args-Scanned args s h.1 v
scan_args-Scanned (output false ∷ args) s h v = v
scan_args-Scanned (checkpoint true ∷ args) s h v = scan_args-Scanned args _ h.1 (record {
  ways = v.ways;
  block = v.block;
  capacity = v.capacity;
  limited = v.limited;
  loads = v.loads;
})
scan_args-Scanned (checkpoint false ∷ args) s h v = record {
  ways = v.ways;
  block = v.block;
  capacity = v.capacity;
  limited = v.limited;
  loads = v.loads;
}
scan_args-Scanned (limit n ∷ args) s h v = scan_args-Scanned args _ h.1 (record {
  ways = v.ways;
  block = v.block;
  capacity = v.capacity;
  limited = h.0;
  loads = v.loads;
})
scan_args-Scanned (verbosity c ∷ args) s h v = scan_args-Scanned args _ h.1 (record {
  ways = v.ways;
  block = v.block;
  capacity = v.capacity;
  limited = v.limited;
  loads = v.loads;
})
scan_args-Scanned (set_ways a ∷ args) s h v = scan_args-Scanned args _ h.1 (record {
  ways = inr h.0;
  block = v.block;
  capacity = v.capacity;
  limited = v.limited;
  loads = v.loads;
})
scan_args-Scanned (set_block b ∷ args) s h v = elim (Bool-cases (is_unset b)) [
  | inl e ↦ rw e (scan_args-Scanned args _ h.1 (with_block s b v (inl (is_unset→unset b e))))
  | inr e ↦ elim (Bool-cases (is_bad_block b)) [
    | inl bad ↦ rw (e, bad) tt
    | inr good ↦
        rw (e, good)
          (scan_args-Scanned args _ h.1 (with_block s b v (inr (is_bad_block-IsBlock b h.0 good))))
  ]
]
scan_args-Scanned (set_capacity c ∷ args) s h v = scan_args-Scanned args _ h.1 (record {
  ways = v.ways;
  block = v.block;
  capacity = h.0;
  limited = v.limited;
  loads = v.loads;
})
scan_args-Scanned (set_delay d ∷ args) s h v = scan_args-Scanned args _ h.1 (record {
  ways = v.ways;
  block = v.block;
  capacity = v.capacity;
  limited = v.limited;
  loads = v.loads;
})

pub defaults-IsSettings : IsSettings defaults
defaults-IsSettings = record {
  ways = inl refl;
  block = inl refl;
  capacity = refl;
  limited = omega arith;
  loads = λ elf e. absurd (grind (arith, e));
}
