-- ===== src/Cli/Csim/Ends.antt =====
-- How the simulator ends.
use se_lab_public.Prelude.Int.{ℤ, pos, pos_part, negsuc}
use se_lab_public.Prelude.{
  Option-cases, false, true, none, subst, sym, ap, ◌⊎◌, ◌%◌, zero, suc, ℕ, ◌*◌, ◌/◌, ◌^◌, ◌≤◌, ◌<◌,
  ◌≡◌, refl, arith, some, List, inl, inr, Bool-cases,
}
use se_lab_public.Cli.Sizes.{
  accepted-IsValid, set_bytes-bounds, exponent_lt, good_count-two_pow, two_pow-good_count,
  count_sets-pos, count_sets-negsuc,
}
use se_lab_public.Cli.Csim.{
  Config, Ending, exits, TraceFile, Flag, no_config, scan_flags, with_count, start_config, csim,
  simulate, is_over,
}
use se_lab_public.Cli.{is_bad_count, is_int}
use se_lab_public.Cli.Csim.Laws.{
  IsFile, AreFlags, IsRunnable, IsScanned, scan_flags-IsScanned, IsSummary,
}
use native.Mathlib.Nat.{div-le_self}
use se_lab_public.Cache.{create_cache}
use se_lab_public.Cache.Trace.{Letter}
use se_lab_public.Cache.Trace.Laws.{replay_trace_lem}

-- A valid configuration is simulated to its end.
module _ (a k s c : ℕ) (some_ways : 0 < a) (few_ways : a ≤ 8) (fits : 2 ^ k ≤ 2 ^ 27)
    (small : c < 2 ^ 31) (sets : c / (a * 2 ^ k) ≡ 2 ^ s) where
  simulate-IsSummary :
      (lines : List (Letter × ℕ))
      → IsFile (some lines)
      → IsSummary lines (simulate (create_cache a (2 ^ k) c 0) (some lines))
  unfolding create_cache
  simulate-IsSummary lines h =
      let made = accepted-IsValid a k s c 0 some_ways few_ways fits small sets in
      let run =
        replay_trace_lem k s (create_cache a (2 ^ k) c 0) lines made.0 h.0 (omega (arith, h.1)) in
      let c' = run.0 in
      let fine : is_over c' ≡ false = ground (arith, h.1, run.3.accesses, run.3.evicted) in
      (
        c'.hit_count,
        c'.miss_count,
        c'.dirty_eviction_count,
        c'.clean_eviction_count,
        rw (run.1, fine) refl,
        omega (arith, run.3.accesses),
        omega (arith, run.3.sure),
        omega (arith, run.3.evicted),
      )

-- What a configuration comes to: an exit, where it is not to be run, or a summary.
abbrev Decided : Config → Ending → Type 0
Decided o e =
    ((code : ℕ) × (e ≡ exits code) × ¬ IsRunnable o) ⊎ ((r : IsRunnable o) × IsSummary r.lines e)

abbrev config_of : ℕ → ℕ → ℤ → TraceFile → Config
config_of a k c t = record { ways = pos a; block = pos (2 ^ k); capacity = c; trace_file = some t }

module _ (a k : ℕ) (some_ways : 0 < a) (few_ways : a ≤ 8) (word : 3 ≤ k) (fits : 2 ^ k ≤ 2 ^ 27)
    (t : TraceFile) (file : IsFile t) where
  -- The sizes of a configuration that is to be run are those that are given.
  runnable-sets : (c : ℕ) (r : IsRunnable (config_of a k (pos c) t)) → c / (a * 2 ^ k) ≡ 2 ^ r.count
  runnable-sets c r =
      let ways : a ≡ r.a = ap pos_part r.ways in
      let block : 2 ^ k ≡ 2 ^ r.bits = ap pos_part r.block in
      let size : c ≡ r.size = ap pos_part r.capacity in rw (ways, block, size) r.sets

  some_bytes : 0 < a * 2 ^ k
  some_bytes = (set_bytes-bounds a k some_ways few_ways fits).0

  few_bytes : a * 2 ^ k < 2 ^ 31
  few_bytes = let bytes = set_bytes-bounds a k some_ways few_ways fits in omega (arith, bytes)

  with_count-Decided :
      (c : ℕ)
      → c < 2 ^ 31
      → let o = config_of a k (pos c) t in Decided o (with_count o t (some (pos (c / (a * 2 ^ k)))))
  with_count-Decided c small =
      let q = c / (a * 2 ^ k) in
      let less : q < 2 ^ 31 = omega (arith, div-le_self c (a * 2 ^ k), small) in
      elim (Bool-cases (is_bad_count (pos q))) [
        | inl bad ↦ inl (
          1,
          rw bad refl,
          λ r.
              let two = runnable-sets c r in
              let lt = exponent_lt r.count 31 (omega (arith, two, less)) in
              let good : is_bad_count (pos q) ≡ false =
                rw two (two_pow-good_count r.count (omega (arith, lt))) in
              absurd (grind (arith, bad, good)),
        )
        | inr good ↦
            let two = good_count-two_pow (pos q) (ground (arith, less)) good in
            rw good (opened c small two.0 (ap pos_part two.2) t file)
      ]
    where
      opened :
          (c : ℕ)
          → c < 2 ^ 31
          → (s : ℕ) → c / (a * 2 ^ k) ≡ 2 ^ s
          → (t : TraceFile) → IsFile t
          → Decided
              (config_of a k (pos c) t)
              (simulate (create_cache (a % 2 ^ 32) (2 ^ k % 2 ^ 32) (c % 2 ^ 32) 0) t)
      opened c small s sets none h = inl (1, refl, λ r. absurd (grind (arith, r.file)))
      opened c small s sets (some lines) h =
          let a' : a % 2 ^ 32 ≡ a = omega (arith, few_ways) in
          let b' : 2 ^ k % 2 ^ 32 ≡ 2 ^ k = omega (arith, fits) in
          let c' : c % 2 ^ 32 ≡ c = omega (arith, small) in
          rw (a', b', c')
            (inr (
              record {
                a = a;
                bits = k;
                count = s;
                size = c;
                lines = lines;
                ways = refl;
                block = refl;
                word = word;
                capacity = refl;
                sets = sets;
                file = refl;
              },
              simulate-IsSummary a k s c some_ways few_ways fits small sets lines h,
            ))

  start_config-Decided :
      (c : ℤ) → is_int c ≡ true → Decided (config_of a k c t) (start_config (config_of a k c t))
  unfolding start_config
  start_config-Decided (pos c) int =
      let small : c < 2 ^ 31 = ground (arith, int) in
      rw (count_sets-pos a (2 ^ k) c some_bytes few_bytes small) (with_count-Decided c small)
  start_config-Decided (negsuc zero) int = inl (0, refl, λ r. absurd (grind (arith, r.capacity)))
  start_config-Decided (negsuc (suc c)) int =
      let q = count_sets-negsuc a (2 ^ k) (suc c) some_bytes few_bytes (ground (arith, int)) in
      rw (q.1, q.2) (inl (1, refl, λ r. absurd (grind (arith, r.capacity))))

start_config-IsDecided : (o : Config) → IsScanned o → Decided o (start_config o)
unfolding start_config
start_config-IsDecided o v = elim (Option-cases o.trace_file) [
  | inl e ↦ rw e (inl (0, refl, λ r. absurd (grind (arith, r.file))))
  | inr (t, e) ↦ elim v.ways [
    | inl w ↦ rw (e, w) (inl (0, refl, λ r. absurd (grind (arith, r.ways))))
    | inr (a, some_ways, few_ways, w) ↦ elim v.block [
      | inl k ↦ rw (e, w, k) (inl (0, refl, λ r. absurd (grind (arith, r.block))))
      | inr (k, word, fits, block) ↦
          let same : o ≡ config_of a k o.capacity t = rw (← w, ← block, ← e) refl in
          subst (λ (x : Config). Decided x (start_config x)) (sym same)
            (start_config-Decided a k some_ways few_ways word fits t (v.file t e) o.capacity
              v.capacity)
    ]
  ]
]

same_config : (o o' : Config) → ◌≡◌ {A = ℕ ⊎ Config} (inr o) (inr o') → o ≡ o'
same_config o o' e = ap (λ (x : ℕ ⊎ Config). elim x [ inl n ↦ o | inr c ↦ c ]) e

-- What a command line comes to.
abbrev pub IsEnding : List Flag → Ending → Type 0
IsEnding flags e =
    ((code : ℕ) × (e ≡ exits code)
      × ¬ ((o : Config) × (scan_flags flags no_config ≡ inr o) × IsRunnable o))
    ⊎ ((o : Config) × (scan_flags flags no_config ≡ inr o)
        × ((r : IsRunnable o) × IsSummary r.lines e))

-- With 1 to 8 lines in a set, blocks of at most 2 ^ 27 bytes, a capacity that is an `int`, and a
-- trace of 64-bit addresses and fewer than 2 ^ 31 accesses, the simulator never runs into undefined
-- behaviour. It replays the trace to its end and prints a summary exactly if its options are read
-- to the end and give a trace file that can be opened, a block size that is a power of two of at
-- least 8, and a number of sets that is a power of two; in all other cases it exits without one. By
-- the summary each access is a hit or a miss, the second one of an M a hit, and no more lines are
-- evicted than there are misses.
pub csim-IsEnding : (flags : List Flag) → AreFlags flags → IsEnding flags (csim flags)
unfolding csim
csim-IsEnding flags h =
    elim (scan_flags-IsScanned flags no_config h (record {
      ways = inl refl;
      block = inl refl;
      capacity = refl;
      file = λ t e. absurd (grind (arith, e));
    })) [
      | inl e ↦ rw (csim, e) (inl (0, refl, λ r. absurd (grind (arith, r.1))))
      | inr (o, e, v) ↦
          rw (csim, e)
            (elim (start_config-IsDecided o v) [
              | inl (code, ends, not_run) ↦ inl (
                code,
                ends,
                λ r.
                    let same : o ≡ r.0 = same_config o r.0 r.1 in
                    not_run (subst IsRunnable (sym same) r.2),
              )
              | inr done ↦ inr (o, refl, done)
            ])
    ]
