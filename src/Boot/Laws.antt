-- ===== src/Boot/Laws.antt =====
-- The emulator starts with the program in memory, and with a cache that is in step with it.
use se_lab_public.Prelude.{
  ◌≤◌, ℕ, ◌*◌, ◌%◌, ◌^◌, ◌<◌, ◌≡◌, refl, arith, true, false, Option, some, none, List, inl, inr,
  Bool-cases,
}
use se_lab_public.Words.{u32}
use se_lab_public.Cache.{Cache, create_cache}
use se_lab_public.Cache.Valid.{IsValid, cached}
use se_lab_public.Mem.{Mem}
use se_lab_public.Mem.Ptable.{Ptable, empty_ptable}
use se_lab_public.Mem.Ptable.Laws.{IsPtable, byte_at}
use se_lab_public.Mem.Plain.{Segments}
use se_lab_public.Hw.Memory.Laws.{IsDataMemory}
use se_lab_public.Mem.Cached.View.{IsBacked, view}
use se_lab_public.Pipe.Run.{init_machine, empty_mem}
use se_lab_public.Cli.{is_unset, u32_of}
use se_lab_public.Cli.Sizes.{accepted-IsValid, set_bytes-bounds}
use se_lab_public.Boot.Loader.{Elf}
use se_lab_public.Boot.Loader.Laws.{with_segments}
use se_lab_public.Boot.Args.{Settings, has_unset, Message, missing, invalid, running}
use se_lab_public.Boot.Args.Laws.{IsSettings}
use se_lab_public.Boot.Args.Messages.{IsCacheConfig, Says}
use se_lab_public.Boot.{initial_mem, with_program, is_sizeless}

-- A cache that holds no address is in step with all pages.
pub none-IsBacked :
    (b s : ℕ) (c : Cache) (pt : Ptable)
    → IsValid b s c
    → IsPtable pt
    → ((a : ℕ) → cached c a ≡ none)
    → IsBacked b s c pt × ((a : ℕ) → view b c pt a ≡ byte_at pt a)
unfolding view
none-IsBacked b s c pt v pages empty = (
  record {
    valid = v;
    pages = pages;
    bytes = λ a i l e lt. absurd (grind (arith, empty a, e));
    clean = λ a l e d. absurd (grind (arith, empty a, e));
  },
  λ a. rw (empty a) refl,
)

-- The cache at the start, by the message of `handle_args`.
abbrev pub CacheOf : Option Message → Mem → Type 0
CacheOf none mem = Unit {0}
CacheOf (some missing) mem = mem.cache ≡ none
CacheOf (some invalid) mem = (c : Cache) × (mem.cache ≡ some c)
CacheOf (some running) mem = (b : ℕ) × (s : ℕ) × (3 ≤ b) × IsDataMemory b s mem (byte_at mem.ptable)

-- The memory at the start of the run: the bytes of the segments, and zeros elsewhere.
pub record IsStarted (m : Option Message) (elf : Elf) (mem : Mem) : Type 0 where
  pub pages : IsPtable mem.ptable
  pub bytes :
      (a : ℕ) → byte_at mem.ptable a ≡ with_segments elf.contents (λ (x : ℕ). 0) elf.segments a
  pub cache : CacheOf m mem

initial-missing :
    (s : Settings) (stdin : List ℕ)
    → has_unset s ≡ true
    → initial_mem s stdin ≡ empty_mem none stdin
unfolding init_machine
initial-missing s stdin h = elim (Bool-cases (is_unset s.ways)) [
  | inl e ↦ rw e refl
  | inr a ↦ elim (Bool-cases (is_unset s.block)) [
    | inl e ↦ rw (a, e) refl
    | inr b ↦ elim (Bool-cases (is_unset s.capacity)) [
      | inl e ↦ rw (a, b, e) refl
      | inr c ↦ let e : is_unset s.delay ≡ true = ground (arith, h, a, b, c) in rw (a, b, c, e) refl
    ]
  ]
]

initial-given :
    (s : Settings) (stdin : List ℕ)
    → has_unset s ≡ false
    → initial_mem s stdin
      ≡ empty_mem
          (some
            (create_cache (u32_of s.ways) (u32_of s.block) (u32_of s.capacity) (u32_of s.delay)))
          stdin
unfolding init_machine
initial-given s stdin h =
    let a : is_unset s.ways ≡ false = ground (arith, h) in
    let b : is_unset s.block ≡ false = ground (arith, h) in
    let c : is_unset s.capacity ≡ false = ground (arith, h) in
    let d : is_unset s.delay ≡ false = ground (arith, h) in rw (a, b, c, d) refl

u32-same : (n : ℕ) → n < 2 ^ 32 → n % 2 ^ 32 ≡ n
u32-same n lt = omega (arith, lt)

pub not_sizeless : (s : Settings) → IsSettings s → is_sizeless s ≡ false
not_sizeless s v = elim (Bool-cases (has_unset s)) [
  | inl e ↦ rw e refl
  | inr e ↦ elim v.ways [
    | inl w ↦ absurd (grind (arith, rw w at e))
    | inr (a, some_ways, few_ways, w) ↦ elim v.block [
      | inl k ↦ absurd (grind (arith, rw k at e))
      | inr (k, word, fits, block) ↦
          let bytes = set_bytes-bounds a k some_ways few_ways fits in
          let size : u32 (u32_of s.ways * u32_of s.block) ≡ a * 2 ^ k =
            rw
              (
                w,
                block,
                u32-same a (omega (arith, few_ways)),
                u32-same (2 ^ k) (omega (arith, fits)),
              )
              (u32-same (a * 2 ^ k) (omega (arith, bytes))) in
          rw (e, size) (ground (arith, bytes))
    ]
  ]
]

-- The cache of settings that are right.
running-CacheOf :
    (s : Settings) (stdin : List ℕ) (segs : Segments) (pt : Ptable)
    → IsPtable pt
    → IsCacheConfig s
    → CacheOf (some running) (with_program (initial_mem s stdin) segs pt)
running-CacheOf s stdin segs pt pages r =
    let made =
      accepted-IsValid r.a r.bits r.count r.size (u32_of s.delay) r.some_ways r.few_ways r.fits
        r.small r.sets in
    let c = create_cache r.a (2 ^ r.bits) r.size (u32_of s.delay) in
    let step = none-IsBacked r.bits r.count c pt made.0 pages made.1 in
    let given : has_unset s ≡ false = rw (r.ways, r.block, r.capacity, r.delay) refl in
    let a : u32_of s.ways ≡ r.a = rw (r.ways) (u32-same r.a (omega (arith, r.few_ways))) in
    let k : u32_of s.block ≡ 2 ^ r.bits =
      rw (r.block) (u32-same (2 ^ r.bits) (omega (arith, r.fits))) in
    let size : u32_of s.capacity ≡ r.size =
      rw (r.capacity) (u32-same r.size (omega (arith, r.small))) in
    (
      r.bits,
      r.count,
      r.word,
      record {
        cache = c;
        there = rw (initial-given s stdin given, a, k, size) refl;
        backed = step.0;
        holds = step.1;
      },
    )

pub start-CacheOf :
    (m : Message) (s : Settings) (stdin : List ℕ) (segs : Segments) (pt : Ptable)
    → IsPtable pt
    → Says s m
    → CacheOf (some m) (with_program (initial_mem s stdin) segs pt)
start-CacheOf missing s stdin segs pt pages h = rw (initial-missing s stdin h) refl
start-CacheOf invalid s stdin segs pt pages h =
    let c = create_cache (u32_of s.ways) (u32_of s.block) (u32_of s.capacity) (u32_of s.delay) in
    (c, rw (initial-given s stdin h.0) refl)
start-CacheOf running s stdin segs pt pages h = running-CacheOf s stdin segs pt pages h

pub initial-ptable : (s : Settings) (stdin : List ℕ) → (initial_mem s stdin).ptable ≡ empty_ptable
initial-ptable s stdin = elim (Bool-cases (has_unset s)) [
  | inl e ↦ rw (initial-missing s stdin e) refl
  | inr e ↦ rw (initial-given s stdin e) refl
]
