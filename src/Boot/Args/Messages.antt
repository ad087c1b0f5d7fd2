-- ===== src/Boot/Args/Messages.antt =====
-- Which message on the cache the options get.
use se_lab_public.Cli.Counts.{count_sets_lem}
use se_lab_public.Prelude.{
  ℕ, ◌*◌, ◌/◌, ◌^◌, ◌≤◌, ◌<◌, ◌≡◌, refl, ap, sym, ◌∙◌, arith, Bool, true, false, Option, some, none,
  List, inl, inr, Bool-cases, if◌then◌else◌, subst,
}
use se_lab_public.Prelude.Int.{pos, pos_part}
use se_lab_public.Cli.{is_unset, count_sets}
use se_lab_public.Boot.Args.{
  has_unset, Arg, Settings, defaults, Scan, exits, returns, finished, scan_args, Message, missing,
  invalid, running, cache_message, Parsed, stops, undefined, parsed, end_args, handle_args,
}
use se_lab_public.Boot.Args.Laws.{
  AreArgs, IsSettings, Scanned, scan_args-Scanned, defaults-IsSettings,
}

-- What a message says of the settings.
pub record IsCacheConfig (s : Settings) : Type 0 where
  pub a : ℕ
  pub bits : ℕ
  pub count : ℕ
  pub size : ℕ
  pub some_ways : 0 < a
  pub few_ways : a ≤ 8
  pub word : 3 ≤ bits
  pub fits : 2 ^ bits ≤ 2 ^ 27
  pub small : size < 2 ^ 31
  pub ways : s.ways ≡ pos a
  pub block : s.block ≡ pos (2 ^ bits)
  pub capacity : s.capacity ≡ pos size
  pub sets : size / (a * 2 ^ bits) ≡ 2 ^ count
  pub delay : is_unset s.delay ≡ false

abbrev pub Says : Settings → Message → Type 0
Says s missing = has_unset s ≡ true
Says s invalid = (has_unset s ≡ false) × ¬ IsCacheConfig s
Says s running = IsCacheConfig s

-- The message is right about the settings.
pub cache_message_lem :
    (s : Settings) → IsSettings s → (m : Message) × (cache_message s ≡ some m) × Says s m
unfolding cache_message
cache_message_lem s v = elim (Bool-cases (has_unset s)) [
  | inl e ↦ (missing, rw e refl, e)
  | inr e ↦ elim v.ways [
    | inl w ↦ absurd (grind (arith, rw w at e))
    | inr (a, some_ways, few_ways, w) ↦ elim v.block [
      | inl b ↦ absurd (grind (arith, rw b at e))
      | inr (k, word, fits, b) ↦
          let q = count_sets_lem a k some_ways few_ways fits s.capacity v.capacity in
          let counted : count_sets s.ways s.block s.capacity ≡ some q.0 = rw (w, b) q.1 in
          elim q.2 [
            | inl (good, (size, count, c, small, sets)) ↦ (
              running,
              rw (e, counted, good) refl,
              record {
                a = a;
                bits = k;
                count = count;
                size = size;
                some_ways = some_ways;
                few_ways = few_ways;
                word = word;
                fits = fits;
                small = small;
                ways = w;
                block = b;
                capacity = c;
                sets = sets;
                delay = ground (arith, e);
              },
            )
            | inr (bad, not_two) ↦ (
              invalid,
              rw (e, counted, bad) refl,
              (
                e,
                λ r.
                    let ways : a ≡ r.a = ap pos_part (sym w ∙ r.ways) in
                    let block : 2 ^ k ≡ 2 ^ r.bits = ap pos_part (sym b ∙ r.block) in
                    not_two (r.size, r.count, r.capacity, rw (ways, block) r.sets),
              ),
            )
          ]
    ]
  ]
]

-- What `handle_args` comes to.
abbrev pub IsParsed : Parsed → Type 0
IsParsed (stops status) = Unit {0}
IsParsed undefined = ⊥
IsParsed (parsed none s) = IsSettings s
IsParsed (parsed (some m) s) = IsSettings s × Says s m

checked : (usage : Bool) (p : Parsed) → IsParsed p → IsParsed (if usage then p else stops 1)
checked true p h = h
checked false p h = tt

pub handle_args-IsParsed : (args : List Arg) → AreArgs args → IsParsed (handle_args args)
unfolding handle_args
handle_args-IsParsed args h =
    go (scan_args args defaults) (scan_args-Scanned args defaults h defaults-IsSettings)
  where
    go :
        (r : Scan)
        → Scanned r
        → IsParsed (elim r [
          | exits status ↦ stops status
          | returns s ↦ parsed none s
          | finished s ↦ if s.proper_usage then end_args s (cache_message s) else stops 1
        ])
    go (exits status) v = tt
    go (returns s) v = v
    go (finished s) v =
        let m = cache_message_lem s v in
        checked s.proper_usage (end_args s (cache_message s))
          (subst (λ (x : Option Message). IsParsed (end_args s x)) (sym m.1) (v, m.2))
