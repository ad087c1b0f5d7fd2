-- ===== src/Cache/Trace/Laws.antt =====
-- What the simulator reports of a trace.
use mathlib.Core.Option
use se_lab_public.Prelude.{
  List, [], ◌∷◌, refl, inl, inr, Bool-cases, ◌∙◌, ℕ, ◌+◌, ◌≤◌, ◌≡◌, Option, arith, some, ◌<◌, ◌^◌,
  if◌then◌else◌, is_some, true, length, none, length-replicate, false,
}
use se_lab_public.Cache.Trace.{Letter, store, load, modify, replay_line, replay_trace}
use se_lab_public.Cache.{read, write, Cache, Operation, access_data, incoming_bytes}
use se_lab_public.Cache.Valid.{IsValid, cached}
use se_lab_public.Cache.Lookup.{after_hit, check_hit-IsLookup}
use se_lab_public.Cache.Shape.{same_block}
use se_lab_public.Cache.Fill.{handle_miss-IsFill}

abbrev pub evictions : Cache → ℕ
evictions c = c.dirty_eviction_count + c.clean_eviction_count

-- Of `n` accesses each is counted as a hit or a miss, at least `hits` of them as hits, and no more
-- lines are evicted than there are misses.
pub record IsCounted (n hits : ℕ) (c c' : Cache) : Type 0 where
  pub accesses : c'.hit_count + c'.miss_count ≡ c.hit_count + c.miss_count + n
  pub sure : c.hit_count + hits ≤ c'.hit_count
  pub evicted : evictions c' + c.miss_count ≤ evictions c + c'.miss_count

add-IsCounted :
    (n m k l : ℕ) (c c' c'' : Cache)
    → IsCounted n k c c'
    → IsCounted m l c' c''
    → IsCounted (n + m) (k + l) c c''
add-IsCounted n m k l c c' c'' p q = record {
  accesses = omega (arith, p.accesses, q.accesses);
  sure = omega (arith, p.sure, q.sure);
  evicted = omega (arith, p.evicted, q.evicted);
}

weaken : {n hits : ℕ} {c c' : Cache} → IsCounted n hits c c' → IsCounted n 0 c c'
weaken p = record { accesses = p.accesses; sure = omega (arith, p.sure); evicted = p.evicted }

-- The accesses of a line, and those of them that are hits in any case.
abbrev pub accesses_of : Letter → ℕ
accesses_of modify = 2
accesses_of letter = 1

abbrev pub sure_hits_of : Letter → ℕ
sure_hits_of modify = 1
sure_hits_of letter = 0

abbrev pub total : (Letter → ℕ) → List (Letter × ℕ) → ℕ
total f [] = 0
total f (line ∷ lines) = f line.0 + total f lines

abbrev pub IsTrace : List (Letter × ℕ) → Type 0
IsTrace [] = Unit {0}
IsTrace (line ∷ lines) = (line.1 < 2 ^ 64) × IsTrace lines

module _ (b s : ℕ) where
  -- A valid cache after accesses of a valid one.
  abbrev pub Replayed : ℕ → ℕ → Cache → Option Cache → Type 0
  Replayed n hits c r = (c' : Cache) × (r ≡ some c') × IsValid b s c' × IsCounted n hits c c'

  module _ (c : Cache) (addr : ℕ) (op : Operation) (v : IsValid b s c) (word : addr < 2 ^ 64)
      (room : c.hit_count + c.miss_count + 1 < 2 ^ 31) where
    still_cached :
        (c' : Cache)
        → cached c' addr ≡ (
            if same_block c addr addr
            then Option.map (after_hit op) (cached c addr)
            else cached c addr)
        → is_some (cached c addr) ≡ true
        → is_some (cached c' addr) ≡ true
    still_cached c' e h = ground (arith, e, h)

    absent_after :
        (c' : Cache)
        → cached c' addr ≡ (
            if same_block c addr addr
            then Option.map (after_hit op) (cached c addr)
            else cached c addr)
        → is_some (cached c addr) ≡ false
        → cached c' addr ≡ none
    absent_after c' e h = ground (arith, e, h)

    access_data_lem :
        (c' : Cache) × (access_data c addr op ≡ some c')
        × IsValid b s c'
        × IsCounted 1 (if is_some (cached c addr) then 1 else 0) c c'
        × (is_some (cached c' addr) ≡ true)
    unfolding access_data
    access_data_lem =
        let looked = check_hit-IsLookup b s c addr op v in
        let mid = looked.0.1 in
        let lookup = looked.2 in
        elim (Bool-cases looked.0.0) [
          | inl hit ↦ (
            mid,
            rw (looked.1) (ground (arith, hit)),
            lookup.valid,
            record {
              accesses = ground (arith, hit, lookup.hits, lookup.misses);
              sure = ground (arith, hit, lookup.hits, lookup.answer);
              evicted = ground (arith, hit, lookup.misses, lookup.evictions);
            },
            still_cached mid (lookup.lines addr) (ground (arith, hit, lookup.answer)),
          )
          | inr miss ↦
              let absent =
                absent_after mid (lookup.lines addr) (ground (arith, miss, lookup.answer)) in
              let len : length (incoming_bytes mid.block_size none) ≡ 2 ^ b =
                length-replicate mid.block_size 0 ∙ lookup.valid.shape.block in
              let filled = handle_miss-IsFill b s mid addr op lookup.valid word absent none len in
              let fill = filled.2 in
              (
                filled.0.1,
                rw (looked.1, miss, filled.1) refl,
                fill.valid,
                record {
                  accesses = ground (arith, miss, lookup.hits, lookup.misses, fill.lookups);
                  sure = ground (arith, miss, lookup.hits, lookup.answer, fill.lookups);
                  evicted = ground (
                    arith, miss, lookup.misses, lookup.evictions, fill.lookups,
                    fill.dirty_evictions, fill.clean_evictions,
                  );
                },
                ground (arith, fill.lines addr),
              )
        ]

  replay_line_lem :
      (c : Cache) (letter : Letter) (addr : ℕ)
      → IsValid b s c
      → addr < 2 ^ 64
      → c.hit_count + c.miss_count + accesses_of letter < 2 ^ 31
      → Replayed (accesses_of letter) (sure_hits_of letter) c (replay_line c letter addr)
  unfolding replay_line
  replay_line_lem c store addr v h room =
      let a = access_data_lem c addr write v h room in (a.0, a.1, a.2, weaken a.3)
  replay_line_lem c load addr v h room =
      let a = access_data_lem c addr read v h room in (a.0, a.1, a.2, weaken a.3)
  replay_line_lem c modify addr v h room =
      let a = access_data_lem c addr read v h (omega (arith, room)) in
      let w = access_data_lem a.0 addr write a.2 h (omega (arith, room, a.3.accesses)) in
      let second : IsCounted 1 1 a.0 w.0 = rw (a.4) at w.3 in
      (w.0, rw (a.1) (w.1), w.2, add-IsCounted 1 1 0 1 c a.0 w.0 (weaken a.3) second)

  -- From a valid cache every trace of 64-bit addresses, of so few accesses that the counts of hits
  -- and misses stay below 2 ^ 31 together, is replayed to its end. The cache stays valid, every
  -- access is counted once as a hit or as a miss, two of them for an M, whose second access is
  -- always a hit, and no more lines are evicted than there are misses.
  pub replay_trace_lem :
      (c : Cache) (lines : List (Letter × ℕ))
      → IsValid b s c
      → IsTrace lines
      → c.hit_count + c.miss_count + total accesses_of lines < 2 ^ 31
      → Replayed (total accesses_of lines) (total sure_hits_of lines) c (replay_trace c lines)
  unfolding replay_trace
  replay_trace_lem c [] v h room =
      (c, refl, v, record { accesses = omega arith; sure = omega arith; evicted = omega arith })
  replay_trace_lem c (line ∷ lines) v h room =
      let first = replay_line_lem c line.0 line.1 v h.0 (omega (arith, room)) in
      let rest =
        replay_trace_lem first.0 lines first.2 h.1 (omega (arith, room, first.3.accesses)) in
      (
        rest.0,
        rw (first.1) (rest.1),
        rest.2,
        add-IsCounted (accesses_of line.0) (total accesses_of lines) (sure_hits_of line.0)
            (total sure_hits_of lines) c first.0 rest.0 first.3 rest.3,
      )
