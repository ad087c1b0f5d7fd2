-- ===== src/Pipe/Orders/Laws.antt =====
-- Every order runs every stage once, and no order is listed twice.
use se_lab_public.Prelude.{
  ℕ, zero, suc, ◌+◌, ◌<◌, ◌≡◌, refl, arith, Bool, true, false, ◌==◌, ◌&&◌, if◌then◌else◌, List, [],
  ◌∷◌, length, get_or, ℕ_discrete,
}
use se_lab_public.Pipe.Regs.{
  Stage, s_fetch, s_decode, s_execute, s_memory, s_wback, s_update_pc, s_error,
}
use se_lab_public.Pipe.Orders.{orderings}

-- The value of a stage in the enumeration; S_ERROR is -1 there.
abbrev pub stage_index : Stage → ℕ
stage_index s_fetch = 0
stage_index s_decode = 1
stage_index s_execute = 2
stage_index s_memory = 3
stage_index s_wback = 4
stage_index s_update_pc = 5
stage_index s_error = 6

abbrev pub count : Stage → List Stage → ℕ
count s [] = 0
count s (x ∷ xs) = if stage_index x == stage_index s then 1 + count s xs else count s xs

-- How often an order is in a list.
abbrev pub same : List Stage → List Stage → Bool
same [] [] = true
same [] (y ∷ ys) = false
same (x ∷ xs) [] = false
same (x ∷ xs) (y ∷ ys) = stage_index x == stage_index y && same xs ys

abbrev pub occurrences : List Stage → List (List Stage) → ℕ
occurrences r [] = 0
occurrences r (x ∷ xs) = if same r x then 1 + occurrences r xs else occurrences r xs

abbrev once : ℕ → Bool
once i =
    let r = get_or orderings i [] in
    count s_fetch r == 1
    && count s_decode r == 1
    && count s_execute r == 1
    && count s_memory r == 1
    && count s_wback r == 1
    && length r == 5
    && occurrences r orderings == 1

abbrev all_below : (ℕ → Bool) → ℕ → Bool
all_below f zero = true
all_below f (suc n) = f n && all_below f n

all_below-lt : (f : ℕ → Bool) (n i : ℕ) → all_below f n ≡ true → i < n → f i ≡ true
all_below-lt f zero i h k = absurd (omega arith)
all_below-lt f (suc n) i h k = elim (ℕ_discrete i n) [
  | yes e ↦ rw e (ground (arith, h))
  | no ne ↦ all_below-lt f n i (ground (arith, h)) (omega arith)
]

all_once : all_below once 120 ≡ true
unfolding orderings
all_once = refl

-- Whichever of the 120 orders a cycle takes, it has five steps, runs each of the five stages exactly
-- once, and stands in the table only once.
pub orderings_lem :
    (which_order : ℕ)
    → which_order < 120
    → let r = get_or orderings which_order [] in
      (count s_fetch r ≡ 1)
      × (count s_decode r ≡ 1)
      × (count s_execute r ≡ 1)
      × (count s_memory r ≡ 1)
      × (count s_wback r ≡ 1)
      × (length r ≡ 5)
      × (occurrences r orderings ≡ 1)
orderings_lem i h = let found = all_below-lt once 120 i all_once h in ground (arith, found)
