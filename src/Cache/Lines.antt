-- ===== src/Cache/Lines.antt =====
-- The lines of one set as a partial map from tags to lines.
use se_lab_public.Prelude.{
  ℕ, zero, suc, ◌+◌, ◌<◌, ◌≡◌, ◌≢◌, refl, arith, List, [], ◌∷◌, Option, some, none, length, get_or,
  set, Bool, true, false, ◌==◌, ◌&&◌, if◌then◌else◌, Bool-cases, inl, inr, ◌⊎◌,
}
use se_lab_public.Cache.{Line, find_line, find_invalid, no_line}

-- A line that holds a tag.
abbrev pub has_tag : ℕ → Line → Bool
has_tag t l = l.valid && l.tag == t

-- The line of a tag.
unfoldable pub look : ℕ → List Line → Option Line
look t [] = none
look t (l ∷ lines) = let rest = look t lines in if has_tag t l then some l else rest

-- No two valid lines have one tag.
abbrev pub Distinct : List Line → Type 0
Distinct [] = Unit {0}
Distinct (l ∷ lines) = (l.valid ≡ true → look l.tag lines ≡ none) × Distinct lines

-- The loop returns the index, counted from `k`, of the line of the tag.
pub find_line-some :
    (t : ℕ) (lines : List Line) (k i : ℕ)
    → find_line t lines k ≡ some i
    → (j : ℕ) × (i ≡ k + j)
      × (j < length lines)
      × (look t lines ≡ some (get_or lines j no_line))
      × (has_tag t (get_or lines j no_line) ≡ true)
unfolding find_line look
find_line-some t [] k i h = cc
find_line-some t (l ∷ lines) k i h = elim (Bool-cases (has_tag t l)) [
  | inl here ↦ (0, ground arith, omega arith, rw here, here)
  | inr on ↦
      let rest = find_line-some t lines (k + 1) i (rw (on, find_line) at h) in
      (suc rest.0, omega (arith, rest.1), omega (arith, rest.2), rw on rest.3, rest.4)
]

pub find_line-none :
    (t : ℕ) (lines : List Line) (k : ℕ) → find_line t lines k ≡ none → look t lines ≡ none
unfolding find_line look
find_line-none t [] k h = refl
find_line-none t (l ∷ lines) k h = ground (arith, find_line-none t lines (k + 1))

pub look-none-find_line :
    (t : ℕ) (lines : List Line) (k : ℕ) → look t lines ≡ none → find_line t lines k ≡ none
unfolding find_line look
look-none-find_line t [] k h = refl
look-none-find_line t (l ∷ lines) k h = ground (arith, look-none-find_line t lines (k + 1))

pub find_invalid-some :
    (lines : List Line) (k i : ℕ)
    → find_invalid lines k ≡ some i
    → (j : ℕ) × (i ≡ k + j) × (j < length lines) × ((get_or lines j no_line).valid ≡ false)
unfolding find_invalid
find_invalid-some [] k i h = cc
find_invalid-some (l ∷ lines) k i h = elim (Bool-cases l.valid) [
  | inl on ↦
      let rest = find_invalid-some lines (k + 1) i (rw (on, find_invalid) at h) in
      (suc rest.0, omega (arith, rest.1), omega (arith, rest.2), rest.3)
  | inr here ↦ (0, ground arith, omega arith, here)
]

-- A tag that some line holds is found.
pub look-ne-none :
    (t : ℕ) (lines : List Line) (i : ℕ)
    → i < length lines
    → has_tag t (get_or lines i no_line) ≡ true
    → look t lines ≢ none
unfolding look
look-ne-none t [] i h e = absurd (omega arith)
look-ne-none t (l ∷ lines) zero h e = ground arith
look-ne-none t (l ∷ lines) (suc i) h e = ground (arith, look-ne-none t lines i)

-- The tag of a new line `new` at index `i` is on no other line.
abbrev pub Fits : List Line → ℕ → Line → Type 0
Fits lines i new =
    new.valid ≡ true
    → (look new.tag lines ≡ none) ⊎ (has_tag new.tag (get_or lines i no_line) ≡ true)

Fits-tail :
    (l : Line) (lines : List Line) (i : ℕ) (new : Line)
    → Fits (l ∷ lines) (suc i) new
    → Fits lines i new
unfolding look
Fits-tail l lines i new u = λ v. ground (arith, u v)

-- The other lines do not hold the tag of a fitting line.
Fits-head :
    (t : ℕ) (l : Line) (lines : List Line) (i : ℕ) (new : Line)
    → i < length lines
    → Distinct (l ∷ lines)
    → Fits (l ∷ lines) (suc i) new
    → has_tag t new ≡ true
    → has_tag t l ≡ false
unfolding look
Fits-head t l lines i new h d u e = ground (arith, u, d.0, look-ne-none l.tag lines i)

-- Replacing one line of a set removes its tag from the map and adds that of the new line, which
-- no other line may hold.
pub look-set :
    (t : ℕ) (lines : List Line) (i : ℕ) (new : Line)
    → i < length lines
    → Distinct lines
    → (new.valid ≡ true
        → (look new.tag lines ≡ none) ⊎ (has_tag new.tag (get_or lines i no_line) ≡ true))
    → look t (set lines i new) ≡ (
        if has_tag t new
        then some new
        else (if has_tag t (get_or lines i no_line) then none else look t lines))
unfolding look
look-set t [] i new h d u = absurd (omega arith)
look-set t (l ∷ lines) zero new h d u = ground (arith, d.0)
look-set t (l ∷ lines) (suc i) new h d u = ground (
  arith,
  d.0,
  Fits-head t l lines i new (omega arith) d u,
  look-ne-none t lines i (omega arith),
  look-set t lines i new (omega arith) d.1 (Fits-tail l lines i new u),
)

pub Distinct-set :
    (lines : List Line) (i : ℕ) (new : Line)
    → i < length lines
    → Distinct lines
    → (new.valid ≡ true
        → (look new.tag lines ≡ none) ⊎ (has_tag new.tag (get_or lines i no_line) ≡ true))
    → Distinct (set lines i new)
unfolding look
Distinct-set [] i new h d u = tt
Distinct-set (l ∷ lines) zero new h d u = (λ v. ground (arith, u v, d.0), d.1)
Distinct-set (l ∷ lines) (suc i) new h d u = (
  λ v. ground (
    arith,
    d.0 v,
    Fits-head l.tag l lines i new (omega arith) d u,
    look-set l.tag lines i new (omega arith) d.1 (Fits-tail l lines i new u),
    look-ne-none l.tag lines i (omega arith),
  ),
  Distinct-set lines i new (omega arith) d.1 (Fits-tail l lines i new u),
)

-- A line of the set is the one that its tag finds.
pub look-line :
    (t : ℕ) (lines : List Line) (i : ℕ)
    → Distinct lines
    → i < length lines
    → has_tag t (get_or lines i no_line) ≡ true
    → look t lines ≡ some (get_or lines i no_line)
unfolding look
look-line t [] i d h e = absurd (omega arith)
look-line t (l ∷ lines) zero d h e = rw e
look-line t (l ∷ lines) (suc i) d h e =
    ground (
      arith,
      d.0,
      look-line t lines i d.1 (omega arith) e,
      look-ne-none l.tag lines i (omega arith),
    )
