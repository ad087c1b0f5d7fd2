-- ===== src/Cache/Checkpoint.antt =====
-- `create_checkpoint` of src/cache/cache.c: a copy of a cache.
pub mod Laws
use se_lab_public.Prelude.{
  ap, ℕ, zero, suc, ◌+◌, ◌*◌, ◌^◌, ◌<◌, ◌≡◌, refl, sym, ◌∙◌, arith, List, [], ◌∷◌, length,
  length-set, length-replicate, get_or, set, replicate, subst,
}
use mathlib.Core.Option
use se_lab_public.Bits.{test_bit-zero}
use se_lab_public.Cache.{
  Cache, CacheSet, Line, no_line, no_set, line_at, set_count, get_set, set_index, tag_of,
}
use se_lab_public.Cache.Lines.{Distinct, look}
use se_lab_public.Cache.Valid.{IsValid, IsGoodSet, cached, get_set-IsGoodSet, set_index-lt}

-- The copy of a line: the bytes are new ones, of which the first is copied.
abbrev pub copy_line : Cache → Line → Line
copy_line c l = record l { bytes = set (replicate c.block_size 0) 0 (get_or l.bytes 0 0) }

-- The loop over the lines of a set, from line `j` on with `n` to go.
unfoldable pub copy_lines : Cache → List Line → ℕ → ℕ → List Line
copy_lines c lines j zero = []
copy_lines c lines j (suc n) = copy_line c (get_or lines j no_line) ∷ copy_lines c lines (j + 1) n

-- The copy of a set, whose other fields are zeroed.
abbrev pub copy_set : Cache → CacheSet → CacheSet
copy_set c t = record { lines = copy_lines c t.lines 0 c.ways; lru_matrix = 0; next_lru = 0 }

-- The loop over the sets, from set `i` on with `n` to go.
unfoldable pub copy_sets : Cache → ℕ → ℕ → List CacheSet
copy_sets c i zero = []
copy_sets c i (suc n) = copy_set c (get_or c.sets i no_set) ∷ copy_sets c (i + 1) n

unfoldable pub create_checkpoint : Cache → Cache
create_checkpoint c = record c { sets = copy_sets c 0 (set_count c) }
