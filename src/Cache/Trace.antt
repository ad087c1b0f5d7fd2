-- ===== src/Cache/Trace.antt =====
-- `replayTrace` of src/cache/csim.c, on the lines of the trace file that are operations.
pub mod Laws
use se_lab_public.Prelude.{ℕ, Option, some, List, [], ◌∷◌, ◌>>=◌}
use se_lab_public.Cache.{Cache, access_data, read, write}

-- The letter of a line: S, L or M.
pub data Letter : Type 0 where
  store load modify : Letter

-- The accesses of one line.
unfoldable pub replay_line : Cache → Letter → ℕ → Option Cache
replay_line c store addr = access_data c addr write
replay_line c load addr = access_data c addr read
replay_line c modify addr = do c' ← access_data c addr read; access_data c' addr write

-- The loop over the lines.
unfoldable pub replay_trace : Cache → List (Letter × ℕ) → Option Cache
replay_trace c [] = some c
replay_trace c (line ∷ lines) = do c' ← replay_line c line.0 line.1; replay_trace c' lines
