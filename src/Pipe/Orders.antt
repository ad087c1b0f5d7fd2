-- ===== src/Pipe/Orders.antt =====
-- src/base/stage_ordering.c: the orders in which a RANDOM build runs the stages of a cycle.
pub mod Laws
use se_lab_public.Prelude.{ℕ, List, [], ◌∷◌}
use se_lab_public.Pipe.Regs.{Stage, s_fetch, s_decode, s_execute, s_memory, s_wback}

abbrev order : Stage → Stage → Stage → Stage → Stage → List Stage
order a b c d e = a ∷ b ∷ c ∷ d ∷ e ∷ []

unfoldable pub orderings : List (List Stage)
orderings =
    order s_fetch s_decode s_execute s_memory s_wback
    ∷ order s_fetch s_decode s_execute s_wback s_memory
    ∷ order s_fetch s_decode s_memory s_execute s_wback
    ∷ order s_fetch s_decode s_memory s_wback s_execute
    ∷ order s_fetch s_decode s_wback s_execute s_memory
    ∷ order s_fetch s_decode s_wback s_memory s_execute
    ∷ order s_fetch s_execute s_decode s_memory s_wback
    ∷ order s_fetch s_execute s_decode s_wback s_memory
    ∷ order s_fetch s_execute s_memory s_decode s_wback
    ∷ order s_fetch s_execute s_memory s_wback s_decode
    ∷ order s_fetch s_execute s_wback s_decode s_memory
    ∷ order s_fetch s_execute s_wback s_memory s_decode
    ∷ order s_fetch s_memory s_decode s_execute s_wback
    ∷ order s_fetch s_memory s_decode s_wback s_execute
    ∷ order s_fetch s_memory s_execute s_decode s_wback
    ∷ order s_fetch s_memory s_execute s_wback s_decode
    ∷ order s_fetch s_memory s_wback s_decode s_execute
    ∷ order s_fetch s_memory s_wback s_execute s_decode
    ∷ order s_fetch s_wback s_decode s_execute s_memory
    ∷ order s_fetch s_wback s_decode s_memory s_execute
    ∷ order s_fetch s_wback s_execute s_decode s_memory
    ∷ order s_fetch s_wback s_execute s_memory s_decode
    ∷ order s_fetch s_wback s_memory s_decode s_execute
    ∷ order s_fetch s_wback s_memory s_execute s_decode
    ∷ order s_decode s_fetch s_execute s_memory s_wback
    ∷ order s_decode s_fetch s_execute s_wback s_memory
    ∷ order s_decode s_fetch s_memory s_execute s_wback
    ∷ order s_decode s_fetch s_memory s_wback s_execute
    ∷ order s_decode s_fetch s_wback s_execute s_memory
    ∷ order s_decode s_fetch s_wback s_memory s_execute
    ∷ order s_decode s_execute s_fetch s_memory s_wback
    ∷ order s_decode s_execute s_fetch s_wback s_memory
    ∷ order s_decode s_execute s_memory s_fetch s_wback
    ∷ order s_decode s_execute s_memory s_wback s_fetch
    ∷ order s_decode s_execute s_wback s_fetch s_memory
    ∷ order s_decode s_execute s_wback s_memory s_fetch
    ∷ order s_decode s_memory s_fetch s_execute s_wback
    ∷ order s_decode s_memory s_fetch s_wback s_execute
    ∷ order s_decode s_memory s_execute s_fetch s_wback
    ∷ order s_decode s_memory s_execute s_wback s_fetch
    ∷ order s_decode s_memory s_wback s_fetch s_execute
    ∷ order s_decode s_memory s_wback s_execute s_fetch
    ∷ order s_decode s_wback s_fetch s_execute s_memory
    ∷ order s_decode s_wback s_fetch s_memory s_execute
    ∷ order s_decode s_wback s_execute s_fetch s_memory
    ∷ order s_decode s_wback s_execute s_memory s_fetch
    ∷ order s_decode s_wback s_memory s_fetch s_execute
    ∷ order s_decode s_wback s_memory s_execute s_fetch
    ∷ order s_execute s_fetch s_decode s_memory s_wback
    ∷ order s_execute s_fetch s_decode s_wback s_memory
    ∷ order s_execute s_fetch s_memory s_decode s_wback
    ∷ order s_execute s_fetch s_memory s_wback s_decode
    ∷ order s_execute s_fetch s_wback s_decode s_memory
    ∷ order s_execute s_fetch s_wback s_memory s_decode
    ∷ order s_execute s_decode s_fetch s_memory s_wback
    ∷ order s_execute s_decode s_fetch s_wback s_memory
    ∷ order s_execute s_decode s_memory s_fetch s_wback
    ∷ order s_execute s_decode s_memory s_wback s_fetch
    ∷ order s_execute s_decode s_wback s_fetch s_memory
    ∷ order s_execute s_decode s_wback s_memory s_fetch
    ∷ order s_execute s_memory s_fetch s_decode s_wback
    ∷ order s_execute s_memory s_fetch s_wback s_decode
    ∷ order s_execute s_memory s_decode s_fetch s_wback
    ∷ order s_execute s_memory s_decode s_wback s_fetch
    ∷ order s_execute s_memory s_wback s_fetch s_decode
    ∷ order s_execute s_memory s_wback s_decode s_fetch
    ∷ order s_execute s_wback s_fetch s_decode s_memory
    ∷ order s_execute s_wback s_fetch s_memory s_decode
    ∷ order s_execute s_wback s_decode s_fetch s_memory
    ∷ order s_execute s_wback s_decode s_memory s_fetch
    ∷ order s_execute s_wback s_memory s_fetch s_decode
    ∷ order s_execute s_wback s_memory s_decode s_fetch
    ∷ order s_memory s_fetch s_decode s_execute s_wback
    ∷ order s_memory s_fetch s_decode s_wback s_execute
    ∷ order s_memory s_fetch s_execute s_decode s_wback
    ∷ order s_memory s_fetch s_execute s_wback s_decode
    ∷ order s_memory s_fetch s_wback s_decode s_execute
    ∷ order s_memory s_fetch s_wback s_execute s_decode
    ∷ order s_memory s_decode s_fetch s_execute s_wback
    ∷ order s_memory s_decode s_fetch s_wback s_execute
    ∷ order s_memory s_decode s_execute s_fetch s_wback
    ∷ order s_memory s_decode s_execute s_wback s_fetch
    ∷ order s_memory s_decode s_wback s_fetch s_execute
    ∷ order s_memory s_decode s_wback s_execute s_fetch
    ∷ order s_memory s_execute s_fetch s_decode s_wback
    ∷ order s_memory s_execute s_fetch s_wback s_decode
    ∷ order s_memory s_execute s_decode s_fetch s_wback
    ∷ order s_memory s_execute s_decode s_wback s_fetch
    ∷ order s_memory s_execute s_wback s_fetch s_decode
    ∷ order s_memory s_execute s_wback s_decode s_fetch
    ∷ order s_memory s_wback s_fetch s_decode s_execute
    ∷ order s_memory s_wback s_fetch s_execute s_decode
    ∷ order s_memory s_wback s_decode s_fetch s_execute
    ∷ order s_memory s_wback s_decode s_execute s_fetch
    ∷ order s_memory s_wback s_execute s_fetch s_decode
    ∷ order s_memory s_wback s_execute s_decode s_fetch
    ∷ order s_wback s_fetch s_decode s_execute s_memory
    ∷ order s_wback s_fetch s_decode s_memory s_execute
    ∷ order s_wback s_fetch s_execute s_decode s_memory
    ∷ order s_wback s_fetch s_execute s_memory s_decode
    ∷ order s_wback s_fetch s_memory s_decode s_execute
    ∷ order s_wback s_fetch s_memory s_execute s_decode
    ∷ order s_wback s_decode s_fetch s_execute s_memory
    ∷ order s_wback s_decode s_fetch s_memory s_execute
    ∷ order s_wback s_decode s_execute s_fetch s_memory
    ∷ order s_wback s_decode s_execute s_memory s_fetch
    ∷ order s_wback s_decode s_memory s_fetch s_execute
    ∷ order s_wback s_decode s_memory s_execute s_fetch
    ∷ order s_wback s_execute s_fetch s_decode s_memory
    ∷ order s_wback s_execute s_fetch s_memory s_decode
    ∷ order s_wback s_execute s_decode s_fetch s_memory
    ∷ order s_wback s_execute s_decode s_memory s_fetch
    ∷ order s_wback s_execute s_memory s_fetch s_decode
    ∷ order s_wback s_execute s_memory s_decode s_fetch
    ∷ order s_wback s_memory s_fetch s_decode s_execute
    ∷ order s_wback s_memory s_fetch s_execute s_decode
    ∷ order s_wback s_memory s_decode s_fetch s_execute
    ∷ order s_wback s_memory s_decode s_execute s_fetch
    ∷ order s_wback s_memory s_execute s_fetch s_decode
    ∷ order s_wback s_memory s_execute s_decode s_fetch
    ∷ []
