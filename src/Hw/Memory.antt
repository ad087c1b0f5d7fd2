-- ===== src/Hw/Memory.antt =====
-- `imem` and `dmem` of src/base/hw_elts.c. The casts to and from `long` keep the bits.
pub mod Laws
pub mod Fetched
use se_lab_public.Prelude.{
  ℕ, Bool, true, false, not, ◌==◌, ◌||◌, if◌then◌else◌, bit_and, Option, some, ◌>>=◌,
}
use se_lab_public.Words.{u32}
use se_lab_public.Mem.{Mem, mem_read, mem_write}
use se_lab_public.Mem.Plain.{addr_in_imem, addr_in_dmem, is_special_addr}

-- `*imem_rval` and `*imem_err`, or `*dmem_rval` and `*dmem_err`, and the memory.
pub record Access : Type 0 where
  pub rval : ℕ
  pub err : Bool
  pub mem : Mem

abbrev pub imem_err : Mem → ℕ → Bool
imem_err m addr = not (addr_in_imem m.segs addr) || not (bit_and addr 3 == 0)

unfoldable pub imem : Mem → ℕ → Option Access
imem m addr = do
  r ← mem_read m addr 4
  some (record { rval = u32 r.0; err = imem_err m addr; mem = r.1 })

abbrev pub dmem_err : Mem → ℕ → Bool
dmem_err m addr =
    if is_special_addr addr
    then false
    else not (addr_in_dmem m.segs addr) || not (bit_and addr 7 == 0)

-- The two accesses, each where it is asked for.
abbrev pub dmem_load : Bool → Access → ℕ → Option Access
dmem_load false a addr = some a
dmem_load true a addr = do r ← mem_read a.mem addr 8; some (record a { rval = r.0; mem = r.1 })

abbrev pub dmem_store : Bool → Access → ℕ → ℕ → Option Access
dmem_store false a addr wval = some a
dmem_store true a addr wval = do m ← mem_write a.mem addr wval 8; some (record a { mem = m })

-- `a` has what the two outputs hold before the call.
unfoldable pub dmem : Access → ℕ → ℕ → Bool → Bool → Option Access
dmem a addr wval false false = some a
dmem a addr wval read write = do
  loaded ← dmem_load read (record a { err = dmem_err a.mem addr }) addr
  dmem_store write loaded addr wval
