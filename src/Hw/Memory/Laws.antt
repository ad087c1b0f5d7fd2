-- ===== src/Hw/Memory/Laws.antt =====
-- The data memory as an array of bytes, with the cache behind `dmem`.
use native.Mathlib.Nat.{mod-lt, one-le-pow}
use se_lab_public.Prelude.{
  ℕ, ◌+◌, ◌-◌, ◌*◌, ◌/◌, ◌%◌, ◌^◌, ◌≤◌, ◌<◌, ◌≡◌, refl, ap, sym, ◌∙◌, arith, Bool, true, false, not,
  ◌||◌, ◌&&◌, ◌==◌, leb, some, ◌⊎◌, inl, inr, bit_and,
}
use se_lab_public.Bits.{bit_and-mask, two_pow-add}
use se_lab_public.Bytes.{mod-mul-split}
use se_lab_public.Cache.{Cache, read}
use se_lab_public.Mem.Cached.Block.{is_past}
use se_lab_public.Mem.Cached.Overread.{is_ready, is_missing}
use se_lab_public.Mem.{Mem, mem_read, mem_write, backed_of, put_backed}
use se_lab_public.Mem.Status.{ready, in_flight}
use se_lab_public.Mem.Plain.{is_special_addr, addr_in_dmem, start_of, data_seg}
use se_lab_public.Mem.Plain.Laws.{word_at, word_at_congr, with_word}
use se_lab_public.Mem.Cached.{Backed}
use se_lab_public.Mem.Cached.View.{IsBacked, view}
use se_lab_public.Mem.Cached.Answer.{IsRead, mem_read_cache-IsRead}
use se_lab_public.Mem.Cached.Store.{IsWrite, mem_write_cache-IsWrite}
use se_lab_public.Hw.Memory.{Access, dmem_err, dmem}

-- The memory has a cache, in step with the pages, and the two together hold these bytes.
pub record IsDataMemory (b s : ℕ) (m : Mem) (bytes : ℕ → ℕ) : Type 0 where
  pub cache : Cache
  pub there : m.cache ≡ some cache
  pub backed : IsBacked b s cache m.ptable
  pub holds : (a : ℕ) → view b cache m.ptable a ≡ bytes a

-- An aligned access is within a block.
aligned : (b addr : ℕ) → 3 ≤ b → (bit_and addr 7 == 0) ≡ true → addr % 2 ^ b + 8 ≤ 2 ^ b
aligned b addr word e =
    let low : addr % 2 ^ 3 ≡ 0 = sym (bit_and-mask 3 addr) ∙ ground (arith, e) in
    let q = 2 ^ (b - 3) in
    let exponent : 3 + (b - 3) ≡ b = omega (arith, word) in
    let whole : 2 ^ b ≡ 2 ^ 3 * q = ap (λ (k : ℕ). 2 ^ k) (sym exponent) ∙ two_pow-add 3 (b - 3) in
    let some_rows : 0 < q = one-le-pow (b - 3) 2 (omega arith) in
    let split = mod-mul-split addr (2 ^ 3) q (omega arith) some_rows in
    let row : addr / 2 ^ 3 % q < q = mod-lt (addr / 2 ^ 3) some_rows in
    rw (whole, split) (omega (arith, low, row))

-- What the port checks of an address of the data segment.
checked :
    (m : Mem) (addr : ℕ)
    → is_special_addr addr ≡ false
    → dmem_err m addr ≡ false
    → (leb (start_of m.segs data_seg) addr ≡ true) × ((bit_and addr 7 == 0) ≡ true)
unfolding addr_in_dmem
checked m addr plain right =
    let both : (not (addr_in_dmem m.segs addr) || not (bit_and addr 7 == 0)) ≡ false =
      rw plain at right in
    (ground (arith, both), ground (arith, both))

module _ (b s : ℕ) (m : Mem) (bytes : ℕ → ℕ) (addr : ℕ) (v : IsDataMemory b s m bytes)
    (block : 3 ≤ b) (small : addr < 2 ^ 64) (plain : is_special_addr addr ≡ false)
    (right : dmem_err m addr ≡ false) where
  abbrev behind : Backed
  behind = backed_of m v.cache

  fits : addr % 2 ^ b + 8 ≤ 2 ^ b
  fits = aligned b addr block (checked m addr plain right).1

  -- An 8-byte read that is not special goes through the cache.
  mem_read-IsRead :
      (out : ℕ × Backed) × (mem_read m addr 8 ≡ some (out.0, put_backed m out.1))
      × IsRead b s addr behind out.0 out.1
  unfolding mem_read
  mem_read-IsRead =
      let r = mem_read_cache-IsRead b s addr behind small v.backed fits in
      (r.0, rw (plain, v.there, (checked m addr plain right).0, r.1) refl, r.2)

  mem_write-IsWrite :
      (word : ℕ)
      → (out : Backed) × (mem_write m addr word 8 ≡ some (put_backed m out))
        × IsWrite b s addr word behind out
  unfolding mem_write
  mem_write-IsWrite word =
      let w = mem_write_cache-IsWrite b s addr word behind small v.backed fits in
      (w.0, rw (plain, v.there, (checked m addr plain right).0, w.1) refl, w.2)

-- What a load comes to: the word of the bytes, or an access that waits. The bytes stay.
pub record IsLoaded (b s addr : ℕ) (m : Mem) (bytes : ℕ → ℕ) (a : Access) : Type 0 where
  pub right : a.err ≡ false
  pub memory : IsDataMemory b s a.mem bytes
  pub answer :
      ((a.rval ≡ word_at bytes addr 8) × (a.mem.dmem_status ≡ ready))
      ⊎ ((a.rval ≡ 0) × (a.mem.dmem_status ≡ in_flight))
  pub past : a.mem.flight.overread ≡ (
      m.flight.overread
      || (is_ready a.mem.dmem_status && is_missing m.cache addr && is_past read b addr))

-- What a store comes to: the bytes with the word, or those of before and an access that waits.
pub record IsStored (b s addr word : ℕ) (m : Mem) (bytes : ℕ → ℕ) (a : Access) : Type 0 where
  pub right : a.err ≡ false
  pub memory :
      (IsDataMemory b s a.mem (with_word bytes addr word 8) × (a.mem.dmem_status ≡ ready))
      ⊎ (IsDataMemory b s a.mem bytes × (a.mem.dmem_status ≡ in_flight))
  pub past : a.mem.flight.overread ≡ m.flight.overread

-- The data memory of the processor is an array of bytes, whatever the cache does behind it: where
-- its cache has blocks of at least 8 bytes and is in step with the pages, and the two hold certain
-- bytes, an access to a 64-bit address that is not special, and that the port finds no error in,
-- always returns. A load answers with the word of those bytes and keeps them all, and a store
-- leaves them with the word in its place, or the access waits and they are as before. In all cases
-- the cache is in step with the pages again. What C leaves undefined on the way is noted in the
-- state: counters may overflow, and exactly a load that is done, whose address was not in the cache
-- before and has 8 bytes at 8 times its offset not all in the block, reads past the end of the
-- fetched block.
pub dmem-IsAccess :
    (b s : ℕ) (m : Mem) (bytes : ℕ → ℕ) (addr word rval : ℕ) (err : Bool)
    → IsDataMemory b s m bytes
    → 3 ≤ b
    → addr < 2 ^ 64
    → is_special_addr addr ≡ false
    → dmem_err m addr ≡ false
    → let a : Access = record { rval = rval; err = err; mem = m } in
      ((a' : Access) × (dmem a addr word true false ≡ some a') × IsLoaded b s addr m bytes a')
      × ((a' : Access) × (dmem a addr word false true ≡ some a')
          × IsStored b s addr word m bytes a')
unfolding dmem
dmem-IsAccess b s m bytes addr word rval err v block small plain right =
    let r = mem_read-IsRead b s m bytes addr v block small plain right in
    let w = mem_write-IsWrite b s m bytes addr v block small plain right word in
    (
      (
        record { rval = r.0.0; err = false; mem = put_backed m r.0.1 },
        rw (right, r.1) refl,
        record {
          right = refl;
          memory = record {
            cache = r.0.1.cache;
            there = refl;
            backed = r.2.kept.backed;
            holds = λ a. r.2.kept.same a ∙ v.holds a;
          };
          answer = elim r.2.answer [
            | inl (value, done) ↦ inl (
              value ∙ word_at_congr (view b v.cache m.ptable) bytes addr 8 (λ a p q. v.holds a),
              done,
            )
            | inr waits ↦ inr waits
          ];
          past = rw (v.there) (r.2.past);
        },
      ),
      (
        record { rval = rval; err = false; mem = put_backed m w.0 },
        rw (right, w.1) refl,
        record {
          right = refl;
          memory = elim w.2.effect [
            | inl (done, changed, back) ↦ inl (
              record {
                cache = w.0.cache;
                there = refl;
                backed = w.2.backed;
                holds = λ a. changed a ∙ ground (arith, v.holds a);
              },
              done,
            )
            | inr (waits, same) ↦ inr (
              record {
                cache = w.0.cache;
                there = refl;
                backed = w.2.backed;
                holds = λ a. same a ∙ v.holds a;
              },
              waits,
            )
          ];
          past = w.2.past;
        },
      ),
    )
