-- ===== src/Mem/Cached/Reads.antt =====
-- The loop over the bytes of an access leaves every byte as it is.
use native.Mathlib.Nat.{
  add-mul-div_right, mul-add-mod_self_right, div-eq_of_lt, mod-eq_of_lt, mod-add-div', one-le-pow,
}
use se_lab_public.Mem.Cached.Block.{block_start-whole, block_start-eq}
use se_lab_public.Prelude.{
  ℕ, zero, suc, ◌+◌, ◌*◌, ◌/◌, ◌%◌, ◌^◌, ◌≤◌, ◌<◌, ◌≡◌, refl, sym, ap, ◌∙◌, arith, Bool, some,
  bind-some, some-injective, Bool-cases, inl, inr, subst,
}
use se_lab_public.Words.{u64}
use se_lab_public.Cache.{Operation, read, write}
use se_lab_public.Mem.Cached.{Backed, fetched_block, block_start, serve, serve_from}
use se_lab_public.Mem.Cached.View.{IsBacked}
use se_lab_public.Mem.Cached.Keeps.{Kept, Kept-trans, serve-Kept}

-- The next byte of an access that stays within the block.
pub next_in_block :
    (b a n : ℕ)
    → a < 2 ^ 64
    → b ≤ 64
    → a % 2 ^ b + suc (suc n) ≤ 2 ^ b
    → (u64 (a + 1) / 2 ^ b ≡ a / 2 ^ b) × (u64 (a + 1) % 2 ^ b + suc n ≤ 2 ^ b)
next_in_block b a n word small fits =
    let m = 2 ^ b in
    let q = a / m in
    let r = a % m in
    let split : r + q * m ≡ a = mod-add-div' a m in
    let room = (block_start-whole b a word small).2 in
    let start = block_start-eq b a word small in
    let e : u64 (a + 1) ≡ a + 1 = omega (arith, room, start, split, fits) in
    let left : a + 1 ≡ r + 1 + q * m = omega (arith, split) in
    let right : a + 1 ≡ q * m + (r + 1) = omega (arith, split) in
    let pos : 0 < m = one-le-pow b 2 (omega arith) in
    let low : (r + 1) / m ≡ 0 = div-eq_of_lt (omega (arith, fits)) in
    let rest : (r + 1) % m ≡ r + 1 = mod-eq_of_lt (omega (arith, fits)) in
    let quotient : (a + 1) / m ≡ q =
      ap (λ (t : ℕ). t / m) left ∙ (add-mul-div_right (r + 1) q pos ∙ omega (arith, low)) in
    let remainder : (a + 1) % m ≡ r + 1 =
      ap (λ (t : ℕ). t % m) right ∙ (mul-add-mod_self_right q m (r + 1) ∙ rest) in
    rw e (quotient, omega (arith, remainder, fits))

-- Within a block, both operations fetch the block of the byte that they are at.
fetched_block-same :
    (op : Operation) (b addr current : ℕ)
    → addr < 2 ^ 64
    → current < 2 ^ 64
    → b ≤ 64
    → current / 2 ^ b ≡ addr / 2 ^ b
    → fetched_block op (2 ^ b) addr current ≡ block_start (2 ^ b) current
fetched_block-same read b addr current word word' small same =
    block_start-eq b addr word small
    ∙ (ap (λ (t : ℕ). t * 2 ^ b) (sym same) ∙ sym (block_start-eq b current word' small))
fetched_block-same write b addr current word word' small same = refl

pub one_byte :
    (b s : ℕ) (op : Operation) (addr current : ℕ) (m : Backed) (r : Bool × Backed)
    → addr < 2 ^ 64
    → current < 2 ^ 64
    → IsBacked b s m.cache m.ptable
    → current / 2 ^ b ≡ addr / 2 ^ b
    → serve op addr current m ≡ some r
    → Kept b s m r.1
one_byte b s op addr current m r word word' v same h =
    serve-Kept b s op addr current word'
      (fetched_block-same op b addr current word word' (omega (arith, v.valid.shape.small)) same) m
      r v h

pub serve_from-Kept :
    (b s : ℕ) (op : Operation) (addr current n : ℕ) (m : Backed) (r : Bool × Backed)
    → addr < 2 ^ 64
    → current < 2 ^ 64
    → IsBacked b s m.cache m.ptable
    → current / 2 ^ b ≡ addr / 2 ^ b
    → current % 2 ^ b + n ≤ 2 ^ b
    → serve_from op addr current n m ≡ some r
    → Kept b s m r.1
unfolding serve_from
serve_from-Kept b s op addr current zero m r word word' v same fits h =
    subst (λ (t : Bool × Backed). Kept b s m t.1) (some-injective _ _ h)
      (record { backed = v; same = λ a. refl })
serve_from-Kept b s op addr current (suc zero) m r word word' v same fits h =
    let one = bind-some (serve op addr current m) _ r h in
    let kept = one_byte b s op addr current m one.0 word word' v same one.1 in
    elim (Bool-cases one.0.0) [
      | inl e ↦
          subst (λ (t : Bool × Backed). Kept b s m t.1) (some-injective _ _ (rw e at one.2)) kept
      | inr e ↦
          subst (λ (t : Bool × Backed). Kept b s m t.1) (some-injective _ _ (rw e at one.2)) kept
    ]
serve_from-Kept b s op addr current (suc (suc n)) m r word word' v same fits h =
    let one = bind-some (serve op addr current m) _ r h in
    let kept = one_byte b s op addr current m one.0 word word' v same one.1 in
    let next = next_in_block b current n word' (omega (arith, v.valid.shape.small)) fits in
    elim (Bool-cases one.0.0) [
      | inl e ↦ Kept-trans b s m one.0.1 r.1 kept (
          serve_from-Kept b s op addr (u64 (current + 1)) (suc n) one.0.1 r word (omega arith)
            kept.backed (next.0 ∙ same) next.1 (rw e at one.2))
      | inr e ↦
          subst (λ (t : Bool × Backed). Kept b s m t.1) (some-injective _ _ (rw e at one.2)) kept
    ]
