-- ===== src/Pipe/Forward/Laws.antt =====
-- Forwarding gives the values that the registers will have once the older instructions are done.
use se_lab_public.Prelude.{
  refl, ℕ, ◌≤◌, ◌≡◌, ◌∙◌, arith, if◌then◌else◌, Option, some, length, ◌>>=◌, Bool, true,
}
use se_lab_public.Hw.Regfile.{Proc, read_reg, regfile_write, regfile_write-IsWritten, regfile_read}
use se_lab_public.Pipe.Forward.{Source, offers, forward_one, forward_reg}

-- The register file after an instruction that is still in the pipeline has been written back.
abbrev pub write_source : Source → Proc → Option Proc
write_source s p = regfile_write p s.dst s.value s.w_enable

-- One write, seen by a read.
write_source_lem :
    (s : Source) (p : Proc)
    → length p.gpr ≡ 31
    → s.dst ≤ 32
    → (p' : Proc) × (write_source s p ≡ some p')
      × (length p'.gpr ≡ 31)
      × ((src : ℕ) → read_reg p' src ≡ (if offers s src then some s.value else read_reg p src))
write_source_lem s p size h =
    let done = regfile_write-IsWritten p s.dst s.value s.w_enable size h in
    (done.0, done.1, done.2.size, λ src. done.2.reads src ∙ ground arith)

module _ (p : Proc) (x m w : Source) (size : length p.gpr ≡ 31) (hx : x.dst ≤ 32) (hm : m.dst ≤ 32)
    (hw : w.dst ≤ 32) where
  -- The register file once the three older instructions have been written back, the oldest first.
  pub three_writes :
      (p' : Proc) × ((write_source w p >>= write_source m >>= write_source x) ≡ some p')
      × ((src val : ℕ)
          → read_reg p src ≡ some val
          → read_reg p' src ≡ some (forward_one src x m w val))
  unfolding forward_one
  three_writes =
      let a = write_source_lem w p size hw in
      let b = write_source_lem m a.0 a.2 hm in
      let c = write_source_lem x b.0 b.2 hx in
      (c.0, rw (a.1, b.1) (c.1), λ src val e. ground (arith, c.3 src, b.3 src, a.3 src, e))

regfile_read-parts :
    (p : Proc) (src1 src2 a b : ℕ)
    → regfile_read p src1 src2 ≡ some (a, b)
    → (read_reg p src1 ≡ some a) × (read_reg p src2 ≡ some b)
unfolding regfile_read
regfile_read-parts p src1 src2 a b h = ground (arith, h)

-- With forwarding, the decode stage gets from a register file that the three older instructions
-- have still to write what a plain read would give after their writes, the oldest first. The file
-- has 31 general registers, the destinations are at most 32, and each of the two instructions
-- behind the execute stage writes what it read from memory or what it computed, as its `wval_sel`
-- says.
pub forward_reg-regfile_read :
    (p : Proc) (src1 src2 a b x_dst m_dst w_dst x_val_ex m_val_ex m_val_mem w_val_ex w_val_mem : ℕ)
    (m_wval_sel w_wval_sel x_w_enable m_w_enable w_w_enable : Bool)
    → length p.gpr ≡ 31
    → x_dst ≤ 32
    → m_dst ≤ 32
    → w_dst ≤ 32
    → regfile_read p src1 src2 ≡ some (a, b)
    → (p' : Proc) × ((regfile_write p w_dst (if w_wval_sel then w_val_mem else w_val_ex) w_w_enable
          >>= (λ q. regfile_write q m_dst (if m_wval_sel then m_val_mem else m_val_ex) m_w_enable)
          >>= (λ q. regfile_write q x_dst x_val_ex x_w_enable))
        ≡ some p')
      × (regfile_read p' src1 src2
          ≡ some (
              forward_reg true src1 src2 x_dst m_dst w_dst x_val_ex m_val_ex m_val_mem w_val_ex
                w_val_mem m_wval_sel w_wval_sel x_w_enable m_w_enable w_w_enable a b))
unfolding regfile_read forward_reg
forward_reg-regfile_read p src1 src2 a b x_dst m_dst w_dst x_val_ex m_val_ex m_val_mem w_val_ex
      w_val_mem m_wval_sel w_wval_sel x_w_enable m_w_enable w_w_enable size hx hm hw h =
    let x : Source = record { dst = x_dst; value = x_val_ex; w_enable = x_w_enable } in
    let m : Source = record {
      dst = m_dst;
      value = if m_wval_sel then m_val_mem else m_val_ex;
      w_enable = m_w_enable;
    } in
    let w : Source = record {
      dst = w_dst;
      value = if w_wval_sel then w_val_mem else w_val_ex;
      w_enable = w_w_enable;
    } in
    let done = three_writes p x m w size hx hm hw in
    let vals = regfile_read-parts p src1 src2 a b h in
    (done.0, done.1, rw (done.2 src1 a vals.0, done.2 src2 b vals.1) refl)
