-- ===== src/Pipe/Forward.antt =====
-- `forward_reg` of src/pipe/forward.c. The flag `pipe` says whether the build has PIPE.
pub mod Laws
use se_lab_public.Prelude.{ℕ, Bool, true, false, not, ◌==◌, ◌&&◌, if◌then◌else◌}
use se_lab_public.Pipe.Regs.{xzr_num}

-- What a later stage offers: `dst`, its value, and its write enable.
pub record Source : Type 0 where
  pub dst : ℕ
  pub value : ℕ
  pub w_enable : Bool

-- The test of each branch.
abbrev pub offers : Source → ℕ → Bool
offers s src = s.w_enable && s.dst == src && not (src == xzr_num)

-- The chain of tests for one operand.
unfoldable pub forward_one : ℕ → Source → Source → Source → ℕ → ℕ
forward_one src x m w val =
    if offers x src
    then x.value
    else if offers m src
    then m.value
    else if offers w src
    then w.value
    else val

unfoldable pub forward_reg :
    Bool
    → (D_src1 D_src2 X_dst M_dst W_dst X_val_ex M_val_ex M_val_mem W_val_ex W_val_mem : ℕ)
    → (M_wval_sel W_wval_sel X_w_enable M_w_enable W_w_enable : Bool) → (val_a val_b : ℕ) → ℕ × ℕ
forward_reg false d_src1 d_src2 x_dst m_dst w_dst x_val_ex m_val_ex m_val_mem w_val_ex w_val_mem
      m_wval_sel w_wval_sel x_w_enable m_w_enable w_w_enable val_a val_b =
    (val_a, val_b)
forward_reg true d_src1 d_src2 x_dst m_dst w_dst x_val_ex m_val_ex m_val_mem w_val_ex w_val_mem
      m_wval_sel w_wval_sel x_w_enable m_w_enable w_w_enable val_a val_b =
    let x : Source = record { dst = x_dst; value = x_val_ex; w_enable = x_w_enable } in
    let m : Source = record {
      dst = m_dst;
      value = if m_wval_sel then m_val_mem else m_val_ex;
      w_enable = m_w_enable;
    } in
    let w : Source = record {
      dst = w_dst;
      value = if w_wval_sel then w_val_mem else w_val_ex;
      w_enable = w_w_enable;
    } in
    (forward_one d_src1 x m w val_a, forward_one d_src2 x m w val_b)
