-- ===== src/Pipe/Hazard/Waits.antt =====
-- What the registers are told while the memory is busy, and once it has answered.
use se_lab_public.Prelude.{◌≡◌, refl, arith, true, false, ◌||◌}
use se_lab_public.Mem.Status.{ready, in_flight}
use se_lab_public.Pipe.Regs.{p_load, p_stall, p_bubble}
use se_lab_public.Pipe.Hazard.{
  Inputs, HazardState, handle_hazards, handle_ready, handle_in_flight, is_exception,
  pipe_control_stage,
}
use se_lab_public.Pipe.Hazard.Laws.{no_error, control_stages_lem, set_ctl_lem}

module _ (i : Inputs) (h : HazardState) (fresh : no_error h.controls ≡ true) where
  pub handle_hazards-in_flight :
      i.dmem_status ≡ in_flight
      → handle_hazards true i h ≡ record {
        controls = record { f = p_stall; d = p_stall; x = p_stall; m = p_stall; w = p_bubble };
        deassert_flags = true;
        f_pc = h.f_pc;
      }
  unfolding handle_hazards handle_in_flight
  handle_hazards-in_flight e =
      rw (e, control_stages_lem h.controls fresh false true false true false true true true) refl

  pub handle_hazards-ready :
      i.dmem_status ≡ ready
      → ((handle_hazards true i h).controls.w ≡ p_load)
        × ((handle_hazards true i h).deassert_flags
            ≡ (is_exception i.w_in_status || is_exception i.m_out_status))
  unfolding handle_hazards handle_ready pipe_control_stage
  handle_hazards-ready e = rw e (set_ctl_lem false false h.controls.w (ground (arith, fresh)), refl)
