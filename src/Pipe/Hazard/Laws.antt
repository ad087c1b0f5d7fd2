-- ===== src/Pipe/Hazard/Laws.antt =====
-- Which registers the hazard logic holds, squashes and loads.
use se_lab_public.Mem.Status.{in_flight, ready, MemStatus}
use se_lab_public.Pipe.Hazard.{
  Controls, set_ctl, pipe_control_stage, check_ret_hazard, check_br_hazard, check_cb_hazard,
  control_stages, Inputs, load_use, mispred, stops_fetch,
}
use se_lab_public.Prelude.{refl, arith, ◌≡◌, Bool, true, false, not, ◌&&◌, ◌||◌, ◌==◌}
use se_lab_public.Pipe.Regs.{PipeCtl, p_load, p_error, p_bubble, p_stall}

abbrev pub errs : PipeCtl → Bool
errs p_error = true
errs ctl = false

abbrev pub stalls : PipeCtl → Bool
stalls p_stall = true
stalls ctl = false

abbrev pub loads : PipeCtl → Bool
loads p_load = true
loads ctl = false

abbrev pub implies : Bool → Bool → Bool
implies a b = not a || b

abbrev pub no_error : Controls → Bool
no_error c = not (errs c.f || errs c.d || errs c.x || errs c.m || errs c.w)

-- Controls that fit together from the decode register on: none is in error, a register after one that
-- stalls does not load, and one before one that stalls stalls too.
unfoldable pub coherent : Controls → Bool
coherent c =
    no_error c
    && implies (stalls c.d) (stalls c.f && not (loads c.x))
    && implies (stalls c.x) (stalls c.d && not (loads c.m))
    && implies (stalls c.m) (stalls c.x && not (loads c.w))
    && not (stalls c.w)

abbrev pub bubbles : PipeCtl → Bool
bubbles p_bubble = true
bubbles ctl = false

-- Controls that answer the hazards once the memory has answered. A load that is used holds the two
-- stages behind it; a jump that waits for its target holds the fetch and squashes what was fetched, a
-- branch that is not taken squashes what was fetched behind it, and a mispredicted one the two
-- instructions behind it. The fetch register stalls ahead of a decode register that loads only where
-- the fetch stage has come to a HLT or a wrong instruction. Nothing else holds or squashes an
-- instruction:
-- the decode register only has a bubble where the fetch register stalls, or after a branch or the last
-- RET, and the execute register where the decode register stalls, or after a mispredicted branch.
unfoldable pub answer_bits : Bool → Bool → Bool → Bool → Bool → Bool → Bool → Controls → Bool
answer_bits stopped is_ret at_zero is_br load cb mis c =
    let last = is_ret && at_zero in
    let waiting = (is_ret || is_br) && not last && not load in
    let not_taken = cb && not load in
    implies load (stalls c.f && stalls c.d && bubbles c.x)
    && implies waiting (stalls c.f && bubbles c.d)
    && implies not_taken (bubbles c.d)
    && implies mis (bubbles c.d && bubbles c.x)
    && implies last (bubbles c.d)
    && implies (stalls c.f && loads c.d) stopped
    && implies stopped (stalls c.f)
    && implies (bubbles c.f) last
    && implies (stalls c.f) (stopped || load || waiting)
    && implies (stalls c.d) load
    && implies (bubbles c.d) (stalls c.f || mis || last || not_taken)
    && implies (bubbles c.x) (stalls c.d || mis)
    && loads c.m
    && loads c.w

unfoldable pub answers : Inputs → Controls → Bool
unfolding answer_bits
answers i c =
    answer_bits (stops_fetch i.f_status) (check_ret_hazard i.d_opcode) (i.d_val_a == 0)
      (check_br_hazard i.d_opcode) (load_use i) (check_cb_hazard i.d_opcode i.d_val_a) (mispred i) c

-- Controls that hold all instructions ahead of the writeback register, while the memory is busy.
unfoldable pub holds_all : Controls → Bool
holds_all c = stalls c.f && stalls c.d && stalls c.x && stalls c.m && bubbles c.w

abbrev pub handles : MemStatus → Inputs → Controls → Bool
handles ready i c = answers i c
handles in_flight i c = holds_all c

-- What `pipe_control_stage` makes of a register that is not in error.
abbrev pub ctl_of : Bool → Bool → PipeCtl
ctl_of true true = p_error
ctl_of true false = p_bubble
ctl_of false true = p_stall
ctl_of false false = p_load

pub set_ctl_lem : (b s : Bool) (ctl : PipeCtl) → errs ctl ≡ false → set_ctl b s ctl ≡ ctl_of b s
unfolding set_ctl
set_ctl_lem true true ctl h = refl
set_ctl_lem true false p_load h = refl
set_ctl_lem true false p_bubble h = refl
set_ctl_lem true false p_stall h = refl
set_ctl_lem true false p_error h = absurd (grind (arith, h))
set_ctl_lem false true p_load h = refl
set_ctl_lem false true p_bubble h = refl
set_ctl_lem false true p_stall h = refl
set_ctl_lem false true p_error h = absurd (grind (arith, h))
set_ctl_lem false false p_load h = refl
set_ctl_lem false false p_bubble h = refl
set_ctl_lem false false p_stall h = refl
set_ctl_lem false false p_error h = absurd (grind (arith, h))

module _ (c : Controls) (h : no_error c ≡ true) (fb fs db ds xb xs ms wb : Bool) where
  -- The controls that the five calls set, where no register was in error before.
  pub control_stages_lem : control_stages fb fs db ds xb xs ms wb c ≡ record {
    f = ctl_of fb fs;
    d = ctl_of db ds;
    x = ctl_of xb xs;
    m = ctl_of false ms;
    w = ctl_of wb false;
  }
  unfolding pipe_control_stage
  control_stages_lem = rw (
    set_ctl_lem fb fs c.f (ground (arith, h)),
    set_ctl_lem db ds c.d (ground (arith, h)),
    set_ctl_lem xb xs c.x (ground (arith, h)),
    set_ctl_lem false ms c.m (ground (arith, h)),
    set_ctl_lem wb false c.w (ground (arith, h)),
  )

abbrev pub is_in_flight : MemStatus → Bool
is_in_flight in_flight = true
is_in_flight ready = false
