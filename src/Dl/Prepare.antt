-- ===== src/Dl/Prepare.antt =====
-- The first loop of `pf_dl` of gnb_patch/gNB_scheduler_dlsch.c, over all UEs: retransmissions, and
-- the coefficients of the UEs that may get a new transmission.
pub mod Rule
use user_ric.Prelude.{
  ℕ, suc, ◌+◌, ◌*◌, Bool, true, false, ◌/◌, ◌%◌, not, ◌&&◌, List, [], ◌∷◌, Option, none, some,
  if◌then◌else◌, ◌==◌, is_some, min,
}
use user_ric.Prelude.Int.{ℤ, pos, pos_part, ◌+ℤ◌, ◌-ℤ◌, ltb_ℤ, eqb_ℤ}
use user_ric.Prelude.Float.{Float}
use user_ric.Prelude.Slots.{modify}
use user_ric.Slice.Assoc.{AssocEntry}
use user_ric.Slice.Runtime.{RuntimeEntry}
use user_ric.UeDl.{DlEntry, get_max_mcs}
use user_ric.Order.{dl_final_coeff}
use user_ric.Dl.{DlUe, Gnb, DlConfig, Shared}
use user_ric.Dl.Retrans.{allocate_dl_retransmission}

-- `UEsched_t` of gNB_scheduler_dlsch.c, with the index of the UE in place of the pointer
pub record DlSched (fl : Float) : Type 0 where
  pub coef : fl.F
  pub ue : ℕ

-- `total_rem_ues`
unfoldable pub total : List ℤ → ℤ
total [] = pos 0
total (n ∷ ns) = n +ℤ total ns

-- `min(a, b)` for an `a` and a `b` that are not negative
abbrev pub least : ℕ → ℤ → ℕ
least a b = if ltb_ℤ b (pos a) then pos_part b else a

module _ (fl : Float) (g : Gnb) (cfg : DlConfig) (frame slot : ℕ) where
  -- `(1 - a) * UE->dl_thr_ue + a * b`
  unfoldable pub throughput : fl.F → ℕ → fl.F
  throughput thr b =
      let a = fl.literal (pos 1) 2 in
      fl.add (fl.mul (fl.sub (fl.of_nat 1) a) thr) (fl.mul a (fl.of_nat b))

  -- `reset_beam_status`
  abbrev pub release : Bool → DlUe fl → Shared g → Shared g
  release new_beam ue st = record st {
    world = g.reset_beam_status st.world frame slot ue.ue_beam_index new_beam;
  }

  -- what follows `allocate_dl_retransmission`, with its result
  unfoldable pub count_again : ℕ → Bool → Bool × DlUe fl × Shared g → DlUe fl × Shared g
  count_again b new_beam (true, ue, st) = (
    ue,
    record st { remain_ues = modify st.remain_ues b (λ n. n -ℤ pos 1); resent = st.resent + 1 },
  )
  count_again b new_beam (false, ue, st) = (ue, release new_beam ue st)

  -- from the test of the beam on
  unfoldable pub with_beam : ℕ → Bool → DlUe fl → Shared g → Option ℕ → DlUe fl × Shared g
  unfolding allocate_dl_retransmission count_again
  with_beam pid new_beam ue st none = (ue, release new_beam ue st)
  with_beam pid new_beam ue st (some b) =
      count_again b new_beam (allocate_dl_retransmission fl g cfg frame slot b pid ue st)

  -- the branch for a UE with a block to send again
  unfoldable pub serve_again : ℕ → DlUe fl → Shared g → DlUe fl × Shared g
  unfolding with_beam
  serve_again pid ue st =
      let (beam, w) = g.beam_allocation_procedure st.world frame slot ue.ue_beam_index in
      with_beam pid beam.new_beam ue (record st { world = w }) beam.idx

  module _ (assoc : List AssocEntry) (runtime : List RuntimeEntry) (tbl : List (DlEntry fl)) where
    -- the MCS of a new transmission
    unfoldable pub select_mcs : DlUe fl → Shared g → DlUe fl × Shared g
    select_mcs ue st =
        let table_end = if ue.dl_bwp.mcs_table_idx == 1 then 27 else 28 in
        let max_mcs = least ue.dl_max_mcs (get_max_mcs fl ue.rnti tbl (pos table_end)) in
        let fixed = min cfg.bler_max_mcs max_mcs in
        let (adapted, w) = g.get_mcs_from_bler st.world ue.rnti max_mcs frame in
        if cfg.harq_round_max == 1
        then (
          record ue { sched_pdsch = record ue.sched_pdsch { mcs = fixed }; dl_bler_mcs = fixed },
          st,
        )
        else (
          record ue { sched_pdsch = record ue.sched_pdsch { mcs = adapted } },
          record st { world = w },
        )

    -- the number of layers and the coefficient of a new transmission
    unfoldable pub weigh : DlUe fl → Shared g → fl.F × DlUe fl
    unfolding dl_final_coeff
    weigh ue st =
        let layers = g.get_dl_nr_of_layers st.world ue.rnti in
        let table = ue.dl_bwp.mcs_table_idx in
        let mcs = ue.sched_pdsch.mcs in
        let tbs =
          g.nr_compute_tbs (g.nr_get_qm_dl mcs table) (g.nr_get_code_rate_dl mcs table) 1 10 0 0 0
            layers
          / 8 in
        let coeff_ue = fl.div (fl.of_nat tbs) ue.dl_thr_ue in
        let now = pos (frame * cfg.numb_slots_frame + slot) in
        (
          dl_final_coeff fl ue.rnti now assoc runtime tbl coeff_ue ue.num_total_bytes,
          record ue {
            sched_pdsch = record ue.sched_pdsch {
              nr_of_layers = layers;
              pm_index = g.get_pm_index st.world ue.rnti layers;
            };
          },
        )

    -- the branch for a UE with no block to send again: its coefficient, if it is to be served
    unfoldable pub consider : DlUe fl → Shared g → Option fl.F × DlUe fl × Shared g
    unfolding select_mcs weigh
    consider ue st =
        let (ue1, st1) = select_mcs ue st in
        let (coef, ue2) = weigh ue1 st1 in
        if not (is_some ue.available_dl_harq)
        then (none, ue, st)
        else if ue.num_total_bytes == 0 && not (frame == (ue.ta_frame + 100) % 1024)
        then (none, ue, st)
        else (some coef, ue2, st1)

    -- from the test of the retransmissions on
    unfoldable pub prepare_new_or_again :
        DlUe fl → Shared g → Option ℕ → Option fl.F × DlUe fl × Shared g
    unfolding serve_again consider
    prepare_new_or_again ue st none = consider ue st
    prepare_new_or_again ue st (some pid) =
        let (ue1, st1) = serve_again pid ue st in (none, ue1, st1)

    -- the body of the loop
    unfoldable pub prepare : DlUe fl → Shared g → Option fl.F × DlUe fl × Shared g
    unfolding throughput prepare_new_or_again total
    prepare ue st =
        let ue1 = record ue {
          dl_thr_ue = throughput ue.dl_thr_ue ue.current_bytes;
          sched_pdsch = record ue.sched_pdsch { dl_harq_pid = ue.retrans_dl_harq };
        } in
        if ue.ul_failure
        then (none, ue, st)
        else if eqb_ℤ (total st.remain_ues) (pos 0)
        then (none, ue1, st)
        else prepare_new_or_again ue1 st ue.retrans_dl_harq

    abbrev pub enter : Option fl.F → ℕ → List (DlSched fl) → List (DlSched fl)
    enter none i cs = cs
    enter (some c) i cs = record { coef = c; ue = i } ∷ cs

    -- the loop, from index `i` on: the entries of `UE_sched`
    unfoldable pub prepare_all :
        ℕ → List (DlUe fl) → Shared g → List (DlSched fl) × List (DlUe fl) × Shared g
    unfolding prepare
    prepare_all i [] st = ([], [], st)
    prepare_all i (ue ∷ ues) st =
        let (coef, ue1, st1) = prepare ue st in
        let (cs, ues1, st2) = prepare_all (suc i) ues st1 in (enter coef i cs, ue1 ∷ ues1, st2)
