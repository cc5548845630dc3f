-- ===== src/Ul/Prepare.antt =====
-- The first loop of `pf_ul` of gnb_patch/gNB_scheduler_ulsch.c, over all UEs: retransmissions, and
-- the coefficients of the UEs that may get a new transmission.
pub mod Rule
use user_ric.Prelude.{
  ℕ, suc, ◌+◌, ◌*◌, ◌/◌, Bool, true, false, not, ◌&&◌, ◌||◌, List, [], ◌∷◌, Option, none, some,
  if◌then◌else◌, ◌==◌, is_some, get_or,
}
use user_ric.Prelude.Int.{ℤ, pos, pos_part, neg_part, ◌-ℤ◌, eqb_ℤ}
use user_ric.Prelude.Float.{Float}
use user_ric.Prelude.Slots.{modify}
use user_ric.Slice.Assoc.{AssocEntry}
use user_ric.UeLa.{LaEntry, get_ul_max_mcs, get_ulsch_max_frame_inactivity}
use user_ric.Frame.{Fsn, fs_add_delta}
use user_ric.Activity.{UlActivity, nr_ue_is_to_be_scheduled}
use user_ric.Order.{UlSched, ul_final_coeff}
use user_ric.Harq.{NrList}
use user_ric.Harq.Grant.{UlUe}
use user_ric.Dl.{BeamAlloc}
use user_ric.Dl.Prepare.{total}
use user_ric.Ul.{PuschSched, UlPassUe, UlGnb, UlConfig, UlSlot, UlShared}
use user_ric.Ul.Retrans.{UlRetrans, allocate_ul_retransmission}

-- `UEsched_t` of gNB_scheduler_ulsch.c, with the index of the UE in place of the pointer
pub record UlEntry (fl : Float) : Type 0 where
  pub sched : UlSched fl
  pub selected_mcs : ℕ
  pub ue : ℕ

-- an entry outside of `ul_harq_processes`
abbrev pub no_pusch : PuschSched
no_pusch = record {
  ul_harq_pid = none;
  frame = 0;
  slot = 0;
  rb_start = 0;
  rb_size = 0;
  mcs = 0;
  qm = 0;
  r = 0;
  tb_size = 0;
  nr_of_layers = 0;
  time_domain_allocation = 0;
  tda_info = record { valid_tda = false; k2 = 0; start_symbol_index = 0; nr_of_symbols = 0 };
  dmrs_info = record { n_prb_dmrs = 0; num_dmrs_symb = 0 };
  bwp_start = 0;
  bwp_size = 0;
  phr_txpower_calc = pos 0;
}

module _ (fl : Float) (nr : NrList) (g : UlGnb) (cfg : UlConfig) (at : UlSlot) where
  -- `sched_frame` and `sched_slot`
  abbrev pub target : Fsn
  target =
      fs_add_delta cfg.numb_slots_frame g.max_frame_number (at.tda_info.k2 + g.get_ntn_koffset)
        (record { f = at.frame; s = at.slot })

  -- `reset_beam_status` for the slot of the control channel
  abbrev pub release_dci : BeamAlloc → UlPassUe fl nr → UlShared g → UlShared g
  release_dci dci ue st = record st {
    world = g.reset_beam_status st.world at.frame at.slot ue.ue_beam_index dci.new_beam;
  }

  -- and for the slot of the transmission
  abbrev pub release_pusch : BeamAlloc → UlPassUe fl nr → UlShared g → UlShared g
  release_pusch beam ue st = record st {
    world = g.reset_beam_status st.world target.f target.s ue.ue_beam_index beam.new_beam;
  }

  -- both, in the order in which the first loop calls them
  abbrev pub release_both : BeamAlloc → BeamAlloc → UlPassUe fl nr → UlShared g → UlShared g
  release_both dci beam ue st = release_dci dci ue (release_pusch beam ue st)

  -- `B`: the bytes that wait in the UE and are not scheduled yet
  unfoldable pub waiting_bytes : UlPassUe fl nr → ℕ
  waiting_bytes ue = pos_part (pos ue.estimated_ul_buffer -ℤ ue.ul.harq.sched_ul_bytes)

  -- the throughput, and the counters that start anew
  unfoldable pub begin_slot : UlPassUe fl nr → UlPassUe fl nr
  begin_slot ue =
      let a = fl.literal (pos 1) 2 in
      record ue {
        ul_thr_ue =
            fl.add (fl.mul (fl.sub (fl.of_nat 1) a) ue.ul_thr_ue)
              (fl.mul a (fl.of_nat ue.ul.current_bytes));
        ul = record ue.ul { current_bytes = 0; current_rbs = 0 };
      }

  -- what a retransmission on a beam begins with; the table of grants is lent to the UE
  unfoldable pub lend : ℕ → UlPassUe fl nr → UlShared g → UlRetrans nr g
  lend b ue st = record {
    world = st.world;
    rballoc_mask = get_or st.rballoc_mask b [];
    ue = record ue.ul { runtime = st.runtime };
    harq_pusch = ue.harq_pusch;
    ul_cce_fail = ue.ul_cce_fail;
    cce_index = ue.cce_index;
  }

  -- the UE and the shared state after it
  unfoldable pub settle_ue : UlPassUe fl nr → UlRetrans nr g → UlPassUe fl nr
  settle_ue ue r = record ue {
    ul = r.ue;
    harq_pusch = r.harq_pusch;
    ul_cce_fail = r.ul_cce_fail;
    cce_index = r.cce_index;
  }

  unfoldable pub settle : ℕ → UlShared g → UlRetrans nr g → UlShared g
  settle b st r = record st {
    world = r.world;
    rballoc_mask = modify st.rballoc_mask b (λ _. r.rballoc_mask);
    runtime = r.ue.runtime;
  }

  -- what follows `allocate_ul_retransmission`, with its result
  unfoldable pub count_again :
      ℕ
      → BeamAlloc
      → BeamAlloc
      → UlPassUe fl nr
      → UlShared g
      → Option (Bool × UlRetrans nr g)
      → Option (UlPassUe fl nr × UlShared g)
  unfolding settle_ue settle
  count_again b dci beam ue st none = none
  count_again b dci beam ue st (some (true, r)) =
      let st1 = settle b st r in
      some (
        settle_ue ue r,
        record st1 {
          remain_ues = modify st1.remain_ues b (λ n. n -ℤ pos 1);
          scheduled_something = true;
          resent = st1.resent + 1;
        },
      )
  count_again b dci beam ue st (some (false, r)) =
      some (settle_ue ue r, release_both dci beam ue (settle b st r))

  -- the branch for a UE with a block to send again
  unfoldable pub serve_again :
      ℕ
      → ℕ
      → BeamAlloc
      → ℕ
      → BeamAlloc
      → UlPassUe fl nr
      → UlShared g
      → Option (UlPassUe fl nr × UlShared g)
  unfolding allocate_ul_retransmission lend count_again
  serve_again pid db dci b beam ue st = count_again b dci beam ue st (
      allocate_ul_retransmission nr g cfg at.frame at.slot db ue.rnti ue.transform_precoding
        ue.ul_band at.tda at.tda_info pid (get_or ue.harq_pusch pid no_pusch) (lend b ue st))

  module _ (assoc : List AssocEntry) (tbl : List (LaEntry fl)) where
    -- the argument of `nr_UE_is_to_be_scheduled`; its test of the buffer is `waiting_bytes` again, also
    -- for a negative `sched_ul_bytes`
    abbrev pub activity_of : UlPassUe fl nr → UlActivity
    activity_of ue = record {
      estimated_ul_buffer = ue.estimated_ul_buffer + neg_part ue.ul.harq.sched_ul_bytes;
      sched_ul_bytes = pos_part ue.ul.harq.sched_ul_bytes;
      sr = ue.ul.sr;
      last_ul_frame = ue.ul.last_ul_frame;
      last_ul_slot = ue.ul.last_ul_slot;
    }

    -- `do_sched`
    unfoldable pub do_sched : UlPassUe fl nr → Bool
    unfolding nr_ue_is_to_be_scheduled
    do_sched ue =
        let frames =
          get_ulsch_max_frame_inactivity fl ue.rnti tbl (pos cfg.ulsch_max_frame_inactivity) in
        nr_ue_is_to_be_scheduled cfg.frame_structure (activity_of ue) target.f target.s
          (pos_part frames)

    -- the MCS of a new transmission
    unfoldable pub select_mcs : UlPassUe fl nr → UlShared g → ℕ × UlPassUe fl nr × UlShared g
    select_mcs ue st =
        let table = ue.ul_bwp.mcs_table in
        let max_mcs_table = if table == 0 || table == 2 then 28 else 27 in
        let max_mcs =
          pos_part (get_ul_max_mcs fl ue.rnti tbl (pos cfg.bler_max_mcs) (pos max_mcs_table)) in
        let (adapted, kept, w) =
          g.get_mcs_from_bler st.world ue.rnti ue.ul_bler_mcs max_mcs at.frame in
        if cfg.harq_round_max == 1
        then (max_mcs, record ue { ul_bler_mcs = max_mcs }, st)
        else (adapted, record ue { ul_bler_mcs = kept }, record st { world = w })

    -- an entry of `ul_pf_tbs`, as `nr_init_ulsch_preprocessor` fills the table
    unfoldable pub ul_pf_tbs : ℕ → ℕ → ℕ
    ul_pf_tbs table mcs =
        g.phy.nr_compute_tbs (g.phy.nr_get_qm_ul mcs table) (g.phy.nr_get_code_rate_ul mcs table) 1
          10 0 0 0 1
        / 8

    -- the entry of a UE for the second loop
    unfoldable pub weigh : ℕ → UlPassUe fl nr → UlShared g → UlSched fl
    unfolding waiting_bytes ul_final_coeff ul_pf_tbs
    weigh mcs ue st =
        let tbs = ul_pf_tbs ue.ul_bwp.mcs_table mcs in
        let coeff_ue = fl.div (fl.of_nat tbs) ue.ul_thr_ue in
        let now = pos (target.f * cfg.numb_slots_frame + target.s) in
        record {
          coef = ul_final_coeff fl ue.rnti now assoc st.runtime tbl coeff_ue (waiting_bytes ue);
          sched_inactive = waiting_bytes ue == 0 && do_sched ue;
        }

    -- the branch for a UE with no block to send again
    unfoldable pub consider :
        BeamAlloc
        → BeamAlloc
        → UlPassUe fl nr
        → UlShared g
        → Option (UlSched fl × ℕ) × UlPassUe fl nr × UlShared g
    unfolding waiting_bytes do_sched select_mcs weigh
    consider dci beam ue st =
        let (mcs, ue1, st1) = select_mcs ue st in
        let idle = (waiting_bytes ue == 0 && not (do_sched ue)) || ue.transm_interrupt in
        if not (is_some (nr.head ue.ul.harq.available_ul_harq)) || idle
        then (none, ue, release_both dci beam ue st)
        else (some (weigh mcs ue1 st1, mcs), ue1, st1)

    -- no entry for the second loop
    abbrev pub no_entry :
        Option (UlPassUe fl nr × UlShared g)
        → Option (Option (UlSched fl × ℕ) × UlPassUe fl nr × UlShared g)
    no_entry none = none
    no_entry (some (ue, st)) = some (none, ue, st)

    -- from the test of the retransmissions on
    unfoldable pub new_or_again :
        ℕ
        → BeamAlloc
        → ℕ
        → BeamAlloc
        → UlPassUe fl nr
        → UlShared g
        → Option ℕ
        → Option (Option (UlSched fl × ℕ) × UlPassUe fl nr × UlShared g)
    unfolding serve_again consider
    new_or_again db dci b beam ue st none = some (consider dci beam ue st)
    new_or_again db dci b beam ue st (some pid) = no_entry (serve_again pid db dci b beam ue st)

    -- from the test of the beam for the transmission on
    unfoldable pub with_beam :
        ℕ
        → BeamAlloc
        → BeamAlloc
        → UlPassUe fl nr
        → UlShared g
        → Option ℕ
        → Option (Option (UlSched fl × ℕ) × UlPassUe fl nr × UlShared g)
    unfolding new_or_again
    with_beam db dci beam ue st none = some (none, ue, release_dci dci ue st)
    with_beam db dci beam ue st (some b) =
        new_or_again db dci b beam ue st (nr.head ue.ul.harq.retrans_ul_harq)

    -- from the test of the beam for the control channel on
    unfoldable pub with_dci_beam :
        BeamAlloc
        → UlPassUe fl nr
        → UlShared g
        → Option ℕ
        → Option (Option (UlSched fl × ℕ) × UlPassUe fl nr × UlShared g)
    unfolding with_beam
    with_dci_beam dci ue st none = some (none, ue, st)
    with_dci_beam dci ue st (some db) =
        let (beam, w) = g.beam_allocation_procedure st.world target.f target.s ue.ue_beam_index in
        with_beam db dci beam ue (record st { world = w }) beam.idx

    -- the body of the loop; `none` is a failed assertion
    unfoldable pub prepare :
        UlPassUe fl nr → UlShared g → Option (Option (UlSched fl × ℕ) × UlPassUe fl nr × UlShared g)
    unfolding begin_slot total with_dci_beam
    prepare ue st =
        let ue1 = begin_slot ue in
        let (dci, w) = g.beam_allocation_procedure st.world at.frame at.slot ue.ue_beam_index in
        if ue.ul_failure
        then some (none, ue, st)
        else if eqb_ℤ (total st.remain_ues) (pos 0)
        then some (none, ue1, st)
        else with_dci_beam dci ue1 (record st { world = w }) dci.idx

    abbrev pub enter : Option (UlSched fl × ℕ) → ℕ → List (UlEntry fl) → List (UlEntry fl)
    enter none i cs = cs
    enter (some (sched, mcs)) i cs = record { sched = sched; selected_mcs = mcs; ue = i } ∷ cs

    -- a UE in front of the others
    abbrev pub add_prepared :
        Option (UlSched fl × ℕ)
        → ℕ
        → UlPassUe fl nr
        → Option (List (UlEntry fl) × List (UlPassUe fl nr) × UlShared g)
        → Option (List (UlEntry fl) × List (UlPassUe fl nr) × UlShared g)
    add_prepared entry i ue none = none
    add_prepared entry i ue (some (cs, ues, st)) = some (enter entry i cs, ue ∷ ues, st)

    -- the loop, from index `i` on: the entries of `UE_sched`
    unfoldable pub prepare_all :
        ℕ
        → List (UlPassUe fl nr)
        → UlShared g
        → Option (List (UlEntry fl) × List (UlPassUe fl nr) × UlShared g)
    unfolding prepare
    prepare_all i [] st = some ([], [], st)
    prepare_all i (ue ∷ ues) st = elim (prepare ue st) [
      | none ↦ none
      | some (entry, ue1, st1) ↦ add_prepared entry i ue1 (prepare_all (suc i) ues st1)
    ]
