-- ===== src/Ul/Serve.antt =====
-- The second loop of `pf_ul` of gnb_patch/gNB_scheduler_ulsch.c, over the UEs that may get a new
-- transmission, in the order of their coefficients.
pub mod Rule
pub mod Safe
use user_ric.Prelude.{
  ℕ, ◌+◌, ◌*◌, ◌/◌, Bool, true, false, not, ◌&&◌, ◌||◌, List, [], ◌∷◌, Option, none, some,
  if◌then◌else◌, ◌==◌, ltb, get_or, get_elem?, min,
}
use user_ric.Prelude.Int.{ℤ, pos, pos_part, ◌+ℤ◌, ◌-ℤ◌, ltb_ℤ, eqb_ℤ, to_u16}
use user_ric.Prelude.Float.{Float}
use user_ric.Prelude.Slots.{modify}
use user_ric.Slice.Assoc.{AssocEntry, get_ul_id}
use user_ric.Slice.Policy.{policy_get}
use user_ric.UeLa.{LaEntry, get_min_grant_prb}
use user_ric.Blocks.{ul_free_range, ul_slice_blocks, mark_grant}
use user_ric.Harq.{NrList}
use user_ric.Harq.Grant.{UlUe, post_process_ulsch}
use user_ric.Power.{nr_ue_max_mcs_min_rb, update_ul_ue_r_qm, delta_mcs_of}
use user_ric.Power.Factor.{get_pusch_bwp_start_size}
use user_ric.Dl.{BeamAlloc}
use user_ric.Ul.{PuschSched, UlPassUe, UlGnb, UlConfig, UlSlot, UlShared}
use user_ric.Ul.Post.{grant_of, keep_pusch}
use user_ric.Ul.Prepare.{UlEntry, target, release_dci, release_pusch, waiting_bytes}

module _ (fl : Float) (nr : NrList) (g : UlGnb) (cfg : UlConfig) (at : UlSlot)
    (assoc : List AssocEntry) (tbl : List (LaEntry fl)) where
  -- `eff_min_rb`
  unfoldable pub min_rb : UlPassUe fl nr → ℤ
  min_rb ue = get_min_grant_prb fl ue.rnti tbl (pos cfg.min_grant_prb)

  -- `slbitmap`
  abbrev pub symbols : ℕ
  symbols = g.sl_to_bitmap at.tda_info.start_symbol_index at.tda_info.nr_of_symbols

  -- `max_rbSize`
  unfoldable pub most_blocks : Bool → UlPassUe fl nr → ℕ
  unfolding min_rb get_pusch_bwp_start_size
  most_blocks inactive ue =
      if inactive then to_u16 (min_rb ue) else (get_pusch_bwp_start_size ue.ul_band).1

  -- `rbStart` and `available_rb`
  unfoldable pub range_for : ℕ → Bool → UlPassUe fl nr → UlShared g → ℕ × ℕ
  unfolding ul_free_range most_blocks get_pusch_bwp_start_size
  range_for b inactive ue st =
      let bi = get_pusch_bwp_start_size ue.ul_band in
      ul_free_range (get_or st.rballoc_mask b []) symbols bi.0 bi.1 (most_blocks inactive ue)

  -- `sched`, as it is declared
  unfoldable pub declared : ℕ → ℕ → UlPassUe fl nr → UlShared g → PuschSched
  unfolding get_pusch_bwp_start_size
  declared rb_start mcs ue st =
      let layers = g.get_ul_nr_of_layers st.world ue.rnti in
      let bi = get_pusch_bwp_start_size ue.ul_band in
      let at_target = target fl nr g cfg at in
      record {
        ul_harq_pid = none;
        frame = at_target.f;
        slot = at_target.s;
        rb_start = rb_start;
        rb_size = 0;
        mcs = mcs;
        qm = 0;
        r = 0;
        tb_size = 0;
        nr_of_layers = layers;
        time_domain_allocation = at.tda;
        tda_info = at.tda_info;
        dmrs_info = g.get_ul_dmrs_params ue.rnti at.tda_info layers;
        bwp_start = bi.0;
        bwp_size = bi.1;
        phr_txpower_calc = pos 0;
      }

  -- `available_rb` and the MCS that fit the power of the UE; `none` is a failed assertion
  unfoldable pub fit_power : PuschSched → ℕ → UlPassUe fl nr → Option (ℕ × ℕ)
  unfolding min_rb waiting_bytes nr_ue_max_mcs_min_rb
  fit_power s available ue =
      if (not (eqb_ℤ ue.pcmax (pos 0)) || not (eqb_ℤ ue.ph (pos 0)))
        && ltb 0 (waiting_bytes fl nr g cfg at ue)
      then nr_ue_max_mcs_min_rb g.phy ue.scs ue.ph
          (record {
            nr_of_symbols = s.tda_info.nr_of_symbols;
            n_prb_dmrs = s.dmrs_info.n_prb_dmrs;
            num_dmrs_symb = s.dmrs_info.num_dmrs_symb;
            nr_of_layers = s.nr_of_layers;
          })
          ue.ul_bwp (pos_part (min_rb ue)) available s.mcs
      else some (available, s.mcs)

  -- the number of the DMRS symbols of a block
  abbrev pub dmrs_of : PuschSched → ℕ
  dmrs_of s = s.dmrs_info.n_prb_dmrs * s.dmrs_info.num_dmrs_symb

  -- `rbSize`, before the policy of the slice
  unfoldable pub wanted_size : Bool → PuschSched → ℕ → UlPassUe fl nr → ℕ
  unfolding min_rb waiting_bytes
  wanted_size inactive s available ue =
      let found =
        g.nr_find_nb_rb s.qm s.r ue.transform_precoding s.nr_of_layers s.tda_info.nr_of_symbols
          (dmrs_of s) (waiting_bytes fl nr g cfg at ue) (pos_part (min_rb ue)) available in
      if inactive then pos_part (min_rb ue) else found.2

  -- the number of blocks of the grant
  unfoldable pub grant_size : Bool → PuschSched → ℕ → UlPassUe fl nr → ℕ
  unfolding wanted_size ul_slice_blocks
  grant_size inactive s available ue =
      ul_slice_blocks (policy_get fl (get_ul_id ue.rnti assoc)) available
        (wanted_size inactive s available ue)

  -- the allocation, with the MCS and the blocks that are left to it
  unfoldable pub complete : Bool → PuschSched → ℕ × ℕ → UlPassUe fl nr → PuschSched
  unfolding grant_size update_ul_ue_r_qm
  complete inactive s (available, mcs) ue =
      let (r, qm) = update_ul_ue_r_qm g.phy mcs ue.ul_bwp.mcs_table ue.ul_bwp.pusch_config in
      let s1 = record s { mcs = mcs; r = r; qm = qm } in
      let size = grant_size inactive s1 available ue in
      let bytes =
        g.phy.nr_compute_tbs qm r size s.tda_info.nr_of_symbols (dmrs_of s) 0 0 s.nr_of_layers
        / 8 in
      record s1 {
        rb_size = size;
        tb_size = bytes;
        phr_txpower_calc =
            g.phy.compute_ph_factor ue.scs (bytes * 8) size s.nr_of_layers s.tda_info.nr_of_symbols
              (dmrs_of s) (delta_mcs_of ue.ul_bwp.pusch_config) false;
      }

  -- the blocks and the limits of the beam after a grant
  unfoldable pub take_blocks : ℕ → PuschSched → UlShared g → UlShared g
  unfolding mark_grant
  take_blocks b s st = record st {
    n_rb_sched = modify st.n_rb_sched b (λ n. n -ℤ pos s.rb_size);
    rballoc_mask =
        modify st.rballoc_mask b (λ m. mark_grant m symbols s.bwp_start s.rb_start s.rb_size);
    remain_ues = modify st.remain_ues b (λ n. n -ℤ pos 1);
    scheduled_something = true;
    allocations =
        record {
          beam = b;
          slbitmap = symbols;
          first_rb = s.bwp_start + s.rb_start;
          rb_count = s.rb_size;
        }
        ∷ st.allocations;
  }

  -- after `post_process_ulsch`, with its result
  unfoldable pub posted :
      ℕ
      → PuschSched
      → UlPassUe fl nr
      → UlShared g
      → Option (UlUe nr)
      → Option (UlPassUe fl nr × UlShared g)
  unfolding keep_pusch take_blocks
  posted b s ue st none = none
  posted b s ue st (some ul) = some (
    record ue { ul = ul; harq_pusch = keep_pusch nr cfg.disable_harq s ue.ul.harq ue.harq_pusch },
    take_blocks b s (record st { runtime = ul.runtime }),
  )

  -- from `fill_pdcch_vrb_map` on
  unfoldable pub make_grant :
      ℕ → ℕ → ℕ → PuschSched → UlPassUe fl nr → UlShared g → Option (UlPassUe fl nr × UlShared g)
  unfolding posted post_process_ulsch
  make_grant b db cce s ue st =
      posted b s (record ue { cce_index = some cce })
        (record st { world = g.fill_pdcch_vrb_map st.world ue.rnti cce db })
        (post_process_ulsch nr cfg.disable_harq cfg.harq_round_max cfg.numb_slots_frame ue.rnti
          (grant_of s) (record ue.ul { runtime = st.runtime }))

  -- from the fit of the power on, with its result
  unfoldable pub with_power :
      ℕ
      → ℕ
      → ℕ
      → Bool
      → PuschSched
      → UlPassUe fl nr
      → UlShared g
      → Option (ℕ × ℕ)
      → Option (UlPassUe fl nr × UlShared g)
  unfolding complete make_grant
  with_power b db cce inactive s ue st none = none
  with_power b db cce inactive s ue st (some (available, mcs)) =
      make_grant b db cce (complete inactive s (available, mcs) ue)
        (record ue { ul_bler_mcs = min ue.ul_bler_mcs mcs }) st

  -- `reset_beam_status` for both slots, in the order in which the second loop calls it
  abbrev pub give_back : BeamAlloc → BeamAlloc → UlPassUe fl nr → UlShared g → UlShared g
  give_back dci beam ue st =
      release_pusch fl nr g cfg at beam ue (release_dci fl nr g cfg at dci ue st)

  -- from the search for blocks on
  unfoldable pub with_cce :
      ℕ
      → BeamAlloc
      → ℕ
      → BeamAlloc
      → UlEntry fl
      → UlPassUe fl nr
      → UlShared g
      → Option ℕ
      → Option (UlPassUe fl nr × UlShared g)
  unfolding range_for declared fit_power with_power min_rb get_pusch_bwp_start_size
  with_cce b beam db dci c ue st none =
      some (record ue { ul_cce_fail = ue.ul_cce_fail + 1 }, give_back dci beam ue st)
  with_cce b beam db dci c ue st (some cce) =
      let inactive = c.sched.sched_inactive in
      let range = range_for b inactive ue st in
      let s = declared range.0 c.selected_mcs ue st in
      if ltb_ℤ (pos (get_pusch_bwp_start_size ue.ul_band).1) (pos range.0 +ℤ min_rb ue)
        || ltb_ℤ (pos range.1) (min_rb ue)
      then some (ue, give_back dci beam ue st)
      else with_power b db cce inactive s ue st (fit_power s range.1 ue)

  -- from the test of the beam for the control channel on
  unfoldable pub with_dci_beam :
      ℕ
      → BeamAlloc
      → BeamAlloc
      → UlEntry fl
      → UlPassUe fl nr
      → UlShared g
      → Option ℕ
      → Option (UlPassUe fl nr × UlShared g)
  unfolding with_cce
  with_dci_beam b beam dci c ue st none = some (ue, release_pusch fl nr g cfg at beam ue st)
  with_dci_beam b beam dci c ue st (some db) =
      let (cce, w) = g.get_cce_index st.world at.slot ue.rnti db in
      with_cce b beam db dci c ue (record st { world = w }) cce

  -- from the test of the beam for the transmission on
  unfoldable pub with_beam :
      BeamAlloc
      → UlEntry fl
      → UlPassUe fl nr
      → UlShared g
      → Option ℕ
      → Option (UlPassUe fl nr × UlShared g)
  unfolding with_dci_beam min_rb
  with_beam beam c ue st none = some (ue, st)
  with_beam beam c ue st (some b) =
      let (dci, w) = g.beam_allocation_procedure st.world at.frame at.slot ue.ue_beam_index in
      if eqb_ℤ (get_or st.remain_ues b (pos 0)) (pos 0)
        || ltb_ℤ (get_or st.n_rb_sched b (pos 0)) (min_rb ue)
      then some (ue, release_pusch fl nr g cfg at beam ue st)
      else with_dci_beam b beam dci c ue (record st { world = w }) dci.idx

  -- the body of the loop, for a UE; `none` is a failed assertion
  unfoldable pub serve :
      UlEntry fl → UlPassUe fl nr → UlShared g → Option (UlPassUe fl nr × UlShared g)
  unfolding with_beam
  serve c ue st =
      let at_target = target fl nr g cfg at in
      let (beam, w) =
        g.beam_allocation_procedure st.world at_target.f at_target.s ue.ue_beam_index in
      with_beam beam c ue (record st { world = w }) beam.idx

  -- the body of the loop, for an entry of `UE_sched`
  unfoldable pub serve_entry :
      UlEntry fl → List (UlPassUe fl nr) → UlShared g → Option (List (UlPassUe fl nr) × UlShared g)
  unfolding serve
  serve_entry c ues st = elim (get_elem? ues c.ue) [
    | none ↦ some (ues, st)
    | some ue ↦ elim (serve c ue st) [
      | none ↦ none
      | some (ue1, st1) ↦ some (modify ues c.ue (λ _. ue1), st1)
    ]
  ]

  -- the loop
  unfoldable pub serve_all :
      List (UlEntry fl)
      → List (UlPassUe fl nr)
      → UlShared g
      → Option (List (UlPassUe fl nr) × UlShared g)
  unfolding serve_entry
  serve_all [] ues st = some (ues, st)
  serve_all (c ∷ cs) ues st = elim (serve_entry c ues st) [
    | none ↦ none
    | some (ues1, st1) ↦ serve_all cs ues1 st1
  ]
