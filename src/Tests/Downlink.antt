-- ===== src/Tests/Downlink.antt =====
-- Passes of the downlink scheduler: gnb_patch/gNB_scheduler_dlsch.c.
use user_ric.Prelude.{
  ℕ, ◌+◌, ◌-◌, ◌*◌, ◌^◌, ◌≤◌, ◌<◌, ◌≡◌, refl, Bool, true, false, [], ◌∷◌, Option, none, some,
  replicate, min, get_or, arith,
}
use user_ric.Prelude.Int.{pos, ◌+ℤ◌, ◌-ℤ◌, ◌≤ℤ◌}
use user_ric.Slice.Assoc
use user_ric.Slice.Assoc.{AssocEntry}
use user_ric.Prelude.Slots.{find_index, modify}
use user_ric.Prelude.Alloc.{deref, find_or_create}
use user_ric.UeDl.{get_min_grant_prb}
use user_ric.UeDl.Reload.{Environment, reload_if_needed}
use user_ric.Slice.Policy.{policy_get}
use user_ric.Blocks.{busy, dl_free_range, dl_slice_blocks, mark_grant}
use user_ric.Blocks.Apart.{Sound}
use user_ric.Dl.{DlBwp, DlUe, Gnb, DlConfig, Shared}
use user_ric.Dl.Buffer.{store_buffer}
use user_ric.Dl.Buffer.Sum.{sum_bytes, sum_pdus, store_buffer_sums}
use user_ric.Dl.Bwp.{get_pdsch_bwp_start_size}
use user_ric.Dl.Retrans.{no_pdsch, find_run, allocate_dl_retransmission}
use user_ric.Dl.Retrans.Search.{Searched, find_run-Searched}
use user_ric.Dl.Retrans.Place.{Resent, allocate_dl_retransmission-Resent}
use user_ric.Dl.Serve.Rule.{WhenSome}
use user_ric.Dl.Pass.{DlCell, pf_dl}
use user_ric.Dl.Pass.Safe.{pf_dl-Sound}
use user_ric.Dl.Serve.Safe.{Plain}
use user_ric.Dl.Pass.Limit.{Within, pf_dl-Within}
use user_ric.Tests.Decimal.{milli}

-- A gNB with one beam that always has control channels: `W` counts them.
abbrev gnb : Gnb
gnb = record {
  W = ℕ;
  beam_allocation_procedure = λ w _ _ _. (record { idx = some 0; new_beam = false }, w);
  reset_beam_status = λ w _ _ _ _. w;
  get_cce_index = λ w _ _ _. (some w, w + 1);
  fill_pdcch_vrb_map = λ w _ _ _. w;
  get_feedback_disabled = λ _ _. false;
  nr_get_pucch_resource = λ _ cce. pos cce;
  nr_acknack_scheduling = λ w _ _ _ _ _. (some 1, w);
  get_mcs_from_bler = λ w _ most _. (min 9 most, w);
  get_dl_nr_of_layers = λ _ _. 1;
  get_pm_index = λ _ _ _. 0;
  get_dl_tda_info = λ _ _ _. record { valid_tda = true; start_symbol_index = 1; nr_of_symbols = 2 };
  get_dl_dmrs_params = λ _ _ _. record { n_prb_dmrs = 6; n_dmrs_slot = 1 };
  sched_pdcch_rb_start = λ _ _. 0;
  nr_mac_rlc_status_ind = λ _ _ _ _. record { bytes_in_buffer = 40; pdus_in_buffer = 2 };
  nr_get_qm_dl = λ _ _. 2;
  nr_get_code_rate_dl = λ _ _. 500;
  nr_compute_tbs = λ _ _ rb _ _ _ _ _. rb * 80;
  nr_find_nb_rb = λ _ _ _ _ _ _ bytes _ most. (true, bytes, min 6 most);
  nr_nb_reg_per_cce = 6;
  max_dci_coreset = 8;
  dl_sch_lcid_dtch = 4;
  sl_to_bitmap = λ start count. (2 ^ count - 1) * 2 ^ start;
  get_slot_idx_in_period = λ slot. slot;
  num_dl_symbols = λ _. 14;
  is_mixed_slot = λ _. false;
  qsort = λ _ xs. xs;
}

abbrev config : DlConfig
config = record {
  sched_csirs = 0;
  is_tdd = false;
  numb_slots_frame = 20;
  cset0_bwp_start = 0;
  cset0_bwp_size = 0;
  harq_round_max = 4;
  bler_max_mcs = 20;
  carrier_bandwidth = 24;
  num_beams = 1;
}

abbrev band : DlBwp
band = record {
  common_search_space = false;
  control_resource_set_id = 1;
  bwp_start = 0;
  bwp_size = 24;
  initial_dl_bwp_size = 24;
  mcs_table_idx = 0;
}

abbrev pub ue : ℕ → Option ℕ → DlUe milli
ue rnti retrans = record {
  rnti = rnti;
  ue_beam_index = 0;
  ul_failure = false;
  current_bytes = 10;
  dl_thr_ue = pos 2000;
  retrans_dl_harq = retrans;
  available_dl_harq = some 3;
  harq_pdsch =
      record no_pdsch {
        rb_size = 5;
        tb_size = 50;
        nr_of_layers = 1;
        tda_info = record { valid_tda = true; start_symbol_index = 1; nr_of_symbols = 2 };
      }
      ∷ [];
  sched_pdsch = record no_pdsch { nr_of_layers = 1 };
  num_total_bytes = 40;
  dl_pdus_total = 2;
  lc_config = [];
  rlc_status = [];
  transm_interrupt = false;
  ta_frame = 0;
  dl_max_mcs = 28;
  dl_bler_mcs = 0;
  dl_cce_fail = 0;
  cce_index = none;
  dl_bwp = band;
}

abbrev no_file : Environment
no_file = record { null_path = true; status = none; content = none }

abbrev cell : DlCell milli gnb
cell = record {
  policy = record { tbl = []; mtime = 0; size = 0; loaded = false };
  ues = ue 7 none ∷ ue 8 (some 0) ∷ ue 9 none ∷ [];
  world = 0;
  vrb_map = replicate 24 0 ∷ [];
}

abbrev pass : Option (DlCell milli gnb × Shared gnb)
pass = pf_dl milli gnb config no_file Assoc.initial [] 1 2 8 (pos 24 ∷ []) cell

-- two new transmissions, and a retransmission that uses up one of the eight
pass_result :
    WhenSome
      (λ r.
        (r.1.allocations
          ≡ record { beam = 0; slbitmap = 6; first_rb = 11; rb_count = 6 }
            ∷ record { beam = 0; slbitmap = 6; first_rb = 5; rb_count = 6 }
            ∷ [])
        × (r.1.remain_ues ≡ pos 5 ∷ []))
      pass
unfolding pf_dl get_min_grant_prb find_index get_pdsch_bwp_start_size deref ◌+ℤ◌ busy modify ◌-ℤ◌
    dl_free_range dl_slice_blocks policy_get Assoc.get_dl_id find_or_create Assoc.initial mark_grant
pass_result = (refl, refl)

beams : (w i b : ℕ) → (gnb.beam_allocation_procedure w 1 2 i).0.idx ≡ some b → b < config.num_beams
beams w i b h = ground (arith, h)

at_most :
    (qm r precoding layers symbols dmrs bytes least most : ℕ)
    → (gnb.nr_find_nb_rb qm r precoding layers symbols dmrs bytes least most).2 ≤ most
at_most qm r precoding layers symbols dmrs bytes least most = omega arith

two :
    (rnti : ℕ)
    → pos 2 ≤ℤ get_min_grant_prb milli rnti (reload_if_needed milli no_file cell.policy).tbl (pos 5)
unfolding reload_if_needed get_min_grant_prb find_index deref
two rnti = omega arith

own_band : Plain gnb config 24 band
unfolding get_pdsch_bwp_start_size
own_band w rnti = (refl, omega arith)

-- a common search space on the control resource set 0, which begins at block 0 too
common_band :
    Plain gnb config 24 (record band { common_search_space = true; control_resource_set_id = 0 })
unfolding get_pdsch_bwp_start_size
common_band w rnti = (refl, omega arith)

pf_dl-Sound_example : WhenSome (λ r. Sound config.num_beams 24 r.0.vrb_map r.1.allocations) pass
pf_dl-Sound_example =
    pf_dl-Sound milli gnb config no_file Assoc.initial [] 1 2 24 beams at_most 8 (pos 24 ∷ []) cell
      two (own_band, (own_band, (own_band, tt))) (omega arith) (omega arith, tt)

pf_dl-Within_example : WhenSome (λ r. Within 8 r.1.remain_ues r.1.allocations r.1.resent) pass
pf_dl-Within_example =
    pf_dl-Within milli gnb config no_file Assoc.initial [] 1 2 refl beams 8 (pos 24 ∷ []) cell

abbrev begun : Shared gnb
begun = record {
  world = 0;
  vrb_map = (4 ∷ 0 ∷ 4 ∷ replicate 21 0) ∷ [];
  remain_ues = pos 8 ∷ [];
  n_rb_sched = pos 24 ∷ [];
  allocations = [];
  resent = 0;
}

-- the run behind block 2 is long enough for the five blocks
again :
    (allocate_dl_retransmission milli gnb config 1 2 0 0
      (ue 8 (some 0))
      begun).1.sched_pdsch.rb_start
    ≡ 3
unfolding allocate_dl_retransmission get_pdsch_bwp_start_size busy
again = refl

allocate_dl_retransmission-Resent_example :
    Resent milli gnb config 1 2 0 at_most
      (get_or (ue 8 (some 0)).harq_pdsch 0 no_pdsch)
      (get_pdsch_bwp_start_size gnb config begun.world (some (8, band)))
      begun
      (allocate_dl_retransmission milli gnb config 1 2 0 0 (ue 8 (some 0)) begun)
allocate_dl_retransmission-Resent_example =
    allocate_dl_retransmission-Resent milli gnb config 1 2 0 at_most 0 (ue 8 (some 0)) begun

abbrev used : ℕ → Bool
used rb = get_or (true ∷ false ∷ true ∷ []) rb false

find_run-Searched_example : Searched used 3 0 8 (find_run 9 used 3 8 0 0)
find_run-Searched_example =
    find_run-Searched 9 used 3 0 8 0 0 (omega arith)
      (record {
        behind = omega arith;
        inside = omega arith;
        unused = λ rb from to. absurd (omega arith);
      })
      (omega arith)

abbrev buffered : DlUe milli
buffered = record (ue 7 none) {
  lc_config =
      record { lcid = 1; suspended = false }
      ∷ record { lcid = 2; suspended = true }
      ∷ record { lcid = 4; suspended = false }
      ∷ [];
  transm_interrupt = true;
}

store_buffer_sums_example :
    let r = store_buffer gnb 0 1 buffered in
    (r.num_total_bytes ≡ sum_bytes gnb 0 1 7 true buffered.lc_config)
    × (r.dl_pdus_total ≡ sum_pdus gnb 0 1 7 true buffered.lc_config)
store_buffer_sums_example = store_buffer_sums gnb 0 1 buffered
