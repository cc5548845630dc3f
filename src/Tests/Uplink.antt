-- ===== src/Tests/Uplink.antt =====
-- Passes of the uplink scheduler: gnb_patch/gNB_scheduler_ulsch.c.
use user_ric.Prelude.{
  ℕ, Bool, Option, some, none, ◌<◌, ◌-◌, ◌*◌, ◌^◌, ◌%◌, ◌≡◌, refl, List, [], ◌∷◌, arith, true,
  false, replicate, map, min, ltb, leb, length, ◌+◌,
}
use user_ric.Prelude.Int.{ℤ, pos, ◌+ℤ◌, ◌-ℤ◌}
use user_ric.Prelude.Slots.{modify, find_index, count}
use user_ric.Prelude.Alloc.{deref, find_or_create}
use user_ric.Slice.Assoc
use user_ric.Slice.Policy.{policy_get}
use user_ric.Blocks.{busy}
use user_ric.Blocks.Apart.{Sound}
use user_ric.Frame.{fs_add_delta}
use user_ric.Tda.{TdaInfo}
use user_ric.Power.Factor.{UlBand}
use user_ric.Harq.Grant.{UlUe}
use user_ric.UeLa.{get_min_grant_prb, get_ul_max_mcs}
use user_ric.UeLa.Reload.{Environment}
use user_ric.Dl.Serve.Rule.{WhenSome}
use user_ric.Ul.{PuschSched, UlPassUe, UlGnb, UlConfig, UlSlot, UlShared}
use user_ric.Ul.Retrans.{UlRetrans, allocate_ul_retransmission}
use user_ric.Ul.Retrans.Place.{Resent, allocate_ul_retransmission-Resent}
use user_ric.Ul.Pass.{UlCell, first_loop, second_loop, left_by, pf_ul}
use user_ric.Ul.Pass.Safe.{pf_ul-Sound}
use user_ric.Ul.Pass.Count.{pf_ul-Agreed}
use user_ric.Tests.Harq.{plain, late}
use user_ric.Tests.Decimal.{milli}

-- The search for blocks takes all that are offered.
abbrev pub cell : UlGnb
cell = record {
  W = Unit;
  get_cce_index = λ w slot rnti beam. (some 4, w);
  fill_pdcch_vrb_map = λ w rnti cce beam. w;
  get_ul_dmrs_params = λ rnti tda layers. record { n_prb_dmrs = 6; num_dmrs_symb = 1 };
  nr_find_nb_rb = λ qm r precoding layers symbols dmrs bytes least most. (true, bytes, most);
  beam_allocation_procedure = λ w _ _ _. (record { idx = some 0; new_beam = false }, w);
  reset_beam_status = λ w _ _ _ _. w;
  get_mcs_from_bler = λ w _ now most _. (min 9 most, now, w);
  get_ul_nr_of_layers = λ _ _. 1;
  is_ul_slot = λ s. leb 8 (s % 10);
  is_dl_slot = λ s. ltb (s % 10) 8;
  phy = record {
    nr_get_code_rate_ul = λ _ _. 500;
    nr_get_qm_ul = λ _ _. 2;
    nr_compute_tbs = λ _ _ rb _ _ _ _ _. rb * 80;
    compute_ph_factor = λ _ _ rb _ _ _ _ _. pos rb;
  };
  qsort = λ _ xs. xs;
  nr_nb_reg_per_cce = 6;
  max_dci_coreset = 8;
  sl_to_bitmap = λ start symbols. (2 ^ symbols - 1) * 2 ^ start;
  get_ntn_koffset = 0;
  max_frame_number = 1024;
}

abbrev pub config : UlConfig
config = record {
  numb_slots_frame = 20;
  disable_harq = false;
  harq_round_max = 4;
  frame_structure = record {
    numb_slots_frame = 20;
    numb_slots_period = 10;
    is_tdd = true;
    first_ul_slot = 8;
  };
  min_grant_prb = 3;
  ulsch_max_frame_inactivity = 10;
  bler_max_mcs = 20;
  min_rxtx_time = 3;
  num_dl_slots = 8;
  carrier_bandwidth = 24;
  num_beams = 1;
}

abbrev part : UlBand
part = record { common_search_space = false; bwp_start = 2; bwp_size = 6; initial_ul_bwp_size = 8 }

-- the allocation that failed, in the first four symbols
abbrev old_tda : TdaInfo
old_tda = record { valid_tda = true; k2 = 6; start_symbol_index = 0; nr_of_symbols = 4 }

-- a longer one, of which the old one is a part
abbrev pub new_tda : TdaInfo
new_tda = record { valid_tda = true; k2 = 4; start_symbol_index = 0; nr_of_symbols = 6 }

abbrev lost_block : PuschSched
lost_block = record {
  ul_harq_pid = some 1;
  frame = 5;
  slot = 3;
  rb_start = 0;
  rb_size = 3;
  mcs = 9;
  qm = 2;
  r = 6790;
  tb_size = 100;
  nr_of_layers = 1;
  time_domain_allocation = 0;
  tda_info = old_tda;
  dmrs_info = record { n_prb_dmrs = 6; num_dmrs_symb = 1 };
  bwp_start = 2;
  bwp_size = 6;
  phr_txpower_calc = pos 0;
}

-- The first block of the part of the band is in use.
abbrev before : UlRetrans plain cell
before = record {
  world = tt;
  rballoc_mask = 0 ∷ 0 ∷ 15 ∷ 0 ∷ 0 ∷ 0 ∷ 0 ∷ 0 ∷ [];
  ue = late;
  harq_pusch = replicate 4 lost_block;
  ul_cce_fail = 0;
  cce_index = none;
}

allocate_ul_retransmission-Resent_example :
    Resent plain cell config 5 17 0 17 false part 1 new_tda
      (λ _ _ _ _ _ _ _ _ _. omega arith)
      lost_block
      before
      (allocate_ul_retransmission plain cell config 5 17 0 17 false part 1 new_tda 1 lost_block
        before)
allocate_ul_retransmission-Resent_example =
    allocate_ul_retransmission-Resent plain cell config 5 17 0 17 false part 1 new_tda
      (λ _ _ _ _ _ _ _ _ _. omega arith) 1 lost_block before

abbrev marks : Option (Bool × UlRetrans plain cell) → Option (Bool × List ℕ)
marks none = none
marks (some (again, st)) = some (again, st.rballoc_mask)

-- the block is sent again, on blocks 3, 4 and 5, of which only the first is marked
resent :
    marks (
      allocate_ul_retransmission plain cell config 5 17 0 17 false part 1 new_tda 1 lost_block
        before)
    ≡ some (true, 0 ∷ 0 ∷ 15 ∷ 15 ∷ 0 ∷ 0 ∷ 0 ∷ 0 ∷ [])
unfolding allocate_ul_retransmission busy modify count
resent = refl

-- A UE whose processes are all free, but for one that is to be sent again.
abbrev ul_of : List ℕ → List ℕ → UlUe plain
ul_of available retrans = record late {
  harq = record late.harq {
    available_ul_harq = available;
    feedback_ul_harq = [];
    retrans_ul_harq = retrans;
    sched_ul_bytes = pos 0;
  };
}

abbrev ue : ℕ → List ℕ → List ℕ → UlPassUe milli plain
ue rnti available retrans = record {
  rnti = rnti;
  ue_beam_index = 0;
  ul_failure = false;
  ul_thr_ue = pos 2000;
  ul = ul_of available retrans;
  harq_pusch = replicate 4 (record lost_block { rb_size = 5 });
  estimated_ul_buffer = 400;
  transm_interrupt = false;
  ul_band = record {
    common_search_space = false;
    bwp_start = 0;
    bwp_size = 24;
    initial_ul_bwp_size = 24;
  };
  ul_bwp = record { mcs_table = 0; pusch_config = none };
  scs = 1;
  transform_precoding = false;
  pcmax = pos 20;
  ph = pos 7;
  ul_bler_mcs = 9;
  ul_cce_fail = 0;
  cce_index = none;
}

abbrev pub no_file : Environment
no_file = record { now_ms = 0; mtime = none; content = none }

abbrev slot : UlSlot
slot = record { frame = 5; slot = 4; tda = 1; tda_info = new_tda }

abbrev pub ul_cell : UlCell milli plain cell
ul_cell = record {
  policy = record { tbl = []; last_mtime_sec = 0; last_mtime_nsec = 0; last_check_ms = 0 };
  ues = ue 7 (0 ∷ 2 ∷ []) [] ∷ ue 8 (0 ∷ 2 ∷ []) (1 ∷ []) ∷ ue 9 (3 ∷ []) [] ∷ [];
  runtime = [];
  world = tt;
  rballoc_mask = replicate 24 0 ∷ [];
}

beams :
    (w : Unit {0}) (i b : ℕ)
    → (cell.beam_allocation_procedure w 5 8 i).0.idx ≡ some b
    → b < config.num_beams
beams w i b h = ground (arith, h)

pf_ul-Sound_example :
    WhenSome
      (λ r. Sound 1 24 r.1.rballoc_mask r.2.allocations)
      (pf_ul milli plain cell config no_file Assoc.initial slot 8 (pos 24 ∷ []) ul_cell)
pf_ul-Sound_example =
    pf_ul-Sound milli plain cell config slot no_file Assoc.initial 24 beams (omega arith)
      (λ _ _ _ _ _ _ _ _ _. omega arith) 8 (pos 24 ∷ []) ul_cell
      ((refl, omega arith), ((refl, omega arith), ((refl, omega arith), tt))) (omega arith)
      (omega arith, tt)

pf_ul-Agreed_example :
    WhenSome
      (λ r.
        pf_ul milli plain cell config no_file Assoc.initial slot 8 (pos 24 ∷ []) ul_cell
        ≡ some (
          pos (length r.1.allocations + r.1.resent),
          left_by milli plain cell config no_file Assoc.initial slot ul_cell r,
          r.1,
        ))
      (second_loop milli plain cell config no_file Assoc.initial slot ul_cell
        (first_loop milli plain cell config no_file Assoc.initial slot 8 (pos 24 ∷ []) ul_cell))
unfolding fs_add_delta
pf_ul-Agreed_example =
    pf_ul-Agreed milli plain cell config slot beams no_file Assoc.initial 8 (pos 24 ∷ []) ul_cell
      refl

-- the result of a pass, what is left of the limits, and the first block and the number of blocks of
-- each new transmission
abbrev summary :
    Option (ℤ × UlCell milli plain cell × UlShared cell) → Option (ℤ × List ℤ × List (ℕ × ℕ))
summary none = none
summary (some (n, left, st)) =
    some (n, st.remain_ues, map (λ a. (a.first_rb, a.rb_count)) st.allocations)

-- a retransmission and two new transmissions, which fit the power of seven blocks
pass_result :
    summary (pf_ul milli plain cell config no_file Assoc.initial slot 8 (pos 24 ∷ []) ul_cell)
    ≡ some (pos 3, pos 5 ∷ [], (12, 7) ∷ (5, 7) ∷ [])
unfolding pf_ul ◌+ℤ◌ ◌-ℤ◌ modify get_min_grant_prb deref find_index get_ul_max_mcs policy_get
    Assoc.get_ul_id find_or_create Assoc.initial count
pass_result = refl
