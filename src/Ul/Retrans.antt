-- ===== src/Ul/Retrans.antt =====
-- Retransmissions in the uplink: `allocate_ul_retransmission` of gnb_patch/gNB_scheduler_ulsch.c.
pub mod Place
use user_ric.Prelude.{
  ℕ, ◌+◌, ◌-◌, ◌*◌, Bool, true, false, not, ◌&&◌, ◌||◌, List, Option, none, some, if◌then◌else◌,
  ◌==◌, ltb, leb,
}
use user_ric.Blocks.{busy, skip, mark}
use user_ric.Frame.{Fsn, fs_add_delta}
use user_ric.Tda.{TdaInfo}
use user_ric.Harq.{NrList}
use user_ric.Ul.Post.{grant_of, keep_pusch}
use user_ric.Harq.Grant.{UlUe, post_process_ulsch}
use user_ric.Power.Factor.{UlBand, get_pusch_bwp_start_size}
use user_ric.Ul.{PuschSched, UlGnb, UlConfig}

-- what the call reads and writes: the state of the gNB, the words of the map that belong to the slot of
-- the transmission, and the UE
pub record UlRetrans (nr : NrList) (g : UlGnb) : Type 0 where
  pub world : g.W
  pub rballoc_mask : List ℕ
  pub ue : UlUe nr
  pub harq_pusch : List PuschSched
  pub ul_cce_fail : ℕ
  pub cce_index : Option ℕ

-- `rballoc_mask[rb + bwpStart] & slbitmap`, as a condition
abbrev pub used_in : UlGnb → List ℕ → UlBand → TdaInfo → ℕ → Bool
used_in g map band tda rb =
    busy map (g.sl_to_bitmap tda.start_symbol_index tda.nr_of_symbols) (rb + band.bwp_start)

-- the first unused block of the part of the band, or its end
unfoldable pub first_rb : (ℕ → Bool) → ℕ → ℕ
unfolding skip
first_rb used bwp_size = skip used bwp_size 0

-- the number of unused blocks from the first one on
unfoldable pub run_length : (ℕ → Bool) → ℕ → ℕ
unfolding skip first_rb
run_length used bwp_size =
    let rb_start = first_rb used bwp_size in
    skip (λ n. not (used (rb_start + n))) (bwp_size - rb_start) 0

-- the assertion on the process of the block
unfoldable pub is_process : Option ℕ → ℕ → Bool
is_process none harq_pid = false
is_process (some p) harq_pid = p == harq_pid

module _ (nr : NrList) (g : UlGnb) (cfg : UlConfig) (frame slot dci_beam rnti : ℕ)
    (transform_precoding : Bool) (band : UlBand) (tda : ℕ) (tda_info : TdaInfo) where
  -- the number of blocks of the part of the band
  unfoldable pub bwp_size : ℕ
  unfolding get_pusch_bwp_start_size
  bwp_size = (get_pusch_bwp_start_size band).1

  -- the new allocation, with its time and its part of the band
  unfoldable pub scheduled : PuschSched → PuschSched
  unfolding fs_add_delta bwp_size
  scheduled ret =
      let at =
        fs_add_delta cfg.numb_slots_frame g.max_frame_number (tda_info.k2 + g.get_ntn_koffset)
          (record { f = frame; s = slot }) in
      record ret { frame = at.f; slot = at.s; bwp_start = band.bwp_start; bwp_size = bwp_size }

  -- the branch for the old time domain allocation
  unfoldable pub reuse : List ℕ → PuschSched → Option PuschSched
  unfolding first_rb bwp_size
  reuse map new_sched =
      let rb_start = first_rb (used_in g map band new_sched.tda_info) bwp_size in
      if ltb bwp_size (rb_start + new_sched.rb_size)
      then none
      else some (record new_sched { rb_start = rb_start })

  -- the branch for another time domain allocation
  unfoldable pub refit : List ℕ → PuschSched → Option PuschSched
  unfolding first_rb run_length bwp_size
  refit map new_sched =
      let dmrs = g.get_ul_dmrs_params rnti tda_info new_sched.nr_of_layers in
      let used = used_in g map band tda_info in
      let (success, new_tbs, new_rb_size) =
        g.nr_find_nb_rb new_sched.qm new_sched.r transform_precoding new_sched.nr_of_layers
          tda_info.nr_of_symbols (dmrs.n_prb_dmrs * dmrs.num_dmrs_symb) new_sched.tb_size 1
          (run_length used bwp_size) in
      if not success || not (new_tbs == new_sched.tb_size)
      then none
      else some (record new_sched {
        rb_size = new_rb_size;
        rb_start = first_rb used bwp_size;
        tb_size = new_tbs;
        time_domain_allocation = tda;
        tda_info = tda_info;
        dmrs_info = dmrs;
      })

  -- both branches; the test of the number of layers compares it with itself
  unfoldable pub place_again : List ℕ → PuschSched → Option PuschSched
  unfolding scheduled reuse refit
  place_again map ret =
      let old = ret.tda_info in
      let new_sched = scheduled ret in
      if old.start_symbol_index == tda_info.start_symbol_index
        && leb old.nr_of_symbols tda_info.nr_of_symbols
      then reuse map new_sched
      else refit map new_sched

  -- the blocks that are marked: those from the beginning of the part of the band on, while their number
  -- is below the number of blocks
  unfoldable pub mark_again : PuschSched → List ℕ → List ℕ
  unfolding mark
  mark_again s map =
      mark (g.sl_to_bitmap s.tda_info.start_symbol_index s.tda_info.nr_of_symbols) map
        (band.bwp_start + s.rb_start) (s.rb_size - band.bwp_start)

  -- after `post_process_ulsch`, with its result
  unfoldable pub sent :
      PuschSched → UlRetrans nr g → Option (UlUe nr) → Option (Bool × UlRetrans nr g)
  unfolding mark_again keep_pusch
  sent s st none = none
  sent s st (some ue) = some (
    true,
    record st {
      ue = ue;
      harq_pusch = keep_pusch nr cfg.disable_harq s st.ue.harq st.harq_pusch;
      rballoc_mask = mark_again s st.rballoc_mask;
    },
  )

  -- from the test of the control channel on
  unfoldable pub with_cce : PuschSched → UlRetrans nr g → Option ℕ → Option (Bool × UlRetrans nr g)
  unfolding sent post_process_ulsch
  with_cce s st none = some (false, record st { ul_cce_fail = st.ul_cce_fail + 1 })
  with_cce s st (some cce) =
      sent s
        (record st {
          world = g.fill_pdcch_vrb_map st.world rnti cce dci_beam;
          cce_index = some cce;
        })
        (post_process_ulsch nr cfg.disable_harq cfg.harq_round_max cfg.numb_slots_frame rnti
          (grant_of s) st.ue)

  -- from the result of the search for blocks on
  unfoldable pub with_place : UlRetrans nr g → Option PuschSched → Option (Bool × UlRetrans nr g)
  unfolding with_cce
  with_place st none = some (false, st)
  with_place st (some s) =
      let (cce, w) = g.get_cce_index st.world slot rnti dci_beam in
      with_cce s (record st { world = w }) cce

  -- `allocate_ul_retransmission` of the block `ret`, the one of process `harq_pid`: whether it is sent
  -- again, with the new state; `none` is a failed assertion. `n_rb_sched` is a local pointer that the
  -- function moves; what it points to stays as it is.
  unfoldable pub allocate_ul_retransmission :
      ℕ → PuschSched → UlRetrans nr g → Option (Bool × UlRetrans nr g)
  unfolding is_process place_again with_place
  allocate_ul_retransmission harq_pid ret st =
      if is_process ret.ul_harq_pid harq_pid
      then with_place st (place_again st.rballoc_mask ret)
      else none
