-- ===== src/Dl/Retrans.antt =====
-- Retransmissions in the downlink: `allocate_dl_retransmission` of
-- gnb_patch/gNB_scheduler_dlsch.c.

pub mod Search
pub mod Place
use user_ric.Prelude.{
  ℕ, zero, suc, ◌+◌, ◌-◌, ◌*◌, Bool, true, false, not, ◌&&◌, ◌||◌, [], Option, none, some,
  if◌then◌else◌, ◌==◌, ltb, leb, min, get_or,
}
use user_ric.Prelude.Int.{pos, ◌-ℤ◌}
use user_ric.Prelude.Float.{Float}
use user_ric.Prelude.Slots.{modify}
use user_ric.Blocks.{busy, skip, mark}
use user_ric.Dl.{BwpInfo, PdschTda, SchedPdsch, DlUe, Gnb, DlConfig, Shared}
use user_ric.Dl.Bwp.{get_dl_tda, get_pdsch_bwp_start_size}

-- What the loop over runs of free blocks comes to: the first block and the number of blocks of a run
-- that is long enough, no such run, or no result within the rounds it was given.
pub data Run : Type 0 where
  found : ℕ → ℕ → Run
  no_resources : Run
  unfinished : Run

-- The loop `while (rbSize < retInfo->rbSize)`, with a bound on the tests of its condition;
-- `rb_end` is `rbStop + 1`.
unfoldable pub find_run : ℕ → (ℕ → Bool) → ℕ → ℕ → ℕ → ℕ → Run
unfolding skip
find_run zero used wanted rb_end rb_start rb_size = Run.unfinished
find_run (suc fuel) used wanted rb_end rb_start rb_size =
    let from = rb_start + rb_size in
    let start = skip used (rb_end - 1 - from) from in
    let size = skip (λ n. not (used (start + n))) (min (rb_end - start) wanted) 0 in
    let next = find_run fuel used wanted rb_end start size in
    if ltb rb_size wanted
    then (if leb rb_end (start + 1) then Run.no_resources else next)
    else Run.found rb_start rb_size

-- an entry outside of the array
abbrev pub no_pdsch : SchedPdsch
no_pdsch = record {
  dl_harq_pid = none;
  rb_start = 0;
  rb_size = 0;
  mcs = 0;
  qm = 0;
  r = 0;
  tb_size = 0;
  nr_of_layers = 0;
  pm_index = 0;
  time_domain_allocation = 0;
  tda_info = record { valid_tda = false; start_symbol_index = 0; nr_of_symbols = 0 };
  dmrs_parms = record { n_prb_dmrs = 0; n_dmrs_slot = 0 };
  pucch_allocation = none;
  bwp_info = record { bwp_start = 0; bwp_size = 0 };
}

-- the result of the loop, as a place for the block
unfoldable pub place_of : SchedPdsch → Run → Option (ℕ × SchedPdsch)
place_of ret (Run.found start size) = some (start, ret)
place_of ret Run.no_resources = none
place_of ret Run.unfinished = none

-- the branch for the old time domain allocation
unfoldable pub reuse : (ℕ → Bool) → BwpInfo → SchedPdsch → Option (ℕ × SchedPdsch)
unfolding find_run place_of
reuse used bwp ret =
    let rb_end = bwp.bwp_start + bwp.bwp_size in
    place_of ret (find_run (bwp.bwp_size + 1) used ret.rb_size rb_end bwp.bwp_start 0)

-- `uint16_t *rballoc_mask`, as a test
abbrev pub used_in : (g : Gnb) → ℕ → Shared g → PdschTda → ℕ → Bool
used_in g beam st tda =
    busy (get_or st.vrb_map beam []) (g.sl_to_bitmap tda.start_symbol_index tda.nr_of_symbols)

module _ (fl : Float) (g : Gnb) where
  -- the uplink resource for the feedback: `some none` where the process needs none, and `none` if it
  -- needs one and there is none left
  unfoldable pub feedback_resource : g.W → DlUe fl → ℕ → ℕ → ℕ → ℕ → Option (Option ℕ) × g.W
  feedback_resource w ue frame slot pid cce =
      let (alloc, w1) =
        g.nr_acknack_scheduling w ue.rnti frame slot ue.ue_beam_index
          (g.nr_get_pucch_resource ue.rnti cce) in
      if g.get_feedback_disabled ue.rnti pid
      then (some none, w)
      else (elim alloc [ none ↦ none | some a ↦ some (some a) ], w1)

  module _ (cfg : DlConfig) (frame slot beam : ℕ) where
    -- the new `*retInfo` for another time domain allocation or another number of layers
    abbrev pub refitted : DlUe fl → SchedPdsch → PdschTda → ℕ → ℕ → ℕ → ℕ → SchedPdsch
    refitted ue ret tda layers pm_index new_tbs new_rb_size = record ret {
      tb_size = new_tbs;
      rb_size = new_rb_size;
      time_domain_allocation = get_dl_tda g cfg slot;
      nr_of_layers = layers;
      pm_index = pm_index;
      dmrs_parms = g.get_dl_dmrs_params ue.rnti tda layers;
      tda_info = tda;
    }

    -- the branch for another time domain allocation or another number of layers: the first block and
    -- the new `*retInfo`
    unfoldable pub refit :
        (ℕ → Bool) → BwpInfo → DlUe fl → SchedPdsch → PdschTda → ℕ → ℕ → Option (ℕ × SchedPdsch)
    unfolding skip
    refit used bwp ue ret tda layers pm_index =
        let rb_end = bwp.bwp_start + bwp.bwp_size in
        let dmrs = g.get_dl_dmrs_params ue.rnti tda layers in
        let start = skip used (rb_end - 1 - bwp.bwp_start) bwp.bwp_start in
        let size = skip (λ n. not (used (start + n))) (rb_end - start) 0 in
        let (success, new_tbs, new_rb_size) =
          g.nr_find_nb_rb ret.qm ret.r 1 layers tda.nr_of_symbols
            (dmrs.n_prb_dmrs * dmrs.n_dmrs_slot) ret.tb_size 1 size in
        if not success || not (new_tbs == ret.tb_size)
        then none
        else some (start, refitted ue ret tda layers pm_index new_tbs new_rb_size)

    -- both branches: the first block and the new `*retInfo`
    unfoldable pub place_again :
        DlUe fl → SchedPdsch → PdschTda → Shared g → Option (ℕ × SchedPdsch)
    unfolding refit reuse
    place_again ue ret tda st =
        let cur = ue.sched_pdsch in
        let fewer = ltb cur.nr_of_layers ret.nr_of_layers in
        let layers = if fewer then cur.nr_of_layers else ret.nr_of_layers in
        let pm_index = if fewer then cur.pm_index else ret.pm_index in
        let reuse_old_tda =
          ret.tda_info.start_symbol_index == tda.start_symbol_index
          && leb ret.tda_info.nr_of_symbols tda.nr_of_symbols in
        let bwp = get_pdsch_bwp_start_size g cfg st.world (some (ue.rnti, ue.dl_bwp)) in
        if reuse_old_tda && layers == ret.nr_of_layers
        then reuse (used_in g beam st ret.tda_info) bwp ret
        else refit (used_in g beam st tda) bwp ue ret tda layers pm_index

    -- the end of the function, once control channels are found
    unfoldable pub send_again :
        BwpInfo → ℕ → SchedPdsch → Option ℕ → ℕ → DlUe fl → Shared g → DlUe fl × Shared g
    unfolding mark
    send_again bwp rb_start ret alloc cce ue st =
        let symbols = g.sl_to_bitmap ret.tda_info.start_symbol_index ret.tda_info.nr_of_symbols in
        (
          record ue {
            cce_index = some cce;
            sched_pdsch = record ret {
              rb_start = rb_start - bwp.bwp_start;
              pucch_allocation = alloc;
              bwp_info = bwp;
            };
          },
          record st {
            world = g.fill_pdcch_vrb_map st.world ue.rnti cce beam;
            n_rb_sched = modify st.n_rb_sched beam (λ n. n -ℤ pos ret.rb_size);
            vrb_map =
                modify st.vrb_map beam (λ m. mark symbols m rb_start (ret.rb_size - rb_start));
          },
        )

    -- from the test of the feedback resources on: whether the block is sent again
    unfoldable pub with_feedback :
        BwpInfo
        → ℕ
        → SchedPdsch
        → ℕ
        → DlUe fl
        → Shared g
        → Option (Option ℕ)
        → Bool × DlUe fl × Shared g
    unfolding send_again
    with_feedback bwp rb_start ret cce ue st none = (false, ue, st)
    with_feedback bwp rb_start ret cce ue st (some alloc) =
        let (ue1, st1) = send_again bwp rb_start ret alloc cce ue st in (true, ue1, st1)

    -- from the test of the control channel on
    unfoldable pub with_cce :
        BwpInfo → ℕ → ℕ → SchedPdsch → DlUe fl → Shared g → Option ℕ → Bool × DlUe fl × Shared g
    unfolding with_feedback feedback_resource
    with_cce bwp pid rb_start ret ue st none =
        (false, record ue { dl_cce_fail = ue.dl_cce_fail + 1 }, st)
    with_cce bwp pid rb_start ret ue st (some cce) =
        let (feedback, w) = feedback_resource st.world ue frame slot pid cce in
        with_feedback bwp rb_start ret cce ue (record st { world = w }) feedback

    -- from the search for free blocks on, with its result
    unfoldable pub with_place :
        ℕ → DlUe fl → Shared g → Option (ℕ × SchedPdsch) → Bool × DlUe fl × Shared g
    unfolding with_cce
    with_place pid ue st none = (false, ue, st)
    with_place pid ue st (some (rb_start, ret)) =
        let bwp = get_pdsch_bwp_start_size g cfg st.world (some (ue.rnti, ue.dl_bwp)) in
        let ue1 = record ue { harq_pdsch = modify ue.harq_pdsch pid (λ _. ret) } in
        let (cce, w) = g.get_cce_index st.world slot ue.rnti beam in
        with_cce bwp pid rb_start ret ue1 (record st { world = w }) cce

    -- `allocate_dl_retransmission`: whether the block is sent again, and the new state
    unfoldable pub allocate_dl_retransmission : ℕ → DlUe fl → Shared g → Bool × DlUe fl × Shared g
    unfolding place_again with_place
    allocate_dl_retransmission pid ue st =
        let ret = get_or ue.harq_pdsch pid no_pdsch in
        let tda = g.get_dl_tda_info st.world ue.rnti (get_dl_tda g cfg slot) in
        if not tda.valid_tda
        then (false, ue, st)
        else with_place pid ue st (place_again ue ret tda st)
