-- ===== src/Dl/Bwp.antt =====
-- The time domain allocation of a slot and the part of the band that a UE may use: `get_dl_tda` and
-- `get_pdsch_bwp_start_size` of gnb_patch/gNB_scheduler_dlsch.c.
use user_ric.Prelude.{ℕ, ◌+◌, ◌-◌, ◌&&◌, Option, none, some, if◌then◌else◌, ◌==◌, ltb, min}
use user_ric.Dl.{BwpInfo, DlBwp, Gnb, DlConfig}

module _ (g : Gnb) (cfg : DlConfig) where
  -- `get_dl_tda`
  unfoldable pub get_dl_tda : ℕ → ℕ
  get_dl_tda slot =
      let s = g.get_slot_idx_in_period slot in
      if ltb 0 cfg.sched_csirs
      then 1
      else if cfg.is_tdd && (ltb 1 (g.num_dl_symbols s) && g.is_mixed_slot s)
      then 2
      else 0

  -- `get_pdsch_bwp_start_size`, with `none` for a null pointer; the part does not begin behind the end
  -- of the band
  unfoldable pub get_pdsch_bwp_start_size : g.W → Option (ℕ × DlBwp) → BwpInfo
  get_pdsch_bwp_start_size w none = record {
    bwp_start = cfg.cset0_bwp_start;
    bwp_size = cfg.cset0_bwp_size;
  }
  get_pdsch_bwp_start_size w (some (rnti, dl_bwp)) =
      let start =
        if dl_bwp.control_resource_set_id == 0
        then cfg.cset0_bwp_start
        else dl_bwp.bwp_start + g.sched_pdcch_rb_start w rnti in
      let most =
        if ltb 0 cfg.cset0_bwp_size then cfg.cset0_bwp_size else dl_bwp.initial_dl_bwp_size in
      if dl_bwp.common_search_space
      then record { bwp_start = start; bwp_size = min (dl_bwp.bwp_size - start) most }
      else record { bwp_start = dl_bwp.bwp_start; bwp_size = dl_bwp.bwp_size }
