-- ===== src/Dl/Buffer.antt =====
-- The bytes that wait for a UE: `nr_store_dlsch_buffer` of gnb_patch/gNB_scheduler_dlsch.c.
pub mod Sum
use user_ric.Prelude.{ℕ, ◌+◌, Bool, ◌&&◌, ◌||◌, List, [], ◌∷◌, map, if◌then◌else◌, ◌==◌}
use user_ric.Prelude.Float.{Float}
use user_ric.Prelude.Slots.{modify}
use user_ric.Dl.{DlUe, LcConfig, RlcStatus, Gnb}

abbrev pub no_status : RlcStatus
no_status = record { bytes_in_buffer = 0; pdus_in_buffer = 0 }

module _ {fl : Float} (g : Gnb) (w : g.W) (frame : ℕ) where
  -- the channel is passed over
  abbrev pub skipped : DlUe fl → LcConfig → Bool
  skipped ue c = c.suspended || (c.lcid == g.dl_sch_lcid_dtch && ue.transm_interrupt)

  -- the body of the inner loop
  unfoldable pub add_channel : DlUe fl → LcConfig → DlUe fl
  add_channel ue c =
      let status = g.nr_mac_rlc_status_ind w ue.rnti frame c.lcid in
      let counted = record ue {
        rlc_status = modify ue.rlc_status c.lcid (λ _. status);
        dl_pdus_total = ue.dl_pdus_total + status.pdus_in_buffer;
        num_total_bytes = ue.num_total_bytes + status.bytes_in_buffer;
      } in
      if skipped ue c
      then record ue { rlc_status = modify ue.rlc_status c.lcid (λ _. no_status) }
      else if status.bytes_in_buffer == 0
      then record ue { rlc_status = modify ue.rlc_status c.lcid (λ _. status) }
      else counted

  -- the inner loop
  unfoldable pub add_channels : List LcConfig → DlUe fl → DlUe fl
  unfolding add_channel
  add_channels [] ue = ue
  add_channels (c ∷ cs) ue = add_channels cs (add_channel ue c)

  -- the body of the outer loop
  unfoldable pub store_buffer : DlUe fl → DlUe fl
  unfolding add_channels
  store_buffer ue = add_channels ue.lc_config (record ue { num_total_bytes = 0; dl_pdus_total = 0 })

  -- `nr_store_dlsch_buffer`
  unfoldable pub nr_store_dlsch_buffer : List (DlUe fl) → List (DlUe fl)
  unfolding store_buffer
  nr_store_dlsch_buffer ues = map store_buffer ues
