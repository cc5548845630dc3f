-- ===== src/Dl/Buffer/Sum.antt =====
-- The bytes and the PDUs that `nr_store_dlsch_buffer` counts for a UE.
use user_ric.Prelude.{
  ℕ, ◌+◌, ◌≡◌, ◌∙◌, Bool, ◌&&◌, List, [], ◌∷◌, if◌then◌else◌, ◌==◌, if_ind, arith,
}
use user_ric.Prelude.Float.{Float}
use user_ric.Prelude.Slots.{modify}
use user_ric.Dl.{DlUe, LcConfig, RlcStatus, Gnb}
use user_ric.Dl.Buffer.{no_status, skipped, add_channel, add_channels, store_buffer}

module _ (g : Gnb) (w : g.W) (frame : ℕ) where
  -- what a channel of a UE holds, as far as it counts: nothing if the channel is passed over
  abbrev pub held : ℕ → Bool → LcConfig → RlcStatus
  held rnti interrupted c =
      if c.suspended
      then no_status
      else if c.lcid == g.dl_sch_lcid_dtch && interrupted
      then no_status
      else g.nr_mac_rlc_status_ind w rnti frame c.lcid

  -- the sums over the channels; the PDUs of a channel without bytes do not count
  abbrev pub sum_bytes : ℕ → Bool → List LcConfig → ℕ
  sum_bytes rnti interrupted [] = 0
  sum_bytes rnti interrupted (c ∷ cs) =
      (held rnti interrupted c).bytes_in_buffer + sum_bytes rnti interrupted cs

  abbrev pub sum_pdus : ℕ → Bool → List LcConfig → ℕ
  sum_pdus rnti interrupted [] = 0
  sum_pdus rnti interrupted (c ∷ cs) =
      (if (held rnti interrupted c).bytes_in_buffer == 0
        then 0
        else (held rnti interrupted c).pdus_in_buffer)
      + sum_pdus rnti interrupted cs

  module _ {fl : Float} where
    -- the counters after some channels
    abbrev Counted : DlUe fl → List LcConfig → DlUe fl → Type 0
    Counted ue cs r =
        (r.num_total_bytes ≡ ue.num_total_bytes + sum_bytes ue.rnti ue.transm_interrupt cs)
        × (r.dl_pdus_total ≡ ue.dl_pdus_total + sum_pdus ue.rnti ue.transm_interrupt cs)

    add_channels-Counted :
        (cs : List LcConfig) (ue : DlUe fl) → Counted ue cs (add_channels g w frame cs ue)
    unfolding add_channels add_channel
    add_channels-Counted [] ue = (omega arith, omega arith)
    add_channels-Counted (c ∷ cs) ue =
        let status = g.nr_mac_rlc_status_ind w ue.rnti frame c.lcid in
        let counted : DlUe fl = record ue {
          rlc_status = modify ue.rlc_status c.lcid (λ _. status);
          dl_pdus_total = ue.dl_pdus_total + status.pdus_in_buffer;
          num_total_bytes = ue.num_total_bytes + status.bytes_in_buffer;
        } in
        let passed : DlUe fl = record ue {
          rlc_status = modify ue.rlc_status c.lcid (λ _. no_status);
        } in
        let empty : DlUe fl = record ue {
          rlc_status = modify ue.rlc_status c.lcid (λ _. status);
        } in
        let nothing = status.bytes_in_buffer == 0 in
        let P = λ (r : DlUe fl). Counted ue (c ∷ cs) (add_channels g w frame cs r) in
        if_ind P (skipped g w frame ue c) passed (if nothing then empty else counted)
          (λ skip. (
            (add_channels-Counted cs passed).0 ∙ ground (arith, skip),
            (add_channels-Counted cs passed).1 ∙ ground (arith, skip),
          ))
          (λ go.
            if_ind P nothing empty counted
              (λ e. (
                (add_channels-Counted cs empty).0 ∙ ground (arith, go, e),
                (add_channels-Counted cs empty).1 ∙ ground (arith, go, e),
              ))
              (λ e. (
                (add_channels-Counted cs counted).0 ∙ ground (arith, go, e),
                (add_channels-Counted cs counted).1 ∙ ground (arith, go, e),
              )))

    -- The bytes and the PDUs that wait for a UE are the sums over its logical channels: suspended channels
    -- do not count, nor does the channel of user data while the UE's transmission is interrupted; what
    -- was counted before is forgotten.
    pub store_buffer_sums :
        (ue : DlUe fl)
        → let r = store_buffer g w frame ue in
          (r.num_total_bytes ≡ sum_bytes ue.rnti ue.transm_interrupt ue.lc_config)
          × (r.dl_pdus_total ≡ sum_pdus ue.rnti ue.transm_interrupt ue.lc_config)
    unfolding store_buffer
    store_buffer_sums ue =
        let r =
          add_channels-Counted ue.lc_config
            (record ue { num_total_bytes = 0; dl_pdus_total = 0 }) in
        (r.0 ∙ omega arith, r.1 ∙ omega arith)
