-- ===== src/Tx/Ce.antt =====
-- The control elements in front of a transport block: `nr_write_ce_dlsch_pdu` of
-- gnb_patch/gNB_scheduler_dlsch.c.
use Prim.Native.Nat.{bit_or}
use user_ric.Prelude.{
  ℕ, zero, suc, ◌+◌, ◌-◌, ◌*◌, ◌/◌, ◌%◌, ◌^◌, Bool, false, List, [], ◌∷◌, ◌++◌, Option, none, some,
  if◌then◌else◌, ◌==◌, ltb, length, take, replicate, get_or,
}
use user_ric.Prelude.Slots.{modify}

-- `pdcch_state_ind`
pub record PdcchStateInd : Type 0 where
  pub coreset_id : ℕ
  pub serving_cell_id : ℕ
  pub tci_state_id : ℕ

-- `SP_CSI_reporting_pucch`
pub record SpCsiReporting : Type 0 where
  pub bwp_id : ℕ
  pub serving_cell_id : ℕ
  pub s0tos3_act_deact : List Bool

-- `pdsch_TCI_States_ActDeact` and `aperi_CSI_trigger`; `highest` is the number of the highest state
pub record StateSelection : Type 0 where
  pub bwp_id : ℕ
  pub serving_cell_id : ℕ
  pub highest : ℕ
  pub selected : List Bool

-- `sp_zp_csi_rs`
pub record SpZpCsiRs : Type 0 where
  pub act_deact : Bool
  pub serv_cell_id : ℕ
  pub bwpid : ℕ
  pub rsc_id : ℕ

-- `csi_im`; `tci_state_id` has as many entries as `nb_tci_resource_set_id` says
pub record CsiIm : Type 0 where
  pub act_deact : Bool
  pub serv_cellid : ℕ
  pub bwp_id : ℕ
  pub im : Bool
  pub nzp_csi_rsc_id : ℕ
  pub csi_im_rsc_id : ℕ
  pub tci_state_id : List ℕ

-- What is read of the UE; an element whose `is_scheduled` is not set is `none`.
pub record MacCe : Type 0 where
  pub pdcch_state_ind : Option PdcchStateInd
  pub sp_csi_reporting_pucch : Option SpCsiReporting
  pub pdsch_tci_states : Option StateSelection
  pub aperi_csi_trigger : Option StateSelection
  pub sp_zp_csi_rs : Option SpZpCsiRs
  pub csi_im : Option CsiIm

-- The gNB's constants and the bytes of its structures, from their fields; those of
-- `CSI_RS_CSI_IM_ACT_DEACT_MAC_CE` end before `TCI_STATE`, and those of `NR_TCI_PDSCH_APERIODIC_CSI`
-- before the flexible array.
pub record CeLayout : Type 0 where
  pub dl_sch_lcid_drx : ℕ
  pub dl_sch_lcid_ta_command : ℕ
  pub dl_sch_lcid_con_res_id : ℕ
  pub dl_sch_lcid_tci_state_ind_ue_spec_pdcch : ℕ
  pub dl_sch_lcid_sp_csi_rep_pucch_act : ℕ
  pub dl_sch_lcid_tci_state_act_ue_spec_pdsch : ℕ
  pub dl_sch_lcid_aperiodic_csi_tri_state_subsel : ℕ
  pub dl_sch_lcid_sp_zp_csi_rs_res_set_act : ℕ
  pub dl_sch_lcid_sp_csi_rs_csi_im_res_set_act : ℕ
  pub nr_mac_ce_ta : ℕ → ℕ → List ℕ
  pub nr_tci_pdcch : ℕ → ℕ → ℕ → ℕ → List ℕ
  pub nr_pucch_csi_reporting : ℕ → ℕ → Bool → Bool → Bool → Bool → List ℕ
  pub nr_tci_pdsch_aperiodic_csi : ℕ → ℕ → List ℕ
  pub nr_mac_ce_sp_zp_csi_rs_res_set : Bool → ℕ → ℕ → ℕ → List ℕ
  pub csi_rs_csi_im_act_deact_mac_ce : Bool → ℕ → ℕ → Bool → ℕ → ℕ → List ℕ
  pub tci_s : ℕ → List ℕ
  pub tag_id : ℕ

-- the loop that sets the bit of each selected state, with the rounds left
unfoldable pub set_bits : List Bool → ℕ → ℕ → List ℕ → List ℕ
set_bits selected zero i bytes = bytes
set_bits selected (suc rounds) i bytes =
    let marked =
      if get_or selected i false
      then modify bytes (i / 8) (λ b. bit_or b (2 ^ (i % 8)))
      else bytes in
    set_bits selected rounds (suc i) marked

module _ (lay : CeLayout) where
  -- `NR_MAC_SUBHEADER_FIXED` with R = 0
  abbrev pub subheader_fixed : ℕ → List ℕ
  subheader_fixed lcid = lcid % 64 ∷ []

  -- an element that is written if it is scheduled
  abbrev pub when_scheduled : {A : Type 0} → (A → List ℕ) → Option A → List ℕ
  when_scheduled write none = []
  when_scheduled write (some a) = write a

  -- the DRX command
  unfoldable pub write_drx : ℕ → List ℕ
  write_drx drx_cmd = if drx_cmd == 255 then [] else subheader_fixed lay.dl_sch_lcid_drx

  -- the timing advance; `none` is a failed assertion
  unfoldable pub write_ta : Bool → ℕ → Option (List ℕ)
  write_ta ta_apply ta_update =
      if ta_apply
      then (if ltb ta_update 64
          then some
              (subheader_fixed lay.dl_sch_lcid_ta_command ++ lay.nr_mac_ce_ta ta_update lay.tag_id)
          else none)
      else some []

  -- the contention resolution identity
  unfoldable pub write_con_res : List ℕ → List ℕ
  write_con_res ue_cont_res_id = subheader_fixed lay.dl_sch_lcid_con_res_id ++ take 6 ue_cont_res_id

  unfoldable pub write_pdcch_state : PdcchStateInd → List ℕ
  write_pdcch_state c =
      subheader_fixed lay.dl_sch_lcid_tci_state_ind_ue_spec_pdcch
      ++ lay.nr_tci_pdcch (c.coreset_id % 16 / 2) (c.serving_cell_id % 32) (c.tci_state_id % 128)
          (c.coreset_id % 2)

  unfoldable pub write_sp_csi : SpCsiReporting → List ℕ
  write_sp_csi c =
      let s = λ (i : ℕ). get_or c.s0tos3_act_deact i false in
      subheader_fixed lay.dl_sch_lcid_sp_csi_rep_pucch_act
      ++ lay.nr_pucch_csi_reporting (c.bwp_id % 4) (c.serving_cell_id % 32) (s 0) (s 1) (s 2) (s 3)

  -- the two elements with a bit for each state, by their logical channel
  unfoldable pub write_states : ℕ → StateSelection → List ℕ
  unfolding set_bits
  write_states lcid c =
      let num_octects = (c.highest / 8 + 1) % 256 in
      let fixed = lay.nr_tci_pdsch_aperiodic_csi (c.bwp_id % 4) (c.serving_cell_id % 32) in
      let states = set_bits c.selected (num_octects * 8) 0 (replicate num_octects 0) in
      (lcid % 64) ∷ (length fixed + num_octects) % 256 ∷ (fixed ++ states)

  unfoldable pub write_sp_zp : SpZpCsiRs → List ℕ
  write_sp_zp c =
      subheader_fixed lay.dl_sch_lcid_sp_zp_csi_rs_res_set_act
      ++ lay.nr_mac_ce_sp_zp_csi_rs_res_set c.act_deact (c.serv_cell_id % 32) (c.bwpid % 4)
          (c.rsc_id % 16)

  -- the loop over the TCI states
  unfoldable pub write_tci_states : List ℕ → List ℕ
  write_tci_states [] = []
  write_tci_states (id ∷ ids) = lay.tci_s (id % 128) ++ write_tci_states ids

  -- without IM the last byte, `SP_CSI_IMID`, is not written
  unfoldable pub write_csi_im : CsiIm → List ℕ
  unfolding write_tci_states
  write_csi_im c =
      let whole =
        lay.csi_rs_csi_im_act_deact_mac_ce c.act_deact (c.serv_cellid % 64) c.bwp_id c.im
          c.nzp_csi_rsc_id c.csi_im_rsc_id in
      let fixed = if c.im then whole else take (length whole - 1) whole in
      subheader_fixed lay.dl_sch_lcid_sp_csi_rs_csi_im_res_set_act
      ++ (fixed ++ (if c.act_deact then write_tci_states c.tci_state_id else []))

  -- `nr_write_ce_dlsch_pdu`: the bytes that are written; `none` is a failed assertion
  unfoldable pub nr_write_ce_dlsch_pdu : ℕ → Option (List ℕ) → Bool → ℕ → MacCe → Option (List ℕ)
  unfolding write_drx write_ta write_con_res write_pdcch_state write_sp_csi write_states write_sp_zp
      write_csi_im
  nr_write_ce_dlsch_pdu drx_cmd ue_cont_res_id ta_apply ta_update ce =
      elim (write_ta ta_apply ta_update) [
        | none ↦ none
        | some ta ↦ some (
            write_drx drx_cmd
            ++ (ta
                ++ (when_scheduled write_con_res ue_cont_res_id
                    ++ (when_scheduled write_pdcch_state ce.pdcch_state_ind
                        ++ (when_scheduled write_sp_csi ce.sp_csi_reporting_pucch
                            ++ (when_scheduled
                                  (write_states lay.dl_sch_lcid_tci_state_act_ue_spec_pdsch)
                                  ce.pdsch_tci_states
                                ++ (when_scheduled
                                      (write_states lay.dl_sch_lcid_aperiodic_csi_tri_state_subsel)
                                      ce.aperi_csi_trigger
                                    ++ (when_scheduled write_sp_zp ce.sp_zp_csi_rs
                                        ++ when_scheduled write_csi_im ce.csi_im))))))))
      ]
