-- ===== src/Dl.antt =====
-- The data of the downlink scheduler of gnb_patch/gNB_scheduler_dlsch.c: what it reads and writes of
-- a UE, what its calls share, and the functions of the gNB that it calls.
pub mod Bwp
pub mod Buffer
pub mod Retrans
pub mod Prepare
pub mod Serve
pub mod Pass
use user_ric.Prelude.{ℕ, Bool, List, Option}
use user_ric.Prelude.Int.{ℤ}
use user_ric.Prelude.Float.{Float}
use user_ric.Blocks.{Allocation}

-- `bwp_info_t`
pub record BwpInfo : Type 0 where
  pub bwp_start : ℕ
  pub bwp_size : ℕ

-- `NR_tda_info_t`, as far as it is used
pub record PdschTda : Type 0 where
  pub valid_tda : Bool
  pub start_symbol_index : ℕ
  pub nr_of_symbols : ℕ

-- `NR_pdsch_dmrs_t`, as far as it is used
pub record PdschDmrs : Type 0 where
  pub n_prb_dmrs : ℕ
  pub n_dmrs_slot : ℕ

-- `NR_sched_pdsch_t`; `none` is -1 in the two identifiers
pub record SchedPdsch : Type 0 where
  pub dl_harq_pid : Option ℕ
  pub rb_start : ℕ
  pub rb_size : ℕ
  pub mcs : ℕ
  pub qm : ℕ
  pub r : ℕ
  pub tb_size : ℕ
  pub nr_of_layers : ℕ
  pub pm_index : ℕ
  pub time_domain_allocation : ℕ
  pub tda_info : PdschTda
  pub dmrs_parms : PdschDmrs
  pub pucch_allocation : Option ℕ
  pub bwp_info : BwpInfo

-- what decides the part of the band that a UE may use; the first field says that DCI format 1_0 is
-- decoded in a common search space
pub record DlBwp : Type 0 where
  pub common_search_space : Bool
  pub control_resource_set_id : ℕ
  pub bwp_start : ℕ
  pub bwp_size : ℕ
  pub initial_dl_bwp_size : ℕ
  pub mcs_table_idx : ℕ

-- `nr_lc_config_t`, as far as it is used
pub record LcConfig : Type 0 where
  pub lcid : ℕ
  pub suspended : Bool

-- `mac_rlc_status_resp_t`, as far as it is used
pub record RlcStatus : Type 0 where
  pub bytes_in_buffer : ℕ
  pub pdus_in_buffer : ℕ

-- `NR_UE_info_t` with its `UE_sched_ctrl`, as far as the scheduler uses them. The HARQ lists are
-- represented by their heads, which are all that is read; of the HARQ processes, only the
-- `sched_pdsch` is.
pub record DlUe (fl : Float) : Type 0 where
  pub rnti : ℕ
  pub ue_beam_index : ℕ
  pub ul_failure : Bool
  pub current_bytes : ℕ
  pub dl_thr_ue : fl.F
  pub retrans_dl_harq : Option ℕ
  pub available_dl_harq : Option ℕ
  pub harq_pdsch : List SchedPdsch
  pub sched_pdsch : SchedPdsch
  pub num_total_bytes : ℕ
  pub dl_pdus_total : ℕ
  pub lc_config : List LcConfig
  pub rlc_status : List RlcStatus
  pub transm_interrupt : Bool
  pub ta_frame : ℕ
  pub dl_max_mcs : ℕ
  pub dl_bler_mcs : ℕ
  pub dl_cce_fail : ℕ
  pub cce_index : Option ℕ
  pub dl_bwp : DlBwp

-- `NR_beam_alloc_t`, with `none` for a negative index
pub record BeamAlloc : Type 0 where
  pub idx : Option ℕ
  pub new_beam : Bool

-- The functions of the gNB and of the C library. `W` is what they keep: the beams in use, the
-- control channels in the downlink and the uplink, and the error statistics. A UE stands as its
-- RNTI for the structures that these functions read.
pub record Gnb : Type 1 where
  pub W : Type 0
  pub beam_allocation_procedure : W → ℕ → ℕ → ℕ → BeamAlloc × W
  pub reset_beam_status : W → ℕ → ℕ → ℕ → Bool → W
  pub get_cce_index : W → ℕ → ℕ → ℕ → Option ℕ × W
  pub fill_pdcch_vrb_map : W → ℕ → ℕ → ℕ → W
  pub get_feedback_disabled : ℕ → ℕ → Bool
  pub nr_get_pucch_resource : ℕ → ℕ → ℤ
  pub nr_acknack_scheduling : W → ℕ → ℕ → ℕ → ℕ → ℤ → Option ℕ × W
  pub get_mcs_from_bler : W → ℕ → ℕ → ℕ → ℕ × W
  pub get_dl_nr_of_layers : W → ℕ → ℕ
  pub get_pm_index : W → ℕ → ℕ → ℕ
  pub get_dl_tda_info : W → ℕ → ℕ → PdschTda
  pub get_dl_dmrs_params : ℕ → PdschTda → ℕ → PdschDmrs
  pub sched_pdcch_rb_start : W → ℕ → ℕ
  pub nr_mac_rlc_status_ind : W → ℕ → ℕ → ℕ → RlcStatus
  pub nr_get_qm_dl : ℕ → ℕ → ℕ
  pub nr_get_code_rate_dl : ℕ → ℕ → ℕ
  pub nr_compute_tbs : ℕ → ℕ → ℕ → ℕ → ℕ → ℕ → ℕ → ℕ → ℕ
  -- success, the size of the block in bytes and the number of resource blocks
  pub nr_find_nb_rb : ℕ → ℕ → ℕ → ℕ → ℕ → ℕ → ℕ → ℕ → ℕ → Bool × ℕ × ℕ
  -- the number of the logical channel of user data
  pub dl_sch_lcid_dtch : ℕ
  pub nr_nb_reg_per_cce : ℕ
  pub max_dci_coreset : ℕ
  pub sl_to_bitmap : ℕ → ℕ → ℕ
  pub get_slot_idx_in_period : ℕ → ℕ
  pub num_dl_symbols : ℕ → ℕ
  pub is_mixed_slot : ℕ → Bool
  pub qsort : {A : Type 0} → (A → A → ℤ) → List A → List A

-- fields of `gNB_MAC_INST` that the scheduler reads
pub record DlConfig : Type 0 where
  pub sched_csirs : ℕ
  pub is_tdd : Bool
  pub numb_slots_frame : ℕ
  pub cset0_bwp_start : ℕ
  pub cset0_bwp_size : ℕ
  pub harq_round_max : ℕ
  pub bler_max_mcs : ℕ
  pub carrier_bandwidth : ℕ
  -- `beams_per_period`, or 1 without beam allocation
  pub num_beams : ℕ

-- What the calls of one pass share: the state of the gNB, the map of used blocks of each beam
-- (`vrb_map`) and the local arrays `remainUEs` and `n_rb_sched`. Two fields have no
-- counterpart in the source: `allocations` lists the new transmissions of the pass, the latest first,
-- and `resent` counts the retransmissions.
pub record Shared (g : Gnb) : Type 0 where
  pub world : g.W
  pub vrb_map : List (List ℕ)
  pub remain_ues : List ℤ
  pub n_rb_sched : List ℤ
  pub allocations : List Allocation
  pub resent : ℕ
