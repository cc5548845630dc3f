-- ===== src/Ul.antt =====
-- The data of uplink grants in gnb_patch/gNB_scheduler_ulsch.c, and the functions of the gNB that are
-- called for them.
pub mod Post
pub mod Retrans
pub mod Prepare
pub mod Serve
pub mod Pass
pub mod Preprocessor
use user_ric.Prelude.{ℕ, Bool, List, Option}
use user_ric.Prelude.Int.{ℤ}
use user_ric.Prelude.Float.{Float}
use user_ric.Tda.{TdaInfo}
use user_ric.Activity.{FrameStructure}
use user_ric.Slice.Runtime.{RuntimeEntry}
use user_ric.Blocks.{Allocation}
use user_ric.Harq.{NrList}
use user_ric.Harq.Grant.{UlUe}
use user_ric.Power.{Phy, UlBwp}
use user_ric.Power.Factor.{UlBand}
use user_ric.Dl.{BeamAlloc}

-- `NR_pusch_dmrs_t`, as far as it is used
pub record PuschDmrs : Type 0 where
  pub n_prb_dmrs : ℕ
  pub num_dmrs_symb : ℕ

-- `NR_sched_pusch_t`; `none` is -1
pub record PuschSched : Type 0 where
  pub ul_harq_pid : Option ℕ
  pub frame : ℕ
  pub slot : ℕ
  pub rb_start : ℕ
  pub rb_size : ℕ
  pub mcs : ℕ
  pub qm : ℕ
  pub r : ℕ
  pub tb_size : ℕ
  pub nr_of_layers : ℕ
  pub time_domain_allocation : ℕ
  pub tda_info : TdaInfo
  pub dmrs_info : PuschDmrs
  pub bwp_start : ℕ
  pub bwp_size : ℕ
  pub phr_txpower_calc : ℤ

-- `NR_UE_info_t` with its `UE_sched_ctrl`, as far as the uplink scheduler uses them. `harq_pusch` has
-- the `sched_pusch` of each HARQ process; the record of grants in `ul` is used only during a call, the
-- table itself is shared by all UEs.
pub record UlPassUe (fl : Float) (nr : NrList) : Type 0 where
  pub rnti : ℕ
  pub ue_beam_index : ℕ
  pub ul_failure : Bool
  pub ul_thr_ue : fl.F
  pub ul : UlUe nr
  pub harq_pusch : List PuschSched
  pub estimated_ul_buffer : ℕ
  pub transm_interrupt : Bool
  pub ul_band : UlBand
  pub ul_bwp : UlBwp
  pub scs : ℕ
  pub transform_precoding : Bool
  pub pcmax : ℤ
  pub ph : ℤ
  pub ul_bler_mcs : ℕ
  pub ul_cce_fail : ℕ
  pub cce_index : Option ℕ

-- The functions of the gNB, with a UE as its RNTI; `W` is what they keep.
pub record UlGnb : Type 1 where
  pub W : Type 0
  pub get_cce_index : W → ℕ → ℕ → ℕ → Option ℕ × W
  pub fill_pdcch_vrb_map : W → ℕ → ℕ → ℕ → W
  pub get_ul_dmrs_params : ℕ → TdaInfo → ℕ → PuschDmrs
  -- success, the size of the block in bytes and the number of resource blocks
  pub nr_find_nb_rb : ℕ → ℕ → Bool → ℕ → ℕ → ℕ → ℕ → ℕ → ℕ → Bool × ℕ × ℕ
  pub beam_allocation_procedure : W → ℕ → ℕ → ℕ → BeamAlloc × W
  pub reset_beam_status : W → ℕ → ℕ → ℕ → Bool → W
  -- from the MCS in the statistics and the largest MCS: the MCS, and the new one in the statistics
  pub get_mcs_from_bler : W → ℕ → ℕ → ℕ → ℕ → ℕ × ℕ × W
  pub get_ul_nr_of_layers : W → ℕ → ℕ
  pub is_ul_slot : ℕ → Bool
  pub is_dl_slot : ℕ → Bool
  pub phy : Phy
  pub qsort : {A : Type 0} → (A → A → ℤ) → List A → List A
  pub nr_nb_reg_per_cce : ℕ
  pub max_dci_coreset : ℕ
  pub sl_to_bitmap : ℕ → ℕ → ℕ
  pub get_ntn_koffset : ℕ
  pub max_frame_number : ℕ

-- fields of `gNB_MAC_INST` that are read
pub record UlConfig : Type 0 where
  pub numb_slots_frame : ℕ
  pub disable_harq : Bool
  pub harq_round_max : ℕ
  pub frame_structure : FrameStructure
  pub min_grant_prb : ℕ
  pub ulsch_max_frame_inactivity : ℕ
  pub bler_max_mcs : ℕ
  pub min_rxtx_time : ℕ
  pub num_dl_slots : ℕ
  pub carrier_bandwidth : ℕ
  -- `beams_per_period`, or 1 without beam allocation
  pub num_beams : ℕ

-- the arguments of a pass: the slot, and the time domain allocation with its index
pub record UlSlot : Type 0 where
  pub frame : ℕ
  pub slot : ℕ
  pub tda : ℕ
  pub tda_info : TdaInfo

-- What the calls of one pass share: the state of the gNB, the words of the map of used blocks that
-- belong to the slot of the transmission for each beam (`rballoc_mask`), the table of grants, and the
-- local variables `remainUEs`, `n_rb_sched` and `scheduled_something`. Two fields have no counterpart
-- in the source: `allocations` lists the new transmissions of the pass, the latest first, and `resent`
-- counts the retransmissions.
pub record UlShared (g : UlGnb) : Type 0 where
  pub world : g.W
  pub rballoc_mask : List (List ℕ)
  pub runtime : List RuntimeEntry
  pub remain_ues : List ℤ
  pub n_rb_sched : List ℤ
  pub scheduled_something : Bool
  pub allocations : List Allocation
  pub resent : ℕ
