-- ===== src/Power.antt =====
-- Fitting an uplink grant to the power that a UE has left: `update_ul_ue_R_Qm` and
-- `nr_ue_max_mcs_min_rb` of gnb_patch/gNB_scheduler_ulsch.c.
pub mod Fit
pub mod Factor
use user_ric.Prelude.{
  ℕ, zero, suc, ◌+◌, ◌-◌, ◌*◌, ◌/◌, ◌%◌, Bool, true, false, ◌&&◌, ◌||◌, Option, none, some,
  if◌then◌else◌, ◌==◌, ltb, leb,
}
use user_ric.Prelude.Int.{ℤ, ltb_ℤ}

-- functions of the gNB: the tables of code rates and modulation orders, the size of a transport
-- block in bits and the power that it takes
pub record Phy : Type 0 where
  pub nr_get_code_rate_ul : ℕ → ℕ → ℕ
  pub nr_get_qm_ul : ℕ → ℕ → ℕ
  pub nr_compute_tbs : ℕ → ℕ → ℕ → ℕ → ℕ → ℕ → ℕ → ℕ → ℕ
  pub compute_ph_factor : ℕ → ℕ → ℕ → ℕ → ℕ → ℕ → Option ℤ → Bool → ℤ

-- `NR_PUSCH_Config_t`, as far as it is used
pub record PuschConfig : Type 0 where
  pub tp_pi2bpsk : Bool
  pub delta_mcs : Option ℤ

-- `NR_UE_UL_BWP_t`, with `none` for a null pointer
pub record UlBwp : Type 0 where
  pub mcs_table : ℕ
  pub pusch_config : Option PuschConfig

-- `NR_sched_pusch_t`, as far as it is used
pub record SchedPusch : Type 0 where
  pub nr_of_symbols : ℕ
  pub n_prb_dmrs : ℕ
  pub num_dmrs_symb : ℕ
  pub nr_of_layers : ℕ

abbrev pub pi2bpsk : Option PuschConfig → Bool
pi2bpsk none = false
pi2bpsk (some c) = c.tp_pi2bpsk

abbrev pub delta_mcs_of : Option PuschConfig → Option ℤ
delta_mcs_of none = none
delta_mcs_of (some c) = c.delta_mcs

module _ (phy : Phy) where
  -- `update_ul_ue_R_Qm`: the code rate and the modulation order (a `uint8_t`)
  unfoldable pub update_ul_ue_r_qm : ℕ → ℕ → Option PuschConfig → ℕ × ℕ
  update_ul_ue_r_qm mcs mcs_table pusch_config =
      let r = phy.nr_get_code_rate_ul mcs mcs_table in
      let qm = phy.nr_get_qm_ul mcs mcs_table in
      if pi2bpsk pusch_config && ((mcs_table == 3 && ltb mcs 2) || (mcs_table == 4 && ltb mcs 6))
      then (r / 2, qm * 2 % 256)
      else (r, qm)

  module _ (mu : ℕ) (ph_limit : ℤ) (sched_pusch : SchedPusch) (ul_bwp : UlBwp) where
    -- `nr_compute_tbs` and `compute_ph_factor`, as the function calls them each time
    unfoldable pub tx_power : ℕ × ℕ → ℕ → ℤ
    tx_power r_qm rb =
        let dmrs = sched_pusch.n_prb_dmrs * sched_pusch.num_dmrs_symb in
        let tbs_bits =
          phy.nr_compute_tbs r_qm.1 r_qm.0 rb sched_pusch.nr_of_symbols dmrs 0 0
            sched_pusch.nr_of_layers in
        phy.compute_ph_factor mu tbs_bits rb sched_pusch.nr_of_layers sched_pusch.nr_of_symbols dmrs
          (delta_mcs_of ul_bwp.pusch_config) true

    -- the power of a grant of `rb` blocks with an MCS
    unfoldable pub power : ℕ → ℕ → ℤ
    unfolding tx_power update_ul_ue_r_qm
    power mcs rb = tx_power (update_ul_ue_r_qm mcs ul_bwp.mcs_table ul_bwp.pusch_config) rb

    -- a loop `while (ph_limit < tx_power && n > least) n--`, with `rounds` for `n - least`
    unfoldable pub lower : (ℕ → ℤ) → ℕ → ℕ → ℕ
    lower needed zero n = n
    lower needed (suc rounds) n =
        let next = lower needed rounds (n - 1) in if ltb_ℤ ph_limit (needed n) then next else n

    -- `nr_ue_max_mcs_min_rb`: the new values of `*Rb` and `*mcs`, or `none` for a failed assertion
    unfoldable pub nr_ue_max_mcs_min_rb : ℕ → ℕ → ℕ → Option (ℕ × ℕ)
    unfolding power lower
    nr_ue_max_mcs_min_rb min_rb rb mcs =
        let rb' = lower (power mcs) (rb - min_rb) rb in
        let mcs' = lower (λ m. power m rb') mcs mcs in
        if leb min_rb rb && leb mcs 28 then some (rb', mcs') else none
