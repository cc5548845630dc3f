-- ===== src/Activity.antt =====
-- Whether a UE is to be scheduled: `nr_UE_is_to_be_scheduled` of
-- gnb_patch/gNB_scheduler_ulsch.c.
pub mod Due
use user_ric.Prelude.{ℕ, ◌+◌, ◌-◌, ◌*◌, ◌%◌, Bool, true, false, ◌||◌, if◌then◌else◌, ltb, leb, min}

-- `frame_structure_t`, with the result of `get_first_ul_slot`, which is the gNB's
pub record FrameStructure : Type 0 where
  pub numb_slots_frame : ℕ
  pub numb_slots_period : ℕ
  pub is_tdd : Bool
  pub first_ul_slot : ℕ

-- the fields of `NR_UE_sched_ctrl_t` that are read
pub record UlActivity : Type 0 where
  pub estimated_ul_buffer : ℕ
  pub sched_ul_bytes : ℕ
  pub sr : Bool
  pub last_ul_frame : ℕ
  pub last_ul_slot : ℕ

module _ (fs : FrameStructure) where
  -- the number of slots since the last uplink
  unfoldable pub inactive_slots : UlActivity → ℕ → ℕ → ℕ
  inactive_slots u frame slot =
      let n = fs.numb_slots_frame in
      let now = frame * n + slot in
      let last_ul_slot = if fs.is_tdd then fs.first_ul_slot else u.last_ul_slot in
      let last_ul_sched = u.last_ul_frame * n + last_ul_slot in
      (now + 1024 * n - last_ul_sched) % (1024 * n)

  -- `nr_UE_is_to_be_scheduled`; the product with a `uint32_t` is one modulo 2 ^ 32
  unfoldable pub nr_ue_is_to_be_scheduled : UlActivity → ℕ → ℕ → ℕ → Bool
  unfolding inactive_slots
  nr_ue_is_to_be_scheduled u frame slot ulsch_max_frame_inactivity =
      let has_data = ltb u.sched_ul_bytes u.estimated_ul_buffer in
      let allowed =
        if ltb 0 ulsch_max_frame_inactivity
        then ulsch_max_frame_inactivity * fs.numb_slots_frame % 4294967296
        else fs.numb_slots_period in
      let high_inactivity = leb allowed (inactive_slots u frame slot) in
      has_data || (u.sr || high_inactivity)
