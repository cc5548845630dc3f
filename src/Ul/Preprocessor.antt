-- ===== src/Ul/Preprocessor.antt =====
-- `nr_ulsch_preprocessor` of gnb_patch/gNB_scheduler_ulsch.c: which uplink slots are scheduled, one
-- after the other, from a downlink slot.
pub mod Target
pub mod Ends
use user_ric.Prelude.{
  ℕ, zero, suc, ◌+◌, ◌-◌, ◌*◌, ◌/◌, ◌%◌, Bool, true, false, not, ◌&&◌, List, [], Option, none, some,
  if◌then◌else◌, ◌==◌, ltb, leb, min, get_or, get_elem?, set, take, drop, replicate,
}
use user_ric.Prelude.Int.{ℤ, pos, pos_part, ◌-ℤ◌, ltb_ℤ, eqb_ℤ}
use user_ric.Prelude.Float.{Float}
use user_ric.Slice.Assoc.{AssocEntry}
use user_ric.Slice.Runtime.{RuntimeEntry}
use user_ric.UeLa.Reload.{Environment, LaState}
use user_ric.Harq.{NrList}
use user_ric.Frame.{Fsn, fs_add_delta, fs_get_diff}
use user_ric.Frame.Next.{next_ul_slot}
use user_ric.Tda.{TdaInfo, Choice, get_best_ul_tda}
use user_ric.Tda.Slot.{UlSlots, get_num_ul_tda}
use user_ric.Ul.{UlPassUe, UlGnb, UlConfig, UlSlot, UlShared}
use user_ric.Ul.Pass.{UlCell, pf_ul}

-- What the gNB keeps from one call to the next: `ul_next`, and what a pass works on. `vrb_map_ul` has
-- the words of all slots of the buffer, first by the index of the slot, then by the beam.
pub record UlMac (fl : Float) (nr : NrList) (g : UlGnb) : Type 0 where
  pub ul_next : Fsn
  pub policy : LaState fl
  pub ues : List (UlPassUe fl nr)
  pub runtime : List RuntimeEntry
  pub world : g.W
  pub vrb_map_ul : List (List (List ℕ))

-- What does not change: the slots of a period, the list of time domain allocations, the blocks that
-- are barred, and the gNB's `ul_buffer_index` for a frame and a slot.
pub record UlSetup : Type 0 where
  pub slots : UlSlots
  pub ul_tda : List TdaInfo
  pub ulprbbl : List ℕ
  pub ul_buffer_index : ℕ → ℕ → ℕ

-- what a round makes of the slot to schedule: no such slot exists, an assertion fails, the loop ends,
-- or a pass runs for the slot, with the number of blocks it may use
pub data Plan : Type 0 where
  unending : Plan
  failed : Plan
  stop : Fsn → Plan
  run_pass : Fsn → UlSlot → ℕ → Plan

-- how the loop ends; `out_of_fuel` is a loop with more rounds than the bound
pub data Outcome (A : Type 0) : Type 0 where
  out_of_fuel : Outcome A
  unending : Outcome A
  failed : Outcome A
  ended : A → Outcome A

-- what one round leaves: the loop has ended, or goes on with the new `max_dci`
pub data Round (A : Type 0) : Type 0 where
  unending : Round A
  failed : Round A
  over : A → Round A
  again : ℤ → A → Round A

module _ (fl : Float) (nr : NrList) (g : UlGnb) (cfg : UlConfig) (set_up : UlSetup)
    (current : Fsn) where
  -- `min_next`
  abbrev pub min_next : Fsn
  min_next =
      fs_add_delta cfg.numb_slots_frame g.max_frame_number (cfg.min_rxtx_time + g.get_ntn_koffset)
        current

  -- the next uplink slot that can be reached
  abbrev pub next_found : UlMac fl nr g → Option Fsn
  next_found mac =
      next_ul_slot cfg.numb_slots_frame g.max_frame_number g.is_ul_slot cfg.numb_slots_frame
        mac.ul_next min_next

  -- `last_dl`
  unfoldable pub last_dl : Bool
  last_dl = suc (current.s % set_up.slots.numb_slots_period) == cfg.num_dl_slots

  -- `max_dci` before the loop
  unfoldable pub begin_max_dci : ℕ
  begin_max_dci = min (cfg.carrier_bandwidth / (4 * g.nr_nb_reg_per_cce)) g.max_dci_coreset

  -- the words of one slot, for each beam
  abbrev pub words_at : UlMac fl nr g → Fsn → List (List ℕ)
  words_at mac next = get_or mac.vrb_map_ul (set_up.ul_buffer_index next.f next.s) []

  -- the arguments of a pass with the allocation `tda`
  abbrev pub slot_for : ℕ → TdaInfo → UlSlot
  slot_for tda info = record { frame = current.f; slot = current.s; tda = tda; tda_info = info }

  -- the assertions on the allocation found
  unfoldable pub plan_with : Fsn → ℕ → ℕ → Option TdaInfo → Plan
  plan_with next tda rb_len none = failed
  plan_with next tda rb_len (some info) =
      if info.valid_tda && ltb tda 16 then run_pass next (slot_for tda info) rb_len else failed

  -- `get_best_ul_tda` for the first beam, where some allocation can be taken
  unfoldable pub plan_best : UlMac fl nr g → Fsn → Option (Option ℕ × ℕ) → Plan
  unfolding get_best_ul_tda plan_with
  plan_best mac next none = failed
  plan_best mac next (some (none, n)) = stop next
  plan_best mac next (some (some first, n)) =
      let best =
        get_best_ul_tda g.sl_to_bitmap (get_or (words_at mac next) 0 []) set_up.ulprbbl 0
          cfg.carrier_bandwidth (take n (drop first set_up.ul_tda)) in
      let tda = first + best.best_tda in
      if n == 0
      then stop next
      else if leb n 16
      then plan_with next tda best.rb_len (get_elem? set_up.ul_tda tda)
      else failed

  -- from the next uplink slot on
  unfoldable pub plan_slot : UlMac fl nr g → Option Fsn → Plan
  unfolding fs_get_diff get_num_ul_tda plan_best ◌-ℤ◌
  plan_slot mac none = unending
  plan_slot mac (some next) =
      let k2 = fs_get_diff cfg.numb_slots_frame next current -ℤ pos g.get_ntn_koffset in
      if g.is_dl_slot current.s
      then (if ltb_ℤ (pos 0) k2
          then plan_best mac next
              (get_num_ul_tda g.sl_to_bitmap set_up.slots next.s (pos_part k2) set_up.ul_tda)
          else failed)
      else stop next

  -- the body of the loop up to `pf_ul`
  unfoldable pub plan : UlMac fl nr g → Plan
  unfolding plan_slot
  plan mac = plan_slot mac (next_found mac)

  module _ (env : ℕ → Environment) (assoc : List AssocEntry) where
    -- the state that a pass for this slot works on, and what it leaves
    abbrev pub cell_for : UlMac fl nr g → Fsn → UlCell fl nr g
    cell_for mac next = record {
      policy = mac.policy;
      ues = mac.ues;
      runtime = mac.runtime;
      world = mac.world;
      rballoc_mask = words_at mac next;
    }

    abbrev pub keep : UlMac fl nr g → Fsn → UlCell fl nr g → UlMac fl nr g
    keep mac next cell = record {
      ul_next = next;
      policy = cell.policy;
      ues = cell.ues;
      runtime = cell.runtime;
      world = cell.world;
      vrb_map_ul = set mac.vrb_map_ul (set_up.ul_buffer_index next.f next.s) cell.rballoc_mask;
    }

    -- after `pf_ul`
    unfoldable pub after_pass :
        ℤ → UlMac fl nr g → Fsn → Option (ℤ × UlCell fl nr g × UlShared g) → Round (UlMac fl nr g)
    unfolding last_dl fs_add_delta ◌-ℤ◌
    after_pass max_dci mac next none = failed
    after_pass max_dci mac next (some (sched, cell, _)) =
        let mac1 = keep mac next cell in
        if eqb_ℤ sched (pos 0) && not last_dl
        then over mac1
        else again (max_dci -ℤ sched)
            (record mac1 { ul_next = fs_add_delta cfg.numb_slots_frame g.max_frame_number 1 next })

    -- from the plan on, in the environment of this round
    unfoldable pub act : Environment → ℤ → UlMac fl nr g → Plan → Round (UlMac fl nr g)
    unfolding pf_ul after_pass
    act now max_dci mac unending = unending
    act now max_dci mac failed = failed
    act now max_dci mac (stop next) = over (record mac { ul_next = next })
    act now max_dci mac (run_pass next at rb_len) = after_pass max_dci mac next (
        pf_ul fl nr g cfg now assoc at (pos_part max_dci) (replicate cfg.num_beams (pos rb_len))
          (cell_for mac next))

    -- the test of the loop, and its body
    unfoldable pub round : Environment → ℤ → UlMac fl nr g → Round (UlMac fl nr g)
    unfolding plan act
    round now max_dci mac =
        if ltb_ℤ (pos 0) max_dci then act now max_dci mac (plan mac) else over mac

    -- the loop, with a bound on its rounds, which also numbers the environments
    unfoldable pub rounds : ℕ → ℤ → UlMac fl nr g → Outcome (UlMac fl nr g)
    unfolding round
    rounds zero max_dci mac = out_of_fuel
    rounds (suc fuel) max_dci mac = elim (round (env fuel) max_dci mac) [
      | unending ↦ unending
      | failed ↦ failed
      | over mac1 ↦ ended mac1
      | again max_dci1 mac1 ↦ rounds fuel max_dci1 mac1
    ]

    -- `nr_ulsch_preprocessor`
    unfoldable pub nr_ulsch_preprocessor : ℕ → UlMac fl nr g → Outcome (UlMac fl nr g)
    unfolding begin_max_dci rounds
    nr_ulsch_preprocessor fuel mac = rounds fuel (pos begin_max_dci) mac
