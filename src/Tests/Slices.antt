-- ===== src/Tests/Slices.antt =====
-- The slices: gnb_patch/rk_slice_policy.c and gnb_patch/ran_func_slice.c.
use user_ric.Prelude.{
  ℕ, ◌≡◌, refl, List, [], ◌∷◌, none, some, arith, true, false, ◌⊎◌, map, if◌then◌else◌, ◌&&◌, ◌==◌,
  ◌≤◌,
}
use user_ric.Prelude.Int.{pos, to_u16, ◌-ℤ◌}
use user_ric.Prelude.Slots.{find, find_index, modify, count}
use user_ric.Prelude.Alloc.{find_or_create, claim_slot, write_through, deref}
use user_ric.Prelude.Keyed
use user_ric.Prelude.Fill.{Fits}
use user_ric.Slice.Policy.{policy_get}
use user_ric.Slice.Assoc.{AssocEntry, update_by_rnti, get_dl_id, get_ul_id}
use user_ric.Slice.Assoc as Assoc
use user_ric.Slice.Assoc.Lookup.{assoc, view, accepts, view-update_by_rnti}
use user_ric.Slice.Assoc.Capacity.{IsWellFormed, update_by_rnti-IsWellFormed, initial-IsWellFormed}
use user_ric.Slice.Control.{UeSliceAssoc, ControlMessage, Answer, write_ctrl_slice_sm}
use user_ric.Slice.Control.Last.{stored, write_ctrl-ue_slice_assoc, write_ctrl-IsWellFormed}
use user_ric.Slice.Runtime.{dl_should_throttle, ul_should_throttle}
use user_ric.Slice.Runtime.Tracking.{
  Grant, dl, ul, replay, distinct, Recorded, replay-Recorded, granted,
}
use user_ric.Slice.Runtime.History.{
  Throttles, should_throttle-replay, should_throttle_sound, dl_ticks, ul_ticks, run_ending,
  limit_filled,
}

run : Unit {0}
unfolding find find_index modify count find_or_create claim_slot write_through deref Keyed.view
    Keyed.used Keyed.update Assoc.initial to_u16 update_by_rnti get_dl_id get_ul_id
    write_ctrl_slice_sm policy_get
run = tt

-- A UE that has been given slices 3 and 5, and one that has not.
abbrev table : List AssocEntry
table = update_by_rnti 0x1234 (pos 3) (pos 5) Assoc.initial

table_ids :
    (get_dl_id 0x1234 table ≡ pos 3)
    × (get_ul_id 0x1234 table ≡ pos 5)
    × (get_dl_id 0x1235 table ≡ pos 0)
unfolding run
table_ids = (refl, refl, refl)

-- An identifier past 2 ^ 16 comes back as another slice.
wide_id : get_dl_id 0x1234 (update_by_rnti 0x1234 (pos 65539) (pos 0) table) ≡ pos 3
unfolding run
wide_id = refl

abbrev associations : List UeSliceAssoc
associations =
    record { rnti = 0x1234; dl_id = pos 1; ul_id = pos 1 }
    ∷ record { rnti = 0x4321; dl_id = pos 4; ul_id = pos 4 }
    ∷ record { rnti = 0x1234; dl_id = pos 6; ul_id = pos 2 }
    ∷ []

associations_fit : Fits assoc (map stored associations) table
unfolding run
associations_fit = omega arith

view-update_by_rnti_example : view (update_by_rnti 0x4321 (pos 65539) (pos 2) table) 0x4321 ≡ (
    if (0x4321 == 0x4321) && accepts table 0x4321
    then some (to_u16 (pos 65539), to_u16 (pos 2))
    else view table 0x4321)
view-update_by_rnti_example = view-update_by_rnti table 0x4321 0x4321 (pos 65539) (pos 2)

write_ctrl-ue_slice_assoc_example :
    (t' : List AssocEntry) × (write_ctrl_slice_sm (ControlMessage.ue_slice_assoc associations) table
      ≡ some (Answer.ctrl_outcome, t'))
    × ((q : ℕ) → view t' q ≡ Keyed.last_for q (map stored associations) (view table q))
write_ctrl-ue_slice_assoc_example = write_ctrl-ue_slice_assoc associations table associations_fit

write_ctrl-IsWellFormed_example :
    let m = ControlMessage.ue_slice_assoc associations in
    ((m ≡ ControlMessage.unknown) × (write_ctrl_slice_sm m table ≡ none))
    ⊎ (((m ≡ ControlMessage.add) ⊎ (m ≡ ControlMessage.del))
        × (write_ctrl_slice_sm m table ≡ some (Answer.ctrl_outcome, table)))
    ⊎ ((ues : List UeSliceAssoc) × (t' : List AssocEntry) × (m ≡ ControlMessage.ue_slice_assoc ues)
        × (write_ctrl_slice_sm m table ≡ some (Answer.ctrl_outcome, t'))
        × IsWellFormed t')
write_ctrl-IsWellFormed_example =
    write_ctrl-IsWellFormed (ControlMessage.ue_slice_assoc associations) table
      (update_by_rnti-IsWellFormed Assoc.initial 0x1234 (pos 3) (pos 5) initial-IsWellFormed.0)

-- Two downlink grants in successive ticks, and one of another UE.
abbrev grants : List Grant
grants = dl 7 (pos 11) ∷ dl 8 (pos 11) ∷ ul 7 (pos 10) ∷ dl 7 (pos 10) ∷ dl 7 (pos 3) ∷ []

few_ues : distinct grants ≤ 256
unfolding distinct granted
few_ues = omega arith

throttled_after_two :
    (limit_filled (pos 12) (pos 2) (dl_ticks 7 grants) ≡ true)
    × (limit_filled (pos 12) (pos 3) (dl_ticks 7 grants) ≡ false)
unfolding run_ending dl_ticks ◌-ℤ◌
throttled_after_two = (refl, refl)

replay-Recorded_example : Recorded 7 grants
replay-Recorded_example = replay-Recorded 7 grants

should_throttle-replay_example : Throttles 7 (pos 12) (pos 2) grants
should_throttle-replay_example = should_throttle-replay grants 7 (pos 12) (pos 2) few_ues

should_throttle_sound_example :
    ((dl_should_throttle 7 (pos 12) (pos 2) (replay grants) ≡ false)
      ⊎ (limit_filled (pos 12) (pos 2) (dl_ticks 7 grants) ≡ true))
    × ((ul_should_throttle 7 (pos 12) (pos 2) (replay grants) ≡ false)
        ⊎ (limit_filled (pos 12) (pos 2) (ul_ticks 7 grants) ≡ true))
should_throttle_sound_example = should_throttle_sound grants 7 (pos 12) (pos 2)
