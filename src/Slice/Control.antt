-- ===== src/Slice/Control.antt =====
-- The E2 control handler of the slice service model, gnb_patch/ran_func_slice.c: it hands each
-- association of an ASSOC message to the table.
pub mod Last
use user_ric.Prelude.{ℕ, ◌+◌, Bool, true, false, List, [], ◌∷◌, Option, none, some, ◌%◌}
use user_ric.Prelude.Int.{ℤ, pos}
use user_ric.Slice.Assoc.{AssocEntry, update_by_rnti}

-- `ue_slice_assoc_t`, as far as the handler reads it
pub record UeSliceAssoc : Type 0 where
  pub rnti : ℕ
  pub dl_id : ℤ
  pub ul_id : ℤ

-- `msg->type`, with the list that an ASSOC message carries (empty for a null pointer)
pub data ControlMessage : Type 0 where
  add : ControlMessage
  del : ControlMessage
  ue_slice_assoc : List UeSliceAssoc → ControlMessage
  unknown : ControlMessage

-- `sm_ag_if_ans_t`: the one answer of the handler
pub data Answer : Type 0 where
  ctrl_outcome : Answer

-- the loop over `msg->u.ue_slice.ues`
unfoldable pub assoc_all : List UeSliceAssoc → List AssocEntry → List AssocEntry
assoc_all [] t = t
assoc_all (a ∷ as_rest) t = assoc_all as_rest (update_by_rnti (a.rnti % 65536) a.dl_id a.ul_id t)

-- `write_ctrl_slice_sm`; `none` is the failed assertion on an unknown message type
unfoldable pub write_ctrl_slice_sm :
    ControlMessage → List AssocEntry → Option (Answer × List AssocEntry)
unfolding assoc_all
write_ctrl_slice_sm add t = some (ctrl_outcome, t)
write_ctrl_slice_sm del t = some (ctrl_outcome, t)
write_ctrl_slice_sm (ue_slice_assoc ues) t = some (ctrl_outcome, assoc_all ues t)
write_ctrl_slice_sm unknown t = none
