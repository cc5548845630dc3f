-- ===== src/Slice/Control/Last.antt =====
-- What an ASSOC message does to the table, and that the handler keeps the table well formed.
use mathlib.Core.List.{map}
use user_ric.Prelude.{ℕ, ◌%◌, ◌≡◌, refl, ◌∙◌, ◌⊎◌, inl, inr, List, [], ◌∷◌, none, some}
use user_ric.Prelude.Int.{to_u16}
use user_ric.Prelude.Keyed.{put_all, last_for}
use user_ric.Prelude.Fill.{Fits, put_all-view}
use user_ric.Slice.Assoc.{AssocEntry}
use user_ric.Slice.Assoc.Lookup.{assoc, view, update-eq-update}
use user_ric.Slice.Assoc.Capacity.{IsWellFormed, update_by_rnti-IsWellFormed}
use user_ric.Slice.Control.{UeSliceAssoc, ControlMessage, Answer, assoc_all, write_ctrl_slice_sm}

-- a UE and its slices, as the table stores them
abbrev pub stored : UeSliceAssoc → ℕ × (ℕ × ℕ)
stored a = (a.rnti % 65536, (to_u16 a.dl_id, to_u16 a.ul_id))

assoc_all-eq-put_all :
    (ues : List UeSliceAssoc) (t : List AssocEntry)
    → assoc_all ues t ≡ put_all assoc (map stored ues) t
unfolding assoc_all put_all
assoc_all-eq-put_all [] t = refl
assoc_all-eq-put_all (a ∷ ues) t = assoc_all-eq-put_all ues _ ∙ rw update-eq-update

-- If the table has room for the different UEs of the list that have no entry, then after an ASSOC
-- message each UE has the slices of its last association in the message, reduced modulo 2 ^ 16,
-- and a UE that the message does not name keeps its own. The message is always answered.
pub write_ctrl-ue_slice_assoc :
    (ues : List UeSliceAssoc) (t : List AssocEntry)
    → Fits assoc (map stored ues) t
    → (t' : List AssocEntry) × (write_ctrl_slice_sm (ControlMessage.ue_slice_assoc ues) t
        ≡ some (Answer.ctrl_outcome, t'))
      × ((q : ℕ) → view t' q ≡ last_for q (map stored ues) (view t q))
unfolding write_ctrl_slice_sm
write_ctrl-ue_slice_assoc ues t room = (
  assoc_all ues t,
  refl,
  λ q. rw assoc_all-eq-put_all (put_all-view assoc (map stored ues) t q room),
)

assoc_all-IsWellFormed :
    (ues : List UeSliceAssoc) (t : List AssocEntry)
    → IsWellFormed t
    → IsWellFormed (assoc_all ues t)
unfolding assoc_all
assoc_all-IsWellFormed [] t w = w
assoc_all-IsWellFormed (a ∷ ues) t w =
    assoc_all-IsWellFormed ues _ (update_by_rnti-IsWellFormed t (a.rnti % 65536) a.dl_id a.ul_id w)

-- Only a message of unknown type is not answered. An ADD or DEL message leaves the table as it was,
-- and an ASSOC message leaves it well formed if it was.
pub write_ctrl-IsWellFormed :
    (m : ControlMessage) (t : List AssocEntry)
    → IsWellFormed t
    → ((m ≡ ControlMessage.unknown) × (write_ctrl_slice_sm m t ≡ none))
      ⊎ (((m ≡ ControlMessage.add) ⊎ (m ≡ ControlMessage.del))
          × (write_ctrl_slice_sm m t ≡ some (Answer.ctrl_outcome, t)))
      ⊎ ((ues : List UeSliceAssoc) × (t' : List AssocEntry) × (m
            ≡ ControlMessage.ue_slice_assoc ues)
          × (write_ctrl_slice_sm m t ≡ some (Answer.ctrl_outcome, t'))
          × IsWellFormed t')
unfolding write_ctrl_slice_sm
write_ctrl-IsWellFormed ControlMessage.add t w = inr (inl (inl refl, refl))
write_ctrl-IsWellFormed ControlMessage.del t w = inr (inl (inr refl, refl))
write_ctrl-IsWellFormed (ControlMessage.ue_slice_assoc ues) t w =
    inr (inr (ues, assoc_all ues t, refl, refl, assoc_all-IsWellFormed ues t w))
write_ctrl-IsWellFormed ControlMessage.unknown t w = inl (refl, refl)
