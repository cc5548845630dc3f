-- ===== src/Slice/Assoc/Capacity.antt =====
-- The shape of the association table of gnb_patch/rk_slice_policy.c, and its capacity.
use user_ric.Prelude.{
  ℕ, ◌+◌, ◌≡◌, refl, ◌∙◌, List, none, arith, if◌then◌else◌, is_some, not, ◌&&◌, length,
}
use user_ric.Prelude.Int.{ℤ, to_u16}
use user_ric.Prelude.Slots.{find, count}
use user_ric.Prelude.Keyed
use user_ric.Prelude.Keyed.{HoldsOnce}
use user_ric.Slice.Assoc.Lookup.{assoc, view, used, accepts, update-eq-update}
use user_ric.Slice.Assoc.{AssocEntry, update_by_rnti, assoc_max, initial}

-- The invariant of the table: it has its 256 entries, and no UE has two.
pub record IsWellFormed (t : List AssocEntry) : Type 0 where
  pub size : length t ≡ assoc_max
  pub once : HoldsOnce assoc t

-- An update keeps the table well formed, whether it finds, creates or lacks an entry.
pub update_by_rnti-IsWellFormed :
    (t : List AssocEntry) (rnti : ℕ) (dl ul : ℤ)
    → IsWellFormed t
    → IsWellFormed (update_by_rnti rnti dl ul t)
update_by_rnti-IsWellFormed t rnti dl ul w = rw update-eq-update (record {
  size = Keyed.length-update assoc rnti (to_u16 dl, to_u16 ul) t ∙ w.size;
  once = Keyed.update-HoldsOnce assoc rnti (to_u16 dl, to_u16 ul) t w.once;
})

-- At start the table is well formed, and no UE has an entry.
pub initial-IsWellFormed : IsWellFormed initial × ((q : ℕ) → view initial q ≡ none)
unfolding Keyed.view count find initial
initial-IsWellFormed = (record { size = refl; once = λ q. omega arith }, λ q. refl)

-- An update fills at most one entry: one more is in use exactly if the UE was new and was accepted.
-- So no more than the 256 entries are ever in use, and no entry is given back.
used-update_by_rnti :
    (t : List AssocEntry) (rnti : ℕ) (dl ul : ℤ)
    → used (update_by_rnti rnti dl ul t)
      ≡ used t + (if not (is_some (view t rnti)) && accepts t rnti then 1 else 0)
used-update_by_rnti t rnti dl ul =
    rw update-eq-update (Keyed.used-update assoc rnti (to_u16 dl, to_u16 ul) t)
