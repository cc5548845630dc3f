-- ===== src/Slice/Assoc/Lookup.antt =====
-- The association table of gnb_patch/rk_slice_policy.c as a bounded map from UEs to slices.
use user_ric.Prelude.{
  ℕ, ◌≡◌, refl, inl, inr, Bool, true, List, Option, none, some, arith, if◌then◌else◌, ◌==◌, ◌&&◌,
  Option-cases,
}
use user_ric.Prelude.Int.{ℤ, pos, to_u16}
use user_ric.Prelude.Slots.{find}
use user_ric.Prelude.Alloc.{deref-find_or_create}
use user_ric.Prelude.Keyed
use user_ric.Prelude.Keyed.{Keyed, HoldsOnce}
use user_ric.Slice.Assoc.{AssocEntry, holds, is_free, fresh, update_by_rnti, get_dl_id, get_ul_id}

abbrev pub slices : AssocEntry → ℕ × ℕ
slices e = (e.dl_id, e.ul_id)

pub holds-valid : (k : ℕ) (e : AssocEntry) → holds k e ≡ true → e.valid ≡ true
holds-valid k e h = ground arith

pub holds-fresh : (k : ℕ) (e : AssocEntry) → holds k (fresh k e) ≡ true
holds-fresh k e = ground arith

pub holds_once : (j k : ℕ) (e : AssocEntry) → holds j e ≡ true → holds k e ≡ true → j ≡ k
holds_once j k e h h' = ground (arith, h, h')

-- the table as a keyed table
abbrev pub assoc : Keyed AssocEntry (ℕ × ℕ)
assoc = record {
  holds = holds;
  valid = λ e. e.valid;
  value = slices;
  fresh = fresh;
  put = λ _ ids e. record e { dl_id = ids.0; ul_id = ids.1 };
  holds-valid = holds-valid;
  holds_once = holds_once;
  holds-fresh = holds-fresh;
  holds-put = λ k v e h. h;
  value-put = λ k v e. refl;
}

-- What the table says of a UE: its slices, if it has an entry.
abbrev pub view : List AssocEntry → ℕ → Option (ℕ × ℕ)
view = Keyed.view assoc

-- A UE can be given slices if it has an entry, or if an entry is free.
abbrev pub accepts : List AssocEntry → ℕ → Bool
accepts = Keyed.accepts assoc

-- the number of entries in use
abbrev pub used : List AssocEntry → ℕ
used = Keyed.used assoc

-- the slices, or slice 0
abbrev pub dl_of : Option (ℕ × ℕ) → ℤ
dl_of none = pos 0
dl_of (some s) = pos s.0

abbrev pub ul_of : Option (ℕ × ℕ) → ℤ
ul_of none = pos 0
ul_of (some s) = pos s.1

-- The getters return what the table says of the UE, and slice 0 for a UE without an entry.
get_id-view :
    (t : List AssocEntry) (rnti : ℕ)
    → (get_dl_id rnti t ≡ dl_of (view t rnti)) × (get_ul_id rnti t ≡ ul_of (view t rnti))
unfolding get_dl_id get_ul_id Keyed.view
get_id-view t rnti =
    rw (deref-find_or_create (holds rnti) is_free (fresh rnti) (fresh rnti) t)
      (elim (Option-cases (find (holds rnti) t)) [
        | inl n ↦ rw n (refl, refl)
        | inr (e, h) ↦ rw h (refl, refl)
      ])

pub update-eq-update :
    (t : List AssocEntry) (rnti : ℕ) (dl ul : ℤ)
    → update_by_rnti rnti dl ul t ≡ Keyed.update assoc rnti (to_u16 dl, to_u16 ul) t
unfolding update_by_rnti Keyed.update
update-eq-update t rnti dl ul = refl

-- After an update of a UE that has an entry, or while an entry is free, the table gives that UE the
-- two slices, each reduced modulo 2 ^ 16, and every other UE what it gave it before. An update of a
-- new UE that finds no free entry changes nothing.
pub view-update_by_rnti :
    (t : List AssocEntry) (rnti q : ℕ) (dl ul : ℤ)
    → view (update_by_rnti rnti dl ul t) q
      ≡ (if (q == rnti) && accepts t rnti then some (to_u16 dl, to_u16 ul) else view t q)
view-update_by_rnti t rnti q dl ul =
    rw update-eq-update (Keyed.view-update assoc rnti (to_u16 dl, to_u16 ul) t q)
