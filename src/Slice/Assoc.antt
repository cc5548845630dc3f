-- ===== src/Slice/Assoc.antt =====
-- The association of UEs to slices, `g_rk_slice_assoc` of gnb_patch/rk_slice_policy.c.
pub mod Lookup
pub mod Capacity
use mathlib.Core.Option
use user_ric.Prelude.{
  ℕ, zero, suc, Bool, true, false, not, ◌&&◌, List, Option, none, some, if◌then◌else◌, ◌==◌,
  get_elem?, replicate,
}
use user_ric.Prelude.Int.{ℤ, pos, to_u16}
use user_ric.Prelude.Float.{Float}
use user_ric.Prelude.Alloc.{find_or_create, write_through, deref}
use user_ric.Slice.Policy.{Policy, policy_get, slice_id_none}

-- `rk_slice_assoc_entry_t`
pub record AssocEntry : Type 0 where
  pub rnti : ℕ
  pub dl_id : ℕ
  pub ul_id : ℕ
  pub valid : Bool

abbrev pub assoc_max : ℕ
assoc_max = 256

-- `g_rk_slice_assoc` when the program starts: static storage is zero
unfoldable pub initial : List AssocEntry
initial = replicate assoc_max (record { rnti = 0; dl_id = 0; ul_id = 0; valid = false })

abbrev pub holds : ℕ → AssocEntry → Bool
holds rnti e = e.valid && e.rnti == rnti

abbrev pub is_free : AssocEntry → Bool
is_free e = not e.valid

-- the entry that `rk_find_slice_assoc` writes into a free slot
abbrev pub fresh : ℕ → AssocEntry → AssocEntry
fresh rnti _ = record { rnti = rnti; dl_id = 0; ul_id = 0; valid = true }

-- `rk_find_slice_assoc`: the index of the entry, for the pointer, and the table
unfoldable pub find_slice_assoc : ℕ → Bool → List AssocEntry → Option ℕ × List AssocEntry
find_slice_assoc rnti = find_or_create (holds rnti) is_free (fresh rnti)

-- the two assignments through `e`
abbrev pub assign : ℤ → ℤ → AssocEntry → AssocEntry
assign dl ul e = record e { dl_id = to_u16 dl; ul_id = to_u16 ul }

-- `rk_slice_assoc_update_by_rnti`
unfoldable pub update_by_rnti : ℕ → ℤ → ℤ → List AssocEntry → List AssocEntry
unfolding find_slice_assoc
update_by_rnti rnti dl ul t = write_through (assign dl ul) (find_slice_assoc rnti true t)

-- `e->f`, or `RK_SLICE_ID_NONE` for a null pointer
abbrev pub id_or_none : (AssocEntry → ℕ) → Option AssocEntry → ℤ
id_or_none f none = pos slice_id_none
id_or_none f (some e) = pos (f e)

unfoldable pub get_dl_id : ℕ → List AssocEntry → ℤ
unfolding find_slice_assoc
get_dl_id rnti t = id_or_none (λ e. e.dl_id) (deref (find_slice_assoc rnti false t).0 t)

unfoldable pub get_ul_id : ℕ → List AssocEntry → ℤ
unfolding find_slice_assoc
get_ul_id rnti t = id_or_none (λ e. e.ul_id) (deref (find_slice_assoc rnti false t).0 t)

module _ (fl : Float) (rnti : ℕ) (t : List AssocEntry) where
  pub get_dl_weight : fl.F
  get_dl_weight = (policy_get fl (get_dl_id rnti t)).dl_weight_mul

  pub get_ul_weight : fl.F
  get_ul_weight = (policy_get fl (get_ul_id rnti t)).ul_weight_mul

  pub get_dl_rb_cap : ℤ
  get_dl_rb_cap = (policy_get fl (get_dl_id rnti t)).dl_rb_cap

  pub get_ul_rb_cap : ℤ
  get_ul_rb_cap = (policy_get fl (get_ul_id rnti t)).ul_rb_cap

  pub get_dl_rb_floor : ℤ
  get_dl_rb_floor = (policy_get fl (get_dl_id rnti t)).dl_rb_floor

  pub get_ul_rb_floor : ℤ
  get_ul_rb_floor = (policy_get fl (get_ul_id rnti t)).ul_rb_floor

  pub get_dl_max_consecutive_grants : ℤ
  get_dl_max_consecutive_grants = (policy_get fl (get_dl_id rnti t)).dl_max_consecutive_grants

  pub get_ul_max_consecutive_grants : ℤ
  get_ul_max_consecutive_grants = (policy_get fl (get_ul_id rnti t)).ul_max_consecutive_grants
