-- ===== src/Slice/Policy.antt =====
-- The policy table of gnb_patch/rk_slice_policy.c, its entries and the access to them.
pub mod Laws
use user_ric.Prelude.{
  ℕ, ◌+◌, ◌-◌, ◌≤◌, ◌<◌, Bool, true, false, not, ◌||◌, List, [], ◌∷◌, ◌≡◌, refl, arith, Option,
  none, some, if◌then◌else◌, length, get_or,
}
use user_ric.Prelude.Int.{ℤ, pos, negsuc, ltb_ℤ, eqb_ℤ, ◌≤ℤ◌, ◌<ℤ◌, pos_part, neg_part}
use user_ric.Prelude.Float.{Float}

-- `rk_slice_policy_t`
pub record Policy (fl : Float) : Type 0 where
  pub slice_id : ℤ
  pub dl_weight_mul : fl.F
  pub ul_weight_mul : fl.F
  pub dl_rb_cap : ℤ
  pub ul_rb_cap : ℤ
  pub dl_rb_floor : ℤ
  pub ul_rb_floor : ℤ
  pub dl_max_consecutive_grants : ℤ
  pub ul_max_consecutive_grants : ℤ

abbrev pub slice_id_none : ℕ
slice_id_none = 0

module _ (fl : Float) where
  -- `g_rk_slice_policy_table`, one entry to a row
  abbrev pub entry : ℕ → fl.F → fl.F → ℕ → ℕ → ℕ → ℕ → ℕ → ℕ → Policy fl
  entry id dl_mul ul_mul dl_cap ul_cap dl_floor ul_floor dl_max ul_max = record {
    slice_id = pos id;
    dl_weight_mul = dl_mul;
    ul_weight_mul = ul_mul;
    dl_rb_cap = pos dl_cap;
    ul_rb_cap = pos ul_cap;
    dl_rb_floor = pos dl_floor;
    ul_rb_floor = pos ul_floor;
    dl_max_consecutive_grants = pos dl_max;
    ul_max_consecutive_grants = pos ul_max;
  }

  -- the weight n / 10
  abbrev tenths : ℕ → fl.F
  tenths n = fl.literal (pos n) 1

  abbrev pub default_policy : Policy fl
  default_policy = entry 0 (tenths 10) (tenths 10) 0 0 0 0 0 0

  unfoldable pub policy_table : List (Policy fl)
  policy_table =
      default_policy
      ∷ entry 1 (tenths 5) (tenths 5) 6 6 2 2 1 1
      ∷ entry 2 (tenths 10) (tenths 10) 12 12 4 4 4 4
      ∷ entry 3 (tenths 100) (tenths 40) 50 30 12 12 0 0
      ∷ entry 4 (tenths 60) (tenths 60) 10 10 4 4 6 6
      ∷ entry 5 (tenths 10) (tenths 100) 12 50 4 12 2 0
      ∷ entry 6 (tenths 12) (tenths 12) 8 8 2 2 2 2
      ∷ []

  -- `rk_slice_policy_get`
  unfoldable pub policy_get : ℤ → Policy fl
  unfolding policy_table
  policy_get slice_id =
      let row = get_or policy_table (pos_part slice_id) default_policy in
      if ltb_ℤ slice_id (pos 0) || not (ltb_ℤ slice_id (pos (length policy_table)))
      then default_policy
      else if not (eqb_ℤ row.slice_id slice_id)
      then default_policy
      else row
