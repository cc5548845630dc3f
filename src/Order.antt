-- ===== src/Order.antt =====
-- The order in which the UEs of a slot are served: the coefficients and the comparators of `pf_dl`
-- in gnb_patch/gNB_scheduler_dlsch.c and of `pf_ul` in gnb_patch/gNB_scheduler_ulsch.c.
pub mod Throttled
use user_ric.Prelude.{ℕ, Bool, true, false, ◌&&◌, List, if◌then◌else◌, ltb}
use user_ric.Prelude.Int.{ℤ, pos, minus_one, ltb_ℤ, leb_ℤ}
use user_ric.Prelude.Float.{Float}
use user_ric.Slice.Policy.{policy_get}
use user_ric.Slice.Assoc.{AssocEntry, get_dl_id, get_ul_id}
use user_ric.Slice.Runtime.{RuntimeEntry, dl_should_throttle, ul_should_throttle}
use user_ric.UeLa
use user_ric.UeLa.{LaEntry}
use user_ric.UeDl
use user_ric.UeDl.{DlEntry}

-- `UEsched_t` of pf_ul, as far as its comparator reads it
pub record UlSched (fl : Float) : Type 0 where
  pub coef : fl.F
  pub sched_inactive : Bool

module _ (fl : Float) where
  abbrev pub zero_f : fl.F
  zero_f = fl.literal (pos 0) 0

  abbrev pub one_f : fl.F
  one_f = fl.literal (pos 1) 0

  -- `0 < bytes && bytes <= limit` for a positive limit
  abbrev pub small_burst : ℤ → ℕ → Bool
  small_burst limit bytes = ltb_ℤ (pos 0) limit && (ltb 0 bytes && leb_ℤ (pos bytes) limit)

  -- the override of a UE, or the limit of its slice
  abbrev pub max_grants : ℤ → ℤ → ℤ
  max_grants override_ most = if ltb_ℤ (pos 0) override_ then override_ else most

  -- the product of the coefficients, or 0 for a throttled UE
  abbrev pub weighted : Bool → fl.F → fl.F → Bool → fl.F → fl.F → fl.F
  weighted throttled coeff_ue slice_mul hit burst_mul posture_mul =
      let after_slice = fl.mul coeff_ue slice_mul in
      let after_burst = fl.mul after_slice (if hit then burst_mul else one_f) in
      if throttled then zero_f else fl.mul after_burst posture_mul

  -- the limit on successive grants and the coefficient `final_coeff` in pf_dl
  module _ (rnti : ℕ) (now : ℤ) (assoc : List AssocEntry) (runtime : List RuntimeEntry)
      (tbl : List (DlEntry fl)) where
    unfoldable pub dl_maxcg : ℤ
    dl_maxcg =
        max_grants (UeDl.get_maxcg_override fl rnti tbl minus_one)
          (policy_get fl (get_dl_id rnti assoc)).dl_max_consecutive_grants

    unfoldable pub dl_final_coeff : fl.F → ℕ → fl.F
    unfolding dl_maxcg
    dl_final_coeff coeff_ue num_total_bytes =
        weighted (dl_should_throttle rnti now dl_maxcg runtime) coeff_ue
          (policy_get fl (get_dl_id rnti assoc)).dl_weight_mul
          (small_burst (UeDl.get_small_burst_bytes fl rnti tbl (pos 0)) num_total_bytes)
          (UeDl.get_small_burst_mul fl rnti tbl one_f) (UeDl.get_sched_mul fl rnti tbl one_f)

  -- the same in pf_ul
  module _ (rnti : ℕ) (now : ℤ) (assoc : List AssocEntry) (runtime : List RuntimeEntry)
      (tbl : List (LaEntry fl)) where
    unfoldable pub ul_maxcg : ℤ
    ul_maxcg =
        max_grants (UeLa.get_ul_maxcg_override fl rnti tbl minus_one)
          (policy_get fl (get_ul_id rnti assoc)).ul_max_consecutive_grants

    unfoldable pub ul_final_coeff : fl.F → ℕ → fl.F
    unfolding ul_maxcg
    ul_final_coeff coeff_ue bytes =
        weighted (ul_should_throttle rnti now ul_maxcg runtime) coeff_ue
          (policy_get fl (get_ul_id rnti assoc)).ul_weight_mul
          (small_burst (UeLa.get_ul_small_burst_bytes fl rnti tbl (pos 0)) bytes)
          (UeLa.get_ul_small_burst_mul fl rnti tbl one_f) (UeLa.get_ul_sched_mul fl rnti tbl one_f)

  -- `comparator` of gNB_scheduler_dlsch.c, on the coefficients
  unfoldable pub dl_comparator : fl.F → fl.F → ℤ
  dl_comparator p q = if fl.ltb p q then pos 1 else if fl.ltb q p then minus_one else pos 0

  -- `comparator` of gNB_scheduler_ulsch.c
  unfoldable pub ul_comparator : UlSched fl → UlSched fl → ℤ
  unfolding dl_comparator
  ul_comparator p q =
      if p.sched_inactive && q.sched_inactive
      then pos 0
      else if p.sched_inactive
      then minus_one
      else if q.sched_inactive
      then pos 1
      else dl_comparator p.coef q.coef
