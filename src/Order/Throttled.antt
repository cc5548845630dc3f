-- ===== src/Order/Throttled.antt =====
-- UEs with too many successive grants are served after all that have a positive coefficient.
use user_ric.Prelude.{ℕ, ◌≤◌, ◌≡◌, refl, ◌∙◌, true, false, List, Bool-cases, inl, inr, arith}
use user_ric.Prelude.Int.{ℤ, pos, ◌-ℤ◌}
use user_ric.Prelude.Float.{Float, FloatLaws}
use user_ric.Slice.Assoc.{AssocEntry}
use user_ric.Slice.Runtime.{runtime_max}
use user_ric.Slice.Runtime.Tracking.{Grant, replay, distinct}
use user_ric.Slice.Runtime.History.{dl_ticks, ul_ticks, limit_filled, should_throttle-replay}
use user_ric.UeLa.{LaEntry}
use user_ric.UeDl.{DlEntry}
use user_ric.Order.{
  UlSched, zero_f, dl_maxcg, dl_final_coeff, ul_maxcg, ul_final_coeff, dl_comparator, ul_comparator,
}

module _ (fl : Float) (laws : FloatLaws fl) where
  -- `<` does not hold both ways
  one_way : (p q : fl.F) → fl.ltb p q ≡ true → fl.ltb q p ≡ false
  one_way p q h = elim (Bool-cases (fl.ltb q p)) [
    | inr no_more ↦ no_more
    | inl both ↦ absurd (ground (arith, laws.transitive p q p h both, laws.irreflexive p))
  ]

  dl_comparator_swap : (p q : fl.F) → dl_comparator fl q p ≡ pos 0 -ℤ dl_comparator fl p q
  unfolding dl_comparator ◌-ℤ◌
  dl_comparator_swap p q = elim (Bool-cases (fl.ltb p q)) [
    | inl less ↦ rw (less, one_way p q less) refl
    | inr geq ↦ elim (Bool-cases (fl.ltb q p)) [
      | inl more ↦ rw (geq, more) refl
      | inr same ↦ rw (geq, same) refl
    ]
  ]

  -- Swapping the arguments of either comparator negates its result, as `qsort` asks for, whether UEs
  -- are marked inactive or not.
  comparator_swap :
      (p q : UlSched fl)
      → (dl_comparator fl q.coef p.coef ≡ pos 0 -ℤ dl_comparator fl p.coef q.coef)
        × (ul_comparator fl q p ≡ pos 0 -ℤ ul_comparator fl p q)
  unfolding ul_comparator ◌-ℤ◌
  comparator_swap p q = (
    dl_comparator_swap p.coef q.coef,
    elim (Bool-cases p.sched_inactive) [
      | inl a ↦ elim (Bool-cases q.sched_inactive) [
        | inl b ↦ rw (a, b) refl
        | inr b ↦ rw (a, b) refl
      ]
      | inr a ↦ elim (Bool-cases q.sched_inactive) [
        | inl b ↦ rw (a, b) refl
        | inr b ↦ rw (a, b) (dl_comparator_swap p.coef q.coef)
      ]
    ],
  )

  -- While no more than 256 UEs have had grants, take a UE whose latest grants in both directions, from
  -- the latest back, came one at each of as many ticks just before as its limit there says, the limit,
  -- which is positive, being its own override or that of its slice. In both directions its coefficient
  -- orders it behind every UE whose coefficient is above 0, whatever weights it has; in the uplink, if
  -- neither of the two is marked inactive.
  pub throttled_last :
      (gs : List Grant) (q : ℕ) (now : ℤ) (assoc : List AssocEntry) (dl_tbl : List (DlEntry fl))
      (ul_tbl : List (LaEntry fl)) (coeff c : fl.F) (bytes : ℕ)
      → distinct gs ≤ runtime_max
      → fl.ltb (zero_f fl) c ≡ true
      → limit_filled now (dl_maxcg fl q now assoc (replay gs) dl_tbl) (dl_ticks q gs) ≡ true
      → limit_filled now (ul_maxcg fl q now assoc (replay gs) ul_tbl) (ul_ticks q gs) ≡ true
      → (dl_comparator fl (dl_final_coeff fl q now assoc (replay gs) dl_tbl coeff bytes) c ≡ pos 1)
        × (ul_comparator fl
              (record {
                coef = ul_final_coeff fl q now assoc (replay gs) ul_tbl coeff bytes;
                sched_inactive = false;
              })
              (record { coef = c; sched_inactive = false })
            ≡ pos 1)
  unfolding dl_comparator ul_comparator dl_final_coeff ul_final_coeff
  throttled_last gs q now assoc dl_tbl ul_tbl coeff c bytes few above dl_full ul_full =
      let dl =
        (should_throttle-replay gs q now (dl_maxcg fl q now assoc (replay gs) dl_tbl) few).0
        ∙ dl_full in
      let ul =
        (should_throttle-replay gs q now (ul_maxcg fl q now assoc (replay gs) ul_tbl) few).1
        ∙ ul_full in
      (rw (dl, above) refl, rw (ul, above) refl)
