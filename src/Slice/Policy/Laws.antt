-- ===== src/Slice/Policy/Laws.antt =====
-- What holds of every slice policy that can be looked up.
use user_ric.Prelude.{
  All, All-get_or, zero, suc, ◌≡◌, refl, ◌⊎◌, inl, inr, not, ◌&&◌, ◌||◌, arith, if◌then◌else◌,
  length, get_or, Bool-cases,
}
use user_ric.Prelude.Int.{ℤ, pos, negsuc, ltb_ℤ, leb_ℤ, eqb_ℤ, ◌≤ℤ◌, pos_part}
use user_ric.Prelude.Float.{Float}
use user_ric.Slice.Policy.{Policy, policy_table, policy_get, default_policy}

module _ (fl : Float) where
  policy_get-All :
      (P : Policy fl → Type 0) (id : ℤ)
      → All P (policy_table fl)
      → P (default_policy fl)
      → P (policy_get fl id)
  unfolding policy_get
  policy_get-All P id h hd =
      let row = get_or (policy_table fl) (pos_part id) (default_policy fl) in
      elim (Bool-cases (ltb_ℤ id (pos 0) || not (ltb_ℤ id (pos (length (policy_table fl)))))) [
        | inl out ↦ rw out hd
        | inr inside ↦ rw inside (elim (Bool-cases (eqb_ℤ row.slice_id id)) [
          | inl same ↦
              rw same (All-get_or P (policy_table fl) (pos_part id) (default_policy fl) h hd)
          | inr other ↦ rw other hd
        ])
      ]

  -- a direction's numbers fit together
  abbrev pub Consistent : ℤ → ℤ → ℤ → Type 0
  Consistent floor cap most =
      (pos 0 ≤ℤ floor) × (pos 0 ≤ℤ cap) × (pos 0 ≤ℤ most) × ((cap ≤ℤ pos 0) ⊎ (floor ≤ℤ cap))

  -- Whatever slice identifier is looked up, negative or past the table included, a policy is found;
  -- in it no limit is negative, and in both directions the floor is not above the cap, if there is
  -- a cap.
  pub policy_get-Consistent :
      (id : ℤ)
      → let p = policy_get fl id in
        Consistent p.dl_rb_floor p.dl_rb_cap p.dl_max_consecutive_grants
        × Consistent p.ul_rb_floor p.ul_rb_cap p.ul_max_consecutive_grants
  unfolding policy_table
  policy_get-Consistent id =
      policy_get-All
        (λ p.
          Consistent p.dl_rb_floor p.dl_rb_cap p.dl_max_consecutive_grants
          × Consistent p.ul_rb_floor p.ul_rb_cap p.ul_max_consecutive_grants)
        id (omega arith) (omega arith)

  -- The policy found is that of the slice asked for if its number is one of 0 to 6, and else that of
  -- slice 0.
  policy_get-slice_id :
      (id : ℤ)
      → (policy_get fl id).slice_id ≡ (if leb_ℤ (pos 0) id && leb_ℤ id (pos 6) then id else pos 0)
  unfolding policy_get
  policy_get-slice_id (negsuc n) = ground arith
  policy_get-slice_id (pos zero) = refl
  policy_get-slice_id (pos (suc zero)) = refl
  policy_get-slice_id (pos (suc (suc zero))) = refl
  policy_get-slice_id (pos (suc (suc (suc zero)))) = refl
  policy_get-slice_id (pos (suc (suc (suc (suc zero))))) = refl
  policy_get-slice_id (pos (suc (suc (suc (suc (suc zero)))))) = refl
  policy_get-slice_id (pos (suc (suc (suc (suc (suc (suc zero))))))) = refl
  policy_get-slice_id (pos (suc (suc (suc (suc (suc (suc (suc n)))))))) = ground arith
