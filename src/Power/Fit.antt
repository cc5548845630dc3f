-- ===== src/Power/Fit.antt =====
-- What is left of a grant fits the power, or nothing more can be taken away.
use user_ric.Prelude.{
  ℕ, zero, suc, ◌-◌, ◌<◌, ◌≤◌, ◌≡◌, refl, ◌∙◌, ◌⊎◌, inl, inr, true, ◌&&◌, some, leb, ltb,
  Bool-cases, arith,
}
use mathlib.Core.Path.{subst}
use user_ric.Prelude.Int.{ℤ, ltb_ℤ, ◌≤ℤ◌, ◌<ℤ◌}
use user_ric.Power.{Phy, UlBwp, SchedPusch, power, lower, nr_ue_max_mcs_min_rb}

module _ (phy : Phy) (mu : ℕ) (ph_limit : ℤ) (sched_pusch : SchedPusch) (ul_bwp : UlBwp) where
  abbrev pub needed : ℕ → ℕ → ℤ
  needed = power phy mu ph_limit sched_pusch ul_bwp

  -- `n'` is the largest number from `n` down that fits, or the least
  abbrev pub Lowered : (ℕ → ℤ) → ℕ → ℕ → ℕ → Type 0
  Lowered f least n n' =
      (least ≤ n')
      × (n' ≤ n)
      × ((f n' ≤ℤ ph_limit) ⊎ (n' ≡ least))
      × ((k : ℕ) → n' < k → k ≤ n → ph_limit <ℤ f k)

  pub lower-Lowered :
      (f : ℕ → ℤ) (rounds n : ℕ)
      → rounds ≤ n
      → Lowered f (n - rounds) n (lower phy mu ph_limit sched_pusch ul_bwp f rounds n)
  unfolding lower
  lower-Lowered f zero n l =
      (omega arith, omega arith, inr (omega arith), λ k a b. absurd (omega arith))
  lower-Lowered f (suc rounds) n l = elim (Bool-cases (ltb_ℤ ph_limit (f n))) [
    | inr fits ↦
        rw fits
          (omega arith, omega arith, inl (ground (arith, fits)), λ k a b. absurd (omega arith))
    | inl over ↦
        let (a, b, c, d) = lower-Lowered f rounds (n - 1) (omega arith) in
        rw over (
          omega (arith, a),
          omega (arith, b),
          elim c [ inl h ↦ inl h | inr h ↦ inr (h ∙ omega arith) ],
          λ k u v. elim (Bool-cases (ltb k n)) [
            | inl less ↦ d k u (ground (arith, less))
            | inr top ↦
                let e : n ≡ k = ground (arith, top, v) in
                subst (λ j. ph_limit <ℤ f j) e (ground (arith, over))
          ],
        )
  ]

  -- A grant of at least the smallest size and with an MCS up to 28 always gets a result. First blocks
  -- are taken away: the size is the largest from the one asked for down to the smallest whose power
  -- is within the limit, or else the smallest. Then the MCS: it is the largest from the one asked for
  -- down to 0 with which that size is within the limit, or else 0.
  pub nr_ue_max_mcs_min_rb_largest :
      (min_rb rb mcs : ℕ)
      → min_rb ≤ rb
      → mcs ≤ 28
      → (rb' : ℕ) × (mcs' : ℕ) × (nr_ue_max_mcs_min_rb phy mu ph_limit sched_pusch ul_bwp min_rb rb
            mcs
          ≡ some (rb', mcs'))
        × Lowered (needed mcs) min_rb rb rb'
        × Lowered (λ m. needed m rb') 0 mcs mcs'
  unfolding nr_ue_max_mcs_min_rb
  nr_ue_max_mcs_min_rb_largest min_rb rb mcs h k =
      let small = λ (n : ℕ). lower phy mu ph_limit sched_pusch ul_bwp (needed mcs) n rb in
      let rb' = small (rb - min_rb) in
      let mcs' = lower phy mu ph_limit sched_pusch ul_bwp (λ m. needed m rb') mcs mcs in
      let least : rb - (rb - min_rb) ≡ min_rb = omega arith in
      let zero_left : mcs - mcs ≡ 0 = omega arith in
      let ok : (leb min_rb rb && leb mcs 28) ≡ true = ground (arith, h, k) in
      (
        rb',
        mcs',
        rw ok refl,
        subst (λ m. Lowered (needed mcs) m rb rb') least
            (lower-Lowered (needed mcs) (rb - min_rb) rb (omega arith)),
        subst (λ m. Lowered (λ c. needed c rb') m mcs mcs') zero_left
            (lower-Lowered (λ c. needed c rb') mcs mcs (omega arith)),
      )
