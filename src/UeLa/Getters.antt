-- ===== src/UeLa/Getters.antt =====
-- What the getters of gnb_patch/rk_ue_la_policy.c return, by what the table says of the UE.
use user_ric.Prelude.{
  ℕ, ◌≡◌, refl, ◌⊎◌, inl, inr, Bool, List, Option, none, some, if◌then◌else◌, Option-cases, arith,
}
use user_ric.Prelude.Int.{ℤ, pos, ltb_ℤ, leb_ℤ, ◌≤ℤ◌, ◌<ℤ◌}
use user_ric.Prelude.Float.{Float, FloatLaws}
use user_ric.Prelude.Slots.{find}
use user_ric.Prelude.Alloc.{deref-find_index}
use user_ric.Prelude.Keyed
use user_ric.UeLa.{
  UlSettings, LaEntry, holds, unset_settings, get_entry, setting_or, get_ul_max_mcs,
  get_min_grant_prb, get_ulsch_max_frame_inactivity, get_pusch_target_snrx10, get_ul_sched_mul,
  get_ul_maxcg_override, get_ul_small_burst_bytes, get_ul_small_burst_mul,
}
use user_ric.UeLa.Reload.Laws.{view}

-- the two clamps of the largest MCS
abbrev clamped : ℤ → ℤ → ℤ
clamped table v = let w = if ltb_ℤ table v then table else v in if ltb_ℤ w (pos 0) then pos 0 else w

clamp_cases :
    (table v : ℤ)
    → (pos 0 ≤ℤ clamped table v)
      × ((clamped table v ≤ℤ table) ⊎ ((table <ℤ pos 0) × (clamped table v ≡ pos 0)))
      × (((v <ℤ pos 0) × (clamped table v ≡ pos 0))
          ⊎ ((table <ℤ v) × ((clamped table v ≡ table) ⊎ (clamped table v ≡ pos 0)))
          ⊎ (clamped table v ≡ v))
clamp_cases table v = (ground arith, ground arith, ground arith)

module _ (fl : Float) (rnti : ℕ) (t : List (LaEntry fl)) where
  -- a setting by what the table says of the UE
  abbrev pub setting_of {ℓ} :
      {A : Type ℓ} → (UlSettings fl → A) → (A → Bool) → A → Option (UlSettings fl) → A
  setting_of field test v none = v
  setting_of field test v (some s) = if test (field s) then field s else v

  setting_or-view {ℓ} :
      {A : Type ℓ} (field : UlSettings fl → A) (test : A → Bool) (v : A)
      → setting_or fl field test (get_entry fl rnti t) v ≡ setting_of field test v (view fl t rnti)
  unfolding get_entry Keyed.view
  setting_or-view field test v =
      rw (deref-find_index (holds fl rnti) t)
        (elim (Option-cases (find (holds fl rnti) t)) [ inl n ↦ rw n | inr (e, h) ↦ rw h ])

  -- The largest MCS for a UE is at least 0 and, unless the MCS table has no entry, at most the end of
  -- the table. It is the UE's setting, or the default where the UE has none, unless this is below 0
  -- (the result is then 0) or above the end of the table (the result is then that end, or 0).
  get_ul_max_mcs_bounds :
      (default_v max_mcs_table : ℤ)
      → let v = get_ul_max_mcs fl rnti t default_v max_mcs_table in
        let chosen = setting_of (λ s. s.ul_max_mcs) (leb_ℤ (pos 0)) default_v (view fl t rnti) in
        (pos 0 ≤ℤ v)
        × ((v ≤ℤ max_mcs_table) ⊎ ((max_mcs_table <ℤ pos 0) × (v ≡ pos 0)))
        × (((chosen <ℤ pos 0) × (v ≡ pos 0))
            ⊎ ((max_mcs_table <ℤ chosen) × ((v ≡ max_mcs_table) ⊎ (v ≡ pos 0)))
            ⊎ (v ≡ chosen))
  unfolding get_ul_max_mcs
  get_ul_max_mcs_bounds default_v max_mcs_table =
      rw (setting_or-view (λ s. s.ul_max_mcs) (leb_ℤ (pos 0)) default_v) (
        clamp_cases max_mcs_table
          (setting_of (λ s. s.ul_max_mcs) (leb_ℤ (pos 0)) default_v (view fl t rnti)))

  -- A UE that the table does not know, or whose line sets nothing, gets every default. The largest
  -- MCS is included if its default lies in the MCS table.
  la_getters_default :
      FloatLaws fl
      → (view fl t rnti ≡ none) ⊎ (view fl t rnti ≡ some (unset_settings fl))
      → (d mcs table : ℤ) (f : fl.F) → pos 0 ≤ℤ mcs
      → mcs ≤ℤ table
      → (get_ul_max_mcs fl rnti t mcs table ≡ mcs)
        × (get_min_grant_prb fl rnti t d ≡ d)
        × (get_ulsch_max_frame_inactivity fl rnti t d ≡ d)
        × (get_pusch_target_snrx10 fl rnti t d ≡ d)
        × (get_ul_sched_mul fl rnti t f ≡ f)
        × (get_ul_maxcg_override fl rnti t d ≡ d)
        × (get_ul_small_burst_bytes fl rnti t d ≡ d)
        × (get_ul_small_burst_mul fl rnti t f ≡ f)
  unfolding get_min_grant_prb get_ulsch_max_frame_inactivity get_pusch_target_snrx10
      get_ul_sched_mul get_ul_maxcg_override get_ul_small_burst_bytes get_ul_small_burst_mul
      get_ul_max_mcs
  la_getters_default laws (inl n) d mcs table f lo hi =
      simp (setting_or-view, n) (ground arith, refl, refl, refl, refl, refl, refl, refl)
  la_getters_default laws (inr e) d mcs table f lo hi =
      simp (setting_or-view, e, laws.minus_one-not_above_zero)
        (ground arith, refl, refl, refl, refl, refl, refl, refl)
