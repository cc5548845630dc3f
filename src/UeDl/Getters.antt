-- ===== src/UeDl/Getters.antt =====
-- What the getters of gnb_patch/rk_ue_dl_policy.c return, by what the table says of the UE.
use user_ric.Prelude.{
  ℕ, ◌≡◌, refl, ◌⊎◌, inl, inr, Bool, List, Option, none, some, if◌then◌else◌, Option-cases, arith,
}
use user_ric.Prelude.Int.{ℤ, pos, ◌≤ℤ◌, ◌<ℤ◌}
use user_ric.Prelude.Float.{Float, FloatLaws}
use user_ric.Prelude.Slots.{find}
use user_ric.Prelude.Alloc.{deref-find_index}
use user_ric.Prelude.Keyed
use user_ric.UeDl.{
  DlSettings, DlEntry, holds, unset_settings, find_entry, setting_unless, get_max_mcs,
  get_min_grant_prb, get_sched_mul, get_maxcg_override, get_small_burst_bytes, get_small_burst_mul,
}
use user_ric.UeDl.Reload.Laws.{view}

module _ (fl : Float) (rnti : ℕ) (t : List (DlEntry fl)) where
  -- a setting by what the table says of the UE
  abbrev pub setting_of {ℓ} :
      {A : Type ℓ} → (DlSettings fl → A) → (A → Bool) → A → Option (DlSettings fl) → A
  setting_of field refuse v none = v
  setting_of field refuse v (some s) = if refuse (field s) then v else field s

  setting_unless-view {ℓ} :
      {A : Type ℓ} (field : DlSettings fl → A) (refuse : A → Bool) (v : A)
      → setting_unless fl field refuse (find_entry fl rnti t) v
        ≡ setting_of field refuse v (view fl t rnti)
  unfolding find_entry Keyed.view
  setting_unless-view field refuse v =
      rw (deref-find_index (holds fl rnti) t)
        (elim (Option-cases (find (holds fl rnti) t)) [ inl n ↦ rw n | inr (e, h) ↦ rw h ])

  -- A UE that the table does not know, or whose line sets nothing, gets every default.
  dl_getters_default :
      FloatLaws fl
      → (view fl t rnti ≡ none) ⊎ (view fl t rnti ≡ some (unset_settings fl))
      → (d : ℤ) (f : fl.F)
      → (get_max_mcs fl rnti t d ≡ d)
        × (get_min_grant_prb fl rnti t d ≡ d)
        × (get_sched_mul fl rnti t f ≡ f)
        × (get_maxcg_override fl rnti t d ≡ d)
        × (get_small_burst_bytes fl rnti t d ≡ d)
        × (get_small_burst_mul fl rnti t f ≡ f)
  unfolding get_max_mcs get_min_grant_prb get_sched_mul get_maxcg_override get_small_burst_bytes
      get_small_burst_mul
  dl_getters_default laws (inl n) d f =
      simp (setting_unless-view, n) (refl, refl, refl, refl, refl, refl)
  dl_getters_default laws (inr e) d f =
      simp (setting_unless-view, e, laws.minus_one-at_most_zero)
        (refl, refl, refl, refl, refl, refl)

  -- The number of blocks that a UE must at least be granted is not negative, the overriding limit on
  -- successive grants and the small-burst threshold are positive, unless they are the defaults. The
  -- largest MCS is the default or not negative; no table bounds it from above.
  pub getters_range :
      (d : ℤ)
      → ((get_max_mcs fl rnti t d ≡ d) ⊎ (pos 0 ≤ℤ get_max_mcs fl rnti t d))
        × ((get_min_grant_prb fl rnti t d ≡ d) ⊎ (pos 0 ≤ℤ get_min_grant_prb fl rnti t d))
        × ((get_maxcg_override fl rnti t d ≡ d) ⊎ (pos 0 <ℤ get_maxcg_override fl rnti t d))
        × ((get_small_burst_bytes fl rnti t d ≡ d) ⊎ (pos 0 <ℤ get_small_burst_bytes fl rnti t d))
  unfolding get_max_mcs get_min_grant_prb get_maxcg_override get_small_burst_bytes
  getters_range d = elim (Option-cases (find_entry fl rnti t)) [
    | inl n ↦ rw n (inl refl, inl refl, inl refl, inl refl)
    | inr (e, h) ↦ rw h (ground arith, ground arith, ground arith, ground arith)
  ]
