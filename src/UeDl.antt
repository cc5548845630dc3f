-- ===== src/UeDl.antt =====
-- The downlink policy of each UE: gnb_patch/rk_ue_dl_policy.c and .h. The table is read from the
-- same file as the uplink policy.
pub mod Parse
pub mod Slots
pub mod Reload
pub mod Getters
use user_ric.Prelude.{
  ℕ, suc, Bool, true, false, not, ◌&&◌, List, [], ◌∷◌, Option, none, some, if◌then◌else◌, ◌==◌,
  is_some, replicate,
}
use user_ric.Prelude.Int.{ℤ, pos, minus_one, ltb_ℤ, leb_ℤ}
use user_ric.Prelude.Float.{Float}
use user_ric.Prelude.Slots.{find_index, modify}
use user_ric.Prelude.Alloc.{deref, claim_slot}

abbrev pub table_size : ℕ
table_size = 128

-- the settings of a UE: the fields of `rk_ue_dl_entry_t` behind `used` and `rnti`
pub record DlSettings (fl : Float) : Type 0 where
  pub dl_max_mcs : ℤ
  pub dl_min_grant_prb : ℤ
  pub dl_sched_mul : fl.F
  pub dl_maxcg_override : ℤ
  pub dl_small_burst_bytes : ℤ
  pub dl_small_burst_mul : fl.F

-- `rk_ue_dl_entry_t`
pub record DlEntry (fl : Float) : Type 0 where
  pub used : Bool
  pub rnti : ℕ
  pub settings : DlSettings fl

module _ (fl : Float) where
  abbrev pub unset_settings : DlSettings fl
  unset_settings = record {
    dl_max_mcs = minus_one;
    dl_min_grant_prb = minus_one;
    dl_sched_mul = fl.literal minus_one 0;
    dl_maxcg_override = minus_one;
    dl_small_burst_bytes = minus_one;
    dl_small_burst_mul = fl.literal minus_one 0;
  }

  -- an entry as `rk_ue_dl_reset_tbl` leaves it, and `rk_ue_dl_parse_line` begins it
  abbrev pub reset_entry : DlEntry fl
  reset_entry = record { used = false; rnti = 0; settings = unset_settings }

  -- `rk_ue_dl_reset_tbl`
  unfoldable pub reset_tbl : List (DlEntry fl)
  reset_tbl = replicate table_size reset_entry

  abbrev pub holds : ℕ → DlEntry fl → Bool
  holds rnti e = e.used && e.rnti == rnti

  -- the loop of `rk_ue_dl_find_or_alloc`, from index `i` on: the entry of the UE, if the loop returns
  -- it, and `free_slot`
  unfoldable pub scan : ℕ → ℕ → Option ℕ → List (DlEntry fl) → Option ℕ × Option ℕ
  scan rnti i free [] = (none, free)
  scan rnti i free (e ∷ es) =
      let rest = scan rnti (suc i) (if not e.used && not (is_some free) then some i else free) es in
      if holds rnti e then (some i, free) else rest

  -- the entry that `rk_ue_dl_find_or_alloc` writes into the free slot
  abbrev pub fresh : ℕ → DlEntry fl → DlEntry fl
  fresh rnti _ = record { used = true; rnti = rnti; settings = unset_settings }

  -- the end of `rk_ue_dl_find_or_alloc`
  abbrev pub found_or_claimed :
      ℕ → List (DlEntry fl) → Option ℕ × Option ℕ → Option ℕ × List (DlEntry fl)
  found_or_claimed rnti t (some i, free) = (some i, t)
  found_or_claimed rnti t (none, free) = claim_slot (fresh rnti) free t

  -- `rk_ue_dl_find_or_alloc`: the index of the entry, for the pointer, and the table
  unfoldable pub find_or_alloc : ℕ → List (DlEntry fl) → Option ℕ × List (DlEntry fl)
  unfolding scan
  find_or_alloc rnti t = found_or_claimed rnti t (scan rnti 0 none t)

  -- `rk_ue_dl_find`, and the entry behind its result
  unfoldable pub find_entry : ℕ → List (DlEntry fl) → Option (DlEntry fl)
  find_entry rnti t = deref (find_index (holds rnti) t) t

  -- the default if there is no entry or its setting fails the test, and else the setting
  abbrev pub setting_unless {ℓ} :
      {A : Type ℓ} → (DlSettings fl → A) → (A → Bool) → Option (DlEntry fl) → A → A
  setting_unless field refuse none v = v
  setting_unless field refuse (some e) v = if refuse (field e.settings) then v else field e.settings

  -- `v < 0`, `v <= 0` and `v <= 0.0f`
  abbrev pub below_zero : ℤ → Bool
  below_zero v = ltb_ℤ v (pos 0)

  abbrev pub at_most_zero : ℤ → Bool
  at_most_zero v = leb_ℤ v (pos 0)

  abbrev pub at_most_zero_f : fl.F → Bool
  at_most_zero_f v = fl.leb v (fl.literal (pos 0) 0)

  module _ (rnti : ℕ) (t : List (DlEntry fl)) where
    -- `rk_ue_dl_get_max_mcs`
    unfoldable pub get_max_mcs : ℤ → ℤ
    unfolding find_entry
    get_max_mcs = setting_unless (λ s. s.dl_max_mcs) below_zero (find_entry rnti t)

    -- `rk_ue_dl_get_min_grant_prb`
    unfoldable pub get_min_grant_prb : ℤ → ℤ
    unfolding find_entry
    get_min_grant_prb = setting_unless (λ s. s.dl_min_grant_prb) below_zero (find_entry rnti t)

    -- `rk_ue_dl_get_sched_mul`
    unfoldable pub get_sched_mul : fl.F → fl.F
    unfolding find_entry
    get_sched_mul = setting_unless (λ s. s.dl_sched_mul) at_most_zero_f (find_entry rnti t)

    -- `rk_ue_dl_get_maxcg_override`
    unfoldable pub get_maxcg_override : ℤ → ℤ
    unfolding find_entry
    get_maxcg_override = setting_unless (λ s. s.dl_maxcg_override) at_most_zero (find_entry rnti t)

    -- `rk_ue_dl_get_small_burst_bytes`
    unfoldable pub get_small_burst_bytes : ℤ → ℤ
    unfolding find_entry
    get_small_burst_bytes =
        setting_unless (λ s. s.dl_small_burst_bytes) at_most_zero (find_entry rnti t)

    -- `rk_ue_dl_get_small_burst_mul`
    unfoldable pub get_small_burst_mul : fl.F → fl.F
    unfolding find_entry
    get_small_burst_mul =
        setting_unless (λ s. s.dl_small_burst_mul) at_most_zero_f (find_entry rnti t)
