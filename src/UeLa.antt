-- ===== src/UeLa.antt =====
-- The uplink policy of each UE: gnb_patch/rk_ue_la_policy.c and .h. The table is read from a file
-- of lines `key=value key=value ...`, again and again while the gNB runs.
pub mod Parse
pub mod Reload
pub mod Getters
use mathlib.Core.Option
use user_ric.Prelude.{
  ℕ, ◌+◌, Bool, true, false, not, ◌&&◌, ◌||◌, List, [], ◌∷◌, Option, none, some, if◌then◌else◌,
  ◌==◌, ltb, replicate, get_elem?,
}
use user_ric.Prelude.Int.{ℤ, pos, minus_one, ltb_ℤ, leb_ℤ}
use user_ric.Prelude.Float.{Float}
use user_ric.Prelude.Slots.{find_index}
use user_ric.Prelude.Alloc.{find_or_create, write_through, deref}

abbrev pub ue_la_max : ℕ
ue_la_max = 256

-- `RK_UE_LA_UNSET`
abbrev pub unset : ℤ
unset = minus_one

-- the settings of a UE: the fields of `rk_ue_la_entry_t` behind `rnti` and `valid`
pub record UlSettings (fl : Float) : Type 0 where
  pub ul_max_mcs : ℤ
  pub min_grant_prb : ℤ
  pub ulsch_max_frame_inactivity : ℤ
  pub pusch_target_snrx10 : ℤ
  pub ul_sched_mul : fl.F
  pub ul_maxcg_override : ℤ
  pub ul_small_burst_bytes : ℤ
  pub ul_small_burst_mul : fl.F

-- `rk_ue_la_entry_t`
pub record LaEntry (fl : Float) : Type 0 where
  pub rnti : ℕ
  pub valid : Bool
  pub settings : UlSettings fl

module _ (fl : Float) where
  abbrev pub minus_one_f : fl.F
  minus_one_f = fl.literal minus_one 0

  abbrev pub zero_f : fl.F
  zero_f = fl.literal (pos 0) 0

  abbrev pub unset_settings : UlSettings fl
  unset_settings = record {
    ul_max_mcs = unset;
    min_grant_prb = unset;
    ulsch_max_frame_inactivity = unset;
    pusch_target_snrx10 = unset;
    ul_sched_mul = minus_one_f;
    ul_maxcg_override = unset;
    ul_small_burst_bytes = unset;
    ul_small_burst_mul = minus_one_f;
  }

  -- an entry of zero bytes
  abbrev pub zero_entry : LaEntry fl
  zero_entry = record {
    rnti = 0;
    valid = false;
    settings = record {
      ul_max_mcs = pos 0;
      min_grant_prb = pos 0;
      ulsch_max_frame_inactivity = pos 0;
      pusch_target_snrx10 = pos 0;
      ul_sched_mul = zero_f;
      ul_maxcg_override = pos 0;
      ul_small_burst_bytes = pos 0;
      ul_small_burst_mul = zero_f;
    };
  }

  -- `rk_ue_la_clear_all`: the table that `memset` leaves
  unfoldable pub clear_all : List (LaEntry fl)
  clear_all = replicate ue_la_max zero_entry

  abbrev pub holds : ℕ → LaEntry fl → Bool
  holds rnti e = e.valid && e.rnti == rnti

  abbrev pub is_free : LaEntry fl → Bool
  is_free e = not e.valid

  -- the entry that `rk_ue_la_alloc` writes into a free slot
  abbrev pub fresh : ℕ → LaEntry fl → LaEntry fl
  fresh rnti _ = record { rnti = rnti; valid = true; settings = unset_settings }

  -- `rk_ue_la_find_mut` and `rk_ue_la_get_entry`: the index of the entry, for the pointer
  unfoldable pub find_mut : ℕ → List (LaEntry fl) → Option ℕ
  find_mut rnti = find_index (holds rnti)

  -- `rk_ue_la_get_entry`, and the entry behind its result
  unfoldable pub get_entry : ℕ → List (LaEntry fl) → Option (LaEntry fl)
  unfolding find_mut
  get_entry rnti t = deref (find_mut rnti t) t

  -- `rk_ue_la_alloc`
  unfoldable pub alloc : ℕ → List (LaEntry fl) → Option ℕ × List (LaEntry fl)
  alloc rnti = find_or_create (holds rnti) is_free (fresh rnti) true

  -- a setting of the entry if there is one and it passes the test, and else the default
  abbrev pub setting_or {ℓ} :
      {A : Type ℓ} → (UlSettings fl → A) → (A → Bool) → Option (LaEntry fl) → A → A
  setting_or field test none v = v
  setting_or field test (some e) v = if test (field e.settings) then field e.settings else v

  -- `v >= 0` and `v > 0`
  abbrev pub at_least_zero : ℤ → Bool
  at_least_zero = leb_ℤ (pos 0)

  abbrev pub above_zero : ℤ → Bool
  above_zero = ltb_ℤ (pos 0)

  abbrev pub above_zero_f : fl.F → Bool
  above_zero_f = fl.ltb zero_f

  module _ (rnti : ℕ) (t : List (LaEntry fl)) where
    -- `rk_ue_la_get_ul_max_mcs`
    unfoldable pub get_ul_max_mcs : ℤ → ℤ → ℤ
    unfolding get_entry
    get_ul_max_mcs default_v max_mcs_table =
        let v = setting_or (λ s. s.ul_max_mcs) at_least_zero (get_entry rnti t) default_v in
        let w = if ltb_ℤ max_mcs_table v then max_mcs_table else v in
        if ltb_ℤ w (pos 0) then pos 0 else w

    -- `rk_ue_la_get_min_grant_prb`
    unfoldable pub get_min_grant_prb : ℤ → ℤ
    unfolding get_entry
    get_min_grant_prb = setting_or (λ s. s.min_grant_prb) above_zero (get_entry rnti t)

    -- `rk_ue_la_get_ulsch_max_frame_inactivity`
    unfoldable pub get_ulsch_max_frame_inactivity : ℤ → ℤ
    unfolding get_entry
    get_ulsch_max_frame_inactivity =
        setting_or (λ s. s.ulsch_max_frame_inactivity) at_least_zero (get_entry rnti t)

    -- `rk_ue_la_get_pusch_target_snrx10`
    unfoldable pub get_pusch_target_snrx10 : ℤ → ℤ
    unfolding get_entry
    get_pusch_target_snrx10 =
        setting_or (λ s. s.pusch_target_snrx10) at_least_zero (get_entry rnti t)

    -- `rk_ue_la_get_ul_sched_mul`
    unfoldable pub get_ul_sched_mul : fl.F → fl.F
    unfolding get_entry
    get_ul_sched_mul = setting_or (λ s. s.ul_sched_mul) above_zero_f (get_entry rnti t)

    -- `rk_ue_la_get_ul_maxcg_override`
    unfoldable pub get_ul_maxcg_override : ℤ → ℤ
    unfolding get_entry
    get_ul_maxcg_override = setting_or (λ s. s.ul_maxcg_override) above_zero (get_entry rnti t)

    -- `rk_ue_la_get_ul_small_burst_bytes`
    unfoldable pub get_ul_small_burst_bytes : ℤ → ℤ
    unfolding get_entry
    get_ul_small_burst_bytes =
        setting_or (λ s. s.ul_small_burst_bytes) above_zero (get_entry rnti t)

    -- `rk_ue_la_get_ul_small_burst_mul`
    unfoldable pub get_ul_small_burst_mul : fl.F → fl.F
    unfolding get_entry
    get_ul_small_burst_mul = setting_or (λ s. s.ul_small_burst_mul) above_zero_f (get_entry rnti t)
