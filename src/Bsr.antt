-- ===== src/Bsr.antt =====
-- Buffer status reports: `overestim_bsr_index`, `estimate_ul_buffer_short_bsr` and
-- `estimate_ul_buffer_long_bsr` of gnb_patch/gNB_scheduler_ulsch.c.
pub mod Cover
use user_ric.Prelude.{ℕ, suc, ◌+◌, ◌-◌, Bool, true, false, List, [], ◌∷◌, if◌then◌else◌, ltb, min}

-- the tables of sizes of the gNB: `get_short_bsr_value` with `NR_SHORT_BSR_TABLE_SIZE`, and the same
-- for long reports
pub record BsrTables : Type 0 where
  pub get_short_bsr_value : ℕ → ℕ
  pub short_table_size : ℕ
  pub get_long_bsr_value : ℕ → ℕ
  pub long_table_size : ℕ

-- `overestim_bsr_index`, for an index that is not negative
unfoldable pub overestim_bsr_index : ℕ → ℕ
overestim_bsr_index real_index = if ltb 0 real_index then real_index + 1 else real_index

module _ (t : BsrTables) where
  -- `estimate_ul_buffer_short_bsr`, of the field `Buffer_size`
  unfoldable pub estimate_ul_buffer_short_bsr : ℕ → ℕ
  unfolding overestim_bsr_index
  estimate_ul_buffer_short_bsr buffer_size =
      t.get_short_bsr_value (min (overestim_bsr_index buffer_size) (t.short_table_size - 1))

  -- the loop over the flags of the logical channel groups; `payload m` is the byte at `m` behind them
  unfoldable pub add_groups : (ℕ → ℕ) → ℕ → List Bool → ℕ
  unfolding overestim_bsr_index
  add_groups payload m [] = 0
  add_groups payload m (false ∷ active) = add_groups payload m active
  add_groups payload m (true ∷ active) =
      t.get_long_bsr_value (min (overestim_bsr_index (payload m)) (t.long_table_size - 1))
      + add_groups payload (suc m) active

  -- `estimate_ul_buffer_long_bsr`, of the flags from group 0 on and the bytes behind them
  unfoldable pub estimate_ul_buffer_long_bsr : List Bool → (ℕ → ℕ) → ℕ
  unfolding add_groups
  estimate_ul_buffer_long_bsr bsr_active payload = add_groups payload 0 bsr_active
