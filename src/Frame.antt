-- ===== src/Frame.antt =====
-- Frame and slot arithmetic: `fs_add_delta`, `fs_get_diff` and `fs_get_max` of
-- gnb_patch/gNB_scheduler_ulsch.c.
pub mod Laws
pub mod Distance
pub mod Next
use user_ric.Prelude.{ℕ, ◌+◌, ◌*◌, ◌/◌, ◌%◌, if◌then◌else◌}
use user_ric.Prelude.Int.{ℤ, pos, ◌+ℤ◌, ◌-ℤ◌, ltb_ℤ, leb_ℤ}

-- `fsn_t`: a frame and a slot of it
pub record Fsn : Type 0 where
  pub f : ℕ
  pub s : ℕ

module _ (slots_frame : ℕ) where
  -- `fs_add_delta`; `MAX_FRAME_NUMBER` is the gNB's
  unfoldable pub fs_add_delta : ℕ → ℕ → Fsn → Fsn
  fs_add_delta max_frame_number delta fsn = record {
    f = (fsn.f + (fsn.s + delta) / slots_frame) % max_frame_number;
    s = (fsn.s + delta) % slots_frame;
  }

  -- `fs_get_diff`
  unfoldable pub fs_get_diff : Fsn → Fsn → ℤ
  fs_get_diff a b =
      let diff = pos (a.f * slots_frame + a.s) -ℤ pos (b.f * slots_frame + b.s) in
      if ltb_ℤ diff (pos 0 -ℤ pos (512 * slots_frame))
      then diff +ℤ pos (1024 * slots_frame)
      else if ltb_ℤ (pos (512 * slots_frame)) diff
      then diff -ℤ pos (1024 * slots_frame)
      else diff

  -- `fs_get_max`
  unfoldable pub fs_get_max : Fsn → Fsn → Fsn
  unfolding fs_get_diff
  fs_get_max a b = if leb_ℤ (fs_get_diff a b) (pos 0) then b else a
