-- ===== src/Frame/Next.antt =====
-- The next uplink slot: the first steps of a round of `nr_ulsch_preprocessor` in
-- gnb_patch/gNB_scheduler_ulsch.c.
pub mod First
pub mod Later
pub mod Ahead
use user_ric.Prelude.{ℕ, zero, suc, Bool, Option, none, some, if◌then◌else◌}
use user_ric.Frame.{Fsn, fs_add_delta, fs_get_max}

module _ (slots_frame max_frame_number : ℕ) (is_ul_slot : ℕ → Bool) where
  -- the loop that goes on by one slot, with a bound on its rounds; `none` is a loop that has not ended
  -- within them
  unfoldable pub go_on : ℕ → Fsn → Option Fsn
  unfolding fs_add_delta
  go_on zero next = if is_ul_slot next.s then some next else none
  go_on (suc fuel) next =
      let rest = go_on fuel (fs_add_delta slots_frame max_frame_number 1 next) in
      if is_ul_slot next.s then some next else rest

  -- the slot to schedule next, from the one that is to be next and the first one that can be reached
  unfoldable pub next_ul_slot : ℕ → Fsn → Fsn → Option Fsn
  unfolding go_on fs_get_max
  next_ul_slot fuel next min_next = go_on fuel (fs_get_max slots_frame next min_next)
