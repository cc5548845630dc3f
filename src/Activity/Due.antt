-- ===== src/Activity/Due.antt =====
-- When a UE is due again.
use user_ric.Prelude.{
  ℕ, ◌+◌, ◌-◌, ◌*◌, ◌%◌, ◌<◌, ◌≡◌, refl, ◌∙◌, ap, inl, inr, ◌||◌, if◌then◌else◌, ltb, leb, arith,
}
use native.Mathlib.Nat.{mod-eq_of_lt, add-mod_right}
use user_ric.Frame.{Fsn, fs_add_delta}
use user_ric.Frame.Laws.{IsFsn, index, add_lem, index_bound}
use user_ric.Activity.{FrameStructure, UlActivity, inactive_slots, nr_ue_is_to_be_scheduled}

-- the slot of the last uplink, as the test takes it
abbrev pub last_ul : FrameStructure → UlActivity → Fsn
last_ul fs u = record {
  f = u.last_ul_frame;
  s = if fs.is_tdd then fs.first_ul_slot else u.last_ul_slot;
}

module _ (fs : FrameStructure) (u : UlActivity) where
  elapsed :
      (d : ℕ)
      → 0 < fs.numb_slots_frame
      → IsFsn fs.numb_slots_frame (last_ul fs u)
      → d < 512 * fs.numb_slots_frame
      → let b = fs_add_delta fs.numb_slots_frame 1024 d (last_ul fs u) in
        inactive_slots fs u b.f b.s ≡ d
  unfolding inactive_slots
  elapsed d h v l =
      let n = fs.numb_slots_frame in
      let i = index n (last_ul fs u) in
      let b = index n (fs_add_delta n 1024 d (last_ul fs u)) in
      let bound = index_bound n (last_ul fs u) v in
      elim (add_lem n d (last_ul fs u) h v l) [
        | inl e ↦
            let whole : b + 1024 * n - i ≡ d + 1024 * n = omega (arith, e) in
            ap (λ x. x % (1024 * n)) whole
            ∙ add-mod_right d (1024 * n)
            ∙ mod-eq_of_lt (omega (arith, l, h))
        | inr e ↦
            let whole : b + 1024 * n - i ≡ d = omega (arith, e, bound) in
            ap (λ x. x % (1024 * n)) whole ∙ mod-eq_of_lt (omega (arith, l, h))
      ]

  -- `d` slots after its last uplink, `d` below half of all slots and past the last frame too, a UE is
  -- to be scheduled exactly if it has more data than was scheduled, or has sent a scheduling request,
  -- or the `d` slots reach the limit: the slots of the configured number of frames, modulo
  -- 2 ^ 32, or one period if none is configured.
  pub nr_ue_is_to_be_scheduled_iff :
      (d most : ℕ)
      → 0 < fs.numb_slots_frame
      → IsFsn fs.numb_slots_frame (last_ul fs u)
      → d < 512 * fs.numb_slots_frame
      → let b = fs_add_delta fs.numb_slots_frame 1024 d (last_ul fs u) in
        nr_ue_is_to_be_scheduled fs u b.f b.s most ≡ (
          ltb u.sched_ul_bytes u.estimated_ul_buffer
          || (u.sr
              || leb
                  (if ltb 0 most
                    then most * fs.numb_slots_frame % 4294967296
                    else fs.numb_slots_period)
                  d))
  unfolding nr_ue_is_to_be_scheduled
  nr_ue_is_to_be_scheduled_iff d most h v l = rw (elapsed d h v l) refl
