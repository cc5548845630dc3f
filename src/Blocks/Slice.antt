-- ===== src/Blocks/Slice.antt =====
-- The number of blocks of a grant under the policies of the table.
use user_ric.Prelude.{ℕ, ◌≤◌, ◌<◌, ◌⊎◌, arith}
use user_ric.Prelude.Int.{ℤ, pos, ◌≤ℤ◌}
use user_ric.Prelude.Float.{Float}
use user_ric.Slice.Policy.{policy_get}
use user_ric.Slice.Policy.Laws.{policy_get-Consistent}
use user_ric.Blocks.{dl_slice_blocks, ul_slice_blocks}
use user_ric.Blocks.Size.{Shaped, dl_slice_blocks-Shaped, ul_slice_blocks-Shaped}

bounds :
    (floor cap most : ℤ) (available before after : ℕ)
    → 0 < before
    → (pos 0 ≤ℤ floor) × (pos 0 ≤ℤ cap) × (pos 0 ≤ℤ most) × ((cap ≤ℤ pos 0) ⊎ (floor ≤ℤ cap))
    → Shaped floor cap available before after
    → ((floor ≤ℤ pos after) ⊎ (available ≤ after))
      × ((cap ≤ℤ pos 0) ⊎ (pos after ≤ℤ cap))
      × (0 < after)
bounds floor cap most available before after h c (within, capped, kept, floored) =
    (ground arith, ground arith, ground arith)

-- Under any policy of the table, in either direction, a grant has at least the floor, or all the
-- free blocks if there are fewer, and at most the cap, if there is one. A positive request never
-- becomes an empty grant.
pub slice_blocks_bounds :
    (fl : Float) (id : ℤ) (available rb_size : ℕ)
    → 0 < rb_size
    → let p = policy_get fl id in
      let dl = dl_slice_blocks p available rb_size in
      let ul = ul_slice_blocks p available rb_size in
      ((p.dl_rb_floor ≤ℤ pos dl) ⊎ (available ≤ dl))
      × ((p.dl_rb_cap ≤ℤ pos 0) ⊎ (pos dl ≤ℤ p.dl_rb_cap))
      × (0 < dl)
      × ((p.ul_rb_floor ≤ℤ pos ul) ⊎ (available ≤ ul))
      × ((p.ul_rb_cap ≤ℤ pos 0) ⊎ (pos ul ≤ℤ p.ul_rb_cap))
      × (0 < ul)
slice_blocks_bounds fl id available rb_size h =
    let (dl, ul) = policy_get-Consistent fl id in
    let p = policy_get fl id in
    let (a, b, c) =
      bounds p.dl_rb_floor p.dl_rb_cap p.dl_max_consecutive_grants available rb_size
        (dl_slice_blocks p available rb_size) h dl (dl_slice_blocks-Shaped p available rb_size) in
    let (d, e, f) =
      bounds p.ul_rb_floor p.ul_rb_cap p.ul_max_consecutive_grants available rb_size
        (ul_slice_blocks p available rb_size) h ul (ul_slice_blocks-Shaped p available rb_size) in
    (a, b, c, d, e, f)
