-- ===== src/Blocks/Size.antt =====
-- The number of blocks that the slice policy leaves to a grant.
use user_ric.Prelude.{ℕ, ◌≤◌, ◌≡◌, ◌⊎◌, arith}
use user_ric.Prelude.Int.{ℤ, pos, ◌≤ℤ◌, ◌<ℤ◌}
use user_ric.Prelude.Float.{Float}
use user_ric.Slice.Policy.{Policy}
use user_ric.Blocks.{dl_slice_blocks, ul_slice_blocks}

-- What a floor and a cap make of a grant of `before` blocks with `available` free ones.
abbrev pub Shaped : ℤ → ℤ → ℕ → ℕ → ℕ → Type 0
Shaped floor cap available before after =
    -- never more than was asked for or is free
    ((after ≤ before) ⊎ (after ≤ available))
    -- never above the cap, if there is one
    × ((cap ≤ℤ pos 0) ⊎ (pos after ≤ℤ cap))
    -- never fewer than before or than the floor, as far as blocks are free, but for the cap
    × ((before ≤ after) ⊎ ((pos 0 <ℤ cap) × (pos after ≡ cap)))
    × ((floor ≤ℤ pos after) ⊎ (available ≤ after) ⊎ ((pos 0 <ℤ cap) × (pos after ≡ cap)))

-- The floor and the cap of a slice in the downlink: the grant stays within what was asked for or is
-- free, does not exceed the cap, and only the cap makes it smaller than it was or than the floor
-- and the free blocks allow.
pub dl_slice_blocks-Shaped :
    {fl : Float} (p : Policy fl) (available rb_size : ℕ)
    → Shaped p.dl_rb_floor p.dl_rb_cap available rb_size (dl_slice_blocks p available rb_size)
unfolding dl_slice_blocks
dl_slice_blocks-Shaped p available rb_size =
    (ground arith, ground arith, ground arith, ground arith)

-- The same for the uplink.
pub ul_slice_blocks-Shaped :
    {fl : Float} (p : Policy fl) (available rb_size : ℕ)
    → Shaped p.ul_rb_floor p.ul_rb_cap available rb_size (ul_slice_blocks p available rb_size)
unfolding ul_slice_blocks
ul_slice_blocks-Shaped p available rb_size =
    (ground arith, ground arith, ground arith, ground arith)
