-- ===== src/Tests/Grants.antt =====
-- The grants of blocks: gnb_patch/gNB_scheduler_dlsch.c and gnb_patch/gNB_scheduler_ulsch.c.
use user_ric.Prelude.{
  ℕ, ◌+◌, ◌<◌, ◌≤◌, ◌≡◌, refl, List, [], ◌∷◌, arith, true, ◌⊎◌, if◌then◌else◌, ◌&&◌, get_or, leb,
  ltb,
}
use Prim.Native.Nat.{bit_or}
use user_ric.Prelude.Int.{pos, ◌≤ℤ◌}
use user_ric.Blocks.{
  busy, dl_free_range, ul_free_range, dl_slice_blocks, ul_slice_blocks, mark_grant,
}
use user_ric.Blocks.Search.{DlRange, dl_free_range-DlRange}
use user_ric.Blocks.Size.{Shaped, dl_slice_blocks-Shaped, ul_slice_blocks-Shaped}
use user_ric.Blocks.Slice.{slice_blocks_bounds}
use user_ric.Blocks.Marks.{mark_grant-busy, mark_grant_lost}
use user_ric.Slice.Policy.{policy_get}
use user_ric.Tests.Decimal.{milli}

-- Eight blocks of which 0, 1 and 5 are used in symbols of the grant.
abbrev blocks : List ℕ
blocks = 6 ∷ 2 ∷ 0 ∷ 8 ∷ 0 ∷ 4 ∷ 0 ∷ 0 ∷ []

ranges : (dl_free_range blocks 6 0 8 ≡ (2, 3)) × (ul_free_range blocks 6 0 8 2 ≡ (2, 2))
unfolding dl_free_range ul_free_range
ranges = (refl, refl)

dl_free_range-DlRange_example : let r = dl_free_range blocks 6 0 8 in DlRange blocks 6 0 8 r.0 r.1
dl_free_range-DlRange_example = dl_free_range-DlRange blocks 6 0 8 (omega arith)

slice_blocks_bounds_example :
    let p = policy_get milli (pos 4) in
    let dl = dl_slice_blocks p 20 2 in
    let ul = ul_slice_blocks p 20 2 in
    ((p.dl_rb_floor ≤ℤ pos dl) ⊎ (20 ≤ dl))
    × ((p.dl_rb_cap ≤ℤ pos 0) ⊎ (pos dl ≤ℤ p.dl_rb_cap))
    × (0 < dl)
    × ((p.ul_rb_floor ≤ℤ pos ul) ⊎ (20 ≤ ul))
    × ((p.ul_rb_cap ≤ℤ pos 0) ⊎ (pos ul ≤ℤ p.ul_rb_cap))
    × (0 < ul)
slice_blocks_bounds_example = slice_blocks_bounds milli (pos 4) 20 2 (omega arith)

dl_slice_blocks-Shaped_example :
    let p = policy_get milli (pos 4) in
    Shaped p.dl_rb_floor p.dl_rb_cap 20 2 (dl_slice_blocks p 20 2)
dl_slice_blocks-Shaped_example = dl_slice_blocks-Shaped (policy_get milli (pos 4)) 20 2

ul_slice_blocks-Shaped_example :
    let p = policy_get milli (pos 4) in
    Shaped p.ul_rb_floor p.ul_rb_cap 20 2 (ul_slice_blocks p 20 2)
ul_slice_blocks-Shaped_example = ul_slice_blocks-Shaped (policy_get milli (pos 4)) 20 2

mark_grant-busy_example :
    (busy (mark_grant blocks 6 0 2 3) 6 4
      ≡ (if leb 2 4 && ltb 4 (2 + 3) then true else busy blocks 6 4))
    × (get_or (mark_grant blocks 6 0 2 3) 4 0
        ≡ (if leb 2 4 && ltb 4 (2 + 3) then bit_or (get_or blocks 4 0) 6 else get_or blocks 4 0))
mark_grant-busy_example = mark_grant-busy blocks 6 2 3 4 (omega arith) (omega arith)

mark_grant_lost_example : mark_grant blocks 6 3 2 3 ≡ blocks
mark_grant_lost_example = mark_grant_lost blocks 6 3 2 3 (omega arith)
