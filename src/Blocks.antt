-- ===== src/Blocks.antt =====
-- Resource blocks: the search for free blocks in a map of used symbols, the number of blocks of a
-- grant and the marking of the blocks granted, as gnb_patch/gNB_scheduler_dlsch.c and
-- gnb_patch/gNB_scheduler_ulsch.c do them. A map has a word for each block, with a bit for each
-- symbol; `SL_to_bitmap` gives the bits of an allocation.
pub mod Search
pub mod Size
pub mod Marks
pub mod Apart
pub mod Slice
use Prim.Native.Nat.{bit_and, bit_or}
use user_ric.Prelude.{
  ℕ, zero, suc, ◌+◌, ◌-◌, Bool, true, false, not, ◌&&◌, ◌||◌, List, [], ◌∷◌, Option, none, some,
  if◌then◌else◌, ◌==◌, ltb, leb, get_or, min,
}
use user_ric.Prelude.Int.{ℤ, pos, ltb_ℤ, pos_part}
use user_ric.Prelude.Float.{Float}
use user_ric.Prelude.Slots.{modify}
use user_ric.Slice.Policy.{Policy}

-- An allocation of a pass over the UEs: the beam, the symbols and the blocks of the map.
pub record Allocation : Type 0 where
  pub beam : ℕ
  pub slbitmap : ℕ
  pub first_rb : ℕ
  pub rb_count : ℕ

-- `map[rb] & mask`, as a condition
unfoldable pub busy : List ℕ → ℕ → ℕ → Bool
busy vrb_map mask rb = not (bit_and (get_or vrb_map rb 0) mask == 0)

-- `while (rb < stop && test(rb)) rb++`, with the rounds left in place of `stop`
unfoldable pub skip : (ℕ → Bool) → ℕ → ℕ → ℕ
skip test zero rb = rb
skip test (suc rounds) rb = let next = skip test rounds (suc rb) in if test rb then next else rb

-- pf_dl: `rbStart` and `max_rbSize`
unfoldable pub dl_free_range : List ℕ → ℕ → ℕ → ℕ → ℕ × ℕ
unfolding busy skip
dl_free_range vrb_map slbitmap bwp_start bwp_size =
    let used = λ (rb : ℕ). busy vrb_map slbitmap (rb + bwp_start) in
    let rb_stop = bwp_size - 1 in
    let rb_start = skip used rb_stop 0 in
    let rb_end = skip (λ rb. not (used rb)) (rb_stop - rb_start) (rb_start + 1) in
    (rb_start, rb_end - rb_start)

-- pf_ul: `rbStart` and `available_rb`, given `max_rbSize`
unfoldable pub ul_free_range : List ℕ → ℕ → ℕ → ℕ → ℕ → ℕ × ℕ
unfolding busy skip
ul_free_range vrb_map slbitmap bwp_start bwp_size max_rb_size =
    let used = λ (rb : ℕ). busy vrb_map slbitmap (rb + bwp_start) in
    let rb_start = skip used bwp_size 0 in
    let available =
      skip (λ n. not (used (rb_start + n))) (min (bwp_size - rb_start - 1) (max_rb_size - 1)) 1 in
    (rb_start, available)

-- The floor and the cap of a slice on the blocks of a grant, of which `available` are free: the
-- two tests behind `nr_find_nb_rb` in pf_dl.
unfoldable pub dl_slice_blocks : {fl : Float} → Policy fl → ℕ → ℕ → ℕ
dl_slice_blocks p available rb_size =
    let target =
      if ltb_ℤ p.dl_rb_floor (pos available) then pos_part p.dl_rb_floor else available in
    let raised =
      if ltb_ℤ (pos 0) p.dl_rb_floor && (ltb_ℤ (pos rb_size) p.dl_rb_floor && ltb rb_size target)
      then target
      else rb_size in
    if ltb_ℤ (pos 0) p.dl_rb_cap && ltb_ℤ p.dl_rb_cap (pos raised)
    then pos_part p.dl_rb_cap
    else raised

-- The same tests in pf_ul.
unfoldable pub ul_slice_blocks : {fl : Float} → Policy fl → ℕ → ℕ → ℕ
ul_slice_blocks p available rb_size =
    let target =
      if ltb_ℤ p.ul_rb_floor (pos available) then pos_part p.ul_rb_floor else available in
    let raised =
      if ltb_ℤ (pos 0) p.ul_rb_floor && (ltb_ℤ (pos rb_size) p.ul_rb_floor && ltb rb_size target)
      then target
      else rb_size in
    if ltb_ℤ (pos 0) p.ul_rb_cap && ltb_ℤ p.ul_rb_cap (pos raised)
    then pos_part p.ul_rb_cap
    else raised

-- `map[rb] |= mask` for successive blocks
unfoldable pub mark : ℕ → List ℕ → ℕ → ℕ → List ℕ
mark mask vrb_map rb zero = vrb_map
mark mask vrb_map rb (suc rounds) =
    mark mask (modify vrb_map rb (λ w. bit_or w mask)) (suc rb) rounds

-- The loop `for (int rb = bwp_start; rb < rbSize; rb++)` over `map[rb + rbStart]` at the end of
-- pf_dl, and of pf_ul.
unfoldable pub mark_grant : List ℕ → ℕ → ℕ → ℕ → ℕ → List ℕ
unfolding mark
mark_grant vrb_map slbitmap bwp_start rb_start rb_size =
    mark slbitmap vrb_map (bwp_start + rb_start) (rb_size - bwp_start)
