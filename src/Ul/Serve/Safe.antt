-- ===== src/Ul/Serve/Safe.antt =====
-- The grants of the second loop of `pf_ul` do not overlap.
use Prim.Native.Nat.{bit_and}
use mathlib.Core.Path.{subst}
use user_ric.Prelude.{
  ℕ, ◌+◌, ◌-◌, ◌<◌, ◌≤◌, ◌≡◌, sym, inl, inr, Bool, true, false, not, ◌&&◌, ◌||◌, ◌==◌, List, [],
  none, some, All, Bool-cases, Option-cases, if_ind, ltb, leb, get_or, arith,
}
use user_ric.Prelude.Int.{pos, pos_part, ◌+ℤ◌, ltb_ℤ, eqb_ℤ}
use user_ric.Prelude.Float.{Float}
use user_ric.Slice.Assoc.{AssocEntry, get_ul_id}
use user_ric.Slice.Policy.{policy_get}
use user_ric.UeLa.{LaEntry, get_min_grant_prb, get_entry}
use user_ric.Blocks.{busy, ul_free_range}
use user_ric.Blocks.Search.{Each-at, ul_free_range-UlRange, free_word, not-true}
use user_ric.Blocks.Size.{ul_slice_blocks-Shaped}
use user_ric.Blocks.Apart.{Sound, Sound-mark_grant}
use user_ric.Power.{SchedPusch, update_ul_ue_r_qm, nr_ue_max_mcs_min_rb, power, lower}
use user_ric.Power.Fit.{lower-Lowered}
use user_ric.Power.Factor.{UlBand, get_pusch_bwp_start_size}
use user_ric.Harq.{NrList}
use user_ric.Dl.Serve.Rule.{WhenSome}
use user_ric.Ul.{PuschSched, UlPassUe, UlGnb, UlConfig, UlSlot, UlShared}
use user_ric.Ul.Prepare.{UlEntry, target, waiting_bytes}
use user_ric.Ul.Serve.{
  min_rb, symbols, most_blocks, range_for, declared, fit_power, wanted_size, grant_size, complete,
  take_blocks, serve_all,
}
use user_ric.Ul.Serve.Rule.{MayGrant, serve_all_ind}

-- a part of the band that begins at block 0 and has at most `blocks` blocks
abbrev pub Plain : ℕ → UlBand → Type 0
Plain blocks band = (band.bwp_start ≡ 0) × (band.bwp_size ≤ blocks)

Plain-band :
    (blocks : ℕ) (band : UlBand)
    → Plain blocks band
    → let bi = get_pusch_bwp_start_size band in (bi.0 ≡ 0) × (bi.1 ≤ blocks)
unfolding get_pusch_bwp_start_size
Plain-band blocks band p = ground (arith, p)

-- the blocks of a range that begins inside of the band part are free
range_free :
    (m : List ℕ) (slbitmap bwp_start bwp_size most : ℕ)
    → bwp_start ≡ 0
    → let r = ul_free_range m slbitmap bwp_start bwp_size most in
      r.0 < bwp_size
      → (r.0 + r.1 ≤ bwp_size)
        × ((rb : ℕ) → r.0 ≤ rb → rb < r.0 + r.1 → bit_and (get_or m rb 0) slbitmap ≡ 0)
range_free m slbitmap bwp_start bwp_size most zero_start inside =
    let r = ul_free_range-UlRange m slbitmap bwp_start bwp_size most in
    let (start, size) = ul_free_range m slbitmap bwp_start bwp_size most in
    elim r.first [
      | inr (behind, _) ↦ absurd (omega (arith, behind, inside))
      | inl (free, fits) ↦ (
        fits,
        λ rb from to. elim (Bool-cases (rb == start)) [
          | inl first ↦
              free_word m slbitmap rb
                (subst (λ k. busy m slbitmap k ≡ false) (ground (arith, first, zero_start)) free)
          | inr later ↦
              let behind : start + 1 ≤ rb = ground (arith, later, from) in
              let k = rb - (start + 1) in
              let each =
                Each-at (λ n. not (busy m slbitmap (start + n + bwp_start))) true 1 (size - 1) k
                  r.free (omega (arith, behind, to)) in
              free_word m slbitmap rb (
                subst (λ k. busy m slbitmap k ≡ false) (omega (arith, behind, zero_start))
                  (not-true each))
        ],
      )
    ]

module _ (fl : Float) (nr : NrList) (g : UlGnb) (cfg : UlConfig) (at : UlSlot)
    (assoc : List AssocEntry) (tbl : List (LaEntry fl)) (blocks : ℕ)
    (beams : (w : g.W) (i b : ℕ)
      → let at_target = target fl nr g cfg at in
        (g.beam_allocation_procedure w at_target.f at_target.s i).0.idx ≡ some b
        → b < cfg.num_beams)
    (some_blocks : 0 < cfg.min_grant_prb)
    (at_most : (qm r : ℕ)
      → (precoding : Bool) → (layers n_symbols dmrs bytes least most : ℕ)
      → (g.nr_find_nb_rb qm r precoding layers n_symbols dmrs bytes least most).2 ≤ most) where
  -- a grant has at least one block
  min_rb_positive :
      (ue : UlPassUe fl nr) → ltb_ℤ (pos 0) (min_rb fl nr g cfg at assoc tbl ue) ≡ true
  unfolding min_rb get_min_grant_prb
  min_rb_positive ue = elim (Option-cases (get_entry fl ue.rnti tbl)) [
    | inl n ↦ rw n (ground (arith, some_blocks))
    | inr (e, h) ↦ rw h (ground (arith, some_blocks))
  ]

  -- the blocks that are left by the fit of the power
  fit_power_le :
      (s : PuschSched) (available : ℕ) (ue : UlPassUe fl nr)
      → WhenSome (λ f. f.0 ≤ available) (fit_power fl nr g cfg at assoc tbl s available ue)
  unfolding fit_power nr_ue_max_mcs_min_rb
  fit_power_le s available ue =
      let least = pos_part (min_rb fl nr g cfg at assoc tbl ue) in
      let pusch : SchedPusch = record {
        nr_of_symbols = s.tda_info.nr_of_symbols;
        n_prb_dmrs = s.dmrs_info.n_prb_dmrs;
        num_dmrs_symb = s.dmrs_info.num_dmrs_symb;
        nr_of_layers = s.nr_of_layers;
      } in
      let P = WhenSome (λ (f : ℕ × ℕ). f.0 ≤ available) in
      let needs = power g.phy ue.scs ue.ph pusch ue.ul_bwp s.mcs in
      let left = lower g.phy ue.scs ue.ph pusch ue.ul_bwp needs (available - least) available in
      if_ind P
        ((not (eqb_ℤ ue.pcmax (pos 0)) || not (eqb_ℤ ue.ph (pos 0)))
          && ltb 0 (waiting_bytes fl nr g cfg at ue))
        (nr_ue_max_mcs_min_rb g.phy ue.scs ue.ph pusch ue.ul_bwp least available s.mcs)
        (some (available, s.mcs))
        (λ _.
          if_ind P (leb least available && leb s.mcs 28) (some (left, _)) none
            (λ _.
              (lower-Lowered g.phy ue.scs ue.ph pusch ue.ul_bwp needs (available - least) available
                (omega arith)).1)
            (λ _. tt))
        (λ _. omega arith)

  wanted_size_le :
      (inactive : Bool) (s : PuschSched) (available most : ℕ) (ue : UlPassUe fl nr)
      → available ≤ most
      → pos_part (min_rb fl nr g cfg at assoc tbl ue) ≤ most
      → wanted_size fl nr g cfg at assoc tbl inactive s available ue ≤ most
  unfolding wanted_size
  wanted_size_le true s available most ue a l = l
  wanted_size_le false s available most ue a l = omega (
    arith,
    at_most s.qm s.r ue.transform_precoding s.nr_of_layers s.tda_info.nr_of_symbols _ _ _ available,
  )

  grant_size_le :
      (inactive : Bool) (s : PuschSched) (available most : ℕ) (ue : UlPassUe fl nr)
      → available ≤ most
      → pos_part (min_rb fl nr g cfg at assoc tbl ue) ≤ most
      → grant_size fl nr g cfg at assoc tbl inactive s available ue ≤ most
  unfolding grant_size
  grant_size_le inactive s available most ue a l =
      let wanted = wanted_size fl nr g cfg at assoc tbl inactive s available ue in
      let shaped =
        ul_slice_blocks-Shaped (policy_get fl (get_ul_id ue.rnti assoc)) available wanted in
      let small = wanted_size_le inactive s available most ue a l in
      elim shaped.0 [ inl x ↦ omega (arith, x, small) | inr y ↦ omega (arith, y, a) ]

  rb_size-complete_le :
      (inactive : Bool) (s : PuschSched) (fitted : ℕ × ℕ) (most : ℕ) (ue : UlPassUe fl nr)
      → fitted.0 ≤ most
      → pos_part (min_rb fl nr g cfg at assoc tbl ue) ≤ most
      → (complete fl nr g cfg at assoc tbl inactive s fitted ue).rb_size ≤ most
  unfolding complete
  rb_size-complete_le inactive s (available, mcs) most ue a l =
      let (r, qm) = update_ul_ue_r_qm g.phy mcs ue.ul_bwp.mcs_table ue.ul_bwp.pusch_config in
      grant_size_le inactive (record s { mcs = mcs; r = r; qm = qm }) available most ue a l

  -- the range of an allocation lies in the part of the band, and the allocation in the range
  range_room :
      (b : ℕ) (s : PuschSched) (ue : UlPassUe fl nr) (st : UlShared g)
      → (may : MayGrant fl nr g cfg at assoc tbl b s ue st)
      → let range = range_for fl nr g cfg at assoc tbl b may.inactive ue st in
        (range.0 < (get_pusch_bwp_start_size ue.ul_band).1)
        × (pos_part (min_rb fl nr g cfg at assoc tbl ue) ≤ range.1)
  unfolding ◌+ℤ◌
  range_room b s ue st may = ground (arith, may.enough_free, min_rb_positive ue)

  take_blocks-Sound :
      (b : ℕ) (s : PuschSched) (ue : UlPassUe fl nr) (st : UlShared g)
      → Plain blocks ue.ul_band
      → MayGrant fl nr g cfg at assoc tbl b s ue st
      → Sound cfg.num_beams blocks st.rballoc_mask st.allocations
      → let st' = take_blocks fl nr g cfg at assoc tbl b s st in
        Sound cfg.num_beams blocks st'.rballoc_mask st'.allocations
  unfolding take_blocks complete declared range_for
  take_blocks-Sound b s ue st p may sound =
      let (zero_start, narrow) = Plain-band blocks ue.ul_band p in
      let bi = get_pusch_bwp_start_size ue.ul_band in
      let (inside, least) = range_room b s ue st may in
      let range = range_for fl nr g cfg at assoc tbl b may.inactive ue st in
      let first =
        declared fl nr g cfg at assoc tbl range.0 may.selected_mcs ue
          (record st { world = may.world }) in
      let made = complete fl nr g cfg at assoc tbl may.inactive first may.fitted ue in
      let fitted : may.fitted.0 ≤ range.1 =
        subst (WhenSome (λ (f : ℕ × ℕ). f.0 ≤ range.1)) may.fits (fit_power_le first range.1 ue) in
      let fits : made.rb_size ≤ range.1 =
        rb_size-complete_le may.inactive first may.fitted range.1 ue fitted least in
      let (room, free) =
        range_free (get_or st.rballoc_mask b []) (symbols fl nr g cfg at assoc tbl) bi.0 bi.1
          (most_blocks fl nr g cfg at assoc tbl may.inactive ue) zero_start inside in
      subst
        (λ (s : PuschSched).
          let st' = take_blocks fl nr g cfg at assoc tbl b s st in
          Sound cfg.num_beams blocks st'.rballoc_mask st'.allocations)
        (sym may.chosen)
        (Sound-mark_grant cfg.num_beams blocks b (symbols fl nr g cfg at assoc tbl) range.0
          made.rb_size st.rballoc_mask st.allocations bi.0 zero_start sound may.beam_in_use
          (omega (arith, room, fits, narrow))
          (λ rb from to. free rb from (omega (arith, to, fits))))

  -- The second loop of `pf_ul` keeps what has been granted apart: if the allocations so far do not
  -- overlap and their blocks are in use in the maps, the same holds with all new grants, however many
  -- UEs are served and whatever the functions of the gNB answer. It is assumed that beams are numbered
  -- from 0, each with a map of enough blocks, that the UEs' parts of the band begin at block 0, that
  -- the smallest grant of the configuration is not empty, and that `nr_find_nb_rb` does not exceed its
  -- limit.
  pub serve_all-Sound :
      (cs : List (UlEntry fl)) (ues : List (UlPassUe fl nr)) (st : UlShared g)
      → All (λ u. Plain blocks u.ul_band) ues
      → Sound cfg.num_beams blocks st.rballoc_mask st.allocations
      → WhenSome
          (λ r. Sound cfg.num_beams blocks r.1.rballoc_mask r.1.allocations)
          (serve_all fl nr g cfg at assoc tbl cs ues st)
  serve_all-Sound cs ues st plain s =
      serve_all_ind fl nr g cfg at assoc tbl
        (λ st. Sound cfg.num_beams blocks st.rballoc_mask st.allocations) (Plain blocks)
        (λ _ _ _ s. s) beams take_blocks-Sound cs ues st plain s
