-- ===== src/Dl/Serve/Safe.antt =====
-- The grants of the second loop of `pf_dl` do not overlap.
use Prim.Native.Nat.{bit_and}
use mathlib.Core.Path.{subst}
use user_ric.Prelude.{
  zero, suc, true, not, Bool-cases, ◌==◌, ℕ, ◌+◌, ◌-◌, ◌<◌, ◌≤◌, ◌≡◌, refl, ◌∙◌, inl, inr, false,
  sym, some, List, [], Option, ap, get_or, All, arith,
}
use user_ric.Prelude.Int.{pos, ◌≤ℤ◌}
use user_ric.Prelude.Float.{Float}
use user_ric.Slice.Assoc.{AssocEntry, get_dl_id}
use user_ric.Slice.Policy.{policy_get}
use user_ric.UeDl.{DlEntry, get_min_grant_prb}
use user_ric.Blocks.{skip, busy, dl_free_range}
use user_ric.Blocks.Search.{Each-at, dl_free_range-DlRange, free_word, not-true}
use user_ric.Blocks.Size.{dl_slice_blocks-Shaped}
use user_ric.Blocks.Apart.{Sound, Sound-mark_grant}
use user_ric.Dl.{BwpInfo, DlBwp, DlUe, Gnb, DlConfig, Shared}
use user_ric.Dl.Bwp.{get_pdsch_bwp_start_size}
use user_ric.Dl.Prepare.{DlSched}
use user_ric.Dl.Serve.{
  min_rb, symbols_of, wanted_size, set_modulation, grant_size, make_grant, serve_all,
}
use user_ric.Dl.Serve.Rule.{MayGrant, WhenSome, range_for, serve_all_ind}

-- A UE whose part of the band, as `get_pdsch_bwp_start_size` gives it, begins at block 0 and has at
-- most `blocks` blocks.
abbrev pub Plain : Gnb → DlConfig → ℕ → DlBwp → Type 0
Plain g cfg blocks bwp =
    (w : g.W) (rnti : ℕ)
    → let info = get_pdsch_bwp_start_size g cfg w (some (rnti, bwp)) in
      (info.bwp_start ≡ 0) × (info.bwp_size ≤ blocks)

empty_band : (m : List ℕ) (slbitmap : ℕ) → dl_free_range m slbitmap 0 0 ≡ (0, 1)
unfolding dl_free_range skip
empty_band m slbitmap = refl

-- all blocks of a range of at least two are free
range_free :
    (m : List ℕ) (slbitmap bwp_size : ℕ)
    → let r = dl_free_range m slbitmap 0 bwp_size in
      2 ≤ r.1
      → (r.0 + r.1 ≤ bwp_size)
        × ((rb : ℕ) → r.0 ≤ rb → rb < r.0 + r.1 → bit_and (get_or m rb 0) slbitmap ≡ 0)
range_free m slbitmap zero many = absurd (omega (arith, rw empty_band at many))
range_free m slbitmap (suc n) many =
    let r = dl_free_range-DlRange m slbitmap 0 (suc n) (omega arith) in
    let (start, size) = dl_free_range m slbitmap 0 (suc n) in
    let used = λ (rb : ℕ). busy m slbitmap (rb + 0) in
    (
      r.inside.1,
      λ rb from to. free_word m slbitmap rb (elim (Bool-cases (rb == start)) [
        | inl first ↦ elim r.first [
          | inl free ↦ subst (λ k. busy m slbitmap k ≡ false) (ground (arith, first)) free
          | inr (_, one) ↦ absurd (omega (arith, one, many))
        ]
        | inr later ↦
            let behind : start + 1 ≤ rb = ground (arith, later, from) in
            let k = rb - (start + 1) in
            let free =
              Each-at (λ k. not (used k)) true (start + 1) (size - 1) k r.free (omega arith) in
            subst (λ k. busy m slbitmap k ≡ false) (omega arith) (not-true free)
      ]),
    )

range_free_from :
    (m : List ℕ) (slbitmap bwp_start bwp_size : ℕ)
    → bwp_start ≡ 0
    → let r = dl_free_range m slbitmap bwp_start bwp_size in
      2 ≤ r.1
      → (r.0 + r.1 ≤ bwp_size)
        × ((rb : ℕ) → r.0 ≤ rb → rb < r.0 + r.1 → bit_and (get_or m rb 0) slbitmap ≡ 0)
range_free_from m slbitmap bwp_start bwp_size zero_start =
    subst
      (λ s.
        let r = dl_free_range m slbitmap s bwp_size in
        2 ≤ r.1
        → (r.0 + r.1 ≤ bwp_size)
          × ((rb : ℕ) → r.0 ≤ rb → rb < r.0 + r.1 → bit_and (get_or m rb 0) slbitmap ≡ 0))
      (sym zero_start) (range_free m slbitmap bwp_size)

module _ (fl : Float) (g : Gnb) (cfg : DlConfig) (assoc : List AssocEntry) (tbl : List (DlEntry fl))
    (frame slot blocks : ℕ)
    (beams : (w : g.W) (i b : ℕ)
      → (g.beam_allocation_procedure w frame slot i).0.idx ≡ some b
      → b < cfg.num_beams)
    (at_least_two : (rnti : ℕ) → pos 2 ≤ℤ get_min_grant_prb fl rnti tbl (pos 5))
    (at_most : (qm r precoding layers symbols dmrs bytes least most : ℕ)
      → (g.nr_find_nb_rb qm r precoding layers symbols dmrs bytes least most).2 ≤ most) where
  wanted_size_le :
      (ue : DlUe fl) (available : ℕ)
      → wanted_size fl g cfg assoc tbl frame slot ue available ≤ available
  unfolding wanted_size
  wanted_size_le ue available = at_most _ _ _ _ _ _ _ _ available

  grant_size_le :
      (ue : DlUe fl) (available : ℕ)
      → grant_size fl g cfg assoc tbl frame slot ue available ≤ available
  unfolding grant_size
  grant_size_le ue available =
      let wanted = wanted_size fl g cfg assoc tbl frame slot ue available in
      let shaped =
        dl_slice_blocks-Shaped (policy_get fl (get_dl_id ue.rnti assoc)) available wanted in
      elim shaped.0 [ inl a ↦ omega (arith, a, wanted_size_le ue available) | inr b ↦ b ]

  make_grant-Sound :
      (b : ℕ) (ue : DlUe fl) (st : Shared g) (cce : ℕ) (alloc : Option ℕ)
      → Plain g cfg blocks ue.dl_bwp
      → MayGrant fl g cfg assoc tbl frame slot b ue st
      → Sound cfg.num_beams blocks st.vrb_map st.allocations
      → let st' =
          (make_grant fl g cfg assoc tbl frame slot b
            (range_for fl g cfg assoc tbl frame slot b ue st)
            cce
            alloc
            ue
            st).1 in
        Sound cfg.num_beams blocks st'.vrb_map st'.allocations
  unfolding make_grant min_rb
  make_grant-Sound b ue st cce alloc p may s =
      let (w, e) = may.band in
      let info = p w ue.rnti in
      let zero_start : ue.sched_pdsch.bwp_info.bwp_start ≡ 0 =
        ap (λ (i : BwpInfo). i.bwp_start) e ∙ info.0 in
      let band_size : ue.sched_pdsch.bwp_info.bwp_size ≤ blocks =
        omega (arith, ap (λ (i : BwpInfo). i.bwp_size) e, info.1) in
      let r = range_for fl g cfg assoc tbl frame slot b ue st in
      let many : 2 ≤ r.1 = ground (arith, may.enough_free, at_least_two ue.rnti) in
      let m = get_or st.vrb_map b [] in
      let symbols = symbols_of fl g cfg assoc tbl frame slot ue in
      let found =
        range_free_from m symbols ue.sched_pdsch.bwp_info.bwp_start ue.sched_pdsch.bwp_info.bwp_size
          zero_start many in
      let size =
        grant_size fl g cfg assoc tbl frame slot
          (set_modulation fl g cfg assoc tbl frame slot alloc ue) r.1 in
      let fits : size ≤ r.1 =
        grant_size_le (set_modulation fl g cfg assoc tbl frame slot alloc ue) r.1 in
      Sound-mark_grant cfg.num_beams blocks b symbols r.0 size st.vrb_map st.allocations
        ue.sched_pdsch.bwp_info.bwp_start zero_start s may.beam_in_use (omega (arith, found.0))
        (λ rb from to. found.1 rb from (omega arith))

  -- The second loop of `pf_dl` keeps what has been granted apart: if the allocations so far do not
  -- overlap and their blocks are in use in the maps, the same holds with all new grants, however many
  -- UEs are served and whatever the functions of the gNB answer. It is assumed that beams are numbered
  -- from 0, each with a map of enough blocks, that the UEs' parts of the band begin at block 0, that no
  -- UE may be granted a single block, and that `nr_find_nb_rb` does not exceed its limit.
  pub serve_all-Sound :
      (cs : List (DlSched fl)) (ues : List (DlUe fl)) (st : Shared g)
      → All (λ u. Plain g cfg blocks u.dl_bwp) ues
      → Sound cfg.num_beams blocks st.vrb_map st.allocations
      → WhenSome
          (λ r. Sound cfg.num_beams blocks r.1.vrb_map r.1.allocations)
          (serve_all fl g cfg assoc tbl frame slot cs ues st)
  serve_all-Sound cs ues st plain s =
      serve_all_ind fl g cfg assoc tbl frame slot
        (λ st. Sound cfg.num_beams blocks st.vrb_map st.allocations) (Plain g cfg blocks)
        (λ _ _ s. s) beams make_grant-Sound cs ues st plain s
