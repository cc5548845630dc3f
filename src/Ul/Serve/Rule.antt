-- ===== src/Ul/Serve/Rule.antt =====
-- A proof rule for the second loop of `pf_ul`: what a grant keeps, the loop keeps.
use user_ric.Prelude.{
  ℕ, ◌<◌, ◌≡◌, refl, sym, inl, inr, Bool, false, ◌||◌, List, [], ◌∷◌, Option, none, some, All,
  All-get_elem?, if_ind, Option-cases, get_or, get_elem?, min,
}
use user_ric.Prelude.Int.{pos, ◌+ℤ◌, ltb_ℤ, eqb_ℤ}
use user_ric.Prelude.Float.{Float}
use user_ric.Prelude.Slots.{modify-All}
use mathlib.Core.Path.{subst}
use user_ric.Slice.Assoc.{AssocEntry}
use user_ric.Slice.Runtime.{RuntimeEntry}
use user_ric.UeLa.{LaEntry}
use user_ric.Power.Factor.{UlBand, get_pusch_bwp_start_size}
use user_ric.Harq.{NrList}
use user_ric.Harq.Grant.{UlUe}
use user_ric.Dl.{BeamAlloc}
use user_ric.Dl.Serve.Rule.{WhenSome, or-left, or-right}
use user_ric.Ul.{PuschSched, UlPassUe, UlGnb, UlConfig, UlSlot, UlShared}
use user_ric.Ul.Prepare.{UlEntry, target, release_pusch}
use user_ric.Ul.Serve.{
  min_rb, range_for, declared, fit_power, complete, take_blocks, posted, make_grant, with_power,
  give_back, with_cce, with_dci_beam, with_beam, serve, serve_entry, serve_all,
}

module _ (fl : Float) (nr : NrList) (g : UlGnb) (cfg : UlConfig) (at : UlSlot)
    (assoc : List AssocEntry) (tbl : List (LaEntry fl)) where
  -- The conditions under which an allocation is made, but for the control channels.
  pub record MayGrant (b : ℕ) (s : PuschSched) (ue : UlPassUe fl nr) (st : UlShared g)
      : Type 0 where
    pub beam_in_use : b < cfg.num_beams
    pub some_left : eqb_ℤ (get_or st.remain_ues b (pos 0)) (pos 0) ≡ false
    pub enough_left :
        ltb_ℤ (get_or st.n_rb_sched b (pos 0)) (min_rb fl nr g cfg at assoc tbl ue) ≡ false
    pub inactive : Bool
    pub selected_mcs : ℕ
    pub world : g.W
    pub fitted : ℕ × ℕ
    pub enough_free :
        let range = range_for fl nr g cfg at assoc tbl b inactive ue st in
        ltb_ℤ
            (pos (get_pusch_bwp_start_size ue.ul_band).1)
            (pos range.0 +ℤ min_rb fl nr g cfg at assoc tbl ue)
          || ltb_ℤ (pos range.1) (min_rb fl nr g cfg at assoc tbl ue)
        ≡ false
    pub fits :
        let range = range_for fl nr g cfg at assoc tbl b inactive ue st in
        let first =
          declared fl nr g cfg at assoc tbl range.0 selected_mcs ue (record st { world = world }) in
        fit_power fl nr g cfg at assoc tbl first range.1 ue ≡ some fitted
    pub chosen :
        let range = range_for fl nr g cfg at assoc tbl b inactive ue st in
        let first =
          declared fl nr g cfg at assoc tbl range.0 selected_mcs ue (record st { world = world }) in
        s ≡ complete fl nr g cfg at assoc tbl inactive first fitted ue

  move :
      {b : ℕ} {s : PuschSched} {ue : UlPassUe fl nr} {st : UlShared g}
      → (w : g.W) (runtime : List RuntimeEntry) → MayGrant b s ue st
      → MayGrant b s ue (record st { world = w; runtime = runtime })
  unfolding range_for declared
  move w runtime may = record {
    beam_in_use = may.beam_in_use;
    some_left = may.some_left;
    enough_left = may.enough_left;
    inactive = may.inactive;
    selected_mcs = may.selected_mcs;
    world = may.world;
    fitted = may.fitted;
    enough_free = may.enough_free;
    fits = may.fits;
    chosen = may.chosen;
  }

  module _ (I : UlShared g → Type 0) (Q : UlBand → Type 0)
      (any_world : (st : UlShared g) (w : g.W) (runtime : List RuntimeEntry)
        → I st
        → I (record st { world = w; runtime = runtime }))
      (beams : (w : g.W) (i b : ℕ)
        → let at_target = target fl nr g cfg at in
          (g.beam_allocation_procedure w at_target.f at_target.s i).0.idx ≡ some b
          → b < cfg.num_beams)
      (grant : (b : ℕ) (s : PuschSched) (ue : UlPassUe fl nr) (st : UlShared g)
        → Q ue.ul_band
        → MayGrant b s ue st
        → I st
        → I (take_blocks fl nr g cfg at assoc tbl b s st)) where
    -- what is shown of the result of a step for a UE
    pub record Kept (band : UlBand) (r : UlPassUe fl nr × UlShared g) : Type 0 where
      pub same_band : r.0.ul_band ≡ band
      pub kept : I r.1

    same :
        {band : UlBand} {ue : UlPassUe fl nr} {st : UlShared g}
        → ue.ul_band ≡ band
        → I st
        → Kept band (ue, st)
    same e i = record { same_band = e; kept = i }

    world_only : (st : UlShared g) (w : g.W) → I st → I (record st { world = w })
    world_only st w i = any_world st w st.runtime i

    module _ (b : ℕ) (s : PuschSched) (ue : UlPassUe fl nr) (q : Q ue.ul_band) where
      posted_ind :
          (ue' : UlPassUe fl nr) (st : UlShared g) (o : Option (UlUe nr))
          → ue'.ul_band ≡ ue.ul_band
          → MayGrant b s ue st
          → I st
          → WhenSome (Kept ue.ul_band) (posted fl nr g cfg at assoc tbl b s ue' st o)
      unfolding posted
      posted_ind ue' st none e may i = tt
      posted_ind ue' st (some ul) e may i = same e (
          grant b s ue (record st { runtime = ul.runtime }) q (move st.world ul.runtime may)
            (any_world st st.world ul.runtime i))

      make_grant_ind :
          (db cce : ℕ) (ue' : UlPassUe fl nr) (st : UlShared g)
          → ue'.ul_band ≡ ue.ul_band
          → MayGrant b s ue st
          → I st
          → WhenSome (Kept ue.ul_band) (make_grant fl nr g cfg at assoc tbl b db cce s ue' st)
      unfolding make_grant
      make_grant_ind db cce ue' st e may i =
          posted_ind (record ue' { cce_index = some cce })
            (record st { world = g.fill_pdcch_vrb_map st.world ue'.rnti cce db }) _ e
            (move _ st.runtime may) (world_only st _ i)

    with_power_ind :
        (b db cce : ℕ) (inactive : Bool) (mcs : ℕ) (ue : UlPassUe fl nr) (st : UlShared g)
        (o : Option (ℕ × ℕ))
        → let range = range_for fl nr g cfg at assoc tbl b inactive ue st in
          let first = declared fl nr g cfg at assoc tbl range.0 mcs ue st in
          Q ue.ul_band
          → ((fitted : ℕ × ℕ)
              → o ≡ some fitted
              → MayGrant b (complete fl nr g cfg at assoc tbl inactive first fitted ue) ue st)
          → I st
          → WhenSome
              (Kept ue.ul_band)
              (with_power fl nr g cfg at assoc tbl b db cce inactive first ue st o)
    unfolding with_power
    with_power_ind b db cce inactive mcs ue st none q may i = tt
    with_power_ind b db cce inactive mcs ue st (some fitted) q may i =
        make_grant_ind b _ ue q db cce (record ue { ul_bler_mcs = min ue.ul_bler_mcs fitted.1 }) st
          refl (may fitted refl) i

    with_cce_ind :
        (b : ℕ) (beam : BeamAlloc) (db : ℕ) (dci : BeamAlloc) (c : UlEntry fl) (ue : UlPassUe fl nr)
        (st : UlShared g) (cce : Option ℕ)
        → Q ue.ul_band
        → b < cfg.num_beams
        → eqb_ℤ (get_or st.remain_ues b (pos 0)) (pos 0) ≡ false
        → ltb_ℤ (get_or st.n_rb_sched b (pos 0)) (min_rb fl nr g cfg at assoc tbl ue) ≡ false
        → I st
        → WhenSome (Kept ue.ul_band) (with_cce fl nr g cfg at assoc tbl b beam db dci c ue st cce)
    unfolding with_cce
    with_cce_ind b beam db dci c ue st none q in_use left enough i = same refl (world_only st _ i)
    with_cce_ind b beam db dci c ue st (some cce) q in_use left enough i =
        let inactive = c.sched.sched_inactive in
        let range = range_for fl nr g cfg at assoc tbl b inactive ue st in
        let first = declared fl nr g cfg at assoc tbl range.0 c.selected_mcs ue st in
        if_ind (WhenSome (Kept ue.ul_band))
          (ltb_ℤ (pos (get_pusch_bwp_start_size ue.ul_band).1)
              (pos range.0 +ℤ min_rb fl nr g cfg at assoc tbl ue)
            || ltb_ℤ (pos range.1) (min_rb fl nr g cfg at assoc tbl ue))
          (some (ue, give_back fl nr g cfg at assoc tbl dci beam ue st))
          (with_power fl nr g cfg at assoc tbl b db cce inactive first ue st
            (fit_power fl nr g cfg at assoc tbl first range.1 ue))
          (λ _. same refl (world_only st _ i))
          (λ free.
            with_power_ind b db cce inactive c.selected_mcs ue st _ q
              (λ fitted e. record {
                beam_in_use = in_use;
                some_left = left;
                enough_left = enough;
                inactive = inactive;
                selected_mcs = c.selected_mcs;
                world = st.world;
                fitted = fitted;
                enough_free = free;
                fits = e;
                chosen = refl;
              })
              i)

    with_dci_beam_ind :
        (b : ℕ) (beam dci : BeamAlloc) (c : UlEntry fl) (ue : UlPassUe fl nr) (st : UlShared g)
        (idx : Option ℕ)
        → Q ue.ul_band
        → b < cfg.num_beams
        → eqb_ℤ (get_or st.remain_ues b (pos 0)) (pos 0) ≡ false
        → ltb_ℤ (get_or st.n_rb_sched b (pos 0)) (min_rb fl nr g cfg at assoc tbl ue) ≡ false
        → I st
        → WhenSome (Kept ue.ul_band) (with_dci_beam fl nr g cfg at assoc tbl b beam dci c ue st idx)
    unfolding with_dci_beam
    with_dci_beam_ind b beam dci c ue st none q in_use left enough i = same refl (world_only st _ i)
    with_dci_beam_ind b beam dci c ue st (some db) q in_use left enough i =
        let (cce, w) = g.get_cce_index st.world at.slot ue.rnti db in
        with_cce_ind b beam db dci c ue (record st { world = w }) cce q in_use left enough
          (world_only st w i)

    with_beam_ind :
        (beam : BeamAlloc) (c : UlEntry fl) (ue : UlPassUe fl nr) (st : UlShared g) (idx : Option ℕ)
        → Q ue.ul_band
        → ((b : ℕ) → idx ≡ some b → b < cfg.num_beams)
        → I st
        → WhenSome (Kept ue.ul_band) (with_beam fl nr g cfg at assoc tbl beam c ue st idx)
    unfolding with_beam
    with_beam_ind beam c ue st none q in_use i = same refl i
    with_beam_ind beam c ue st (some b) q in_use i =
        let (dci, w) = g.beam_allocation_procedure st.world at.frame at.slot ue.ue_beam_index in
        let spent = eqb_ℤ (get_or st.remain_ues b (pos 0)) (pos 0) in
        let short = ltb_ℤ (get_or st.n_rb_sched b (pos 0)) (min_rb fl nr g cfg at assoc tbl ue) in
        if_ind (WhenSome (Kept ue.ul_band)) (spent || short)
          (some (ue, release_pusch fl nr g cfg at beam ue st))
          (with_dci_beam fl nr g cfg at assoc tbl b beam dci c ue (record st { world = w }) dci.idx)
          (λ _. same refl (world_only st _ i))
          (λ go.
            with_dci_beam_ind b beam dci c ue (record st { world = w }) dci.idx q (in_use b refl)
              (or-left spent short go) (or-right spent short go) (world_only st w i))

    serve_ind :
        (c : UlEntry fl) (ue : UlPassUe fl nr) (st : UlShared g)
        → Q ue.ul_band
        → I st
        → WhenSome (Kept ue.ul_band) (serve fl nr g cfg at assoc tbl c ue st)
    unfolding serve
    serve_ind c ue st q i =
        let at_target = target fl nr g cfg at in
        let (beam, w) =
          g.beam_allocation_procedure st.world at_target.f at_target.s ue.ue_beam_index in
        with_beam_ind beam c ue (record st { world = w }) beam.idx q
          (beams st.world ue.ue_beam_index) (world_only st w i)

    -- what is shown of the result of a step of the loop
    abbrev KeptAll : List (UlPassUe fl nr) × UlShared g → Type 0
    KeptAll r = All (λ u. Q u.ul_band) r.0 × I r.1

    serve_entry_ind :
        (c : UlEntry fl) (ues : List (UlPassUe fl nr)) (st : UlShared g)
        → All (λ u. Q u.ul_band) ues
        → I st
        → WhenSome KeptAll (serve_entry fl nr g cfg at assoc tbl c ues st)
    unfolding serve_entry
    serve_entry_ind c ues st q i = elim (Option-cases (get_elem? ues c.ue)) [
      | inl n ↦ rw (WhenSome, serve_entry, n) (q, i)
      | inr (ue, e) ↦
          let qu = All-get_elem? (λ (u : UlPassUe fl nr). Q u.ul_band) ues c.ue ue q e in
          elim (Option-cases (serve fl nr g cfg at assoc tbl c ue st)) [
            | inl n ↦ rw (WhenSome, serve_entry, e, n) tt
            | inr (a, e') ↦
                let r : Kept ue.ul_band a =
                  subst (WhenSome (Kept ue.ul_band)) e' (serve_ind c ue st qu i) in
                (rw (WhenSome, serve_entry, e, e')
                  (
                    modify-All (λ (u : UlPassUe fl nr). Q u.ul_band) ues c.ue (λ _. a.0) q
                        (λ _ _. subst Q (sym r.same_band) qu),
                    r.kept,
                  ))
          ]
    ]

    -- The loop keeps what every grant keeps.
    pub serve_all_ind :
        (cs : List (UlEntry fl)) (ues : List (UlPassUe fl nr)) (st : UlShared g)
        → All (λ u. Q u.ul_band) ues
        → I st
        → WhenSome (λ r. I r.1) (serve_all fl nr g cfg at assoc tbl cs ues st)
    unfolding serve_all
    serve_all_ind [] ues st q i = i
    serve_all_ind (c ∷ cs) ues st q i =
        let r = serve_entry_ind c ues st q i in
        elim (Option-cases (serve_entry fl nr g cfg at assoc tbl c ues st)) [
          | inl n ↦ rw (WhenSome, n) tt
          | inr (a, e) ↦
              let k : KeptAll a = subst (WhenSome KeptAll) e r in
              rw (WhenSome, e) (serve_all_ind cs a.0 a.1 k.0 k.1)
        ]
