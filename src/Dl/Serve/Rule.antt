-- ===== src/Dl/Serve/Rule.antt =====
-- A proof rule for the second loop of `pf_dl`: what a grant keeps, the loop keeps.
use user_ric.Prelude.{
  ℕ, ◌<◌, ◌≡◌, refl, inl, inr, Bool, true, false, ◌||◌, List, [], ◌∷◌, Option, none, some,
  Option-cases, get_or, get_elem?, All, All-get_elem?, if_ind, if◌then◌else◌, not, sym, arith,
}
use user_ric.Prelude.Int.{pos, ltb_ℤ, eqb_ℤ}
use user_ric.Prelude.Float.{Float}
use user_ric.Prelude.Slots.{modify-All}
use mathlib.Core.Path.{subst}
use user_ric.Slice.Assoc.{AssocEntry}
use user_ric.UeDl.{DlEntry}
use user_ric.Blocks.{dl_free_range}
use user_ric.Dl.{DlBwp, DlUe, Gnb, DlConfig, Shared}
use user_ric.Dl.Bwp.{get_pdsch_bwp_start_size}
use user_ric.Dl.Prepare.{DlSched}
use user_ric.Dl.Serve.{
  min_rb, symbols_of, set_modulation, make_grant, with_feedback, with_cce, claim, set_resources,
  try_beam, with_beam, with_process, serve, serve_entry, serve_all, release,
}

-- the result, if there is one, satisfies a predicate
abbrev pub WhenSome {ℓ} : {A : Type ℓ} → (A → Type 0) → Option A → Type 0
WhenSome P none = Unit
WhenSome P (some a) = P a

pub or-left : (a b : Bool) → a || b ≡ false → a ≡ false
or-left false b h = refl
or-left true b h = h

pub or-right : (a b : Bool) → a || b ≡ false → b ≡ false
or-right false b h = h
or-right true b h = absurd (ground (arith, h))

module _ (fl : Float) (g : Gnb) (cfg : DlConfig) (assoc : List AssocEntry) (tbl : List (DlEntry fl))
    (frame slot : ℕ) where
  -- the range of free blocks that is found for a UE
  abbrev pub range_for : ℕ → DlUe fl → Shared g → ℕ × ℕ
  range_for beam ue st =
      let bwp = ue.sched_pdsch.bwp_info in
      dl_free_range (get_or st.vrb_map beam []) (symbols_of fl g cfg assoc tbl frame slot ue)
        bwp.bwp_start bwp.bwp_size

  -- The conditions under which a grant is made, but for the control channels.
  pub record MayGrant (beam : ℕ) (ue : DlUe fl) (st : Shared g) : Type 0 where
    pub beam_in_use : beam < cfg.num_beams
    pub some_left : eqb_ℤ (get_or st.remain_ues beam (pos 0)) (pos 0) ≡ false
    pub enough_left :
        ltb_ℤ (get_or st.n_rb_sched beam (pos 0)) (min_rb fl g cfg assoc tbl frame slot ue) ≡ false
    pub enough_free :
        ltb_ℤ (pos (range_for beam ue st).1) (min_rb fl g cfg assoc tbl frame slot ue) ≡ false
    pub band :
        (w : g.W) × (ue.sched_pdsch.bwp_info
          ≡ get_pdsch_bwp_start_size g cfg w (some (ue.rnti, ue.dl_bwp)))

  module _ (I : Shared g → Type 0) (Q : DlBwp → Type 0)
      (any_world : (st : Shared g) (w : g.W) → I st → I (record st { world = w }))
      (beams : (w : g.W) (i b : ℕ)
        → (g.beam_allocation_procedure w frame slot i).0.idx ≡ some b
        → b < cfg.num_beams)
      (grant : (b : ℕ) (ue : DlUe fl) (st : Shared g) (cce : ℕ) (alloc : Option ℕ)
        → Q ue.dl_bwp
        → MayGrant b ue st
        → I st
        → I
            (make_grant fl g cfg assoc tbl frame slot b
              (range_for b ue st)
              cce
              alloc
              ue
              st).1) where
    -- what is shown of the result of a step for a UE
    pub record Kept (ue : DlUe fl) (r : DlUe fl × Shared g) : Type 0 where
      pub same_bwp : r.0.dl_bwp ≡ ue.dl_bwp
      pub kept : I r.1

    same : {ue ue' : DlUe fl} {st : Shared g} → ue'.dl_bwp ≡ ue.dl_bwp → I st → Kept ue (ue', st)
    same e i = record { same_bwp = e; kept = i }

    move :
        {b : ℕ} {ue : DlUe fl} {st : Shared g}
        → (w : g.W) → MayGrant b ue st
        → MayGrant b ue (record st { world = w })
    move w may = record {
      beam_in_use = may.beam_in_use;
      some_left = may.some_left;
      enough_left = may.enough_left;
      enough_free = may.enough_free;
      band = may.band;
    }

    with_feedback_ind :
        (b cce : ℕ) (new_beam : Bool) (ue : DlUe fl) (st : Shared g) (feedback : Option (Option ℕ))
        → Q ue.dl_bwp
        → MayGrant b ue st
        → I st
        → Kept ue (
            with_feedback fl g cfg assoc tbl frame slot b new_beam
              (range_for b ue st)
              cce
              ue
              st
              feedback)
    unfolding with_feedback make_grant set_modulation
    with_feedback_ind b cce new_beam ue st none q may i = same refl (any_world st _ i)
    with_feedback_ind b cce new_beam ue st (some alloc) q may i =
        same refl (grant b ue st cce alloc q may i)

    with_cce_ind :
        (b pid : ℕ) (new_beam : Bool) (ue : DlUe fl) (st : Shared g) (cce : Option ℕ)
        → Q ue.dl_bwp
        → MayGrant b ue st
        → I st
        → Kept ue
            (with_cce fl g cfg assoc tbl frame slot b new_beam pid (range_for b ue st) ue st cce)
    unfolding with_cce
    with_cce_ind b pid new_beam ue st none q may i = same refl (any_world st _ i)
    with_cce_ind b pid new_beam ue st (some cce) q may i =
        with_feedback_ind b cce new_beam ue (record st { world = _ }) _ q (move _ may)
          (any_world st _ i)

    claim_ind :
        (b pid : ℕ) (new_beam : Bool) (ue : DlUe fl) (st : Shared g)
        → Q ue.dl_bwp
        → MayGrant b ue st
        → I st
        → Kept ue (claim fl g cfg assoc tbl frame slot b new_beam pid (range_for b ue st) ue st)
    unfolding claim
    claim_ind b pid new_beam ue st q may i =
        with_cce_ind b pid new_beam ue (record st { world = _ }) _ q (move _ may) (any_world st _ i)

    try_beam_ind :
        (b pid : ℕ) (new_beam : Bool) (ue : DlUe fl) (st : Shared g)
        → Q ue.dl_bwp
        → b < cfg.num_beams
        → I st
        → WhenSome (Kept ue) (try_beam fl g cfg assoc tbl frame slot b new_beam pid ue st)
    unfolding try_beam set_resources min_rb
    try_beam_ind b pid new_beam ue st q in_use i =
        let ue1 = set_resources fl g cfg assoc tbl frame slot b pid ue st in
        let spent = eqb_ℤ (get_or st.remain_ues b (pos 0)) (pos 0) in
        let least_rb = min_rb fl g cfg assoc tbl frame slot ue in
        let short = ltb_ℤ (get_or st.n_rb_sched b (pos 0)) least_rb in
        let small = ltb_ℤ (pos (range_for b ue1 st).1) least_rb in
        let made = claim fl g cfg assoc tbl frame slot b new_beam pid (range_for b ue1 st) ue1 st in
        let last = if small then some (ue1, st) else some made in
        let valid = ue1.sched_pdsch.tda_info.valid_tda in
        let given_back = release fl g cfg assoc tbl frame slot b new_beam ue st in
        let P = WhenSome (Kept ue) in
        if_ind P (spent || short) (some (ue, given_back)) (if not valid then none else last)
          (λ _. same refl (any_world st _ i))
          (λ go.
            if_ind P (not valid) none last (λ _. tt)
              (λ _.
                if_ind P small (some (ue1, st)) (some made) (λ _. same refl i)
                  (λ enough.
                    let r =
                      claim_ind b pid new_beam ue1 st q
                        (record {
                          beam_in_use = in_use;
                          some_left = or-left spent short go;
                          enough_left = or-right spent short go;
                          enough_free = enough;
                          band = (st.world, refl);
                        })
                        i in
                    same r.same_bwp r.kept)))

    with_beam_ind :
        (pid : ℕ) (new_beam : Bool) (ue : DlUe fl) (st : Shared g) (beam : Option ℕ)
        → Q ue.dl_bwp
        → ((b : ℕ) → beam ≡ some b → b < cfg.num_beams)
        → I st
        → WhenSome (Kept ue) (with_beam fl g cfg assoc tbl frame slot new_beam pid ue st beam)
    unfolding with_beam
    with_beam_ind pid new_beam ue st none q in_use i = same refl i
    with_beam_ind pid new_beam ue st (some b) q in_use i =
        try_beam_ind b pid new_beam ue st q (in_use b refl) i

    with_process_ind :
        (ue : DlUe fl) (st : Shared g) (pid : Option ℕ)
        → Q ue.dl_bwp
        → I st
        → WhenSome (Kept ue) (with_process fl g cfg assoc tbl frame slot ue st pid)
    unfolding with_process
    with_process_ind ue st none q i = same refl i
    with_process_ind ue st (some pid) q i =
        with_beam_ind pid _ ue (record st { world = _ }) _ q (beams st.world ue.ue_beam_index)
          (any_world st _ i)

    pub serve_ind :
        (ue : DlUe fl) (st : Shared g)
        → Q ue.dl_bwp
        → I st
        → WhenSome (Kept ue) (serve fl g cfg assoc tbl frame slot ue st)
    unfolding serve
    serve_ind ue st q i = with_process_ind ue st ue.available_dl_harq q i

    -- what is shown of the result of a step of the loop
    abbrev KeptAll : List (DlUe fl) × Shared g → Type 0
    KeptAll r = All (λ u. Q u.dl_bwp) r.0 × I r.1

    serve_entry_ind :
        (c : DlSched fl) (ues : List (DlUe fl)) (st : Shared g)
        → All (λ u. Q u.dl_bwp) ues
        → I st
        → WhenSome KeptAll (serve_entry fl g cfg assoc tbl frame slot c ues st)
    unfolding serve_entry
    serve_entry_ind c ues st q i = elim (Option-cases (get_elem? ues c.ue)) [
      | inl n ↦ rw (WhenSome, serve_entry, n) (q, i)
      | inr (ue, e) ↦
          let qu = All-get_elem? (λ (u : DlUe fl). Q u.dl_bwp) ues c.ue ue q e in
          elim (Option-cases (serve fl g cfg assoc tbl frame slot ue st)) [
            | inl n ↦ rw (WhenSome, serve_entry, e, n) tt
            | inr (a, e') ↦
                let r : Kept ue a = subst (WhenSome (Kept ue)) e' (serve_ind ue st qu i) in
                (rw (WhenSome, serve_entry, e, e')
                  (
                    modify-All (λ (u : DlUe fl). Q u.dl_bwp) ues c.ue (λ _. a.0) q
                        (λ _ _. subst Q (sym r.same_bwp) qu),
                    r.kept,
                  ))
          ]
    ]

    -- The loop keeps what every grant keeps.
    pub serve_all_ind :
        (cs : List (DlSched fl)) (ues : List (DlUe fl)) (st : Shared g)
        → All (λ u. Q u.dl_bwp) ues
        → I st
        → WhenSome (λ r. I r.1) (serve_all fl g cfg assoc tbl frame slot cs ues st)
    unfolding serve_all
    serve_all_ind [] ues st q i = i
    serve_all_ind (c ∷ cs) ues st q i =
        let r = serve_entry_ind c ues st q i in
        elim (Option-cases (serve_entry fl g cfg assoc tbl frame slot c ues st)) [
          | inl n ↦ rw (WhenSome, n) tt
          | inr (a, e) ↦
              let k : KeptAll a = subst (WhenSome KeptAll) e r in
              rw (WhenSome, e) (serve_all_ind cs a.0 a.1 k.0 k.1)
        ]
