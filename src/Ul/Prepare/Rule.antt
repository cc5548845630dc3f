-- ===== src/Ul/Prepare/Rule.antt =====
-- A proof rule for the first loop of `pf_ul`: what a retransmission keeps, the loop keeps.
use user_ric.Prelude.{
  ℕ, suc, ◌-◌, ◌+◌, ◌<◌, ◌≡◌, refl, sym, inl, inr, Bool, true, false, not, ◌&&◌, ◌||◌, ◌==◌, List,
  [], ◌∷◌, Option, none, some, is_some, All, if◌then◌else◌, if_ind, Bool-cases, Option-cases,
  get_or, length,
}
use user_ric.Prelude.Int.{pos, ◌-ℤ◌, eqb_ℤ}
use user_ric.Prelude.Float.{Float}
use user_ric.Prelude.Slots.{modify}
use mathlib.Core.Path.{subst}
use user_ric.Slice.Assoc.{AssocEntry}
use user_ric.UeLa.{LaEntry}
use user_ric.Tda.{TdaInfo}
use user_ric.Power.Factor.{UlBand}
use user_ric.Order.{UlSched}
use user_ric.Harq.{NrList}
use user_ric.Harq.Grant.{UlUe}
use user_ric.Blocks.Marks.{length-mark}
use user_ric.Dl.{BeamAlloc}
use user_ric.Dl.Prepare.{total}
use user_ric.Dl.Serve.Rule.{WhenSome}
use user_ric.Ul.{PuschSched, UlPassUe, UlGnb, UlConfig, UlSlot, UlShared}
use user_ric.Ul.Retrans
use user_ric.Ul.Retrans.{
  UlRetrans, mark_again, sent, with_place, place_again, is_process, allocate_ul_retransmission,
}
use user_ric.Ul.Prepare.{
  UlEntry, no_pusch, target, release_both, waiting_bytes, begin_slot, lend, settle_ue, settle,
  count_again, serve_again, do_sched, select_mcs, weigh, consider, no_entry, new_or_again,
  with_beam, with_dci_beam, prepare, add_prepared, prepare_all,
}

-- a retransmission keeps the length of the map
module _ (nr : NrList) (g : UlGnb) (cfg : UlConfig) (frame slot dci_beam rnti : ℕ)
    (transform_precoding : Bool) (band : UlBand) (tda : ℕ) (tda_info : TdaInfo) where
  abbrev pub AsLong : List ℕ → Option (Bool × UlRetrans nr g) → Type 0
  AsLong map o = WhenSome (λ r. length r.1.rballoc_mask ≡ length map) o

  sent-AsLong :
      (s : PuschSched) (st : UlRetrans nr g) (ue : Option (UlUe nr))
      → AsLong st.rballoc_mask
          (sent nr g cfg frame slot dci_beam rnti transform_precoding band tda tda_info s st ue)
  unfolding sent mark_again
  sent-AsLong s st none = tt
  sent-AsLong s st (some ue) =
      length-mark _ st.rballoc_mask (band.bwp_start + s.rb_start) (s.rb_size - band.bwp_start)

  with_cce-AsLong :
      (s : PuschSched) (st : UlRetrans nr g) (cce : Option ℕ)
      → AsLong st.rballoc_mask (
          Retrans.with_cce nr g cfg frame slot dci_beam rnti transform_precoding band tda tda_info s
            st cce)
  unfolding Retrans.with_cce
  with_cce-AsLong s st none = refl
  with_cce-AsLong s st (some cce) = sent-AsLong s (record st { world = _; cce_index = some cce }) _

  with_place-AsLong :
      (st : UlRetrans nr g) (place : Option PuschSched)
      → AsLong st.rballoc_mask (
          with_place nr g cfg frame slot dci_beam rnti transform_precoding band tda tda_info st
            place)
  unfolding with_place
  with_place-AsLong st none = refl
  with_place-AsLong st (some s) = with_cce-AsLong s (record st { world = _ }) _

  pub allocate-AsLong :
      (pid : ℕ) (ret : PuschSched) (st : UlRetrans nr g)
      → AsLong st.rballoc_mask (
          allocate_ul_retransmission nr g cfg frame slot dci_beam rnti transform_precoding band tda
            tda_info pid ret st)
  unfolding allocate_ul_retransmission
  allocate-AsLong pid ret st =
      let place =
        place_again nr g cfg frame slot dci_beam rnti transform_precoding band tda tda_info
          st.rballoc_mask ret in
      if_ind (AsLong st.rballoc_mask) (is_process ret.ul_harq_pid pid)
        (with_place nr g cfg frame slot dci_beam rnti transform_precoding band tda tda_info st
          place)
        none (λ _. with_place-AsLong st place) (λ _. tt)

module _ (fl : Float) (nr : NrList) (g : UlGnb) (cfg : UlConfig) (at : UlSlot)
    (I : UlShared g → Type 0)
    (any_world : (st : UlShared g) (w : g.W) → I st → I (record st { world = w }))
    (beams : (w : g.W) (i b : ℕ)
      → let at_target = target fl nr g cfg at in
        (g.beam_allocation_procedure w at_target.f at_target.s i).0.idx ≡ some b
        → b < cfg.num_beams)
    -- a retransmission that is not possible
    (give_up : (b : ℕ) (r : UlRetrans nr g) (st : UlShared g)
      → length r.rballoc_mask ≡ length (get_or st.rballoc_mask b [])
      → I st
      → I (settle fl nr g cfg at b st r))
    -- a retransmission, while the sum of the counts is not 0
    (resend : (b : ℕ) (r : UlRetrans nr g) (st : UlShared g)
      → b < cfg.num_beams
      → eqb_ℤ (total st.remain_ues) (pos 0) ≡ false
      → length r.rballoc_mask ≡ length (get_or st.rballoc_mask b [])
      → I st
      → let st1 = settle fl nr g cfg at b st r in
        I (record st1 {
          remain_ues = modify st1.remain_ues b (λ n. n -ℤ pos 1);
          scheduled_something = true;
          resent = st1.resent + 1;
        })) where
  -- what is shown of the result of a step for a UE
  pub record Kept (band : UlBand) (r : UlPassUe fl nr × UlShared g) : Type 0 where
    pub same_band : r.0.ul_band ≡ band
    pub kept : I r.1

  same :
      {band : UlBand} {ue : UlPassUe fl nr} {st : UlShared g}
      → ue.ul_band ≡ band
      → I st
      → Kept band (ue, st)
  same e i = record { same_band = e; kept = i }

  count_again_ind :
      (b : ℕ) (dci beam : BeamAlloc) (ue : UlPassUe fl nr) (st : UlShared g)
      (o : Option (Bool × UlRetrans nr g))
      → b < cfg.num_beams
      → eqb_ℤ (total st.remain_ues) (pos 0) ≡ false
      → WhenSome (λ r. length r.1.rballoc_mask ≡ length (get_or st.rballoc_mask b [])) o
      → I st
      → WhenSome (Kept ue.ul_band) (count_again fl nr g cfg at b dci beam ue st o)
  unfolding count_again settle_ue
  count_again_ind b dci beam ue st none in_use left long i = tt
  count_again_ind b dci beam ue st (some (true, r)) in_use left long i =
      same refl (resend b r st in_use left long i)
  count_again_ind b dci beam ue st (some (false, r)) in_use left long i =
      same refl (any_world (settle fl nr g cfg at b st r) _ (give_up b r st long i))

  serve_again_ind :
      (pid db : ℕ) (dci : BeamAlloc) (b : ℕ) (beam : BeamAlloc) (ue : UlPassUe fl nr)
      (st : UlShared g)
      → b < cfg.num_beams
      → eqb_ℤ (total st.remain_ues) (pos 0) ≡ false
      → I st
      → WhenSome (Kept ue.ul_band) (serve_again fl nr g cfg at pid db dci b beam ue st)
  unfolding serve_again lend
  serve_again_ind pid db dci b beam ue st in_use left i =
      count_again_ind b dci beam ue st _ in_use left
        (allocate-AsLong nr g cfg at.frame at.slot db ue.rnti ue.transform_precoding ue.ul_band
          at.tda at.tda_info pid (get_or ue.harq_pusch pid no_pusch) (lend fl nr g cfg at b ue st))
        i

  module _ (assoc : List AssocEntry) (tbl : List (LaEntry fl)) where
    abbrev KeptOf : UlBand → Option (UlSched fl × ℕ) × UlPassUe fl nr × UlShared g → Type 0
    KeptOf band r = Kept band (r.1, r.2)

    select_mcs_ind :
        (ue : UlPassUe fl nr) (st : UlShared g)
        → I st
        → let r = select_mcs fl nr g cfg at assoc tbl ue st in Kept ue.ul_band (r.1, r.2)
    unfolding select_mcs
    select_mcs_ind ue st i = elim (Bool-cases (cfg.harq_round_max == 1)) [
      | inl one ↦ rw one (same refl i)
      | inr more ↦ rw more (same refl (any_world st _ i))
    ]

    consider_ind :
        (dci beam : BeamAlloc) (ue : UlPassUe fl nr) (st : UlShared g)
        → I st
        → KeptOf ue.ul_band (consider fl nr g cfg at assoc tbl dci beam ue st)
    unfolding consider
    consider_ind dci beam ue st i =
        let (mcs, ue1, st1) = select_mcs fl nr g cfg at assoc tbl ue st in
        let idle =
          (waiting_bytes fl nr g cfg at ue == 0 && not (do_sched fl nr g cfg at assoc tbl ue))
          || ue.transm_interrupt in
        let r = select_mcs_ind ue st i in
        if_ind (KeptOf ue.ul_band) (not (is_some (nr.head ue.ul.harq.available_ul_harq)) || idle)
          (none, ue, release_both fl nr g cfg at dci beam ue st)
          (some (weigh fl nr g cfg at assoc tbl mcs ue1 st1, mcs), ue1, st1)
          (λ _. same refl (any_world st _ i)) (λ _. same r.same_band r.kept)

    no_entry_ind :
        (ue : UlPassUe fl nr) (o : Option (UlPassUe fl nr × UlShared g))
        → WhenSome (Kept ue.ul_band) o
        → WhenSome (KeptOf ue.ul_band) (no_entry fl nr g cfg at assoc tbl o)
    no_entry_ind ue none k = tt
    no_entry_ind ue (some r) k = k

    new_or_again_ind :
        (db : ℕ) (dci : BeamAlloc) (b : ℕ) (beam : BeamAlloc) (ue : UlPassUe fl nr)
        (st : UlShared g) (pid : Option ℕ)
        → b < cfg.num_beams
        → eqb_ℤ (total st.remain_ues) (pos 0) ≡ false
        → I st
        → WhenSome
            (KeptOf ue.ul_band)
            (new_or_again fl nr g cfg at assoc tbl db dci b beam ue st pid)
    unfolding new_or_again
    new_or_again_ind db dci b beam ue st none in_use left i = consider_ind dci beam ue st i
    new_or_again_ind db dci b beam ue st (some pid) in_use left i =
        no_entry_ind ue _ (serve_again_ind pid db dci b beam ue st in_use left i)

    with_beam_ind :
        (db : ℕ) (dci beam : BeamAlloc) (ue : UlPassUe fl nr) (st : UlShared g) (idx : Option ℕ)
        → ((b : ℕ) → idx ≡ some b → b < cfg.num_beams)
        → eqb_ℤ (total st.remain_ues) (pos 0) ≡ false
        → I st
        → WhenSome (KeptOf ue.ul_band) (with_beam fl nr g cfg at assoc tbl db dci beam ue st idx)
    unfolding with_beam
    with_beam_ind db dci beam ue st none in_use left i = same refl (any_world st _ i)
    with_beam_ind db dci beam ue st (some b) in_use left i =
        new_or_again_ind db dci b beam ue st _ (in_use b refl) left i

    with_dci_beam_ind :
        (dci : BeamAlloc) (ue : UlPassUe fl nr) (st : UlShared g) (idx : Option ℕ)
        → eqb_ℤ (total st.remain_ues) (pos 0) ≡ false
        → I st
        → WhenSome (KeptOf ue.ul_band) (with_dci_beam fl nr g cfg at assoc tbl dci ue st idx)
    unfolding with_dci_beam
    with_dci_beam_ind dci ue st none left i = same refl i
    with_dci_beam_ind dci ue st (some db) left i =
        let at_target = target fl nr g cfg at in
        let (beam, w) =
          g.beam_allocation_procedure st.world at_target.f at_target.s ue.ue_beam_index in
        with_beam_ind db dci beam ue (record st { world = w }) beam.idx
          (beams st.world ue.ue_beam_index) left (any_world st w i)

    prepare_ind :
        (ue : UlPassUe fl nr) (st : UlShared g)
        → I st
        → WhenSome (KeptOf ue.ul_band) (prepare fl nr g cfg at assoc tbl ue st)
    unfolding prepare begin_slot
    prepare_ind ue st i =
        let ue1 = begin_slot fl nr g cfg at ue in
        let (dci, w) = g.beam_allocation_procedure st.world at.frame at.slot ue.ue_beam_index in
        let go = with_dci_beam fl nr g cfg at assoc tbl dci ue1 (record st { world = w }) dci.idx in
        let spent = eqb_ℤ (total st.remain_ues) (pos 0) in
        let P = WhenSome (KeptOf ue.ul_band) in
        if_ind P ue.ul_failure (some (none, ue, st)) (if spent then some (none, ue1, st) else go)
          (λ _. same refl i)
          (λ _.
            if_ind P spent (some (none, ue1, st)) go (λ _. same refl i)
              (λ left.
                with_dci_beam_ind dci ue1 (record st { world = w }) dci.idx left
                  (any_world st w i)))

    add_prepared_ind :
        (Q : UlBand → Type 0) (n : ℕ) (ue : UlPassUe fl nr) (entry : Option (UlSched fl × ℕ))
        (o : Option (List (UlEntry fl) × List (UlPassUe fl nr) × UlShared g))
        → Q ue.ul_band
        → WhenSome (λ r. All (λ u. Q u.ul_band) r.1 × I r.2) o
        → WhenSome
            (λ r. All (λ u. Q u.ul_band) r.1 × I r.2)
            (add_prepared fl nr g cfg at assoc tbl entry n ue o)
    add_prepared_ind Q n ue entry none q h = tt
    add_prepared_ind Q n ue entry (some r) q h = ((q, h.0), h.1)

    -- The loop keeps what a retransmission keeps, and the parts of the band of the UEs.
    pub prepare_all_ind :
        (Q : UlBand → Type 0) (n : ℕ) (ues : List (UlPassUe fl nr)) (st : UlShared g)
        → All (λ u. Q u.ul_band) ues
        → I st
        → WhenSome
            (λ r. All (λ u. Q u.ul_band) r.1 × I r.2)
            (prepare_all fl nr g cfg at assoc tbl n ues st)
    unfolding prepare_all
    prepare_all_ind Q n [] st q i = (tt, i)
    prepare_all_ind Q n (ue ∷ ues) st q i =
        elim (Option-cases (prepare fl nr g cfg at assoc tbl ue st)) [
          | inl failed ↦ rw (WhenSome, failed) tt
          | inr (a, e) ↦
              let r : KeptOf ue.ul_band a =
                subst (WhenSome (KeptOf ue.ul_band)) e (prepare_ind ue st i) in
              let rest = prepare_all_ind Q (suc n) ues a.2 q.1 r.kept in
              rw (WhenSome, e) (add_prepared_ind Q n a.1 a.0 _ (subst Q (sym r.same_band) q.0) rest)
        ]
