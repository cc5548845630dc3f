-- ===== src/Dl/Prepare/Rule.antt =====
-- A proof rule for the first loop of `pf_dl`: what a retransmission keeps, the loop keeps.
use user_ric.Prelude.{
  is_some, ◌+◌, ◌%◌, ◌&&◌, sym, inl, inr, ◌==◌, Bool-cases, get_or, ℕ, suc, ◌<◌, ◌≡◌, refl, Bool,
  false, not, List, [], ◌∷◌, Option, none, some, All, if◌then◌else◌, if_ind,
}
use user_ric.Prelude.Int.{pos, ◌-ℤ◌, eqb_ℤ}
use user_ric.Prelude.Float.{Float}
use user_ric.Prelude.Slots.{modify}
use mathlib.Core.Path.{subst}
use user_ric.Slice.Assoc.{AssocEntry}
use user_ric.Slice.Runtime.{RuntimeEntry}
use user_ric.UeDl.{DlEntry}
use user_ric.Dl.{BwpInfo, DlBwp, SchedPdsch, DlUe, Gnb, DlConfig, Shared}
use user_ric.Dl.Bwp.{get_dl_tda}
use user_ric.Dl.Retrans
use user_ric.Dl.Retrans.{no_pdsch, send_again, with_place, place_again, allocate_dl_retransmission}
use user_ric.Dl.Prepare.{
  total, throughput, count_again, with_beam, serve_again, select_mcs, weigh, consider,
  prepare_new_or_again, prepare, prepare_all,
}

module _ (fl : Float) (g : Gnb) (cfg : DlConfig) (frame slot : ℕ) (I : Shared g → Type 0)
    (any_world : (st : Shared g) (w : g.W) → I st → I (record st { world = w }))
    (beams : (w : g.W) (i b : ℕ)
      → (g.beam_allocation_procedure w frame slot i).0.idx ≡ some b
      → b < cfg.num_beams)
    -- a retransmission, while the sum of the counts is not 0
    (resend : (b : ℕ) (bwp : BwpInfo) (rb_start : ℕ) (ret : SchedPdsch) (alloc : Option ℕ) (cce : ℕ)
        (ue : DlUe fl) (st : Shared g)
      → b < cfg.num_beams
      → eqb_ℤ (total st.remain_ues) (pos 0) ≡ false
      → I st
      → let st1 = (send_again fl g cfg frame slot b bwp rb_start ret alloc cce ue st).1 in
        I (record st1 {
          remain_ues = modify st1.remain_ues b (λ n. n -ℤ pos 1);
          resent = st1.resent + 1;
        })) where
  -- what is shown of the result of a step for a UE
  pub record Kept (ue : DlUe fl) (r : DlUe fl × Shared g) : Type 0 where
    pub same_bwp : r.0.dl_bwp ≡ ue.dl_bwp
    pub kept : I r.1

  same : {ue ue' : DlUe fl} {st : Shared g} → ue'.dl_bwp ≡ ue.dl_bwp → I st → Kept ue (ue', st)
  same e i = record { same_bwp = e; kept = i }

  module _ (b : ℕ) (new_beam : Bool) (in_use : b < cfg.num_beams) where
    with_feedback_ind :
        (bwp : BwpInfo) (rb_start : ℕ) (ret : SchedPdsch) (cce : ℕ) (ue : DlUe fl) (st : Shared g)
        (feedback : Option (Option ℕ))
        → eqb_ℤ (total st.remain_ues) (pos 0) ≡ false
        → I st
        → Kept ue (
            count_again fl g cfg frame slot b new_beam
              (Retrans.with_feedback fl g cfg frame slot b bwp rb_start ret cce ue st feedback))
    unfolding Retrans.with_feedback count_again send_again
    with_feedback_ind bwp rb_start ret cce ue st none left i = same refl (any_world st _ i)
    with_feedback_ind bwp rb_start ret cce ue st (some alloc) left i =
        same refl (resend b bwp rb_start ret alloc cce ue st in_use left i)

    with_cce_ind :
        (bwp : BwpInfo) (pid rb_start : ℕ) (ret : SchedPdsch) (ue : DlUe fl) (st : Shared g)
        (cce : Option ℕ)
        → eqb_ℤ (total st.remain_ues) (pos 0) ≡ false
        → I st
        → Kept ue (
            count_again fl g cfg frame slot b new_beam
              (Retrans.with_cce fl g cfg frame slot b bwp pid rb_start ret ue st cce))
    unfolding Retrans.with_cce count_again
    with_cce_ind bwp pid rb_start ret ue st none left i = same refl (any_world st _ i)
    with_cce_ind bwp pid rb_start ret ue st (some cce) left i =
        with_feedback_ind bwp rb_start ret cce ue (record st { world = _ }) _ left
          (any_world st _ i)

    with_place_ind :
        (pid : ℕ) (ue : DlUe fl) (st : Shared g) (place : Option (ℕ × SchedPdsch))
        → eqb_ℤ (total st.remain_ues) (pos 0) ≡ false
        → I st
        → Kept ue (
            count_again fl g cfg frame slot b new_beam
              (with_place fl g cfg frame slot b pid ue st place))
    unfolding with_place count_again
    with_place_ind pid ue st none left i = same refl (any_world st _ i)
    with_place_ind pid ue st (some (rb_start, ret)) left i =
        let ue1 = record ue { harq_pdsch = modify ue.harq_pdsch pid (λ _. ret) } in
        let r =
          with_cce_ind _ pid rb_start ret ue1 (record st { world = _ }) _ left (any_world st _ i) in
        same r.same_bwp r.kept

    allocate_ind :
        (pid : ℕ) (ue : DlUe fl) (st : Shared g)
        → eqb_ℤ (total st.remain_ues) (pos 0) ≡ false
        → I st
        → Kept ue (
            count_again fl g cfg frame slot b new_beam
              (allocate_dl_retransmission fl g cfg frame slot b pid ue st))
    unfolding allocate_dl_retransmission count_again
    allocate_ind pid ue st left i =
        let ret = get_or ue.harq_pdsch pid no_pdsch in
        let tda = g.get_dl_tda_info st.world ue.rnti (get_dl_tda g cfg slot) in
        if_ind (λ r. Kept ue (count_again fl g cfg frame slot b new_beam r)) (not tda.valid_tda)
          (false, ue, st)
          (with_place fl g cfg frame slot b pid ue st
            (place_again fl g cfg frame slot b ue ret tda st))
          (λ _. same refl (any_world st _ i)) (λ _. with_place_ind pid ue st _ left i)

  with_beam_ind :
      (pid : ℕ) (new_beam : Bool) (ue : DlUe fl) (st : Shared g) (beam : Option ℕ)
      → ((b : ℕ) → beam ≡ some b → b < cfg.num_beams)
      → eqb_ℤ (total st.remain_ues) (pos 0) ≡ false
      → I st
      → Kept ue (with_beam fl g cfg frame slot pid new_beam ue st beam)
  unfolding with_beam
  with_beam_ind pid new_beam ue st none in_use left i = same refl (any_world st _ i)
  with_beam_ind pid new_beam ue st (some b) in_use left i =
      allocate_ind b new_beam (in_use b refl) pid ue st left i

  serve_again_ind :
      (pid : ℕ) (ue : DlUe fl) (st : Shared g)
      → eqb_ℤ (total st.remain_ues) (pos 0) ≡ false
      → I st
      → Kept ue (serve_again fl g cfg frame slot pid ue st)
  unfolding serve_again
  serve_again_ind pid ue st left i =
      with_beam_ind pid _ ue (record st { world = _ }) _ (beams st.world ue.ue_beam_index) left
        (any_world st _ i)

  module _ (assoc : List AssocEntry) (runtime : List RuntimeEntry) (tbl : List (DlEntry fl)) where
    select_mcs_ind :
        (ue : DlUe fl) (st : Shared g)
        → I st
        → Kept ue (select_mcs fl g cfg frame slot assoc runtime tbl ue st)
    unfolding select_mcs
    select_mcs_ind ue st i = elim (Bool-cases (cfg.harq_round_max == 1)) [
      | inl one ↦ rw one (same refl i)
      | inr more ↦ rw more (same refl (any_world st _ i))
    ]

    abbrev KeptOf : DlUe fl → Option fl.F × DlUe fl × Shared g → Type 0
    KeptOf ue r = Kept ue (r.1, r.2)

    consider_ind :
        (ue : DlUe fl) (st : Shared g)
        → I st
        → KeptOf ue (consider fl g cfg frame slot assoc runtime tbl ue st)
    unfolding consider weigh
    consider_ind ue st i =
        let (ue1, st1) = select_mcs fl g cfg frame slot assoc runtime tbl ue st in
        let (coef, ue2) = weigh fl g cfg frame slot assoc runtime tbl ue1 st1 in
        let idle = ue.num_total_bytes == 0 && not (frame == (ue.ta_frame + 100) % 1024) in
        let r = select_mcs_ind ue st i in
        if_ind (KeptOf ue) (not (is_some ue.available_dl_harq)) (none, ue, st)
          (if idle then (none, ue, st) else (some coef, ue2, st1)) (λ _. same refl i)
          (λ _.
            if_ind (KeptOf ue) idle (none, ue, st) (some coef, ue2, st1) (λ _. same refl i)
              (λ _. same r.same_bwp r.kept))

    new_or_again_ind :
        (ue : DlUe fl) (st : Shared g) (pid : Option ℕ)
        → eqb_ℤ (total st.remain_ues) (pos 0) ≡ false
        → I st
        → KeptOf ue (prepare_new_or_again fl g cfg frame slot assoc runtime tbl ue st pid)
    unfolding prepare_new_or_again
    new_or_again_ind ue st none left i = consider_ind ue st i
    new_or_again_ind ue st (some pid) left i =
        let r = serve_again_ind pid ue st left i in same r.same_bwp r.kept

    prepare_ind :
        (ue : DlUe fl) (st : Shared g)
        → I st
        → KeptOf ue (prepare fl g cfg frame slot assoc runtime tbl ue st)
    unfolding prepare
    prepare_ind ue st i =
        let ue1 : DlUe fl = record ue {
          dl_thr_ue = throughput fl g cfg frame slot ue.dl_thr_ue ue.current_bytes;
          sched_pdsch = record ue.sched_pdsch { dl_harq_pid = ue.retrans_dl_harq };
        } in
        let go =
          prepare_new_or_again fl g cfg frame slot assoc runtime tbl ue1 st ue.retrans_dl_harq in
        let spent = eqb_ℤ (total st.remain_ues) (pos 0) in
        if_ind (KeptOf ue) ue.ul_failure (none, ue, st) (if spent then (none, ue1, st) else go)
          (λ _. same refl i)
          (λ _.
            if_ind (KeptOf ue) spent (none, ue1, st) go (λ _. same refl i)
              (λ left.
                let r = new_or_again_ind ue1 st ue.retrans_dl_harq left i in
                same r.same_bwp r.kept))

    -- The loop keeps what a retransmission keeps, and the parts of the band of the UEs.
    pub prepare_all_ind :
        (Q : DlBwp → Type 0) (n : ℕ) (ues : List (DlUe fl)) (st : Shared g)
        → All (λ u. Q u.dl_bwp) ues
        → I st
        → let r = prepare_all fl g cfg frame slot assoc runtime tbl n ues st in
          All (λ u. Q u.dl_bwp) r.1 × I r.2
    unfolding prepare_all
    prepare_all_ind Q n [] st q i = (tt, i)
    prepare_all_ind Q n (ue ∷ ues) st q i =
        let (coef, ue1, st1) = prepare fl g cfg frame slot assoc runtime tbl ue st in
        let r = prepare_ind ue st i in
        let (qs, j) = prepare_all_ind Q (suc n) ues st1 q.1 r.kept in
        ((subst Q (sym r.same_bwp) q.0, qs), j)
