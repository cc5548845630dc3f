-- ===== src/Tx/Grant/Served.antt =====
-- A grant is served: its process is used, its block is sent, and no process is lost.
use user_ric.Prelude.{
  ℕ, ◌+◌, ◌≡◌, refl, ap, ◌∙◌, Bool, List, [], ◌∷◌, ◌++◌, Option, none, some, ◌==◌, if_ind,
  get_elem?, take, inl, inr, Option-cases,
}
use user_ric.Prelude.Float.{Float}
use user_ric.Prelude.Slots.{modify}
use user_ric.Harq.{NrList}
use user_ric.Harq.Lists.{NrListLaws}
use user_ric.Dl.{SchedPdsch}
use user_ric.Dl.Serve.Rule.{WhenSome}
use user_ric.Tx.{Source, Writing}
use user_ric.Tx.Ce.{CeLayout}
use user_ric.Tx.Grant.{
  DlProcess, DlHarq, TxUe, TxShared, await_feedback, send_again, send_new, fill_new, keep_block,
  post, send_block, with_feedback, with_process, send,
}
use user_ric.Tx.Grant.Lists.{tally, IsListed, Out, Back, take_process-Out, await_feedback-Back}

module _ {nr : NrList} (laws : NrListLaws nr) where
  module _ {fl : Float} (src : Source) (lay : CeLayout) (phy_test do_ra : Bool)
      (slots_frame frame slot : ℕ) where
    -- nothing of the lists, of the grant and of `TX_req` is changed
    record Untouched (h : DlHarq nr) (g : SchedPdsch) (st : TxShared src)
        (r : TxUe fl nr × TxShared src) : Type 0 where
      lists : (q : ℕ) → tally laws q r.0.harq ≡ tally laws q h
      grant : r.0.ue.sched_pdsch ≡ g
      tx_req : r.1.tx_req ≡ st.tx_req
      pdu_index : r.1.pdu_index ≡ st.pdu_index

    -- The UE is served: every process stands in the lists as often as before, the block that the
    -- process of the grant keeps is the one that `TX_req` has got, cut to the size of the grant, and
    -- the grant is marked as served.
    pub record Served (h : DlHarq nr) (g : SchedPdsch) (st : TxShared src)
        (r : TxUe fl nr × TxShared src) : Type 0 where
      pub lists : (q : ℕ) → tally laws q r.0.harq ≡ tally laws q h
      pub pid : ℕ
      pub of_grant : r.0.ue.sched_pdsch.dl_harq_pid ≡ some pid
      pub process : DlProcess
      pub kept : get_elem? r.0.harq.harq_processes pid ≡ some process
      pub posted :
          r.1.tx_req ≡ st.tx_req ++ (st.pdu_index, take g.tb_size process.transport_block) ∷ []
      pub marked : r.0.ue.sched_pdsch.rb_size ≡ 0

    with_block :
        (pid : ℕ) (u : TxUe fl nr) (st : TxShared src) (o : Option (List ℕ × Writing src))
        → WhenSome
            (Untouched u.harq u.ue.sched_pdsch st)
            (elim o as (λ _. Option (TxUe fl nr × TxShared src)) [
              | none ↦ none
              | some (block, w) ↦
                  some (keep_block src lay phy_test do_ra slots_frame frame slot pid block w u st)
            ])
    unfolding keep_block
    with_block pid u st none = tt
    with_block pid u st (some (block, w)) = record {
      lists = λ q. refl;
      grant = refl;
      tx_req = refl;
      pdu_index = refl;
    }

    fill_new-Untouched :
        (pid : ℕ) (u : TxUe fl nr) (st : TxShared src) (o : Option (List ℕ))
        → WhenSome
            (Untouched u.harq u.ue.sched_pdsch st)
            (fill_new src lay phy_test do_ra slots_frame frame slot pid u st o)
    unfolding fill_new
    fill_new-Untouched pid u st none = tt
    fill_new-Untouched pid u st (some ces) = with_block pid u st _

    send_new-Untouched :
        (pid : ℕ) (u : TxUe fl nr) (st : TxShared src)
        → WhenSome
            (Untouched u.harq u.ue.sched_pdsch st)
            (send_new src lay phy_test do_ra slots_frame frame slot pid u st)
    unfolding send_new
    send_new-Untouched pid u st = fill_new-Untouched pid u st _

    send_again-Untouched :
        (pid : ℕ) (p : DlProcess) (u : TxUe fl nr) (st : TxShared src)
        → WhenSome
            (Untouched u.harq u.ue.sched_pdsch st)
            (send_again src lay phy_test do_ra slots_frame frame slot pid p u st)
    unfolding send_again
    send_again-Untouched pid p u st =
        if_ind (WhenSome (Untouched u.harq u.ue.sched_pdsch st))
          (p.sched_pdsch.tb_size == u.ue.sched_pdsch.tb_size) _ none
          (λ _. record { lists = λ q. refl; grant = refl; tx_req = refl; pdu_index = refl })
          (λ _. tt)

    with_post :
        (pid : ℕ) (u : TxUe fl nr) (st : TxShared src) (o : Option (TxUe fl nr × TxShared src))
        → u.ue.sched_pdsch.dl_harq_pid ≡ some pid
        → WhenSome (Untouched u.harq u.ue.sched_pdsch st) o
        → WhenSome
            (Served u.harq u.ue.sched_pdsch st)
            (elim o as (λ _. Option (TxUe fl nr × TxShared src)) [
              | none ↦ none
              | some r ↦ post src lay phy_test do_ra slots_frame frame slot pid r
            ])
    unfolding post
    with_post pid u st none e k = tt
    with_post pid u st (some (u1, st1)) e k =
        elim (Option-cases (get_elem? u1.harq.harq_processes pid)) [
          | inl n ↦ rw (WhenSome, n) tt
          | inr (p, at) ↦
              rw (WhenSome, at)
                (record {
                  lists = k.lists;
                  pid = pid;
                  of_grant = ap (λ (s : SchedPdsch). s.dl_harq_pid) k.grant ∙ e;
                  process = p;
                  kept = at;
                  posted =
                      ap
                        (λ l.
                          l
                          ++ (st1.pdu_index, take u1.ue.sched_pdsch.tb_size p.transport_block) ∷ [])
                        k.tx_req
                      ∙ ap
                          (λ i.
                            st.tx_req ++ (i, take u1.ue.sched_pdsch.tb_size p.transport_block) ∷ [])
                          k.pdu_index
                      ∙ ap
                          (λ (s : SchedPdsch).
                            st.tx_req ++ (st.pdu_index, take s.tb_size p.transport_block) ∷ [])
                          k.grant;
                  marked = refl;
                })
        ]

    send_block-Served :
        (pid : ℕ) (p : DlProcess) (u : TxUe fl nr) (st : TxShared src)
        → u.ue.sched_pdsch.dl_harq_pid ≡ some pid
        → WhenSome
            (Served u.harq u.ue.sched_pdsch st)
            (send_block src lay phy_test do_ra slots_frame frame slot pid p u st)
    unfolding send_block
    send_block-Served pid p u st e =
        let counted : TxUe fl nr = record u {
          tpc1 = 1;
          stats = record u.stats { rounds = modify u.stats.rounds p.round (λ n. n + 1) };
        } in
        let new = send_new src lay phy_test do_ra slots_frame frame slot pid counted st in
        let again = send_again src lay phy_test do_ra slots_frame frame slot pid p counted st in
        with_post pid counted st _ e (
          if_ind (WhenSome (Untouched u.harq u.ue.sched_pdsch st)) (p.round == 0) new again
            (λ _. send_new-Untouched pid counted st) (λ _. send_again-Untouched pid p counted st))

    -- what holds from a state on with the same lists and a grant of the same size
    from_start :
        (h h1 : DlHarq nr) (g g1 : SchedPdsch) (st : TxShared src)
        (o : Option (TxUe fl nr × TxShared src))
        → ((q : ℕ) → tally laws q h1 ≡ tally laws q h)
        → g1.tb_size ≡ g.tb_size
        → WhenSome (Served h1 g1 st) o
        → WhenSome (Served h g st) o
    from_start h h1 g g1 st none same size s = tt
    from_start h h1 g g1 st (some r) same size s = record {
      lists = λ q. s.lists q ∙ same q;
      pid = s.pid;
      of_grant = s.of_grant;
      process = s.process;
      kept = s.kept;
      posted =
          s.posted
          ∙ ap (λ n. st.tx_req ++ (st.pdu_index, take n s.process.transport_block) ∷ []) size;
      marked = s.marked;
    }

    with_feedback-Served :
        (pid : ℕ) (h : DlHarq nr) (u : TxUe fl nr) (st : TxShared src) (o : Option (DlHarq nr))
        → u.ue.sched_pdsch.dl_harq_pid ≡ some pid
        → Out laws h (pid, u.harq)
        → WhenSome (Back laws pid u.harq) o
        → WhenSome
            (Served h u.ue.sched_pdsch st)
            (with_feedback src lay phy_test do_ra slots_frame frame slot pid u st o)
    unfolding with_feedback
    with_feedback-Served pid h u st none e out back = tt
    with_feedback-Served pid h u st (some harq1) e out back =
        elim (Option-cases (get_elem? harq1.harq_processes pid)) [
          | inl n ↦ rw (WhenSome, n) tt
          | inr (p, at) ↦
              let g = u.ue.sched_pdsch in
              let sent =
                from_start h harq1 g g st
                  (send_block src lay phy_test do_ra slots_frame frame slot pid p
                    (record u { harq = harq1 }) st)
                  (λ q. back q ∙ out q) refl
                  (send_block-Served pid p (record u { harq = harq1 }) st e) in
              rw (WhenSome, at) sent
        ]

    with_process-Served :
        (u : TxUe fl nr) (st : TxShared src) (o : Option (ℕ × DlHarq nr))
        → WhenSome (Out laws u.harq) o
        → WhenSome
            (Served u.harq u.ue.sched_pdsch st)
            (with_process src lay phy_test do_ra slots_frame frame slot u st o)
    unfolding with_process
    with_process-Served u st none out = tt
    with_process-Served u st (some (pid, harq1)) out =
        let g1 = record u.ue.sched_pdsch { dl_harq_pid = some pid } in
        let u1 : TxUe fl nr = record u { ue = record u.ue { sched_pdsch = g1 }; harq = harq1 } in
        let told = await_feedback u.sched_pucch u.ue.sched_pdsch.pucch_allocation pid harq1 in
        let next = with_feedback src lay phy_test do_ra slots_frame frame slot pid u1 st told in
        let P = WhenSome (Served u.harq u.ue.sched_pdsch st) in
        elim (Option-cases (get_elem? harq1.harq_processes pid)) [
          | inl n ↦ rw (WhenSome, n) tt
          | inr (p, at) ↦
              let served =
                from_start u.harq u.harq u.ue.sched_pdsch g1 st next (λ q. refl) refl
                  (with_feedback-Served pid u.harq u1 st told refl out (
                    await_feedback-Back laws u.sched_pucch u.ue.sched_pdsch.pucch_allocation pid
                      harq1)) in
              let tested = if_ind P p.is_waiting none next (λ _. tt) (λ _. served) in
              rw (WhenSome, at) tested
        ]

    -- If the process that a grant names is in the list for its round, of the free processes or of
    -- those to be sent again, and no assertion fails, then the UE is served, on every branch: a new
    -- block or an old one, a process that the grant names or the first free one, with feedback or
    -- without. Every process stands in the three lists as often as before, one block is sent, which is
    -- the one that the process of the grant keeps, cut to the size of the grant, and the grant is
    -- marked as served.
    pub send-Served :
        (u : TxUe fl nr) (st : TxShared src)
        → IsListed laws u.ue.sched_pdsch.dl_harq_pid u.harq
        → WhenSome
            (Served u.harq u.ue.sched_pdsch st)
            (send src lay phy_test do_ra slots_frame frame slot u st)
    unfolding send
    send-Served u st listed =
        with_process-Served u st _
          (take_process-Out laws u.ue.sched_pdsch.dl_harq_pid u.harq listed)
