-- ===== src/Harq/Grant/Attempts.antt =====
-- A block that never gets through: its process is granted resources and fails until it is aborted.
use user_ric.Prelude.{
  ℕ, suc, ◌⊎◌, ◌+◌, ◌-◌, ◌<◌, ◌≤◌, ◌≡◌, refl, ◌∙◌, ap, inl, inr, true, false, List, [], ◌∷◌, Option,
  none, some, ◌==◌, leb, length, All, Bool-cases, arith,
}
use user_ric.Prelude.Int.{minus_one}
use user_ric.Prelude.Slots.{count}
use user_ric.Harq.{
  NrList, UlHarq, HarqProcess, Outcome, process_of, change, renew, pop, failed, resolve,
  run_feedback, handle_nr_ul_harq, finish_nr_ul_harq, abort_nr_ul_harq,
}
use user_ric.Harq.Lists.{NrListLaws, occurs, occurs-add_tail, first, tail}
use user_ric.Harq.Grant.Sent.{Idle, Ready, Sent, process-change, known-change, post_process-Sent}
use user_ric.Harq.Grant.{UlGrant, UlUe, post_process_ulsch}

module _ {nr : NrList} (laws : NrListLaws nr) (harq_round_max : ℕ) where
  -- what a failed block leaves: the next round, or a free process
  abbrev pub Retried : ℕ → ℕ → UlHarq nr → Type 0
  Retried pid round st =
      ((suc round < harq_round_max) × Ready laws harq_round_max pid (suc round) st)
      ⊎ ((harq_round_max ≤ suc round)
          × Ready laws harq_round_max pid 0 st
          × (0 < count (λ x. x == pid) (laws.contents st.available_ul_harq)))

  added : (pid : ℕ) (l : nr.L) → 0 < occurs laws pid (nr.add_tail l pid)
  added pid l = ground (arith, occurs-add_tail laws pid pid l)

  failed-Retried :
      (pid round : ℕ) (st : UlHarq nr)
      → Idle laws harq_round_max pid round st
      → Retried pid round (failed nr harq_round_max pid st)
  unfolding failed abort_nr_ul_harq finish_nr_ul_harq
  failed-Retried pid round st r =
      elim (Bool-cases (leb (harq_round_max - 1) (process_of nr st pid).round)) [
        | inl last ↦
            let p = process-change laws harq_round_max pid (renew nr) st r.known in
            let back : 0 < occurs laws pid (nr.add_tail st.available_ul_harq pid) =
              added pid st.available_ul_harq in
            rw last (
              inr (
                ground (arith, last, r.in_round),
                record {
                  free = record {
                    known = known-change laws harq_round_max pid (renew nr) st r.known;
                    idle = ap (λ (p : HarqProcess). p.is_waiting) p ∙ r.idle;
                    in_round = ap (λ (p : HarqProcess). p.round) p;
                    nobody_waits = r.nobody_waits;
                  };
                  listed = back;
                },
                back,
              ))
        | inr more ↦
            let f = λ (p : HarqProcess). record p { round = p.round + 1 } in
            let p = process-change laws harq_round_max pid f st r.known in
            let next : (suc round == 0) ≡ false = ground arith in
            rw more (
              inl (
                ground (arith, more, r.in_round),
                record {
                  free = record {
                    known = known-change laws harq_round_max pid f st r.known;
                    idle = ap (λ (p : HarqProcess). p.is_waiting) p ∙ r.idle;
                    in_round = omega (arith, ap (λ (p : HarqProcess). p.round) p, r.in_round);
                    nobody_waits = r.nobody_waits;
                  };
                  listed = rw next (added pid st.retrans_ul_harq);
                },
              ))
      ]

  -- The feedback that the block was lost.
  handle-Retried :
      (pid round : ℕ) (st : UlHarq nr)
      → Sent laws harq_round_max pid round st
      → (st' : UlHarq nr) × (handle_nr_ul_harq nr 1 false harq_round_max pid true st
          ≡ Outcome.done st')
        × Retried pid round st'
  unfolding handle_nr_ul_harq run_feedback resolve
  handle-Retried pid round st s =
      let head : nr.head st.feedback_ul_harq ≡ some pid =
        laws.head-contents st.feedback_ul_harq ∙ ap first s.alone in
      let f = λ (p : HarqProcess). record p { feedback_slot = minus_one; is_waiting = false } in
      let st1 = pop nr st in
      let st2 = change nr pid f st1 in
      let p = process-change laws harq_round_max pid f st1 s.known in
      let itself : (pid == pid) ≡ true = ground arith in
      let ready : Idle laws harq_round_max pid round st2 = record {
        known = known-change laws harq_round_max pid f st1 s.known;
        idle = ap (λ (p : HarqProcess). p.is_waiting) p;
        in_round = ap (λ (p : HarqProcess). p.round) p ∙ s.in_round;
        nobody_waits = laws.contents-remove_front st.feedback_ul_harq ∙ ap tail s.alone;
      } in
      (
        failed nr harq_round_max pid st2,
        rw (handle_nr_ul_harq, run_feedback, head, itself, resolve, s.waits) refl,
        failed-Retried pid round st2 ready,
      )

  -- A grant for a process, and the feedback that its block was lost; `none` is a failed assertion or a
  -- loop that did not end.
  abbrev pub keep_result : UlUe nr → Outcome (UlHarq nr) → Option (UlUe nr)
  keep_result ue (Outcome.done h) = some (record ue { harq = h })
  keep_result ue Outcome.asserted = none
  keep_result ue Outcome.unfinished = none

  abbrev pub lose : ℕ → Option (UlUe nr) → Option (UlUe nr)
  lose pid none = none
  lose pid (some ue) = keep_result ue (handle_nr_ul_harq nr 1 false harq_round_max pid true ue.harq)

  -- one such attempt for each grant
  unfoldable pub attempts : ℕ → ℕ → ℕ → List UlGrant → Option (UlUe nr) → Option (UlUe nr)
  attempts slots_frame rnti pid [] o = o
  attempts slots_frame rnti pid (grant ∷ grants) none = none
  attempts slots_frame rnti pid (grant ∷ grants) (some ue) =
      attempts slots_frame rnti pid grants
        (lose pid (post_process_ulsch nr false harq_round_max slots_frame rnti grant ue))

  attempts_none :
      (slots_frame rnti pid : ℕ) (grants : List UlGrant) (o : Option (UlUe nr))
      → length grants ≡ 0
      → attempts slots_frame rnti pid grants o ≡ o
  unfolding attempts
  attempts_none slots_frame rnti pid [] o h = refl
  attempts_none slots_frame rnti pid (grant ∷ grants) o h = absurd (omega arith)

  one_attempt :
      (slots_frame rnti pid round : ℕ) (grant : UlGrant) (ue : UlUe nr)
      → grant.ul_harq_pid ≡ some pid
      → round < harq_round_max
      → Ready laws harq_round_max pid round ue.harq
      → (ue' : UlUe nr) × (lose pid
            (post_process_ulsch nr false harq_round_max slots_frame rnti grant ue)
          ≡ some ue')
        × Retried pid round ue'.harq
  one_attempt slots_frame rnti pid round grant ue chosen below r =
      let (ue1, sent, s) =
        post_process-Sent laws harq_round_max pid round slots_frame rnti grant ue chosen below r in
      let (h, handled, retried) = handle-Retried pid round ue1.harq s in
      (record ue1 { harq = h }, ap (lose pid) sent ∙ ap (keep_result ue1) handled, retried)

  -- With HARQ enabled, take a process in a round below the limit that does not wait for feedback, and
  -- no other process that does, and let the process be in the list for its round: that of the
  -- available processes in round 0, that of the retransmissions in a later one. If it is granted
  -- resources as often as it has rounds left, and every time its block is lost, then no assertion
  -- fails, neither that of a process to be taken out of a list where it is not, each search of the
  -- feedback list ends, and at last the process is back in the list of available processes, in round 0.
  pub attempts-Ready :
      (slots_frame rnti pid round : ℕ) (grants : List UlGrant) (ue : UlUe nr)
      → All (λ grant. grant.ul_harq_pid ≡ some pid) grants
      → 0 < length grants
      → round + length grants ≡ harq_round_max
      → Ready laws harq_round_max pid round ue.harq
      → (ue' : UlUe nr) × (attempts slots_frame rnti pid grants (some ue) ≡ some ue')
        × Ready laws harq_round_max pid 0 ue'.harq
        × (0 < count (λ x. x == pid) (laws.contents ue'.harq.available_ul_harq))
  unfolding attempts
  attempts-Ready slots_frame rnti pid round [] ue chosen some_left sum r = absurd (omega arith)
  attempts-Ready slots_frame rnti pid round (grant ∷ grants) ue chosen some_left sum r =
      let (ue1, done, retried) =
        one_attempt slots_frame rnti pid round grant ue chosen.0 (omega arith) r in
      elim retried [
        | inl (below, next) ↦
            let (ue2, rest, again, free) =
              attempts-Ready slots_frame rnti pid (suc round) grants ue1 chosen.1 (omega arith)
                (omega arith) next in
            (ue2, ap (attempts slots_frame rnti pid grants) done ∙ rest, again, free)
        | inr (last, again, free) ↦ (
          ue1,
          ap (attempts slots_frame rnti pid grants) done
              ∙ attempts_none slots_frame rnti pid grants (some ue1) (omega arith),
          again,
          free,
        )
      ]
