-- ===== src/Harq/Grant/Sent.antt =====
-- A HARQ process that gets a grant waits for feedback.
use user_ric.Prelude.{
  ℕ, ltb, not, ◌*◌, ◌+◌, ◌<◌, ◌≡◌, refl, ◌∙◌, ap, inl, inr, true, false, [], ◌∷◌, ◌++◌, none, some,
  ◌==◌, length, Bool-cases, if_ind, if◌then◌else◌, ◌||◌, arith,
}
use user_ric.Prelude.Int.{pos}
use user_ric.Prelude.Slots.{length-modify, get_or-modify_eq}
use user_ric.Harq.{NrList, UlHarq, HarqProcess, no_process, process_of, change}
use user_ric.Slice.Runtime.{note_ul_grant}
use user_ric.Harq.Lists.{NrListLaws, waiting, occurs}
use user_ric.Harq.Grant.{
  UlGrant, UlUe, take_process, await_feedback, account, use_process, post_process_ulsch,
}

module _ {nr : NrList} (laws : NrListLaws nr) (harq_round_max : ℕ) where
  -- A process in a round, with no process waiting for feedback.
  pub record Idle (pid round : ℕ) (st : UlHarq nr) : Type 0 where
    pub known : pid < length st.ul_harq_processes
    pub idle : (process_of nr st pid).is_waiting ≡ false
    pub in_round : (process_of nr st pid).round ≡ round
    pub nobody_waits : waiting laws st ≡ []

  -- Such a process that is in the list for its round: of the available processes in round 0, and of
  -- those to be sent again in a later one.
  pub record Ready (pid round : ℕ) (st : UlHarq nr) : Type 0 where
    pub free : Idle pid round st
    pub listed :
        0 < occurs laws pid (if round == 0 then st.available_ul_harq else st.retrans_ul_harq)

  -- The process has its grant and waits for feedback, alone.
  pub record Sent (pid round : ℕ) (st : UlHarq nr) : Type 0 where
    pub known : pid < length st.ul_harq_processes
    pub waits : (process_of nr st pid).is_waiting ≡ true
    pub in_round : (process_of nr st pid).round ≡ round
    pub alone : waiting laws st ≡ pid ∷ []

  pub process-change :
      (pid : ℕ) (f : HarqProcess → HarqProcess) (st : UlHarq nr)
      → pid < length st.ul_harq_processes
      → process_of nr (change nr pid f st) pid ≡ f (process_of nr st pid)
  process-change pid f st h = get_or-modify_eq st.ul_harq_processes pid f no_process h

  pub known-change :
      (pid : ℕ) (f : HarqProcess → HarqProcess) (st : UlHarq nr)
      → pid < length st.ul_harq_processes
      → pid < length (change nr pid f st).ul_harq_processes
  known-change pid f st h = omega (arith, length-modify st.ul_harq_processes pid f)

  await_feedback-Sent :
      (pid round slot : ℕ) (st : UlHarq nr)
      → Idle pid round st
      → Sent pid round (await_feedback nr false slot pid st)
  unfolding await_feedback
  await_feedback-Sent pid round slot st r =
      let st0 : UlHarq nr = record st { feedback_ul_harq = nr.add_tail st.feedback_ul_harq pid } in
      let f = λ (p : HarqProcess). record p { feedback_slot = pos slot; is_waiting = true } in
      let p = process-change pid f st0 r.known in
      record {
        known = known-change pid f st0 r.known;
        waits = ap (λ (p : HarqProcess). p.is_waiting) p;
        in_round = ap (λ (p : HarqProcess). p.round) p ∙ r.in_round;
        alone =
            laws.contents-add_tail st.feedback_ul_harq pid ∙ ap (λ l. l ++ pid ∷ []) r.nobody_waits;
      }

  account-Sent :
      (pid round : ℕ) (grant : UlGrant) (ue : UlUe nr)
      → Sent pid round ue.harq
      → Sent pid round (account nr pid grant ue).harq
  unfolding account
  account-Sent pid round grant ue s = elim (Bool-cases ((process_of nr ue.harq pid).round == 0)) [
    | inr later ↦ rw later s
    | inl e ↦
        let f = λ (p : HarqProcess). record p { tb_size = grant.tb_size } in
        let p = process-change pid f ue.harq s.known in
        rw e (record {
          known = known-change pid f ue.harq s.known;
          waits = ap (λ (p : HarqProcess). p.is_waiting) p ∙ s.waits;
          in_round = ap (λ (p : HarqProcess). p.round) p ∙ s.in_round;
          alone = s.alone;
        })
  ]

  unlisted :
      (pid round : ℕ) (st : UlHarq nr) (available retrans : nr.L)
      → Idle pid round st
      → Idle pid round (record st { available_ul_harq = available; retrans_ul_harq = retrans })
  unlisted pid round st available retrans r = record {
    known = r.known;
    idle = r.idle;
    in_round = r.in_round;
    nobody_waits = r.nobody_waits;
  }

  take_process-Idle :
      (pid round : ℕ) (st : UlHarq nr)
      → Ready pid round st
      → (st' : UlHarq nr) × (take_process nr (some pid) st ≡ some (pid, st')) × Idle pid round st'
  unfolding take_process
  take_process-Idle pid round st r = elim (Bool-cases (round == 0)) [
    | inl first ↦
        let now : ((process_of nr st pid).round == 0) ≡ true = rw r.free.in_round first in
        let (l', e, gone) = laws.remove-some st.available_ul_harq pid (rw first at r.listed) in
        (
          record st { available_ul_harq = l' },
          rw (take_process, now, e) refl,
          unlisted pid round st l' st.retrans_ul_harq r.free,
        )
    | inr later ↦
        let now : ((process_of nr st pid).round == 0) ≡ false = rw r.free.in_round later in
        let (l', e, gone) = laws.remove-some st.retrans_ul_harq pid (rw later at r.listed) in
        (
          record st { retrans_ul_harq = l' },
          rw (take_process, now, e) refl,
          unlisted pid round st st.available_ul_harq l' r.free,
        )
  ]

  -- the last step, where neither assertion fails
  abbrev used_by : ℕ → ℕ → ℕ → UlGrant → UlUe nr → UlHarq nr → UlUe nr
  used_by pid slots_frame rnti grant ue st =
      let ue0 : UlUe nr = record ue {
        sr = false;
        harq = await_feedback nr false grant.slot pid st;
      } in
      let ue1 = account nr pid grant ue0 in
      record ue1 {
        last_ul_frame = grant.frame;
        last_ul_slot = grant.slot;
        runtime = note_ul_grant rnti (pos (grant.frame * slots_frame + grant.slot)) ue1.runtime;
      }

  use_process_lem :
      (pid slots_frame rnti : ℕ) (grant : UlGrant) (ue : UlUe nr) (st : UlHarq nr)
      → (process_of nr st pid).is_waiting ≡ false
      → not
          (ltb (process_of nr (await_feedback nr false grant.slot pid st) pid).round harq_round_max)
        ≡ false
      → use_process nr false harq_round_max slots_frame rnti grant ue (some (pid, st))
        ≡ some (used_by pid slots_frame rnti grant ue st)
  unfolding use_process
  use_process_lem pid slots_frame rnti grant ue st idle passed =
      if_ind (λ o. o ≡ some (used_by pid slots_frame rnti grant ue st))
        ((process_of nr st pid).is_waiting
          || not (
              ltb (process_of nr (await_feedback nr false grant.slot pid st) pid).round
                harq_round_max))
        none (some (used_by pid slots_frame rnti grant ue st))
        (λ bad. absurd (ground (arith, bad, idle, passed))) (λ _. refl)

  -- A process in a round below the limit gets its grant.
  pub post_process-Sent :
      (pid round slots_frame rnti : ℕ) (grant : UlGrant) (ue : UlUe nr)
      → grant.ul_harq_pid ≡ some pid
      → round < harq_round_max
      → Ready pid round ue.harq
      → (ue' : UlUe nr) × (post_process_ulsch nr false harq_round_max slots_frame rnti grant ue
          ≡ some ue')
        × Sent pid round ue'.harq
  unfolding post_process_ulsch use_process
  post_process-Sent pid round slots_frame rnti grant ue chosen below r =
      let (st, taken, r') = take_process-Idle pid round ue.harq r in
      let s = await_feedback-Sent pid round grant.slot st r' in
      let st1 = await_feedback nr false grant.slot pid st in
      let ue0 : UlUe nr = record ue { sr = false; harq = st1 } in
      let a = account-Sent pid round grant ue0 s in
      let passed : not (ltb (process_of nr st1 pid).round harq_round_max) ≡ false =
        ground (arith, s.in_round, below) in
      (
        used_by pid slots_frame rnti grant ue st,
        ap
              (λ o.
                use_process nr false harq_round_max slots_frame rnti grant ue
                  (take_process nr o ue.harq))
              chosen
            ∙ ap (use_process nr false harq_round_max slots_frame rnti grant ue) taken
            ∙ use_process_lem pid slots_frame rnti grant ue st r'.idle passed,
        record { known = a.known; waits = a.waits; in_round = a.in_round; alone = a.alone },
      )
