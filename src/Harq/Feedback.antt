-- ===== src/Harq/Feedback.antt =====
-- What the feedback for one process does to the lists of a UE.
use user_ric.Prelude.{
  ℕ, zero, suc, ◌+◌, ◌-◌, ◌<◌, ◌≡◌, refl, ap, ◌∙◌, inl, inr, Bool, true, false, ◌||◌, List, [], ◌∷◌,
  none, some, if◌then◌else◌, ◌==◌, leb, arith, Bool-cases, length, ==_iff,
}
use mathlib.Core.Path.{subst}
use user_ric.Prelude.Int.{minus_one}
use user_ric.Prelude.Slots.{count, get_or-modify_ne}
use user_ric.Harq.{
  NrList, UlHarq, HarqProcess, Outcome, process_of, no_process, failed, missed, resolve,
  run_feedback, handle_nr_ul_harq, finish_nr_ul_harq, abort_nr_ul_harq, pop, change, renew,
}
use user_ric.Harq.Lists.{NrListLaws, waiting, tally, occurs-add_tail, first}

-- the processes behind one, or none
abbrev pub after : ℕ → List ℕ → List ℕ
after pid [] = []
after pid (x ∷ xs) = let rest = after pid xs in if pid == x then xs else rest

abbrev pub member : ℕ → List ℕ → Bool
member pid [] = false
member pid (x ∷ xs) = (pid == x) || member pid xs

module _ {nr : NrList} (laws : NrListLaws nr) (harq_round_max : ℕ) where
  -- Nothing but the process itself changes, and it enters one of the lists once.
  abbrev Moved : ℕ → UlHarq nr → UlHarq nr → Type 0
  Moved pid st st' =
      (st'.feedback_ul_harq ≡ st.feedback_ul_harq)
      × ((q : ℕ) → (pid == q) ≡ false → process_of nr st' q ≡ process_of nr st q)
      × ((q : ℕ) → tally laws q st' ≡ tally laws q st + (if pid == q then 1 else 0))

  finish-Moved : (pid : ℕ) (st : UlHarq nr) → Moved pid st (finish_nr_ul_harq nr pid st)
  unfolding finish_nr_ul_harq
  finish-Moved pid st = (
    refl,
    λ q d. get_or-modify_ne st.ul_harq_processes pid q (renew nr) no_process d,
    λ q. omega (arith, occurs-add_tail laws q pid st.available_ul_harq),
  )

  abort-Moved : (pid : ℕ) (st : UlHarq nr) → Moved pid st (abort_nr_ul_harq nr pid st)
  unfolding abort_nr_ul_harq
  abort-Moved pid st = let (a, b, c) = finish-Moved pid st in (a, b, c)

  failed-Moved : (pid : ℕ) (st : UlHarq nr) → Moved pid st (failed nr harq_round_max pid st)
  unfolding failed
  failed-Moved pid st = elim (Bool-cases (leb (harq_round_max - 1) (process_of nr st pid).round)) [
    | inl last ↦ rw last (abort-Moved pid st)
    | inr more ↦ rw more (
      refl,
      λ q d. get_or-modify_ne st.ul_harq_processes pid q _ no_process d,
      λ q. omega (arith, occurs-add_tail laws q pid st.retrans_ul_harq),
    )
  ]

  waiting-pop :
      (st : UlHarq nr) (x : ℕ) (xs : List ℕ)
      → waiting laws st ≡ x ∷ xs
      → (waiting laws (pop nr st) ≡ xs)
        × ((q : ℕ) → tally laws q (pop nr st) + (if x == q then 1 else 0) ≡ tally laws q st)
  unfolding count
  waiting-pop st x xs e =
      rw (laws.contents-remove_front st.feedback_ul_harq, e) (refl, λ q. omega arith)

  -- a process whose feedback is missing
  missed_lem :
      (st : UlHarq nr) (x : ℕ) (xs : List ℕ)
      → waiting laws st ≡ x ∷ xs
      → let st' = missed nr harq_round_max x st in
        (waiting laws st' ≡ xs)
        × ((q : ℕ) → (x == q) ≡ false → process_of nr st' q ≡ process_of nr st q)
        × ((q : ℕ) → tally laws q st' ≡ tally laws q st)
  unfolding missed
  missed_lem st x xs e =
      let unwaited = λ (p : HarqProcess). record p { is_waiting = false } in
      let (kept, other, moved) = failed-Moved x (change nr x unwaited (pop nr st)) in
      let (rest, popped) = waiting-pop st x xs e in
      (
        ap laws.contents kept ∙ rest,
        λ q d. other q d ∙ get_or-modify_ne st.ul_harq_processes x q unwaited no_process d,
        λ q. omega (arith, moved q, popped q),
      )

  -- What is shown of the outcome of a call.
  abbrev pub Settled : ℕ → UlHarq nr → Outcome (UlHarq nr) → Type 0
  Settled crc st o =
      (st' : UlHarq nr) × (o ≡ Outcome.done st')
      × (waiting laws st' ≡ after crc (waiting laws st))
      × ((q : ℕ) → tally laws q st' ≡ tally laws q st)

  Moved-Settled :
      (crc x : ℕ) (xs : List ℕ) (st st1 st' : UlHarq nr) (o : Outcome (UlHarq nr))
      → waiting laws st ≡ x ∷ xs
      → (crc == x) ≡ true
      → st1.feedback_ul_harq ≡ (pop nr st).feedback_ul_harq
      → ((q : ℕ) → tally laws q st1 ≡ tally laws q (pop nr st))
      → Moved x st1 st'
      → o ≡ Outcome.done st'
      → Settled crc st o
  Moved-Settled crc x xs st st1 st' o e same feedback counted (kept, _, moved) done =
      let (rest, popped) = waiting-pop st x xs e in
      (
        st',
        done,
        rw (e, same) (ap laws.contents (kept ∙ feedback) ∙ rest),
        λ q. omega (arith, moved q, popped q, counted q),
      )

  resolve-Settled :
      (crc x : ℕ) (xs : List ℕ) (crc_status : Bool) (st : UlHarq nr)
      → waiting laws st ≡ x ∷ xs
      → (crc == x) ≡ true
      → (process_of nr st x).is_waiting ≡ true
      → Settled crc st (resolve nr harq_round_max x crc_status st)
  unfolding resolve
  resolve-Settled crc x xs crc_status st e same waits =
      let st1 =
        change nr x (λ p. record p { feedback_slot = minus_one; is_waiting = false }) (pop nr st) in
      elim (Bool-cases crc_status) [
        | inl lost ↦
            Moved-Settled crc x xs st st1 (failed nr harq_round_max x st1) _ e same refl (λ q. refl)
              (failed-Moved x st1) (rw (waits, lost) refl)
        | inr passed ↦
            Moved-Settled crc x xs st st1 (finish_nr_ul_harq nr x st1) _ e same refl (λ q. refl)
              (finish-Moved x st1) (rw (waits, passed) refl)
      ]

  run_feedback-Settled :
      (fuel crc : ℕ) (crc_status : Bool) (st : UlHarq nr) (xs : List ℕ)
      → waiting laws st ≡ xs
      → length xs < fuel
      → (member crc xs ≡ true → (process_of nr st crc).is_waiting ≡ true)
      → Settled crc st (run_feedback nr fuel harq_round_max crc crc_status st)
  unfolding run_feedback
  run_feedback-Settled zero crc crc_status st xs e l waits = absurd (omega arith)
  run_feedback-Settled (suc fuel) crc crc_status st [] e l waits =
      let none_left : nr.head st.feedback_ul_harq ≡ none =
        laws.head-contents st.feedback_ul_harq ∙ ap first e in
      (st, rw (run_feedback, none_left) refl, rw e refl, λ q. refl)
  run_feedback-Settled (suc fuel) crc crc_status st (x ∷ xs) e l waits =
      let next : nr.head st.feedback_ul_harq ≡ some x =
        laws.head-contents st.feedback_ul_harq ∙ ap first e in
      elim (Bool-cases (crc == x)) [
        | inl same ↦
            let eq : crc ≡ x = (==_iff crc x).0 same in
            rw (run_feedback, next, same)
              (resolve-Settled crc x xs crc_status st e same (
                subst (λ q. (process_of nr st q).is_waiting ≡ true) eq
                  (waits (ground (arith, same)))))
        | inr other ↦
            let (rest, kept, counted) = missed_lem st x xs e in
            let (st', done, left, tallied) =
              run_feedback-Settled fuel crc crc_status (missed nr harq_round_max x st) xs rest
                (omega arith)
                (λ m.
                  ap (λ p. p.is_waiting) (kept crc (ground (arith, other)))
                  ∙ waits (ground (arith, m, other))) in
            rw (run_feedback, next, other)
              (st', done, left ∙ rw (e, other) (ap (after crc) rest), λ q. tallied q ∙ counted q)
      ]

  -- While HARQ is in use, a call for the feedback of a process ends if it has more loop rounds than
  -- processes wait, given that the process of the feedback, if it is listed as one that waits, is
  -- marked so. Then the processes listed behind it still wait, or none if it was not listed, and no
  -- process is lost or doubled: each stands as often in the three lists together as before.
  pub handle_nr_ul_harq-Settled :
      (fuel crc : ℕ) (crc_status : Bool) (st : UlHarq nr)
      → length (waiting laws st) < fuel
      → (member crc (waiting laws st) ≡ true → (process_of nr st crc).is_waiting ≡ true)
      → Settled crc st (handle_nr_ul_harq nr fuel false harq_round_max crc crc_status st)
  unfolding handle_nr_ul_harq
  handle_nr_ul_harq-Settled fuel crc crc_status st l waits =
      run_feedback-Settled fuel crc crc_status st (waiting laws st) refl l waits
