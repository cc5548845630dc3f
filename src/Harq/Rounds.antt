-- ===== src/Harq/Rounds.antt =====
-- The rounds of the HARQ processes and the bytes that the UE is still expected to send.
use user_ric.Prelude.{
  length, ℕ, zero, suc, ◌+◌, ◌-◌, ◌<◌, ◌≡◌, refl, Bool, true, false, inl, inr, ◌==◌, leb, arith,
  Bool-cases, Option-cases, All,
}
use mathlib.Core.Path.{subst}
use user_ric.Harq.Lists.{NrListLaws, waiting}
use user_ric.Harq.Feedback.{member, handle_nr_ul_harq-Settled}
use user_ric.Prelude.Int.{minus_one, pos, ◌≤ℤ◌}
use user_ric.Prelude.Slots.{modify-All, modify-All_at}
use user_ric.Harq.{
  NrList, UlHarq, HarqProcess, Outcome, process_of, no_process, failed, missed, resolve,
  run_feedback, handle_nr_ul_harq, finish_nr_ul_harq, abort_nr_ul_harq, pop, change, renew,
}

module _ (nr : NrList) (harq_round_max : ℕ) where
  -- No process is in a round past the last, and the bytes expected are not negative.
  pub record InRounds (st : UlHarq nr) : Type 0 where
    pub rounds : All (λ p. p.round < harq_round_max) st.ul_harq_processes
    pub bytes : pos 0 ≤ℤ st.sched_ul_bytes

  abbrev pub Leaves : Outcome (UlHarq nr) → Type 0
  Leaves (Outcome.done st) = InRounds st
  Leaves Outcome.asserted = Unit
  Leaves Outcome.unfinished = Unit

  module _ (some_round : 0 < harq_round_max) where
    unwait-InRounds :
        (pid : ℕ) (f : HarqProcess → HarqProcess) (st : UlHarq nr)
        → ((p : HarqProcess) → (f p).round ≡ p.round)
        → InRounds st
        → InRounds (change nr pid f (pop nr st))
    unwait-InRounds pid f st same w = record {
      rounds =
          modify-All (λ p. p.round < harq_round_max) st.ul_harq_processes pid f w.rounds
            (λ p l. omega (arith, same p));
      bytes = w.bytes;
    }

    finish-InRounds :
        (pid : ℕ) (st : UlHarq nr) → InRounds st → InRounds (finish_nr_ul_harq nr pid st)
    unfolding finish_nr_ul_harq
    finish-InRounds pid st w = record {
      rounds =
          modify-All (λ p. p.round < harq_round_max) st.ul_harq_processes pid (renew nr) w.rounds
            (λ p l. some_round);
      bytes = w.bytes;
    }

    abort-InRounds :
        (pid : ℕ) (st : UlHarq nr) → InRounds st → InRounds (abort_nr_ul_harq nr pid st)
    unfolding abort_nr_ul_harq
    abort-InRounds pid st w = record {
      rounds = (finish-InRounds pid st w).rounds;
      bytes = ground arith;
    }

    failed-InRounds :
        (pid : ℕ) (st : UlHarq nr) → InRounds st → InRounds (failed nr harq_round_max pid st)
    unfolding failed
    failed-InRounds pid st w =
        elim (Bool-cases (leb (harq_round_max - 1) (process_of nr st pid).round)) [
          | inl last ↦ rw last (abort-InRounds pid st w)
          | inr more ↦ rw more (record {
            rounds =
                modify-All_at (λ p. p.round < harq_round_max) st.ul_harq_processes pid
                  (λ p. record p { round = p.round + 1 }) no_process w.rounds
                  (ground (arith, more));
            bytes = w.bytes;
          })
        ]

    resolve-Leaves :
        (pid : ℕ) (crc_status : Bool) (st : UlHarq nr)
        → InRounds st
        → Leaves (resolve nr harq_round_max pid crc_status st)
    unfolding resolve
    resolve-Leaves pid crc_status st w =
        let f = λ (p : HarqProcess). record p { feedback_slot = minus_one; is_waiting = false } in
        let w' = unwait-InRounds pid f st (λ p. refl) w in
        elim (Bool-cases (process_of nr st pid).is_waiting) [
          | inr idle ↦ rw idle tt
          | inl waits ↦ elim (Bool-cases crc_status) [
            | inl lost ↦ rw (waits, lost) (failed-InRounds pid (change nr pid f (pop nr st)) w')
            | inr passed ↦ rw (waits, passed) (finish-InRounds pid (change nr pid f (pop nr st)) w')
          ]
        ]

    missed-InRounds :
        (pid : ℕ) (st : UlHarq nr) → InRounds st → InRounds (missed nr harq_round_max pid st)
    unfolding missed
    missed-InRounds pid st w =
        failed-InRounds pid _
          (unwait-InRounds pid (λ p. record p { is_waiting = false }) st (λ p. refl) w)

    run_feedback-Leaves :
        (fuel crc : ℕ) (crc_status : Bool) (st : UlHarq nr)
        → InRounds st
        → Leaves (run_feedback nr fuel harq_round_max crc crc_status st)
    unfolding run_feedback
    run_feedback-Leaves zero crc crc_status st w = tt
    run_feedback-Leaves (suc fuel) crc crc_status st w =
        elim (Option-cases (nr.head st.feedback_ul_harq)) [
          | inl n ↦ rw (run_feedback, n) w
          | inr (pid, e) ↦ elim (Bool-cases (crc == pid)) [
            | inl same ↦ rw (run_feedback, e, same) (resolve-Leaves pid crc_status st w)
            | inr other ↦
                rw (run_feedback, e, other)
                  (run_feedback-Leaves fuel crc crc_status (missed nr harq_round_max pid st)
                    (missed-InRounds pid st w))
          ]
        ]

  -- Where at least one round is allowed, and no process is in a round past the last and the bytes
  -- expected are not negative, a call that has more loop rounds than processes wait, and finds the
  -- process of the feedback, if listed, marked as one that waits, ends in a state in which the same
  -- holds.
  pub handle_nr_ul_harq-InRounds :
      (laws : NrListLaws nr) (fuel crc : ℕ) (crc_status : Bool) (st : UlHarq nr)
      → 0 < harq_round_max
      → length (waiting laws st) < fuel
      → (member crc (waiting laws st) ≡ true → (process_of nr st crc).is_waiting ≡ true)
      → InRounds st
      → (st' : UlHarq nr) × (handle_nr_ul_harq nr fuel false harq_round_max crc crc_status st
          ≡ Outcome.done st')
        × InRounds st'
  unfolding handle_nr_ul_harq
  handle_nr_ul_harq-InRounds laws fuel crc crc_status st some_round l waits w =
      let (st', e, _, _) =
        handle_nr_ul_harq-Settled laws harq_round_max fuel crc crc_status st l waits in
      (st', e, subst Leaves e (run_feedback-Leaves some_round fuel crc crc_status st w))
