-- ===== src/Tests/Harq.antt =====
-- Feedback for HARQ processes: gnb_patch/gNB_scheduler_ulsch.c.
use user_ric.Prelude.{
  ℕ, some, none, ltb, if◌then◌else◌, ◌<◌, false, ◌==◌, ◌≡◌, refl, List, [], ◌∷◌, ◌++◌, arith, true,
  replicate,
}
use user_ric.Prelude.Int.{pos}
use user_ric.Harq.{NrList, UlHarq, Outcome, handle_nr_ul_harq}
use user_ric.Harq.Grant.{UlGrant, UlUe}
use user_ric.Harq.Grant.Sent.{Ready}
use user_ric.Harq.Grant.Attempts.{attempts, attempts-Ready}
use user_ric.Prelude.Slots.{count}
use user_ric.Harq.Lists.{NrListLaws, first, tail, without}
use user_ric.Harq.Feedback.{Settled, handle_nr_ul_harq-Settled}
use user_ric.Harq.Rounds.{InRounds, handle_nr_ul_harq-InRounds}

abbrev pub plain : NrList
plain = record {
  L = List ℕ;
  head = first;
  add_tail = λ l x. l ++ x ∷ [];
  remove_front = tail;
  remove = λ l x. if ltb 0 (count (λ y. y == x) l) then some (without x l) else none;
}

pub positive : (n : ℕ) → 0 < n → ltb 0 n ≡ true
positive n h = ground (arith, h)

abbrev pub plain_laws : NrListLaws plain
plain_laws = record {
  contents = λ l. l;
  head-contents = λ l. refl;
  contents-add_tail = λ l x. refl;
  contents-remove_front = λ l. refl;
  remove-some = λ l x h. (without x l, rw (positive _ h) refl, refl);
  remove-none = λ l x h. rw h refl;
}

-- Processes 2, 0 and 1 wait for feedback.
abbrev ue : UlHarq plain
ue = record {
  available_ul_harq = 3 ∷ [];
  feedback_ul_harq = 2 ∷ 0 ∷ 1 ∷ [];
  retrans_ul_harq = [];
  ul_harq_processes =
      replicate 4 (record {
        is_waiting = true;
        ndi = false;
        round = 3;
        feedback_slot = pos 7;
        tb_size = 100;
      });
  sched_ul_bytes = pos 50;
  errors = 0;
}

handle_nr_ul_harq-Settled_example :
    Settled plain_laws 4 0 ue (handle_nr_ul_harq plain 4 false 4 0 true ue)
handle_nr_ul_harq-Settled_example =
    handle_nr_ul_harq-Settled plain_laws 4 4 0 true ue (omega arith) (λ m. refl)

ue-InRounds : InRounds plain 4 ue
ue-InRounds = record {
  rounds = (omega arith, (omega arith, (omega arith, (omega arith, tt))));
  bytes = omega arith;
}

handle_nr_ul_harq-InRounds_example :
    (st' : UlHarq plain) × (handle_nr_ul_harq plain 4 false 4 0 true ue ≡ Outcome.done st')
    × InRounds plain 4 st'
handle_nr_ul_harq-InRounds_example =
    handle_nr_ul_harq-InRounds plain 4 plain_laws 4 0 true ue (omega arith) (omega arith)
      (λ m. refl) ue-InRounds

-- Process 1 has two of its four rounds left.
abbrev pub late : UlUe plain
late = record {
  harq = record ue {
    feedback_ul_harq = [];
    retrans_ul_harq = 1 ∷ [];
    ul_harq_processes = replicate 4 (record {
      is_waiting = false;
      ndi = false;
      round = 2;
      feedback_slot = pos 7;
      tb_size = 100;
    });
  };
  sr = true;
  last_ul_frame = 0;
  last_ul_slot = 0;
  total_bytes_scheduled = 0;
  total_rbs = 0;
  total_rbs_retx = 0;
  current_bytes = 0;
  current_rbs = 0;
  runtime = [];
}

abbrev grant : UlGrant
grant = record { ul_harq_pid = some 1; frame = 5; slot = 3; tb_size = 100; rb_size = 6 }

late-Ready : Ready plain_laws 4 1 2 late.harq
unfolding count
late-Ready = record {
  free = record { known = omega arith; idle = refl; in_round = refl; nobody_waits = refl };
  listed = omega arith;
}

attempts-Ready_example :
    (ue' : UlUe plain) × (attempts plain_laws 4 20 17 1 (grant ∷ grant ∷ []) (some late) ≡ some ue')
    × Ready plain_laws 4 1 0 ue'.harq
    × (0 < count (λ x. x == 1) (plain_laws.contents ue'.harq.available_ul_harq))
attempts-Ready_example =
    attempts-Ready plain_laws 4 20 17 1 2 (grant ∷ grant ∷ []) late (refl, (refl, tt)) (omega arith)
      (omega arith) late-Ready
