-- ===== src/Harq.antt =====
-- The uplink HARQ processes of a UE: `handle_nr_ul_harq`, `finish_nr_ul_harq` and
-- `abort_nr_ul_harq` of gnb_patch/gNB_scheduler_ulsch.c.

pub mod Lists
pub mod Feedback
pub mod Rounds
pub mod Grant
use user_ric.Prelude.{
  ℕ, zero, suc, ◌+◌, ◌-◌, Bool, true, false, not, List, [], ◌∷◌, Option, none, some, if◌then◌else◌,
  ◌==◌, leb, get_or,
}
use user_ric.Prelude.Int.{ℤ, pos, minus_one, ◌-ℤ◌, ltb_ℤ}
use user_ric.Prelude.Slots.{modify}

-- `nr_list_t` and the functions on it, which the gNB provides: `none` is the head -1 of an empty
-- list, and the failed assertion of `remove_nr_list` for an element that is not in the list.
pub record NrList : Type 1 where
  pub L : Type 0
  pub head : L → Option ℕ
  pub add_tail : L → ℕ → L
  pub remove_front : L → L
  pub remove : L → ℕ → Option L

-- `NR_UE_ul_harq_t`, as far as the functions below use it; `tb_size` is `sched_pusch.tb_size`
pub record HarqProcess : Type 0 where
  pub is_waiting : Bool
  pub ndi : Bool
  pub round : ℕ
  pub feedback_slot : ℤ
  pub tb_size : ℕ

-- the part of `NR_UE_sched_ctrl_t` and of the statistics that the functions write
pub record UlHarq (nr : NrList) : Type 0 where
  pub available_ul_harq : nr.L
  pub feedback_ul_harq : nr.L
  pub retrans_ul_harq : nr.L
  pub ul_harq_processes : List HarqProcess
  pub sched_ul_bytes : ℤ
  pub errors : ℕ

-- What a call comes to: a new state, a failed `DevAssert`, or a loop that has not ended within the
-- rounds it was given.
pub data Outcome (A : Type 0) : Type 0 where
  done : A → Outcome A
  asserted : Outcome A
  unfinished : Outcome A

-- an entry outside of the array
abbrev pub no_process : HarqProcess
no_process = record {
  is_waiting = false;
  ndi = false;
  round = 0;
  feedback_slot = minus_one;
  tb_size = 0;
}

module _ (nr : NrList) where
  abbrev pub process_of : UlHarq nr → ℕ → HarqProcess
  process_of st pid = get_or st.ul_harq_processes pid no_process

  -- a write through `harq`
  abbrev pub change : ℕ → (HarqProcess → HarqProcess) → UlHarq nr → UlHarq nr
  change pid f st = record st { ul_harq_processes = modify st.ul_harq_processes pid f }

  -- `ndi ^= 1` and `round = 0`
  abbrev pub renew : HarqProcess → HarqProcess
  renew p = record p { ndi = not p.ndi; round = 0 }

  -- `finish_nr_ul_harq`
  unfoldable pub finish_nr_ul_harq : ℕ → UlHarq nr → UlHarq nr
  finish_nr_ul_harq pid st =
      let st1 = change pid renew st in
      record st1 { available_ul_harq = nr.add_tail st1.available_ul_harq pid }

  -- the bytes that were expected from the UE, less those of a lost block, but not below 0
  abbrev pub bytes_left : ℤ → ℕ → ℤ
  bytes_left bytes size = let left = bytes -ℤ pos size in if ltb_ℤ left (pos 0) then pos 0 else left

  -- `abort_nr_ul_harq`
  unfoldable pub abort_nr_ul_harq : ℕ → UlHarq nr → UlHarq nr
  unfolding finish_nr_ul_harq
  abort_nr_ul_harq pid st =
      let st1 = finish_nr_ul_harq pid st in
      record st1 {
        errors = st1.errors + 1;
        sched_ul_bytes = bytes_left st1.sched_ul_bytes (process_of st1 pid).tb_size;
      }

  -- `round++` and the retransmission list
  abbrev pub retransmit : ℕ → UlHarq nr → UlHarq nr
  retransmit pid st =
      let st1 = change pid (λ p. record p { round = p.round + 1 }) st in
      record st1 { retrans_ul_harq = nr.add_tail st1.retrans_ul_harq pid }

  -- a block that did not get through: aborted in the last round, and else sent again
  unfoldable pub failed : ℕ → ℕ → UlHarq nr → UlHarq nr
  unfolding abort_nr_ul_harq
  failed harq_round_max pid st =
      if leb (harq_round_max - 1) (process_of st pid).round
      then abort_nr_ul_harq pid st
      else retransmit pid st

  -- `remove_front_nr_list(&sched_ctrl->feedback_ul_harq)`
  abbrev pub pop : UlHarq nr → UlHarq nr
  pop st = record st { feedback_ul_harq = nr.remove_front st.feedback_ul_harq }

  -- the body of the loop over processes whose feedback is missing
  unfoldable pub missed : ℕ → ℕ → UlHarq nr → UlHarq nr
  unfolding failed
  missed harq_round_max pid st =
      failed harq_round_max pid (change pid (λ p. record p { is_waiting = false }) (pop st))

  -- what follows the loop, for the process that the feedback is for
  unfoldable pub resolve : ℕ → ℕ → Bool → UlHarq nr → Outcome (UlHarq nr)
  unfolding failed finish_nr_ul_harq
  resolve harq_round_max pid crc_status st =
      let st1 = pop st in
      let st2 = change pid (λ p. record p { feedback_slot = minus_one; is_waiting = false }) st1 in
      if not (process_of st1 pid).is_waiting
      then Outcome.asserted
      else if not crc_status
      then Outcome.done (finish_nr_ul_harq pid st2)
      else Outcome.done (failed harq_round_max pid st2)

  -- the loop and what follows it, with a bound on the tests of the loop's condition
  unfoldable pub run_feedback : ℕ → ℕ → ℕ → Bool → UlHarq nr → Outcome (UlHarq nr)
  unfolding missed resolve
  run_feedback zero harq_round_max crc_harq_id crc_status st = Outcome.unfinished
  run_feedback (suc fuel) harq_round_max crc_harq_id crc_status st =
      elim (nr.head st.feedback_ul_harq) [
        | none ↦ Outcome.done st
        | some harq_pid ↦
            let next =
              run_feedback fuel harq_round_max crc_harq_id crc_status
                (missed harq_round_max harq_pid st) in
            if crc_harq_id == harq_pid then resolve harq_round_max harq_pid crc_status st else next
      ]

  -- `handle_nr_ul_harq`
  unfoldable pub handle_nr_ul_harq : ℕ → Bool → ℕ → ℕ → Bool → UlHarq nr → Outcome (UlHarq nr)
  unfolding run_feedback
  handle_nr_ul_harq fuel disable_harq harq_round_max crc_harq_id crc_status st =
      if disable_harq
      then Outcome.done st
      else run_feedback fuel harq_round_max crc_harq_id crc_status st
