-- ===== src/Harq/Grant.antt =====
-- A process gets a grant: the part of `post_process_ulsch` of gnb_patch/gNB_scheduler_ulsch.c that
-- changes the state of the UE.
pub mod Sent
pub mod Attempts
use user_ric.Prelude.{
  ℕ, ◌+◌, ◌*◌, Bool, true, false, not, ◌||◌, List, Option, none, some, if◌then◌else◌, ◌==◌, ltb,
}
use user_ric.Prelude.Int.{ℤ, pos, ◌+ℤ◌}
use user_ric.Slice.Runtime.{RuntimeEntry, note_ul_grant}
use user_ric.Harq.{NrList, UlHarq, HarqProcess, process_of, change, finish_nr_ul_harq}

-- the fields of `NR_sched_pusch_t` that are read, with `none` for the process -1
pub record UlGrant : Type 0 where
  pub ul_harq_pid : Option ℕ
  pub frame : ℕ
  pub slot : ℕ
  pub tb_size : ℕ
  pub rb_size : ℕ

-- the fields of `NR_UE_sched_ctrl_t`, `mac_stats` and the record of grants that are written
pub record UlUe (nr : NrList) : Type 0 where
  pub harq : UlHarq nr
  pub sr : Bool
  pub last_ul_frame : ℕ
  pub last_ul_slot : ℕ
  pub total_bytes_scheduled : ℕ
  pub total_rbs : ℕ
  pub total_rbs_retx : ℕ
  pub current_bytes : ℕ
  pub current_rbs : ℕ
  pub runtime : List RuntimeEntry

module _ (nr : NrList) where
  -- the process of the grant, taken out of its list; `none` is a failed assertion
  unfoldable pub take_process : Option ℕ → UlHarq nr → Option (ℕ × UlHarq nr)
  take_process none st = elim (nr.head st.available_ul_harq) [
    | none ↦ none
    | some pid ↦ some (pid, record st { available_ul_harq = nr.remove_front st.available_ul_harq })
  ]
  take_process (some pid) st = elim ((process_of nr st pid).round == 0) [
    | true ↦ elim (nr.remove st.available_ul_harq pid) [
      | none ↦ none
      | some l ↦ some (pid, record st { available_ul_harq = l })
    ]
    | false ↦ elim (nr.remove st.retrans_ul_harq pid) [
      | none ↦ none
      | some l ↦ some (pid, record st { retrans_ul_harq = l })
    ]
  ]

  -- the process waits for feedback, or is free at once if HARQ is disabled
  unfoldable pub await_feedback : Bool → ℕ → ℕ → UlHarq nr → UlHarq nr
  unfolding finish_nr_ul_harq
  await_feedback disable_harq slot pid st =
      let st1 =
        change nr pid (λ p. record p { feedback_slot = pos slot; is_waiting = true })
          (record st { feedback_ul_harq = nr.add_tail st.feedback_ul_harq pid }) in
      if disable_harq then finish_nr_ul_harq nr pid st else st1

  -- the statistics, and what is saved of an initial transmission
  unfoldable pub account : ℕ → UlGrant → UlUe nr → UlUe nr
  account pid grant ue =
      let ue1 =
        if (process_of nr ue.harq pid).round == 0
        then record ue {
          total_bytes_scheduled = ue.total_bytes_scheduled + grant.tb_size;
          total_rbs = ue.total_rbs + grant.rb_size;
          harq = record (change nr pid (λ p. record p { tb_size = grant.tb_size }) ue.harq) {
            sched_ul_bytes = ue.harq.sched_ul_bytes +ℤ pos grant.tb_size;
          };
        }
        else record ue { total_rbs_retx = ue.total_rbs_retx + grant.rb_size } in
      record ue1 { current_bytes = grant.tb_size; current_rbs = grant.rb_size }

  -- from the test of `is_waiting` on
  unfoldable pub use_process :
      Bool → ℕ → ℕ → ℕ → UlGrant → UlUe nr → Option (ℕ × UlHarq nr) → Option (UlUe nr)
  unfolding await_feedback account
  use_process disable_harq harq_round_max slots_frame rnti grant ue none = none
  use_process disable_harq harq_round_max slots_frame rnti grant ue (some (pid, st)) =
      let st1 = await_feedback disable_harq grant.slot pid st in
      let ue1 = account pid grant (record ue { sr = false; harq = st1 }) in
      if (process_of nr st pid).is_waiting || not (ltb (process_of nr st1 pid).round harq_round_max)
      then none
      else some (record ue1 {
        last_ul_frame = grant.frame;
        last_ul_slot = grant.slot;
        runtime = note_ul_grant rnti (pos (grant.frame * slots_frame + grant.slot)) ue1.runtime;
      })

  -- `post_process_ulsch`; `none` is a failed assertion
  unfoldable pub post_process_ulsch : Bool → ℕ → ℕ → ℕ → UlGrant → UlUe nr → Option (UlUe nr)
  unfolding take_process use_process
  post_process_ulsch disable_harq harq_round_max slots_frame rnti grant ue =
      use_process disable_harq harq_round_max slots_frame rnti grant ue
        (take_process grant.ul_harq_pid ue.harq)
