-- ===== src/Ul/Post.antt =====
-- What `post_process_ulsch` of gnb_patch/gNB_scheduler_ulsch.c reads of an allocation, and what it saves
-- of it for retransmissions.
use user_ric.Prelude.{ℕ, Bool, List, Option, none, some, if◌then◌else◌, ◌==◌}
use user_ric.Prelude.Slots.{modify}
use user_ric.Harq.{NrList, UlHarq, process_of}
use user_ric.Harq.Grant.{UlGrant, take_process, await_feedback}
use user_ric.Ul.{PuschSched}

-- the fields that `post_process_ulsch` reads
abbrev pub grant_of : PuschSched → UlGrant
grant_of s = record {
  ul_harq_pid = s.ul_harq_pid;
  frame = s.frame;
  slot = s.slot;
  tb_size = s.tb_size;
  rb_size = s.rb_size;
}

module _ (nr : NrList) where
  -- with the process that is used
  abbrev pub keep_for :
      Bool → PuschSched → List PuschSched → Option (ℕ × UlHarq nr) → List PuschSched
  keep_for disable_harq s saved none = saved
  keep_for disable_harq s saved (some (pid, st)) =
      if (process_of nr (await_feedback nr disable_harq s.slot pid st) pid).round == 0
      then modify saved pid (λ _. record s { ul_harq_pid = some pid })
      else saved

  -- the `sched_pusch` of the processes: an initial transmission is saved, with its process
  unfoldable pub keep_pusch : Bool → PuschSched → UlHarq nr → List PuschSched → List PuschSched
  unfolding take_process await_feedback
  keep_pusch disable_harq s st saved =
      keep_for disable_harq s saved (take_process nr s.ul_harq_pid st)
