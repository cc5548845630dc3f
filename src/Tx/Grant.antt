-- ===== src/Tx/Grant.antt =====
-- The HARQ processes of the downlink and what a grant does to its UE: `finish_nr_dl_harq`,
-- `abort_nr_dl_harq` and the loop of `nr_schedule_ue_spec` of gnb_patch/gNB_scheduler_dlsch.c, but
-- for the messages to the physical layer other than the data.
pub mod Lists
pub mod Served
use user_ric.Prelude.{
  ℕ, zero, suc, ◌+◌, ◌*◌, ◌%◌, Bool, true, false, not, ◌&&◌, ◌||◌, List, [], ◌∷◌, ◌++◌, Option,
  none, some, if◌then◌else◌, ◌==◌, ltb, get_elem?, get_or, take,
}
use user_ric.Prelude.Int.{ℤ, pos}
use user_ric.Prelude.Float.{Float}
use user_ric.Prelude.Slots.{modify}
use user_ric.Slice.Runtime.{RuntimeEntry, note_dl_grant}
use user_ric.Harq.{NrList}
use user_ric.Dl.{DlUe, SchedPdsch}
use user_ric.Tx.{Source, Writing}
use user_ric.Tx.Ce.{CeLayout, MacCe, nr_write_ce_dlsch_pdu}
use user_ric.Tx.Block.{initial_block}

-- `NR_UE_harq_t`; `transport_block` has the bytes of its buffer
pub record DlProcess : Type 0 where
  pub is_waiting : Bool
  pub ndi : Bool
  pub round : ℕ
  pub feedback_frame : ℕ
  pub feedback_slot : ℕ
  pub sched_pdsch : SchedPdsch
  pub transport_block : List ℕ

-- the lists of processes, and the processes
pub record DlHarq (nr : NrList) : Type 0 where
  pub available_dl_harq : nr.L
  pub feedback_dl_harq : nr.L
  pub retrans_dl_harq : nr.L
  pub harq_processes : List DlProcess

-- `NR_sched_pucch_t`, as far as it is used
pub record SchedPucch : Type 0 where
  pub frame : ℕ
  pub ul_slot : ℕ

-- The statistics `mac_stats.dl` of a UE, but for `current_bytes`.
pub record DlStats : Type 0 where
  pub current_rbs : ℕ
  pub total_bytes : ℕ
  pub total_rbs : ℕ
  pub total_rbs_retx : ℕ
  pub num_mac_sdu : ℕ
  pub total_sdu_bytes : ℕ
  pub rounds : List ℕ
  pub errors : ℕ
  pub lc_bytes : List ℕ

-- A UE as the downlink pass leaves it, with its HARQ processes and what else the loop reads and
-- writes. The heads of the lists that the pass reads are those of the lists here.
pub record TxUe (fl : Float) (nr : NrList) : Type 0 where
  pub ue : DlUe fl
  pub harq : DlHarq nr
  pub sched_pucch : List SchedPucch
  pub ta_apply : Bool
  pub tpc1 : ℕ
  pub stats : DlStats
  pub ta_update : ℕ
  pub mac_ce : MacCe

-- What the rounds of the loop share: the table of grants, the RLC layer, the blocks used in total, and
-- the blocks of `TX_req`.
pub record TxShared (src : Source) : Type 0 where
  pub runtime : List RuntimeEntry
  pub source : src.R
  pub used_prb_aggregate : ℕ
  pub pdu_index : ℕ
  pub tx_req : List (ℕ × List ℕ)

module _ {nr : NrList} where
  -- a write through `harq`
  abbrev pub change : ℕ → (DlProcess → DlProcess) → DlHarq nr → DlHarq nr
  change pid f st = record st { harq_processes = modify st.harq_processes pid f }

  -- `finish_nr_dl_harq`
  unfoldable pub finish_nr_dl_harq : ℕ → DlHarq nr → DlHarq nr
  finish_nr_dl_harq pid st =
      let st1 = change pid (λ p. record p { ndi = not p.ndi; round = 0 }) st in
      record st1 { available_dl_harq = nr.add_tail st1.available_dl_harq pid }

  -- the process of the grant, taken out of its list; `none` is a failed assertion
  unfoldable pub take_process : Option ℕ → DlHarq nr → Option (ℕ × DlHarq nr)
  take_process none st = elim (nr.head st.available_dl_harq) [
    | none ↦ none
    | some pid ↦ some (pid, record st { available_dl_harq = nr.remove_front st.available_dl_harq })
  ]
  take_process (some pid) st = elim (get_elem? st.harq_processes pid) [
    | none ↦ none
    | some p ↦ elim (p.round == 0) [
      | true ↦ elim (nr.remove st.available_dl_harq pid) [
        | none ↦ none
        | some l ↦ some (pid, record st { available_dl_harq = l })
      ]
      | false ↦ elim (nr.remove st.retrans_dl_harq pid) [
        | none ↦ none
        | some l ↦ some (pid, record st { retrans_dl_harq = l })
      ]
    ]
  ]

  -- the feedback of the process is planned in a PUCCH, or it is free at once if there is none; a `none`
  -- is an index outside of the array
  unfoldable pub await_feedback : List SchedPucch → Option ℕ → ℕ → DlHarq nr → Option (DlHarq nr)
  unfolding finish_nr_dl_harq
  await_feedback sched_pucch none pid st = some (finish_nr_dl_harq pid st)
  await_feedback sched_pucch (some i) pid st = elim (get_elem? sched_pucch i) [
    | none ↦ none
    | some pucch ↦ some (
        change pid
          (λ p. record p {
            feedback_frame = pucch.frame;
            feedback_slot = pucch.ul_slot;
            is_waiting = true;
          })
          (record st { feedback_dl_harq = nr.add_tail st.feedback_dl_harq pid }))
  ]

module _ {fl : Float} {nr : NrList} where
  -- `abort_nr_dl_harq`
  unfoldable pub abort_nr_dl_harq : ℕ → TxUe fl nr → TxUe fl nr
  unfolding finish_nr_dl_harq
  abort_nr_dl_harq pid u = record u {
    harq = finish_nr_dl_harq pid u.harq;
    stats = record u.stats { errors = u.stats.errors + 1 };
  }

module _ {fl : Float} {nr : NrList} (src : Source) (lay : CeLayout) (phy_test do_ra : Bool)
    (slots_frame frame slot : ℕ) where
  -- the counters of the slot, and the request for a timing advance every 100 frames
  unfoldable pub begin_slot : TxUe fl nr → TxUe fl nr
  begin_slot u = record u {
    ue = record u.ue { current_bytes = 0 };
    stats = record u.stats { current_rbs = 0 };
    ta_apply =
        if frame == (u.ue.ta_frame + 100) % 1024 && not u.ue.transm_interrupt
        then true
        else u.ta_apply;
  }

  -- a block is sent again
  unfoldable pub send_again :
      ℕ → DlProcess → TxUe fl nr → TxShared src → Option (TxUe fl nr × TxShared src)
  send_again pid p u st =
      let grant = u.ue.sched_pdsch in
      if p.sched_pdsch.tb_size == grant.tb_size
      then some (
        record u {
          stats = record u.stats { total_rbs_retx = u.stats.total_rbs_retx + grant.rb_size };
        },
        record st { used_prb_aggregate = st.used_prb_aggregate + grant.rb_size },
      )
      else none

  -- what is kept of a new block: the bytes, the grant, the statistics and the record of grants
  unfoldable pub keep_block :
      ℕ → List ℕ → Writing src → TxUe fl nr → TxShared src → TxUe fl nr × TxShared src
  keep_block pid block w u st =
      let grant = u.ue.sched_pdsch in
      let now = pos (frame * slots_frame + slot) in
      (
        record u {
          ue = record u.ue {
            current_bytes = grant.tb_size;
            ta_frame = if u.ta_apply then frame else u.ue.ta_frame;
          };
          harq = change pid (λ p. record p { sched_pdsch = grant; transport_block = block }) u.harq;
          ta_apply = false;
          stats = record u.stats {
            current_rbs = grant.rb_size;
            total_bytes = u.stats.total_bytes + grant.tb_size;
            total_rbs = u.stats.total_rbs + grant.rb_size;
            num_mac_sdu = u.stats.num_mac_sdu + w.sdus;
            total_sdu_bytes = u.stats.total_sdu_bytes + w.dlsch_total_bytes;
            lc_bytes = w.lc_bytes;
          };
        },
        record st {
          runtime = note_dl_grant u.ue.rnti now st.runtime;
          source = w.source;
          used_prb_aggregate = st.used_prb_aggregate + grant.rb_size;
        },
      )

  -- a new block behind its control elements
  unfoldable pub fill_new :
      ℕ → TxUe fl nr → TxShared src → Option (List ℕ) → Option (TxUe fl nr × TxShared src)
  unfolding initial_block keep_block
  fill_new pid u st none = none
  fill_new pid u st (some control_elements) =
      let tbs = u.ue.sched_pdsch.tb_size in
      let (address, r) = src.allocate_transport_block_buffer st.source u.ue.rnti pid tbs in
      elim (initial_block src u.ue (phy_test || do_ra) tbs address control_elements u.stats.lc_bytes
        r) [ none ↦ none | some (block, w) ↦ some (keep_block pid block w u st) ]

  -- a new block, without a DRX command or a contention resolution
  unfoldable pub send_new : ℕ → TxUe fl nr → TxShared src → Option (TxUe fl nr × TxShared src)
  unfolding nr_write_ce_dlsch_pdu fill_new
  send_new pid u st =
      fill_new pid u st (nr_write_ce_dlsch_pdu lay 255 none u.ta_apply u.ta_update u.mac_ce)

  -- the data of the process for the physical layer, and the mark that the grant is served
  unfoldable pub post : ℕ → TxUe fl nr × TxShared src → Option (TxUe fl nr × TxShared src)
  post pid (u, st) = elim (get_elem? u.harq.harq_processes pid) [
    | none ↦ none
    | some p ↦ some (
      record u { ue = record u.ue { sched_pdsch = record u.ue.sched_pdsch { rb_size = 0 } } },
      record st {
        pdu_index = st.pdu_index + 1;
        tx_req = st.tx_req ++ (st.pdu_index, take u.ue.sched_pdsch.tb_size p.transport_block) ∷ [];
      },
    )
  ]

  -- a new block or an old one, by the round of the process, and its data
  unfoldable pub send_block :
      ℕ → DlProcess → TxUe fl nr → TxShared src → Option (TxUe fl nr × TxShared src)
  unfolding send_again send_new post
  send_block pid p u st =
      let counted = record u {
        tpc1 = 1;
        stats = record u.stats { rounds = modify u.stats.rounds p.round (λ n. n + 1) };
      } in
      elim (if p.round == 0 then send_new pid counted st else send_again pid p counted st) [
        | none ↦ none
        | some r ↦ post pid r
      ]

  -- from the planning of the feedback on, for a process that is in no list
  unfoldable pub with_feedback :
      ℕ → TxUe fl nr → TxShared src → Option (DlHarq nr) → Option (TxUe fl nr × TxShared src)
  unfolding send_block
  with_feedback pid u st none = none
  with_feedback pid u st (some harq1) = elim (get_elem? harq1.harq_processes pid) [
    | none ↦ none
    | some p ↦ send_block pid p (record u { harq = harq1 }) st
  ]

  -- from the process on
  unfoldable pub with_process :
      TxUe fl nr → TxShared src → Option (ℕ × DlHarq nr) → Option (TxUe fl nr × TxShared src)
  unfolding await_feedback with_feedback
  with_process u st none = none
  with_process u st (some (pid, harq1)) =
      let u1 = record u {
        ue = record u.ue { sched_pdsch = record u.ue.sched_pdsch { dl_harq_pid = some pid } };
      } in
      elim (get_elem? harq1.harq_processes pid) [
        | none ↦ none
        | some p ↦
            if p.is_waiting
            then none
            else with_feedback pid u1 st
                (await_feedback u.sched_pucch u.ue.sched_pdsch.pucch_allocation pid harq1)
      ]

  -- the body of the loop for a UE with a grant; `none` is a failed assertion
  unfoldable pub send : TxUe fl nr → TxShared src → Option (TxUe fl nr × TxShared src)
  unfolding take_process with_process
  send u st = with_process u st (take_process u.ue.sched_pdsch.dl_harq_pid u.harq)

  -- the loop over the UEs
  unfoldable pub send_all :
      List (TxUe fl nr) → TxShared src → Option (List (TxUe fl nr) × TxShared src)
  unfolding begin_slot send
  send_all [] st = some ([], st)
  send_all (u ∷ us) st =
      let begun = begin_slot u in
      let turn =
        if u.ue.ul_failure && not phy_test
        then some (u, st)
        else if ltb 0 begun.ue.sched_pdsch.rb_size
        then send begun st
        else some (begun, st) in
      elim turn [
        | none ↦ none
        | some (u1, st1) ↦ elim (send_all us st1) [
          | none ↦ none
          | some (us1, st2) ↦ some (u1 ∷ us1, st2)
        ]
      ]
