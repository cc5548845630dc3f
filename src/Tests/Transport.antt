-- ===== src/Tests/Transport.antt =====
-- Transport blocks of the downlink: gnb_patch/gNB_scheduler_dlsch.c.
use user_ric.Prelude.{
  ◌+◌, ◌*◌, ℕ, ◌<◌, ◌≡◌, refl, List, [], ◌∷◌, ◌++◌, Option, some, none, true, false, arith,
  replicate, take, drop, length-take, if◌then◌else◌, ◌==◌,
}
use mathlib.Core.Path.{subst}
use mathlib.Core.Option.{some-injective}
use user_ric.Prelude.Slots.{count, modify}
use user_ric.Harq.Lists.{occurs}
use user_ric.Dl.{DlUe}
use user_ric.Dl.Retrans.{no_pdsch}
use user_ric.Dl.Serve.Rule.{WhenSome}
use user_ric.Tx.{Source, Writing}
use user_ric.Tx.Ce.{CeLayout, MacCe, nr_write_ce_dlsch_pdu}
use user_ric.Tx.Block.{initial_block}
use user_ric.Tx.Block.Exact.{SourceLaws}
use user_ric.Tx.Block.Whole.{Holds, initial_block-Holds}
use user_ric.Tx.Grant.{DlProcess, TxUe, TxShared, send}
use user_ric.Tx.Grant.Served.{Served, send-Served}
use user_ric.Tests.Harq.{plain, plain_laws}
use user_ric.Tests.Decimal.{milli}
use user_ric.Tests.Downlink.{ue}

-- The RLC layer gives the bytes of one queue, and all that is asked for.
abbrev queue : Source
queue = record {
  R = List ℕ;
  nr_mac_rlc_data_req = λ r rnti lcid n. (take n r, drop n r);
  lrand48 = λ r. (1799, r);
  allocate_transport_block_buffer = λ r rnti pid tbs. (64, r);
  dl_sch_lcid_padding = 63;
}

queue_laws : SourceLaws queue
queue_laws = record {
  data_bound = λ r rnti lcid n. omega (arith, length-take n r);
  padding_small = omega arith;
}

-- Channel 1 has nothing; channel 4 has more than its status tells.
abbrev loaded : DlUe milli
loaded = record (ue 7 none) {
  lc_config = record { lcid = 1; suspended = false } ∷ record { lcid = 4; suspended = false } ∷ [];
  rlc_status =
      replicate 4 (record { bytes_in_buffer = 0; pdus_in_buffer = 0 })
      ++ record { bytes_in_buffer = 3; pdus_in_buffer = 1 } ∷ [];
  sched_pdsch = record no_pdsch { dl_harq_pid = some 1; rb_size = 5; tb_size = 17 };
}

abbrev waiting : List ℕ
waiting = 21 ∷ 22 ∷ 23 ∷ 24 ∷ []

initial_block-Holds_example :
    (block : List ℕ) × (st : Writing queue) × (initial_block queue loaded false 17 64
        (61 ∷ 31 ∷ [])
        []
        waiting
      ≡ some (block, st))
    × Holds queue 17 0 (61 ∷ 31 ∷ []) block st
initial_block-Holds_example =
    initial_block-Holds queue queue_laws loaded false 17 64 (61 ∷ 31 ∷ []) [] waiting (omega arith)
      (omega arith)
      ((omega arith, λ e. omega (arith, e)), ((omega arith, λ e. omega (arith, e)), tt))

-- a sub-PDU of three bytes, one of the byte left, and padding
abbrev bytes : Option (List ℕ × Writing queue) → List ℕ
bytes none = []
bytes (some (block, st)) = block

block_bytes :
    bytes (initial_block queue loaded false 17 64 (61 ∷ 31 ∷ []) [] waiting)
    ≡ 61 ∷ 31 ∷ 68 ∷ 0 ∷ 3 ∷ 21 ∷ 22 ∷ 23 ∷ 68 ∷ 0 ∷ 1 ∷ 24 ∷ 63 ∷ 0 ∷ 0 ∷ 0 ∷ 0 ∷ []
unfolding initial_block
block_bytes = refl

-- the bytes in the block and those behind it
abbrev in_and_out : Option (List ℕ × Writing queue) → List ℕ × List ℕ
in_and_out none = ([], [])
in_and_out (some (block, st)) = (block, st.overrun)

-- In a test mode without data: behind a timing advance of two bytes and a header of three, the fourth
-- byte that is left is at an address that four does not divide.
random_behind :
    in_and_out (
      initial_block queue
        (record loaded { num_total_bytes = 0 })
        true
        6
        64
        (61 ∷ 31 ∷ [])
        []
        waiting)
    ≡ (61 ∷ 31 ∷ 127 ∷ 0 ∷ 1 ∷ 7 ∷ [], 7 ∷ 7 ∷ [])
unfolding initial_block
random_behind = refl

-- two bytes up to an address that four divides, a word, and a byte
random_inside :
    in_and_out (
      initial_block queue
        (record loaded { num_total_bytes = 0 })
        true
        13
        65
        (61 ∷ 31 ∷ [])
        []
        waiting)
    ≡ (61 ∷ 31 ∷ 127 ∷ 0 ∷ 8 ∷ 7 ∷ 7 ∷ 7 ∷ 7 ∷ 0 ∷ 0 ∷ 7 ∷ 7 ∷ [], [])
unfolding initial_block
random_inside = refl

-- The bytes of the structures are the fields in order.
abbrev layout : CeLayout
layout = record {
  dl_sch_lcid_drx = 60;
  dl_sch_lcid_ta_command = 61;
  dl_sch_lcid_con_res_id = 62;
  dl_sch_lcid_tci_state_ind_ue_spec_pdcch = 52;
  dl_sch_lcid_sp_csi_rep_pucch_act = 51;
  dl_sch_lcid_tci_state_act_ue_spec_pdsch = 53;
  dl_sch_lcid_aperiodic_csi_tri_state_subsel = 54;
  dl_sch_lcid_sp_zp_csi_rs_res_set_act = 48;
  dl_sch_lcid_sp_csi_rs_csi_im_res_set_act = 55;
  nr_mac_ce_ta = λ command tag. (command + tag * 64) ∷ [];
  nr_tci_pdcch = λ c1 cell tci c2. (c1 + cell * 8) ∷ (c2 + tci * 2) ∷ [];
  nr_pucch_csi_reporting = λ bwp cell _ _ _ _. (bwp + cell * 4) ∷ 0 ∷ [];
  nr_tci_pdsch_aperiodic_csi = λ bwp cell. (bwp + cell * 4) ∷ [];
  nr_mac_ce_sp_zp_csi_rs_res_set = λ _ cell bwp id. (bwp + cell * 4) ∷ id ∷ [];
  csi_rs_csi_im_act_deact_mac_ce = λ _ cell bwp _ rs im. (bwp + cell * 4) ∷ rs ∷ im ∷ [];
  tci_s = λ id. id ∷ [];
  tag_id = 0;
}

abbrev no_ce : MacCe
no_ce = record {
  pdcch_state_ind = none;
  sp_csi_reporting_pucch = none;
  pdsch_tci_states = none;
  aperi_csi_trigger = none;
  sp_zp_csi_rs = none;
  csi_im = none;
}

-- a timing advance, and the states 1 and 9 of at most 10
elements :
    nr_write_ce_dlsch_pdu layout 255 none true 31 (record no_ce {
      pdsch_tci_states = some (record {
        bwp_id = 1;
        serving_cell_id = 0;
        highest = 9;
        selected = false ∷ true ∷ false ∷ false ∷ false ∷ false ∷ false ∷ false ∷ false ∷ true ∷ [];
      });
    })
    ≡ some (61 ∷ 31 ∷ 53 ∷ 3 ∷ 1 ∷ 2 ∷ 2 ∷ [])
unfolding nr_write_ce_dlsch_pdu modify
elements = refl

abbrev process : DlProcess
process = record {
  is_waiting = false;
  ndi = false;
  round = 1;
  feedback_frame = 0;
  feedback_slot = 0;
  sched_pdsch = record no_pdsch { tb_size = 17 };
  transport_block = replicate 17 5;
}

-- Process 1 is to be sent again, with its feedback in the only PUCCH.
abbrev lost : TxUe milli plain
lost = record {
  ue = record loaded { sched_pdsch = record loaded.sched_pdsch { pucch_allocation = some 0 } };
  harq = record {
    available_dl_harq = 0 ∷ 2 ∷ [];
    feedback_dl_harq = [];
    retrans_dl_harq = 1 ∷ [];
    harq_processes = replicate 3 process;
  };
  sched_pucch = record { frame = 5; ul_slot = 8 } ∷ [];
  ta_apply = true;
  tpc1 = 0;
  stats = record {
    current_rbs = 0;
    total_bytes = 0;
    total_rbs = 0;
    total_rbs_retx = 0;
    num_mac_sdu = 0;
    total_sdu_bytes = 0;
    rounds = 0 ∷ 0 ∷ 0 ∷ 0 ∷ [];
    errors = 0;
    lc_bytes = [];
  };
  ta_update = 31;
  mac_ce = no_ce;
}

abbrev shared : TxShared queue
shared = record {
  runtime = [];
  source = waiting;
  used_prb_aggregate = 0;
  pdu_index = 3;
  tx_req = [];
}

in_retrans : 0 < count (λ x. x == 1) (1 ∷ [])
unfolding count
in_retrans = omega arith

send-Served_example :
    WhenSome
      (Served plain_laws queue layout false false 20 5 3 lost.harq lost.ue.sched_pdsch shared)
      (send queue layout false false 20 5 3 lost shared)
send-Served_example = send-Served plain_laws queue layout false false 20 5 3 lost shared (λ p e.
    subst (λ q. 0 < occurs plain_laws 1 (if q.round == 0 then 0 ∷ 2 ∷ [] else 1 ∷ []))
      (some-injective _ _ e) in_retrans)

-- the lists after the call, the statistics of rounds and the blocks sent
abbrev summary :
    Option (TxUe milli plain × TxShared queue) → Option (List (List ℕ) × List ℕ × List (ℕ × List ℕ))
summary none = none
summary (some (u, st)) = some (
  u.harq.available_dl_harq ∷ u.harq.feedback_dl_harq ∷ u.harq.retrans_dl_harq ∷ [],
  u.stats.rounds,
  st.tx_req,
)

sent_again :
    summary (send queue layout false false 20 5 3 lost shared)
    ≡ some ((0 ∷ 2 ∷ []) ∷ (1 ∷ []) ∷ [] ∷ [], 0 ∷ 1 ∷ 0 ∷ 0 ∷ [], (3, replicate 17 5) ∷ [])
unfolding send modify count
sent_again = refl
