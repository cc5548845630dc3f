-- ===== src/Lib.antt =====
-- User-RIC patches the MAC scheduler of a 5G gNB so that a near-real-time controller can steer
-- slices and single UEs. This library models the C code of gnb_patch/ and proves what its parts
-- promise one another. The controller's messages associate UEs with slices; a policy file,
-- written by a script, sets limits for single UEs; the downlink and uplink schedulers ask both
-- on every slot, weigh the UEs with the answers, shape the number of resource blocks of each
-- grant, and note the grants, so that a UE with too many grants in a row steps back.
--
-- - Slice/Policy: the table of slice policies and its look-up (`g_rk_slice_table`,
--   `rk_slice_policy_get` of gnb_patch/rk_slice_policy.c).
-- - Slice/Assoc: the associations of UEs to slices (`g_rk_slice_assoc`, `rk_find_slice_assoc`,
--   `rk_slice_assoc_update_by_rnti` and the getters of the same file). Its laws are in
--   Assoc/Lookup, which reads the table as a bounded map, and Assoc/Capacity.
-- - Slice/Runtime: the record of grants (`g_rk_slice_runtime`,
--   `rk_slice_runtime_note_dl_grant`, `rk_slice_runtime_dl_should_throttle` and their uplink
--   twins). Runtime/Tracking says what the table holds after any sequence of grants,
--   Runtime/History what the throttle tests then answer.
-- - Slice/Control: the control handler `write_ctrl_slice_sm` of gnb_patch/ran_func_slice.c.
-- - UeLa: the uplink policy of UEs, gnb_patch/rk_ue_la_policy.c; UeLa/Parse reads a line,
--   UeLa/Reload is `rk_ue_la_reload_if_needed`, UeLa/Getters is about the getters.
-- - UeDl: the same for gnb_patch/rk_ue_dl_policy.c; UeDl/Slots is about its search for a slot.
-- - Blocks: resource blocks in `pf_dl` (gnb_patch/gNB_scheduler_dlsch.c) and `pf_ul`
--   (gnb_patch/gNB_scheduler_ulsch.c): the search for free blocks, the floor and the cap of a
--   slice, and the marking of granted blocks.
-- - Harq: uplink HARQ feedback of a UE (`handle_nr_ul_harq`, `finish_nr_ul_harq`,
--   `abort_nr_ul_harq` of gnb_patch/gNB_scheduler_ulsch.c) over the interface `NrList`;
--   Harq/Lists has the documented behaviour of `nr_list_t`, Harq/Feedback is about the lists,
--   Harq/Rounds about the rounds.
-- - Pdu: headers of uplink MAC sub-PDUs and the search for a C-RNTI
--   (`decode_ul_mac_sub_pdu_header`, `lcid_crnti_lookahead`); Pdu/Encoding has the encoder that
--   the search is compared with.
-- - Tda: the choice of an uplink time domain allocation (`get_max_rb_range`, `get_best_ul_tda`;
--   in Tda/Slot `get_num_ul_tda`).
-- - Frame: arithmetic of frames and slots (`fs_add_delta`, `fs_get_diff`, `fs_get_max`).
-- - Power: the size and the MCS of a grant that fit the power of a UE (`nr_ue_max_mcs_min_rb`,
--   `update_ul_ue_R_Qm`; in Power/Factor `compute_ph_factor` and `get_pusch_bwp_start_size`).
-- - Activity: whether a UE is to be scheduled (`nr_UE_is_to_be_scheduled`).
-- - Order: the coefficients by which `pf_dl` and `pf_ul` order the UEs, and their comparators;
--   Order/Throttled joins them with the history of grants.
-- - Harq/Grant: what `post_process_ulsch` does to the HARQ processes of a UE when it gets a
--   grant. Harq/Grant/Attempts is about a block that is lost again and again.
-- - Bsr: buffer status reports (`overestim_bsr_index`, `estimate_ul_buffer_short_bsr`,
--   `estimate_ul_buffer_long_bsr`).
-- - Dl: the downlink pass of gnb_patch/gNB_scheduler_dlsch.c. Dl/Bwp is `get_dl_tda` and
--   `get_pdsch_bwp_start_size`, Dl/Buffer `nr_store_dlsch_buffer`, Dl/Retrans
--   `allocate_dl_retransmission`, Dl/Prepare the first loop of `pf_dl` (retransmissions and
--   coefficients), Dl/Serve its second loop (new transmissions), Dl/Pass `pf_dl` as a whole and
--   `nr_dlsch_preprocessor`. The functions of the gNB that they call are the record `Gnb`, over
--   a type of what they keep; the arrays that the calls of a pass share are the record
--   `Shared`. Prepare/Rule and Serve/Rule are proof rules for the two loops: an invariant that
--   each grant keeps holds at the end; Pass/Safe and Pass/Limit apply them.
-- - Ul: the uplink pass of gnb_patch/gNB_scheduler_ulsch.c, laid out as the downlink pass:
--   Ul/Post is what `post_process_ulsch` saves of an allocation, Ul/Retrans
--   `allocate_ul_retransmission`, Ul/Prepare the first loop of `pf_ul`, Ul/Serve its second
--   loop, Ul/Pass `pf_ul` as a whole. The functions of the gNB are the record `UlGnb`. The
--   table of grants is one for all UEs: it is lent to a UE for the calls that write it.
-- - Frame/Next: the search of `nr_ulsch_preprocessor` for the next uplink slot, with a bound on
--   its rounds; as many rounds as a frame has slots are enough.
-- - Ul/Preprocessor: `nr_ulsch_preprocessor`, which finds the next uplink slot (Frame/Next),
--   chooses a time domain allocation for it (Tda) and runs `pf_ul` (Ul/Pass), round after
--   round. Ul/Preprocessor/Target is about the slot of a round, Ul/Preprocessor/Ends about the
--   number of rounds: two more than the largest k2, with the offset of the cell, are enough.
-- - Tx: downlink transport blocks (`nr_schedule_ue_spec`, `finish_nr_dl_harq`,
--   `abort_nr_dl_harq` of gnb_patch/gNB_scheduler_dlsch.c). Tx/Ce writes the control elements
--   (`nr_write_ce_dlsch_pdu`), with the layout of their structures as a parameter. Tx/Block
--   fills a block behind them from the RLC layer, with Tx/Block/Reads for the receiver's side,
--   Tx/Block/Exact for the loops and Tx/Block/Whole for the block. The loop over the data of a
--   channel runs on fuel: one more than the bytes left is enough, since each round but the last
--   fills at least four. Tx/Grant is the loop over the UEs with their HARQ processes, after the
--   pass in Dl/Pass has made the grants; Tx/Grant/Lists is about the lists of processes,
--   Tx/Grant/Served about one UE.
-- - CString: the functions of the C library that the policy readers call, on lists of bytes.
-- - Prelude: names of the libraries, integers, bits, and the theory that the tables share. The
--   tables are arrays of slots that are searched for a key and, failing that, for a free slot:
--   Prelude/Slots and Prelude/Alloc have the searches and the writes, Prelude/Keyed reads such
--   an array as a bounded map, Prelude/Fill is about many writes in a row, and each table is an
--   instance.
-- - Tests: concrete inputs for the theorems, with floats that are decimals.
--
-- Correspondence. A static array is a list that is passed in and returned; a pointer into it is
-- an index, and a null pointer is `none`. An `int` is an integer of Prelude/Int, and where the
-- source narrows it to `uint16_t` the model reduces it modulo 2 ^ 16; a tick is an integer,
-- since its start value is -1. A `float` is an element of an abstract type with the operations
-- that the code uses (Prelude/Float); what is assumed of it is listed in `FloatLaws`. The
-- operating system stands in `Environment`: the clock, the result of `stat` and the bytes of
-- the file. Lines longer than the buffer of 512 bytes are cut as `fgets` cuts them. `atoi` and
-- `strtoul` are those of a 64-bit platform. Loops over arrays and lists are structural
-- recursion; the loops that look for blocks are given as many rounds as their bound allows, so
-- that no result depends on a limit of the model. The loop over HARQ processes that wait for
-- feedback and the loop over sub-PDUs run on fuel: one more than the waiting processes, and one
-- for each byte of the PDU, are shown to be enough. A failed assertion and a read past the end
-- of a PDU are outcomes of their own. Constants and bit masks that the headers of the gNB
-- define (`MAX_FRAME_NUMBER`, the logical channels, `SL_to_bitmap`) are parameters.
--
-- Not modelled: log lines; the messages to the physical layer; the Python services of
-- jetson_user_side and spark_ran_side. Of the two schedulers only the parts named above are
-- modelled.
pub mod Prelude
pub mod CString
pub mod Slice
pub mod UeLa
pub mod UeDl
pub mod Blocks
pub mod Harq
pub mod Pdu
pub mod Tda
pub mod Frame
pub mod Power
pub mod Activity
pub mod Order
pub mod Dl
pub mod Bsr
pub mod Tx
pub mod Ul
mod Tests
