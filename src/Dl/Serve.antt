-- ===== src/Dl/Serve.antt =====
-- The second loop of `pf_dl` of gnb_patch/gNB_scheduler_dlsch.c, over the UEs that may get a new
-- transmission, in the order of their coefficients.
pub mod Rule
pub mod Safe
use user_ric.Prelude.{
  ℕ, ◌+◌, ◌*◌, ◌/◌, ◌%◌, Bool, not, ◌||◌, List, [], ◌∷◌, Option, none, some, if◌then◌else◌, ◌==◌,
  get_or, get_elem?,
}
use user_ric.Prelude.Int.{ℤ, pos, pos_part, ◌-ℤ◌, ltb_ℤ, eqb_ℤ}
use user_ric.Prelude.Float.{Float}
use user_ric.Prelude.Slots.{modify}
use user_ric.Slice.Assoc.{AssocEntry, get_dl_id}
use user_ric.Slice.Policy.{policy_get}
use user_ric.UeDl.{DlEntry, get_max_mcs, get_min_grant_prb}
use user_ric.Blocks.{Allocation, dl_free_range, dl_slice_blocks, mark_grant}
use user_ric.Dl.{DlUe, Gnb, DlConfig, Shared}
use user_ric.Dl.Bwp.{get_dl_tda, get_pdsch_bwp_start_size}
use user_ric.Dl.Retrans.{feedback_resource}
use user_ric.Dl.Prepare.{DlSched, least}

module _ (fl : Float) (g : Gnb) (cfg : DlConfig) (assoc : List AssocEntry) (tbl : List (DlEntry fl))
    (frame slot : ℕ) where
  -- `eff_dl_min_rb`
  unfoldable pub min_rb : DlUe fl → ℤ
  min_rb ue = get_min_grant_prb fl ue.rnti tbl (pos 5)

  -- `slbitmap`
  abbrev pub symbols_of : DlUe fl → ℕ
  symbols_of ue =
      let tda = ue.sched_pdsch.tda_info in g.sl_to_bitmap tda.start_symbol_index tda.nr_of_symbols

  -- `rbSize` as `nr_find_nb_rb` sets it, of `available` free blocks in a row
  unfoldable pub wanted_size : DlUe fl → ℕ → ℕ
  unfolding min_rb
  wanted_size ue available =
      let p = ue.sched_pdsch in
      let ta = if frame == (ue.ta_frame + 100) % 1024 then 1 else 0 in
      let found =
        g.nr_find_nb_rb p.qm p.r 1 p.nr_of_layers p.tda_info.nr_of_symbols
          (p.dmrs_parms.n_prb_dmrs * p.dmrs_parms.n_dmrs_slot)
          (ue.num_total_bytes + (3 * 4 + 2 * ta)) (pos_part (min_rb ue)) available in
      found.2

  -- the number of blocks of the grant
  unfoldable pub grant_size : DlUe fl → ℕ → ℕ
  unfolding wanted_size
  grant_size ue available =
      dl_slice_blocks (policy_get fl (get_dl_id ue.rnti assoc)) available (wanted_size ue available)

  -- what is written to `sched_pdsch` before the number of blocks is known
  unfoldable pub set_modulation : Option ℕ → DlUe fl → DlUe fl
  set_modulation alloc ue =
      let p = ue.sched_pdsch in
      let mcs = least p.mcs (get_max_mcs fl ue.rnti tbl (pos 28)) in
      record ue {
        sched_pdsch = record p {
          mcs = mcs;
          dmrs_parms = g.get_dl_dmrs_params ue.rnti p.tda_info p.nr_of_layers;
          qm = g.nr_get_qm_dl mcs ue.dl_bwp.mcs_table_idx;
          r = g.nr_get_code_rate_dl mcs ue.dl_bwp.mcs_table_idx;
          pucch_allocation = alloc;
        };
      }

  -- the size of the block in bytes
  unfoldable pub block_bytes : DlUe fl → ℕ → ℕ
  block_bytes ue rb_size =
      let p = ue.sched_pdsch in
      g.nr_compute_tbs p.qm p.r rb_size p.tda_info.nr_of_symbols
        (p.dmrs_parms.n_prb_dmrs * p.dmrs_parms.n_dmrs_slot) 0 0 p.nr_of_layers
      / 8

  module _ (beam : ℕ) where
    -- the end of the loop's body: the grant is made
    unfoldable pub make_grant : ℕ × ℕ → ℕ → Option ℕ → DlUe fl → Shared g → DlUe fl × Shared g
    unfolding set_modulation grant_size block_bytes
    make_grant range cce alloc ue st =
        let ue1 = set_modulation alloc ue in
        let size = grant_size ue1 range.1 in
        let bwp_start = ue.sched_pdsch.bwp_info.bwp_start in
        (
          record ue1 {
            cce_index = some cce;
            sched_pdsch = record ue1.sched_pdsch {
              rb_size = size;
              rb_start = range.0;
              tb_size = block_bytes ue1 size;
            };
          },
          record st {
            world = g.fill_pdcch_vrb_map st.world ue.rnti cce beam;
            n_rb_sched = modify st.n_rb_sched beam (λ n. n -ℤ pos size);
            vrb_map =
                modify st.vrb_map beam (λ m. mark_grant m (symbols_of ue) bwp_start range.0 size);
            remain_ues = modify st.remain_ues beam (λ n. n -ℤ pos 1);
            allocations =
                record {
                  beam = beam;
                  slbitmap = symbols_of ue;
                  first_rb = bwp_start + range.0;
                  rb_count = size;
                }
                ∷ st.allocations;
          },
        )

    -- `reset_beam_status`
    abbrev pub release : Bool → DlUe fl → Shared g → Shared g
    release new_beam ue st = record st {
      world = g.reset_beam_status st.world frame slot ue.ue_beam_index new_beam;
    }

    -- from the search for feedback resources on
    unfoldable pub with_feedback :
        Bool → ℕ × ℕ → ℕ → DlUe fl → Shared g → Option (Option ℕ) → DlUe fl × Shared g
    unfolding make_grant
    with_feedback new_beam range cce ue st none = (ue, release new_beam ue st)
    with_feedback new_beam range cce ue st (some alloc) = make_grant range cce alloc ue st

    -- from the test of the control channel found on
    unfoldable pub with_cce : Bool → ℕ → ℕ × ℕ → DlUe fl → Shared g → Option ℕ → DlUe fl × Shared g
    unfolding with_feedback feedback_resource
    with_cce new_beam pid range ue st none =
        (record ue { dl_cce_fail = ue.dl_cce_fail + 1 }, release new_beam ue st)
    with_cce new_beam pid range ue st (some cce) =
        let (feedback, w) = feedback_resource fl g st.world ue frame slot pid cce in
        with_feedback new_beam range cce ue (record st { world = w }) feedback

    -- from the search for a control channel on
    unfoldable pub claim : Bool → ℕ → ℕ × ℕ → DlUe fl → Shared g → DlUe fl × Shared g
    unfolding with_cce
    claim new_beam pid range ue st =
        let (cce, w) = g.get_cce_index st.world slot ue.rnti beam in
        with_cce new_beam pid range ue (record st { world = w }) cce

    -- the process, the time domain allocation and the part of the band, written to `sched_pdsch`
    unfoldable pub set_resources : ℕ → DlUe fl → Shared g → DlUe fl
    set_resources pid ue st =
        let tda = get_dl_tda g cfg slot in
        record ue {
          sched_pdsch = record ue.sched_pdsch {
            dl_harq_pid = some pid;
            time_domain_allocation = tda;
            tda_info = g.get_dl_tda_info st.world ue.rnti tda;
            bwp_info = get_pdsch_bwp_start_size g cfg st.world (some (ue.rnti, ue.dl_bwp));
          };
        }

    -- from the tests of the beam's limits on; `none` is a failed assertion
    unfoldable pub try_beam : Bool → ℕ → DlUe fl → Shared g → Option (DlUe fl × Shared g)
    unfolding set_resources claim min_rb
    try_beam new_beam pid ue st =
        let ue1 = set_resources pid ue st in
        let bwp = ue1.sched_pdsch.bwp_info in
        let range =
          dl_free_range (get_or st.vrb_map beam []) (symbols_of ue1) bwp.bwp_start bwp.bwp_size in
        if eqb_ℤ (get_or st.remain_ues beam (pos 0)) (pos 0)
          || ltb_ℤ (get_or st.n_rb_sched beam (pos 0)) (min_rb ue)
        then some (ue, release new_beam ue st)
        else if not ue1.sched_pdsch.tda_info.valid_tda
        then none
        else if ltb_ℤ (pos range.1) (min_rb ue)
        then some (ue1, st)
        else some (claim new_beam pid range ue1 st)

  -- from the test of the beam on
  unfoldable pub with_beam : Bool → ℕ → DlUe fl → Shared g → Option ℕ → Option (DlUe fl × Shared g)
  unfolding try_beam
  with_beam new_beam pid ue st none = some (ue, st)
  with_beam new_beam pid ue st (some b) = try_beam b new_beam pid ue st

  -- from the test of the HARQ process on
  unfoldable pub with_process : DlUe fl → Shared g → Option ℕ → Option (DlUe fl × Shared g)
  unfolding with_beam
  with_process ue st none = some (ue, st)
  with_process ue st (some pid) =
      let (beam, w) = g.beam_allocation_procedure st.world frame slot ue.ue_beam_index in
      with_beam beam.new_beam pid ue (record st { world = w }) beam.idx

  -- the body of the loop, for a UE
  unfoldable pub serve : DlUe fl → Shared g → Option (DlUe fl × Shared g)
  unfolding with_process
  serve ue st = with_process ue st ue.available_dl_harq

  -- the body of the loop, for an entry of `UE_sched`
  unfoldable pub serve_entry :
      DlSched fl → List (DlUe fl) → Shared g → Option (List (DlUe fl) × Shared g)
  unfolding serve
  serve_entry c ues st = elim (get_elem? ues c.ue) [
    | none ↦ some (ues, st)
    | some ue ↦ elim (serve ue st) [
      | none ↦ none
      | some (ue1, st1) ↦ some (modify ues c.ue (λ _. ue1), st1)
    ]
  ]

  -- the loop
  unfoldable pub serve_all :
      List (DlSched fl) → List (DlUe fl) → Shared g → Option (List (DlUe fl) × Shared g)
  unfolding serve_entry
  serve_all [] ues st = some (ues, st)
  serve_all (c ∷ cs) ues st = elim (serve_entry c ues st) [
    | none ↦ none
    | some (ues1, st1) ↦ serve_all cs ues1 st1
  ]
