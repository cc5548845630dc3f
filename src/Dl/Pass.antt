-- ===== src/Dl/Pass.antt =====
-- `pf_dl` and `nr_dlsch_preprocessor` of gnb_patch/gNB_scheduler_dlsch.c.
pub mod Rule
pub mod Safe
pub mod Limit
use user_ric.Prelude.{ℕ, ◌*◌, ◌/◌, List, [], ◌∷◌, Option, none, some, replicate, min}
use user_ric.Prelude.Int.{ℤ, pos}
use user_ric.Prelude.Float.{Float}
use user_ric.Slice.Assoc.{AssocEntry}
use user_ric.Slice.Runtime.{RuntimeEntry}
use user_ric.UeDl.Reload.{Environment, DlState, reload_if_needed}
use user_ric.Order.{dl_comparator}
use user_ric.Dl.{DlUe, Gnb, DlConfig, Shared}
use user_ric.Dl.Buffer.{nr_store_dlsch_buffer}
use user_ric.Dl.Prepare.{DlSched, prepare_all}
use user_ric.Dl.Serve.{serve_all}

-- the tables, the UEs and the state of the gNB between two slots
pub record DlCell (fl : Float) (g : Gnb) : Type 0 where
  pub policy : DlState fl
  pub ues : List (DlUe fl)
  pub world : g.W
  pub vrb_map : List (List ℕ)

module _ (fl : Float) (g : Gnb) (cfg : DlConfig) (env : Environment) (assoc : List AssocEntry)
    (runtime : List RuntimeEntry) (frame slot : ℕ) where
  -- the table after `rk_ue_dl_reload_if_needed`
  abbrev pub reloaded : DlCell fl g → DlState fl
  reloaded cell = reload_if_needed fl env cell.policy

  -- what the pass begins with
  abbrev pub begin_pass : ℕ → List ℤ → DlCell fl g → Shared g
  begin_pass max_num_ue n_rb_sched cell = record {
    world = cell.world;
    vrb_map = cell.vrb_map;
    remain_ues = replicate cfg.num_beams (pos max_num_ue);
    n_rb_sched = n_rb_sched;
    allocations = [];
    resent = 0;
  }

  -- the first loop
  unfoldable pub first_loop :
      ℕ → List ℤ → DlCell fl g → List (DlSched fl) × List (DlUe fl) × Shared g
  unfolding reload_if_needed prepare_all
  first_loop max_num_ue n_rb_sched cell =
      prepare_all fl g cfg frame slot assoc runtime (reloaded cell).tbl 0 cell.ues
        (begin_pass max_num_ue n_rb_sched cell)

  -- `qsort` and the second loop
  unfoldable pub second_loop :
      DlCell fl g
      → List (DlSched fl) × List (DlUe fl) × Shared g
      → Option (List (DlUe fl) × Shared g)
  unfolding dl_comparator serve_all
  second_loop cell (ue_sched, ues, st) =
      let sorted = g.qsort (λ (p q : DlSched fl). dl_comparator fl p.coef q.coef) ue_sched in
      serve_all fl g cfg assoc (reloaded cell).tbl frame slot sorted ues st

  -- what the pass leaves
  abbrev pub end_pass :
      DlCell fl g → Option (List (DlUe fl) × Shared g) → Option (DlCell fl g × Shared g)
  end_pass cell none = none
  end_pass cell (some (ues, st)) =
      some
        (record { policy = reloaded cell; ues = ues; world = st.world; vrb_map = st.vrb_map }, st)

  -- `pf_dl`, with the new transmissions of the pass; `none` is a failed assertion
  unfoldable pub pf_dl : ℕ → List ℤ → DlCell fl g → Option (DlCell fl g × Shared g)
  unfolding first_loop second_loop
  pf_dl max_num_ue n_rb_sched cell =
      end_pass cell (second_loop cell (first_loop max_num_ue n_rb_sched cell))

  -- `nr_dlsch_preprocessor`
  unfoldable pub nr_dlsch_preprocessor : DlCell fl g → Option (DlCell fl g)
  unfolding pf_dl nr_store_dlsch_buffer
  nr_dlsch_preprocessor cell =
      let bw = cfg.carrier_bandwidth in
      let average_agg_level : ℕ = 4 in
      let max_sched_ues = min (bw / (average_agg_level * g.nr_nb_reg_per_cce)) g.max_dci_coreset in
      let stored = record cell { ues = nr_store_dlsch_buffer g cell.world frame cell.ues } in
      elim cell.ues [
        | [] ↦ some cell
        | _ ∷ _ ↦ elim (pf_dl max_sched_ues (replicate cfg.num_beams (pos bw)) stored) [
          | none ↦ none
          | some (cell1, _) ↦ some cell1
        ]
      ]
