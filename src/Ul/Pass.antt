-- ===== src/Ul/Pass.antt =====
-- `pf_ul` of gnb_patch/gNB_scheduler_ulsch.c as a whole.
pub mod Count
pub mod Safe
use user_ric.Prelude.{
  ℕ, ◌*◌, Bool, true, false, not, ◌&&◌, ◌||◌, List, [], ◌∷◌, Option, none, some, if◌then◌else◌,
  replicate,
}
use user_ric.Prelude.Int.{ℤ, pos, ◌-ℤ◌, ltb_ℤ, eqb_ℤ}
use user_ric.Prelude.Float.{Float}
use user_ric.Slice.Assoc.{AssocEntry}
use user_ric.Slice.Runtime.{RuntimeEntry}
use user_ric.UeLa.Reload.{Environment, LaState, reload_if_needed}
use user_ric.Order.{UlSched, ul_comparator}
use user_ric.Harq.{NrList}
use user_ric.Dl.Prepare.{total}
use user_ric.Ul.{UlPassUe, UlGnb, UlConfig, UlSlot, UlShared}
use user_ric.Ul.Prepare.{UlEntry, target, prepare_all}
use user_ric.Ul.Serve.{serve_all}

-- the tables, the UEs and the state of the gNB between two passes; the map is that of the slot of the
-- transmission
pub record UlCell (fl : Float) (nr : NrList) (g : UlGnb) : Type 0 where
  pub policy : LaState fl
  pub ues : List (UlPassUe fl nr)
  pub runtime : List RuntimeEntry
  pub world : g.W
  pub rballoc_mask : List (List ℕ)

module _ (fl : Float) (nr : NrList) (g : UlGnb) (cfg : UlConfig) (env : Environment)
    (assoc : List AssocEntry) (at : UlSlot) where
  -- the table after `rk_ue_la_reload_if_needed`
  abbrev pub reloaded : UlCell fl nr g → LaState fl
  reloaded cell = reload_if_needed fl env cell.policy

  -- what the pass begins with
  abbrev pub begin_pass : ℕ → List ℤ → UlCell fl nr g → UlShared g
  begin_pass max_num_ue n_rb_sched cell = record {
    world = cell.world;
    rballoc_mask = cell.rballoc_mask;
    runtime = cell.runtime;
    remain_ues = replicate cfg.num_beams (pos max_num_ue);
    n_rb_sched = n_rb_sched;
    scheduled_something = false;
    allocations = [];
    resent = 0;
  }

  -- the first loop
  unfoldable pub first_loop :
      ℕ → List ℤ → UlCell fl nr g → Option (List (UlEntry fl) × List (UlPassUe fl nr) × UlShared g)
  unfolding reload_if_needed prepare_all
  first_loop max_num_ue n_rb_sched cell =
      prepare_all fl nr g cfg at assoc (reloaded cell).tbl 0 cell.ues
        (begin_pass max_num_ue n_rb_sched cell)

  -- `qsort` and the second loop
  unfoldable pub second_loop :
      UlCell fl nr g
      → Option (List (UlEntry fl) × List (UlPassUe fl nr) × UlShared g)
      → Option (List (UlPassUe fl nr) × UlShared g)
  unfolding ul_comparator serve_all
  second_loop cell none = none
  second_loop cell (some (ue_sched, ues, st)) =
      let sorted = g.qsort (λ (p q : UlEntry fl). ul_comparator fl p.sched q.sched) ue_sched in
      serve_all fl nr g cfg at assoc (reloaded cell).tbl sorted ues st

  -- `num_ue_sched`
  unfoldable pub num_ue_sched : ℕ → UlShared g → ℤ
  unfolding total
  num_ue_sched max_num_ue st = pos (cfg.num_beams * max_num_ue) -ℤ total st.remain_ues

  -- the last assertion
  unfoldable pub agrees : ℤ → Bool → Bool
  agrees n scheduled_something =
      (eqb_ℤ n (pos 0) && not scheduled_something) || (ltb_ℤ (pos 0) n && scheduled_something)

  -- what the pass leaves
  abbrev pub left_by : UlCell fl nr g → List (UlPassUe fl nr) × UlShared g → UlCell fl nr g
  left_by cell (ues, st) = record {
    policy = reloaded cell;
    ues = ues;
    runtime = st.runtime;
    world = st.world;
    rballoc_mask = st.rballoc_mask;
  }

  -- from the count of the scheduled UEs on
  unfoldable pub end_pass :
      ℕ
      → UlCell fl nr g
      → Option (List (UlPassUe fl nr) × UlShared g)
      → Option (ℤ × UlCell fl nr g × UlShared g)
  unfolding num_ue_sched agrees
  end_pass max_num_ue cell none = none
  end_pass max_num_ue cell (some (ues, st)) =
      let n = num_ue_sched max_num_ue st in
      if agrees n st.scheduled_something then some (n, left_by cell (ues, st), st) else none

  -- `pf_ul`: the number of UEs that are scheduled, the new state and what the calls shared; `none` is a
  -- failed assertion
  unfoldable pub pf_ul : ℕ → List ℤ → UlCell fl nr g → Option (ℤ × UlCell fl nr g × UlShared g)
  unfolding first_loop second_loop end_pass
  pf_ul max_num_ue n_rb_sched cell =
      let done =
        end_pass max_num_ue cell (second_loop cell (first_loop max_num_ue n_rb_sched cell)) in
      if at.tda_info.valid_tda && g.is_ul_slot (target fl nr g cfg at).s then done else none
