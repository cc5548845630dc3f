-- ===== src/Dl/Pass/Safe.antt =====
-- The new transmissions of a whole pass of `pf_dl` do not overlap.
use user_ric.Prelude.{ℕ, ◌-◌, ◌<◌, ◌≤◌, ◌≡◌, refl, sym, List, [], Option, some, length, All, arith}
use user_ric.Prelude.Int.{ℤ, pos, ◌≤ℤ◌}
use user_ric.Prelude.Float.{Float}
use user_ric.Prelude.Slots.{length-modify, modify-All}
use mathlib.Core.Path.{subst}
use user_ric.Slice.Assoc.{AssocEntry}
use user_ric.Slice.Runtime.{RuntimeEntry}
use user_ric.UeDl.{get_min_grant_prb}
use user_ric.UeDl.Reload.{Environment, reload_if_needed}
use user_ric.Blocks.Marks.{length-mark}
use user_ric.Blocks.Apart.{Sound}
use user_ric.Dl.{BwpInfo, SchedPdsch, DlUe, Gnb, DlConfig, Shared}
use user_ric.Dl.Retrans.{send_again}
use user_ric.Dl.Prepare.Rule.{prepare_all_ind}
use user_ric.Dl.Serve.Rule.{WhenSome}
use user_ric.Dl.Serve.Safe.{Plain, serve_all-Sound}
use user_ric.Dl.Pass.Rule.{end_pass-cases}
use user_ric.Dl.Pass.{DlCell, reloaded, begin_pass, first_loop, second_loop, pf_dl}

module _ (fl : Float) (g : Gnb) (cfg : DlConfig) (env : Environment) (assoc : List AssocEntry)
    (runtime : List RuntimeEntry) (frame slot blocks : ℕ)
    (beams : (w : g.W) (i b : ℕ)
      → (g.beam_allocation_procedure w frame slot i).0.idx ≡ some b
      → b < cfg.num_beams)
    (at_most : (qm r precoding layers symbols dmrs bytes least most : ℕ)
      → (g.nr_find_nb_rb qm r precoding layers symbols dmrs bytes least most).2 ≤ most) where
  -- no new transmission yet, and maps that are large enough
  abbrev Begun : Shared g → Type 0
  Begun st =
      (st.allocations ≡ [])
      × (cfg.num_beams ≤ length st.vrb_map)
      × All (λ m. blocks ≤ length m) st.vrb_map

  send_again-Begun :
      (b : ℕ) (bwp : BwpInfo) (rb_start : ℕ) (ret : SchedPdsch) (alloc : Option ℕ) (cce : ℕ)
      (ue : DlUe fl) (st : Shared g)
      → Begun st
      → Begun (send_again fl g cfg frame slot b bwp rb_start ret alloc cce ue st).1
  unfolding send_again
  send_again-Begun b bwp rb_start ret alloc cce ue st (no_grant, enough, wide) = (
    no_grant,
    omega (arith, enough, length-modify st.vrb_map b _),
    modify-All (λ (m : List ℕ). blocks ≤ length m) st.vrb_map b _ wide
        (λ m h. omega (arith, length-mark _ m rb_start (ret.rb_size - rb_start))),
  )

  -- Whatever the functions of the gNB answer and in whatever order `qsort` leaves the UEs, the new
  -- transmissions of a pass of `pf_dl` in which no assertion fails never share a block in a symbol on
  -- a beam, and their blocks are in use in the maps afterwards. It is assumed that beams are numbered
  -- from 0, each with a map of enough blocks, that the part of the band that
  -- `get_pdsch_bwp_start_size` gives for a UE begins at block 0, in a common search space too, and has
  -- no more blocks than the maps, that under the policy file no UE may be granted a single block, and
  -- that `nr_find_nb_rb` does not exceed its limit.
  pub pf_dl-Sound :
      (max_num_ue : ℕ) (n_rb_sched : List ℤ) (cell : DlCell fl g)
      → ((rnti : ℕ)
          → pos 2 ≤ℤ get_min_grant_prb fl rnti (reload_if_needed fl env cell.policy).tbl (pos 5))
      → All (λ u. Plain g cfg blocks u.dl_bwp) cell.ues
      → cfg.num_beams ≤ length cell.vrb_map
      → All (λ m. blocks ≤ length m) cell.vrb_map
      → WhenSome
          (λ r. Sound cfg.num_beams blocks r.0.vrb_map r.1.allocations)
          (pf_dl fl g cfg env assoc runtime frame slot max_num_ue n_rb_sched cell)
  unfolding pf_dl first_loop second_loop
  pf_dl-Sound max_num_ue n_rb_sched cell two plain enough wide =
      let (plain', begun) =
        prepare_all_ind fl g cfg frame slot Begun (λ _ _ h. h) beams
          (λ b bwp rb_start ret alloc cce ue st _ _ h.
            send_again-Begun b bwp rb_start ret alloc cce ue st h)
          assoc runtime (reloaded fl g cfg env assoc runtime frame slot cell).tbl
          (Plain g cfg blocks) 0 cell.ues
          (begin_pass fl g cfg env assoc runtime frame slot max_num_ue n_rb_sched cell) plain
          (refl, enough, wide) in
      let r = first_loop fl g cfg env assoc runtime frame slot max_num_ue n_rb_sched cell in
      let start : Sound cfg.num_beams blocks r.2.vrb_map r.2.allocations =
        subst (Sound cfg.num_beams blocks r.2.vrb_map) (sym begun.0)
          (record { enough = begun.1; wide = begun.2; apart = tt; covered = tt }) in
      end_pass-cases fl g cfg env assoc runtime frame slot
        (λ st. Sound cfg.num_beams blocks st.vrb_map st.allocations) cell
        (second_loop fl g cfg env assoc runtime frame slot cell r)
        (serve_all-Sound fl g cfg assoc (reloaded fl g cfg env assoc runtime frame slot cell).tbl
          frame slot blocks beams two at_most _ r.1 r.2 plain' start)
