-- ===== src/Dl/Retrans/Place.antt =====
-- A retransmission in the downlink: the same block, on blocks that are free.
use user_ric.Prelude.{
  ℕ, ◌+◌, ◌-◌, ◌*◌, ◌≤◌, ◌≡◌, refl, Bool, true, false, not, ◌&&◌, ◌||◌, ◌==◌, ltb, leb, get_or,
  Option, none, some, if_ind, if◌then◌else◌, arith,
}
use mathlib.Core.Path.{subst}
use user_ric.Prelude.Float.{Float}
use user_ric.Blocks.{skip}
use user_ric.Blocks.Search.{skip_lem}
use user_ric.Dl.{BwpInfo, PdschTda, SchedPdsch, DlUe, Gnb, DlConfig, Shared}
use user_ric.Dl.Bwp.{get_dl_tda, get_pdsch_bwp_start_size}
use user_ric.Dl.Serve.Rule.{WhenSome}
use user_ric.Dl.Retrans.{
  Run, no_pdsch, place_of, reuse, refitted, refit, used_in, place_again, send_again, with_feedback,
  with_cce, with_place, allocate_dl_retransmission,
}
use user_ric.Dl.Retrans.Search.{Unused, Searched, find_run-Searched, run-Unused}

module _ (fl : Float) (g : Gnb) (cfg : DlConfig) (frame slot beam : ℕ)
    (at_most : (qm r precoding layers symbols dmrs bytes least most : ℕ)
      → (g.nr_find_nb_rb qm r precoding layers symbols dmrs bytes least most).2 ≤ most) where
  -- a place for the block `ret`: the size of the block is kept, and the blocks are unused in the
  -- symbols of the new time domain allocation
  pub record Placed (bwp : BwpInfo) (st : Shared g) (ret : SchedPdsch) (place : ℕ × SchedPdsch)
      : Type 0 where
    pub same_size : place.1.tb_size ≡ ret.tb_size
    pub free :
        Unused
          (used_in g beam st place.1.tda_info)
          bwp.bwp_start
          (bwp.bwp_start + bwp.bwp_size)
          place.0
          place.1.rb_size

  place_of-Placed :
      (bwp : BwpInfo) (st : Shared g) (ret : SchedPdsch) (run : Run)
      → Searched
          (used_in g beam st ret.tda_info)
          ret.rb_size
          bwp.bwp_start
          (bwp.bwp_start + bwp.bwp_size)
          run
      → WhenSome (Placed bwp st ret) (place_of ret run)
  unfolding place_of
  place_of-Placed bwp st ret run (Searched.found start u) = record { same_size = refl; free = u }
  place_of-Placed bwp st ret run Searched.no_resources = tt

  reuse-Placed :
      (bwp : BwpInfo) (st : Shared g) (ret : SchedPdsch)
      → WhenSome (Placed bwp st ret) (reuse (used_in g beam st ret.tda_info) bwp ret)
  unfolding reuse
  reuse-Placed bwp st ret = place_of-Placed bwp st ret _ (
      find_run-Searched (bwp.bwp_size + 1) (used_in g beam st ret.tda_info) ret.rb_size
        bwp.bwp_start (bwp.bwp_start + bwp.bwp_size) bwp.bwp_start 0 (omega arith)
        (record {
          behind = omega arith;
          inside = omega arith;
          unused = λ rb from to. absurd (omega arith);
        })
        (omega arith))

  shorten :
      (used : ℕ → Bool) (rb_begin rb_end rb_start size size' : ℕ)
      → size' ≤ size
      → Unused used rb_begin rb_end rb_start size
      → Unused used rb_begin rb_end rb_start size'
  shorten used rb_begin rb_end rb_start size size' h u = record {
    behind = u.behind;
    inside = omega (arith, u.inside);
    unused = λ rb from to. u.unused rb from (omega arith);
  }

  refit-Placed :
      (bwp : BwpInfo) (st : Shared g) (ue : DlUe fl) (ret : SchedPdsch) (tda : PdschTda)
      (layers pm_index : ℕ)
      → WhenSome
          (Placed bwp st ret)
          (refit fl g cfg frame slot beam (used_in g beam st tda) bwp ue ret tda layers pm_index)
  unfolding refit
  refit-Placed bwp st ue ret tda layers pm_index =
      let used = used_in g beam st tda in
      let rb_end = bwp.bwp_start + bwp.bwp_size in
      let dmrs = g.get_dl_dmrs_params ue.rnti tda layers in
      let start = skip used (rb_end - 1 - bwp.bwp_start) bwp.bwp_start in
      let size = skip (λ n. not (used (start + n))) (rb_end - start) 0 in
      let (success, new_tbs, new_rb_size) =
        g.nr_find_nb_rb ret.qm ret.r 1 layers tda.nr_of_symbols (dmrs.n_prb_dmrs * dmrs.n_dmrs_slot)
          ret.tb_size 1 size in
      if_ind (WhenSome (Placed bwp st ret)) (not success || not (new_tbs == ret.tb_size)) none
        (some
          (start, refitted fl g cfg frame slot beam ue ret tda layers pm_index new_tbs new_rb_size))
        (λ _. tt)
        (λ good.
          let (n, e, l, _, _) = skip_lem used (rb_end - 1 - bwp.bwp_start) bwp.bwp_start in
          record {
            same_size = ground (arith, good);
            free =
                shorten used bwp.bwp_start rb_end start size new_rb_size
                  (at_most ret.qm ret.r 1 layers tda.nr_of_symbols _ ret.tb_size 1 size)
                  (run-Unused used (rb_end - start) start bwp.bwp_start rb_end (omega (arith, e))
                    (omega (arith, e, l)));
          })

  -- the part of the band
  abbrev band : DlUe fl → Shared g → BwpInfo
  band ue st = get_pdsch_bwp_start_size g cfg st.world (some (ue.rnti, ue.dl_bwp))

  place_again-Placed :
      (ue : DlUe fl) (ret : SchedPdsch) (tda : PdschTda) (st : Shared g)
      → WhenSome (Placed (band ue st) st ret) (place_again fl g cfg frame slot beam ue ret tda st)
  unfolding place_again
  place_again-Placed ue ret tda st =
      let cur = ue.sched_pdsch in
      let fewer = ltb cur.nr_of_layers ret.nr_of_layers in
      let layers = if fewer then cur.nr_of_layers else ret.nr_of_layers in
      let pm_index = if fewer then cur.pm_index else ret.pm_index in
      let reuse_old_tda =
        ret.tda_info.start_symbol_index == tda.start_symbol_index
        && leb ret.tda_info.nr_of_symbols tda.nr_of_symbols in
      let bwp = band ue st in
      if_ind (WhenSome (Placed bwp st ret)) (reuse_old_tda && layers == ret.nr_of_layers)
        (reuse (used_in g beam st ret.tda_info) bwp ret)
        (refit fl g cfg frame slot beam (used_in g beam st tda) bwp ue ret tda layers pm_index)
        (λ _. reuse-Placed bwp st ret) (λ _. refit-Placed bwp st ue ret tda layers pm_index)

  -- What a call of `allocate_dl_retransmission` has done to the UE and to the maps, for the block
  -- `ret` that was to be sent again: in case of success, the UE has an allocation for a block of the
  -- same size, on blocks that were unused in its symbols and lie in the part of the band; else no
  -- block has been marked and no block counted.
  abbrev pub Resent : SchedPdsch → BwpInfo → Shared g → Bool × DlUe fl × Shared g → Type 0
  Resent ret bwp st (true, ue', st') =
      let p = ue'.sched_pdsch in
      (p.tb_size ≡ ret.tb_size)
      × Unused (used_in g beam st p.tda_info) bwp.bwp_start (bwp.bwp_start + bwp.bwp_size)
          (bwp.bwp_start + p.rb_start) p.rb_size
  Resent ret bwp st (false, ue', st') =
      (st'.vrb_map ≡ st.vrb_map) × (st'.n_rb_sched ≡ st.n_rb_sched)

  module _ (ret : SchedPdsch) (bwp : BwpInfo) (old : Shared g) (rb_start : ℕ) (ret' : SchedPdsch)
      (placed : Placed bwp old ret (rb_start, ret')) where
    with_feedback-Resent :
        (cce : ℕ) (ue : DlUe fl) (w : g.W) (feedback : Option (Option ℕ))
        → Resent ret bwp old (
            with_feedback fl g cfg frame slot beam bwp rb_start ret' cce ue
              (record old { world = w })
              feedback)
    unfolding with_feedback send_again
    with_feedback-Resent cce ue w none = (refl, refl)
    with_feedback-Resent cce ue w (some alloc) = (
      placed.same_size,
      subst
          (λ k.
            Unused (used_in g beam old ret'.tda_info) bwp.bwp_start (bwp.bwp_start + bwp.bwp_size) k
              ret'.rb_size)
          (omega (arith, placed.free.behind)) placed.free,
    )

    with_cce-Resent :
        (pid : ℕ) (ue : DlUe fl) (w : g.W) (cce : Option ℕ)
        → Resent ret bwp old (
            with_cce fl g cfg frame slot beam bwp pid rb_start ret' ue
              (record old { world = w })
              cce)
    unfolding with_cce
    with_cce-Resent pid ue w none = (refl, refl)
    with_cce-Resent pid ue w (some cce) = with_feedback-Resent cce ue _ _

  with_place-Resent :
      (pid : ℕ) (ue : DlUe fl) (st : Shared g) (ret : SchedPdsch) (place : Option (ℕ × SchedPdsch))
      → WhenSome (Placed (band ue st) st ret) place
      → Resent ret (band ue st) st (with_place fl g cfg frame slot beam pid ue st place)
  unfolding with_place
  with_place-Resent pid ue st ret none p = (refl, refl)
  with_place-Resent pid ue st ret (some (rb_start, ret')) p =
      with_cce-Resent ret (band ue st) st rb_start ret' p pid _ _ _

  -- If a block is sent again, its size is the one it had, and it goes to blocks of the UE's part of the
  -- band that were unused in the symbols of the new allocation. If it is not, no map and no count of
  -- free blocks has changed. It is assumed that `nr_find_nb_rb` does not exceed its limit.
  pub allocate_dl_retransmission-Resent :
      (pid : ℕ) (ue : DlUe fl) (st : Shared g)
      → Resent
          (get_or ue.harq_pdsch pid no_pdsch)
          (band ue st)
          st
          (allocate_dl_retransmission fl g cfg frame slot beam pid ue st)
  unfolding allocate_dl_retransmission
  allocate_dl_retransmission-Resent pid ue st =
      let ret = get_or ue.harq_pdsch pid no_pdsch in
      let tda = g.get_dl_tda_info st.world ue.rnti (get_dl_tda g cfg slot) in
      let place = place_again fl g cfg frame slot beam ue ret tda st in
      if_ind (Resent ret (band ue st) st) (not tda.valid_tda) (false, ue, st)
        (with_place fl g cfg frame slot beam pid ue st place) (λ _. (refl, refl))
        (λ _. with_place-Resent pid ue st ret place (place_again-Placed ue ret tda st))
