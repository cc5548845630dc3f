-- ===== src/Ul/Retrans/Place.antt =====
-- A retransmission in the uplink: the same block, from a free resource block on.
use user_ric.Prelude.{
  ℕ, ◌+◌, ◌-◌, ◌*◌, ◌<◌, ◌≤◌, ◌≡◌, sym, refl, Bool, true, false, not, ◌&&◌, ◌||◌, ◌==◌, ltb, leb,
  List, Option, none, some, inl, inr, if_ind, arith,
}
use mathlib.Core.Path.{subst}
use user_ric.Blocks.{skip}
use user_ric.Blocks.Search.{skip_lem}
use user_ric.Tda.{TdaInfo}
use user_ric.Harq.{NrList}
use user_ric.Harq.Grant.{UlUe, post_process_ulsch}
use user_ric.Power.Factor.{UlBand}
use user_ric.Dl.Retrans.Search.{run_short}
use user_ric.Dl.Serve.Rule.{WhenSome}
use user_ric.Ul.{PuschSched, UlGnb, UlConfig}
use user_ric.Ul.Post.{grant_of}
use user_ric.Ul.Retrans.{
  UlRetrans, used_in, bwp_size, scheduled, reuse, refit, place_again, mark_again, sent, with_cce,
  with_place, is_process, allocate_ul_retransmission,
}

-- where the search for the first block ends: at an unused block, or at the end
first-Free :
    (used : ℕ → Bool) (size more : ℕ)
    → 0 < more
    → skip used size 0 + more ≤ size
    → used (skip used size 0) ≡ false
first-Free used size more some_more room =
    let (n, e, l, each, last) = skip_lem used size 0 in
    elim last [
      | inl all ↦ absurd (omega (arith, e, all, some_more, room))
      | inr stop ↦ subst (λ k. used k ≡ false) (sym e) stop
    ]

module _ (nr : NrList) (g : UlGnb) (cfg : UlConfig) (frame slot dci_beam rnti : ℕ)
    (transform_precoding : Bool) (band : UlBand) (tda : ℕ) (tda_info : TdaInfo)
    (at_most : (qm r : ℕ)
      → (precoding : Bool) → (layers symbols dmrs bytes least most : ℕ)
      → (g.nr_find_nb_rb qm r precoding layers symbols dmrs bytes least most).2 ≤ most) where
  abbrev size : ℕ
  size = bwp_size nr g cfg frame slot dci_beam rnti transform_precoding band tda tda_info

  -- a place for a block of `bytes`: the size of the block is kept, the resource blocks lie in the part of
  -- the band, and the first one is unused in the symbols of the allocation
  pub record Placed (map : List ℕ) (bytes : ℕ) (s : PuschSched) : Type 0 where
    pub same_size : s.tb_size ≡ bytes
    pub inside : s.rb_start + s.rb_size ≤ size
    pub first_free : 0 < s.rb_size → used_in g map band s.tda_info s.rb_start ≡ false

  reuse-Placed :
      (map : List ℕ) (ret : PuschSched)
      → WhenSome
          (Placed map ret.tb_size)
          (reuse nr g cfg frame slot dci_beam rnti transform_precoding band tda tda_info map ret)
  unfolding reuse
  reuse-Placed map ret =
      let start = skip (used_in g map band ret.tda_info) size 0 in
      if_ind (WhenSome (Placed map ret.tb_size)) (ltb size (start + ret.rb_size)) none
        (some (record ret { rb_start = start })) (λ _. tt)
        (λ room.
          let fits : start + ret.rb_size ≤ size = ground (arith, room) in
          record {
            same_size = refl;
            inside = fits;
            first_free = λ h. first-Free (used_in g map band ret.tda_info) size ret.rb_size h fits;
          })

  refit-Placed :
      (map : List ℕ) (ret : PuschSched)
      → WhenSome
          (Placed map ret.tb_size)
          (refit nr g cfg frame slot dci_beam rnti transform_precoding band tda tda_info map ret)
  unfolding refit
  refit-Placed map ret =
      let used = used_in g map band tda_info in
      let start = skip used size 0 in
      let dmrs = g.get_ul_dmrs_params rnti tda_info ret.nr_of_layers in
      let len = skip (λ n. not (used (start + n))) (size - start) 0 in
      let (success, new_tbs, new_rb_size) =
        g.nr_find_nb_rb ret.qm ret.r transform_precoding ret.nr_of_layers tda_info.nr_of_symbols
          (dmrs.n_prb_dmrs * dmrs.num_dmrs_symb) ret.tb_size 1 len in
      if_ind (WhenSome (Placed map ret.tb_size)) (not success || not (new_tbs == ret.tb_size)) none
        (some (record ret {
          rb_size = new_rb_size;
          rb_start = start;
          tb_size = new_tbs;
          time_domain_allocation = tda;
          tda_info = tda_info;
          dmrs_info = dmrs;
        }))
        (λ _. tt)
        (λ good.
          let (n, e, l, _, _) = skip_lem used size 0 in
          let short = run_short used (size - start) start in
          let limit =
            at_most ret.qm ret.r transform_precoding ret.nr_of_layers tda_info.nr_of_symbols
              (dmrs.n_prb_dmrs * dmrs.num_dmrs_symb) ret.tb_size 1 len in
          let fits : start + new_rb_size ≤ size = omega (arith, e, l, short, limit) in
          record {
            same_size = ground (arith, good);
            inside = fits;
            first_free = λ h. first-Free used size new_rb_size h fits;
          })

  place_again-Placed :
      (map : List ℕ) (ret : PuschSched)
      → WhenSome (Placed map ret.tb_size) (
          place_again nr g cfg frame slot dci_beam rnti transform_precoding band tda tda_info map
            ret)
  unfolding place_again scheduled
  place_again-Placed map ret =
      let new_sched =
        scheduled nr g cfg frame slot dci_beam rnti transform_precoding band tda tda_info ret in
      if_ind (WhenSome (Placed map ret.tb_size))
        (ret.tda_info.start_symbol_index == tda_info.start_symbol_index
          && leb ret.tda_info.nr_of_symbols tda_info.nr_of_symbols)
        (reuse nr g cfg frame slot dci_beam rnti transform_precoding band tda tda_info map
          new_sched)
        (refit nr g cfg frame slot dci_beam rnti transform_precoding band tda tda_info map
          new_sched)
        (λ _. reuse-Placed map new_sched) (λ _. refit-Placed map new_sched)

  -- the UE after the record of the allocation
  abbrev posted : PuschSched → UlRetrans nr g → Option (UlUe nr)
  posted s st =
      post_process_ulsch nr cfg.disable_harq cfg.harq_round_max cfg.numb_slots_frame rnti
        (grant_of s) st.ue

  -- What a call has done for the block `ret`: a block that is sent again has a place, from which its
  -- marks in the map and its record follow; else the map and the UE are the ones before.
  abbrev pub Resent : PuschSched → UlRetrans nr g → Option (Bool × UlRetrans nr g) → Type 0
  Resent ret st none = Unit
  Resent ret st (some (true, st')) =
      (s : PuschSched) × Placed st.rballoc_mask ret.tb_size s
      × (st'.rballoc_mask
          ≡ mark_again nr g cfg frame slot dci_beam rnti transform_precoding band tda tda_info s
              st.rballoc_mask)
      × (posted s st ≡ some st'.ue)
  Resent ret st (some (false, st')) = (st'.rballoc_mask ≡ st.rballoc_mask) × (st'.ue ≡ st.ue)

  module _ (ret s : PuschSched) (old : UlRetrans nr g)
      (p : Placed old.rballoc_mask ret.tb_size s) where
    sent-Resent :
        (w : g.W) (cce : Option ℕ) (ue : Option (UlUe nr))
        → posted s old ≡ ue
        → Resent ret old (
            sent nr g cfg frame slot dci_beam rnti transform_precoding band tda tda_info s
              (record old { world = w; cce_index = cce })
              ue)
    unfolding sent
    sent-Resent w cce none e = tt
    sent-Resent w cce (some ue) e = (s, p, refl, e)

    with_cce-Resent :
        (w : g.W) (cce : Option ℕ)
        → Resent ret old (
            with_cce nr g cfg frame slot dci_beam rnti transform_precoding band tda tda_info s
              (record old { world = w })
              cce)
    unfolding with_cce
    with_cce-Resent w none = (refl, refl)
    with_cce-Resent w (some cce) = sent-Resent _ _ _ refl

  with_place-Resent :
      (ret : PuschSched) (st : UlRetrans nr g) (place : Option PuschSched)
      → WhenSome (Placed st.rballoc_mask ret.tb_size) place
      → Resent ret st (
          with_place nr g cfg frame slot dci_beam rnti transform_precoding band tda tda_info st
            place)
  unfolding with_place
  with_place-Resent ret st none p = (refl, refl)
  with_place-Resent ret st (some s) p = with_cce-Resent ret s st p _ _

  -- If `allocate_ul_retransmission` sends a block again, the block has the size it had, its resource
  -- blocks lie in the UE's part of the band, the first of them was unused in the symbols of the
  -- allocation, and the map has the marks and the UE the record of this allocation. If it does not,
  -- neither the map nor the HARQ state of the UE has changed. It is assumed that `nr_find_nb_rb` does not exceed its limit.
  pub allocate_ul_retransmission-Resent :
      (harq_pid : ℕ) (ret : PuschSched) (st : UlRetrans nr g)
      → Resent ret st (
          allocate_ul_retransmission nr g cfg frame slot dci_beam rnti transform_precoding band tda
            tda_info harq_pid ret st)
  unfolding allocate_ul_retransmission
  allocate_ul_retransmission-Resent harq_pid ret st =
      let place =
        place_again nr g cfg frame slot dci_beam rnti transform_precoding band tda tda_info
          st.rballoc_mask ret in
      if_ind (Resent ret st) (is_process ret.ul_harq_pid harq_pid)
        (with_place nr g cfg frame slot dci_beam rnti transform_precoding band tda tda_info st
          place)
        none (λ _. with_place-Resent ret st place (place_again-Placed st.rballoc_mask ret))
        (λ _. tt)
