-- ===== src/Ul/Pass/Safe.antt =====
-- The new transmissions of a whole pass of `pf_ul` do not overlap.
use user_ric.Prelude.{
  ◌&&◌, ℕ, zero, suc, ◌∷◌, ◌+◌, ◌<◌, ◌≤◌, ◌≡◌, refl, sym, Bool, true, List, [], Option, none, some,
  All, length, get_or, if_ind, arith,
}
use user_ric.Prelude.Int.{ℤ, pos, ◌-ℤ◌}
use user_ric.Prelude.Float.{Float}
use user_ric.Prelude.Slots.{modify, length-modify}
use mathlib.Core.Path.{subst}
use user_ric.Slice.Assoc.{AssocEntry}
use user_ric.UeLa.Reload.{Environment}
use user_ric.Blocks.Apart.{Sound}
use user_ric.Harq.{NrList}
use user_ric.Dl.Serve.Rule.{WhenSome}
use user_ric.Ul.{UlPassUe, UlGnb, UlConfig, UlSlot, UlShared}
use user_ric.Ul.Retrans.{UlRetrans}
use user_ric.Ul.Prepare.{UlEntry, target, settle}
use user_ric.Ul.Prepare.Rule.{prepare_all_ind}
use user_ric.Ul.Serve.Safe.{Plain, serve_all-Sound}
use user_ric.Ul.Pass.{
  UlCell, reloaded, begin_pass, first_loop, second_loop, agrees, num_ue_sched, left_by, end_pass,
  pf_ul,
}

-- a map that is replaced by one of the same length
replace :
    (blocks : ℕ) (maps : List (List ℕ)) (b : ℕ) (map : List ℕ)
    → All (λ m. blocks ≤ length m) maps
    → length map ≡ length (get_or maps b [])
    → All (λ m. blocks ≤ length m) (modify maps b (λ _. map))
unfolding modify
replace blocks [] b map h e = tt
replace blocks (m ∷ ms) zero map h e = (omega (arith, h.0, e), h.1)
replace blocks (m ∷ ms) (suc b) map h e = (h.0, replace blocks ms b map h.1 e)

module _ (fl : Float) (nr : NrList) (g : UlGnb) (cfg : UlConfig) (at : UlSlot) (env : Environment)
    (assoc : List AssocEntry) (blocks : ℕ)
    (beams : (w : g.W) (i b : ℕ)
      → let at_target = target fl nr g cfg at in
        (g.beam_allocation_procedure w at_target.f at_target.s i).0.idx ≡ some b
        → b < cfg.num_beams)
    (some_blocks : 0 < cfg.min_grant_prb)
    (at_most : (qm r : ℕ)
      → (precoding : Bool) → (layers n_symbols dmrs bytes least most : ℕ)
      → (g.nr_find_nb_rb qm r precoding layers n_symbols dmrs bytes least most).2 ≤ most) where
  -- no new transmission yet, and maps that are large enough
  pub record Begun (st : UlShared g) : Type 0 where
    pub no_grant : st.allocations ≡ []
    pub enough : cfg.num_beams ≤ length st.rballoc_mask
    pub wide : All (λ m. blocks ≤ length m) st.rballoc_mask

  settle-Begun :
      (b : ℕ) (r : UlRetrans nr g) (st : UlShared g)
      → length r.rballoc_mask ≡ length (get_or st.rballoc_mask b [])
      → Begun st
      → Begun (settle fl nr g cfg at b st r)
  unfolding settle
  settle-Begun b r st long h = record {
    no_grant = h.no_grant;
    enough = omega (arith, h.enough, length-modify st.rballoc_mask b (λ _. r.rballoc_mask));
    wide = replace blocks st.rballoc_mask b r.rballoc_mask h.wide long;
  }

  again :
      (b : ℕ) (r : UlRetrans nr g) (st : UlShared g)
      → Begun (settle fl nr g cfg at b st r)
      → let st1 = settle fl nr g cfg at b st r in
        Begun (record st1 {
          remain_ues = modify st1.remain_ues b (λ n. n -ℤ pos 1);
          scheduled_something = true;
          resent = st1.resent + 1;
        })
  again b r st h = record { no_grant = h.no_grant; enough = h.enough; wide = h.wide }

  second_part :
      (cell : UlCell fl nr g) (o : Option (List (UlEntry fl) × List (UlPassUe fl nr) × UlShared g))
      → WhenSome (λ r. All (λ u. Plain blocks u.ul_band) r.1 × Begun r.2) o
      → WhenSome
          (λ r. Sound cfg.num_beams blocks r.1.rballoc_mask r.1.allocations)
          (second_loop fl nr g cfg env assoc at cell o)
  unfolding second_loop
  second_part cell none h = tt
  second_part cell (some (cs, ues, st)) (plain, begun) =
      let start : Sound cfg.num_beams blocks st.rballoc_mask st.allocations =
        subst (Sound cfg.num_beams blocks st.rballoc_mask) (sym begun.no_grant)
          (record { enough = begun.enough; wide = begun.wide; apart = tt; covered = tt }) in
      serve_all-Sound fl nr g cfg at assoc (reloaded fl nr g cfg env assoc at cell).tbl blocks beams
        some_blocks at_most _ ues st plain start

  end_pass_ind :
      (max_num_ue : ℕ) (cell : UlCell fl nr g) (o : Option (List (UlPassUe fl nr) × UlShared g))
      → WhenSome (λ r. Sound cfg.num_beams blocks r.1.rballoc_mask r.1.allocations) o
      → WhenSome
          (λ r. Sound cfg.num_beams blocks r.1.rballoc_mask r.2.allocations)
          (end_pass fl nr g cfg env assoc at max_num_ue cell o)
  unfolding end_pass
  end_pass_ind max_num_ue cell none h = tt
  end_pass_ind max_num_ue cell (some (ues, st)) h =
      let n = num_ue_sched fl nr g cfg env assoc at max_num_ue st in
      if_ind (WhenSome (λ r. Sound cfg.num_beams blocks r.1.rballoc_mask r.2.allocations))
        (agrees fl nr g cfg env assoc at n st.scheduled_something)
        (some (n, left_by fl nr g cfg env assoc at cell (ues, st), st)) none (λ _. h) (λ _. tt)

  -- Whatever the functions of the gNB answer and in whatever order `qsort` leaves the UEs, the new
  -- transmissions of a pass of `pf_ul` never share a block in a symbol on a beam, and their blocks are
  -- in use in the maps afterwards. It is assumed that beams are numbered from 0, each with a map of
  -- enough blocks, that the UEs' parts of the band begin at block 0, that the smallest grant of the
  -- configuration is not empty, and that `nr_find_nb_rb` does not exceed its limit.
  pub pf_ul-Sound :
      (max_num_ue : ℕ) (n_rb_sched : List ℤ) (cell : UlCell fl nr g)
      → All (λ u. Plain blocks u.ul_band) cell.ues
      → cfg.num_beams ≤ length cell.rballoc_mask
      → All (λ m. blocks ≤ length m) cell.rballoc_mask
      → WhenSome
          (λ r. Sound cfg.num_beams blocks r.1.rballoc_mask r.2.allocations)
          (pf_ul fl nr g cfg env assoc at max_num_ue n_rb_sched cell)
  unfolding pf_ul first_loop
  pf_ul-Sound max_num_ue n_rb_sched cell plain enough wide =
      let first = first_loop fl nr g cfg env assoc at max_num_ue n_rb_sched cell in
      let second = second_loop fl nr g cfg env assoc at cell first in
      let tbl = (reloaded fl nr g cfg env assoc at cell).tbl in
      let begun : Begun (begin_pass fl nr g cfg env assoc at max_num_ue n_rb_sched cell) = record {
        no_grant = refl;
        enough = enough;
        wide = wide;
      } in
      let prepared =
        prepare_all_ind fl nr g cfg at Begun
          (λ st w h. record { no_grant = h.no_grant; enough = h.enough; wide = h.wide }) beams
          (λ b r st long h. settle-Begun b r st long h)
          (λ b r st _ _ long h. again b r st (settle-Begun b r st long h)) assoc tbl (Plain blocks)
          0 cell.ues _ plain begun in
      if_ind (WhenSome (λ r. Sound cfg.num_beams blocks r.1.rballoc_mask r.2.allocations))
        (at.tda_info.valid_tda && g.is_ul_slot (target fl nr g cfg at).s)
        (end_pass fl nr g cfg env assoc at max_num_ue cell second) none
        (λ _. end_pass_ind max_num_ue cell second (second_part cell first prepared)) (λ _. tt)
