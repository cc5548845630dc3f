-- ===== src/Ul/Preprocessor/Ends.antt =====
-- The loop of the preprocessor ends.
use user_ric.Prelude.{
  ℕ, zero, suc, ◌+◌, ◌*◌, ◌<◌, ◌≤◌, ◌≡◌, refl, sym, ap, ◌∙◌, inl, inr, true, not, ◌&&◌, Option,
  none, some, arith, if_ind, All, All-map, List, All-get_elem?, replicate,
}
use mathlib.Core.Path.{subst}
use mathlib.Core.Option.{none-ne-some}
use user_ric.Prelude.Int.{ℤ, pos, pos_part, ◌-ℤ◌, ltb_ℤ, eqb_ℤ}
use user_ric.Prelude.Float.{Float}
use user_ric.Harq.{NrList}
use user_ric.Frame.{Fsn, fs_add_delta, fs_get_max}
use user_ric.Frame.Laws.{IsFsn}
use user_ric.Frame.Next.Ahead.{after, StartsAt, after_again, after-IsFsn, search_later}
use user_ric.Frame.Next.{next_ul_slot}
use user_ric.Frame.Next.First.{next_ul_slot-First}
use user_ric.Frame.Next.Later.{UplinkAfter, next_ul_slot-UplinkAfter}
use user_ric.Dl.Serve.Rule.{WhenSome}
use user_ric.Slice.Assoc.{AssocEntry}
use user_ric.UeLa.Reload.{Environment}
use user_ric.Ul.{UlGnb, UlConfig, UlSlot, UlShared}
use user_ric.Ul.Pass.{UlCell, pf_ul}
use user_ric.Ul.Preprocessor.{
  UlMac, UlSetup, Plan, unending, failed, stop, run_pass, Round, over, again, Outcome, out_of_fuel,
  ended, min_next, next_found, last_dl, keep, cell_for, after_pass, act, plan, round, rounds,
  nr_ulsch_preprocessor,
}
use user_ric.Ul.Preprocessor.Target.{Reached, Reaches, min_next-IsFsn, plan-Reaches}

-- The loop has ended, with a result or with a failed assertion.
abbrev pub Ends : {A : Type 0} → Outcome A → Type 0
Ends out_of_fuel = 1 ≤ 0
Ends unending = 1 ≤ 0
Ends failed = Unit
Ends (ended a) = Unit

module _ (fl : Float) (nr : NrList) (g : UlGnb) (cfg : UlConfig) (set_up : UlSetup) (current : Fsn)
    (some_slot : 0 < cfg.numb_slots_frame) (full : g.max_frame_number ≡ 1024)
    (v : IsFsn cfg.numb_slots_frame current) (most t : ℕ)
    (short : All (λ tda. tda.k2 + g.get_ntn_koffset ≤ most) set_up.ul_tda)
    (room : most + 1 + cfg.numb_slots_frame < 512 * cfg.numb_slots_frame)
    (reach : cfg.min_rxtx_time + g.get_ntn_koffset + cfg.numb_slots_frame
      < 512 * cfg.numb_slots_frame)
    (t_lt : t < cfg.numb_slots_frame) (t_up : g.is_ul_slot t ≡ true) where
  abbrev Starts : ℕ → Fsn → Type 0
  Starts j a = StartsAt cfg.numb_slots_frame current some_slot v j a

  -- what a round leaves: the next one starts later
  abbrev Good : ℕ → Round (UlMac fl nr g) → Type 0
  Good j unending = 1 ≤ 0
  Good j failed = Unit
  Good j (over mac) = Unit
  Good j (again max_dci mac) = Starts (suc j) mac.ul_next × (j ≤ most)

  below_half : All (λ tda. tda.k2 + g.get_ntn_koffset < 512 * cfg.numb_slots_frame) set_up.ul_tda
  below_half = All-map set_up.ul_tda (λ tda l. omega (arith, l, room)) short

  -- the slot after the one of a pass
  next_Starts :
      (j k : ℕ) (next : Fsn)
      → j ≤ k
      → k ≤ most
      → next ≡ after cfg.numb_slots_frame current some_slot v k
      → Starts (suc j) (fs_add_delta cfg.numb_slots_frame g.max_frame_number 1 next)
  next_Starts j k next low high eq =
      let n = cfg.numb_slots_frame in
      let place : fs_add_delta n g.max_frame_number 1 next ≡ after n current some_slot v (k + 1) =
        ap (λ m. fs_add_delta n m 1 next) full
        ∙ ap (fs_add_delta n 1024 1) eq
        ∙ after_again n current some_slot v k 1 in
      (
        subst (IsFsn n) (sym place) (after-IsFsn n current some_slot v (k + 1)),
        inr (k + 1, place, omega (arith, low), omega (arith, high, room)),
      )

  -- the distance of the slot of a pass
  place_of :
      (search : Option Fsn) (next : Fsn) (at : UlSlot)
      → Reached fl nr g cfg set_up current search next at
      → next ≡ after cfg.numb_slots_frame current some_slot v (at.tda_info.k2 + g.get_ntn_koffset)
  place_of search next at r =
      let n = cfg.numb_slots_frame in
      let d = at.tda_info.k2 + g.get_ntn_koffset in
      sym r.same_slot
      ∙ ap (λ m. fs_add_delta n m d (record { f = at.frame; s = at.slot })) full
      ∙ ap (fs_add_delta n 1024 d) r.from_current

  module _ (env : ℕ → Environment) (assoc : List AssocEntry) where
    after_pass-Good :
        (j k : ℕ) (max_dci : ℤ) (mac : UlMac fl nr g) (next : Fsn)
        (o : Option (ℤ × UlCell fl nr g × UlShared g))
        → j ≤ k
        → k ≤ most
        → next ≡ after cfg.numb_slots_frame current some_slot v k
        → Good j (after_pass fl nr g cfg set_up current env assoc max_dci mac next o)
    unfolding after_pass
    after_pass-Good j k max_dci mac next none low high eq = tt
    after_pass-Good j k max_dci mac next (some (sched, cell, st)) low high eq =
        let mac1 = keep fl nr g cfg set_up current env assoc mac next cell in
        if_ind (Good j) (eqb_ℤ sched (pos 0) && not (last_dl fl nr g cfg set_up current))
          (over mac1)
          (again (max_dci -ℤ sched)
            (record mac1 { ul_next = fs_add_delta cfg.numb_slots_frame g.max_frame_number 1 next }))
          (λ _. tt) (λ _. (next_Starts j k next low high eq, omega (arith, low, high)))

    act-Good :
        (j : ℕ) (now : Environment) (max_dci : ℤ) (mac : UlMac fl nr g) (search : Option Fsn)
        (found : Fsn) (p : Plan)
        → Starts j mac.ul_next
        → search ≡ some found
        → WhenSome
            (UplinkAfter cfg.numb_slots_frame g.is_ul_slot some_slot
              (fs_get_max cfg.numb_slots_frame mac.ul_next (min_next fl nr g cfg set_up current))
              cfg.numb_slots_frame)
            search
        → Reaches fl nr g cfg set_up current search p
        → Good j (act fl nr g cfg set_up current env assoc now max_dci mac p)
    unfolding act
    act-Good j now max_dci mac search found unending s e u r = absurd (none-ne-some _ (sym r ∙ e))
    act-Good j now max_dci mac search found failed s e u r = tt
    act-Good j now max_dci mac search found (stop next) s e u r = tt
    act-Good j now max_dci mac search found (run_pass next at rb_len) s e u r =
        let n = cfg.numb_slots_frame in
        let m = cfg.min_rxtx_time + g.get_ntn_koffset in
        let k = at.tda_info.k2 + g.get_ntn_koffset in
        let high : k ≤ most = All-get_elem? _ set_up.ul_tda at.tda at.tda_info short r.listed in
        let eq = place_of search next at r in
        let first_eq : fs_get_max n mac.ul_next (min_next fl nr g cfg set_up current)
            ≡ fs_get_max n mac.ul_next (after n current some_slot v m) =
          ap (λ x. fs_get_max n mac.ul_next (fs_add_delta n x m current)) full in
        let up =
          subst (λ a. UplinkAfter n g.is_ul_slot some_slot a n next) first_eq
            (subst
              (WhenSome (
                UplinkAfter n g.is_ul_slot some_slot
                  (fs_get_max n mac.ul_next (min_next fl nr g cfg set_up current)) n))
              r.first_found u) in
        let low =
          search_later n current some_slot v g.is_ul_slot j m k mac.ul_next next s reach
            (omega (arith, high, room)) up eq in
        let passed =
          pf_ul fl nr g cfg now assoc at (pos_part max_dci) (replicate cfg.num_beams (pos rb_len))
            (cell_for fl nr g cfg set_up current env assoc mac next) in
        after_pass-Good j k max_dci mac next passed low high eq

    round-Good :
        (j : ℕ) (now : Environment) (max_dci : ℤ) (mac : UlMac fl nr g)
        → Starts j mac.ul_next
        → Good j (round fl nr g cfg set_up current env assoc now max_dci mac)
    unfolding round
    round-Good j now max_dci mac s =
        let n = cfg.numb_slots_frame in
        let m = min_next fl nr g cfg set_up current in
        let m_valid = min_next-IsFsn fl nr g cfg set_up current some_slot full v below_half in
        let first =
          next_ul_slot-First n g.is_ul_slot some_slot t mac.ul_next m t_lt t_up s.0 m_valid in
        let search = next_found fl nr g cfg set_up current mac in
        let found : search ≡ some _ =
          ap (λ x. next_ul_slot n x g.is_ul_slot n mac.ul_next m) full ∙ first.reached in
        if_ind (Good j) (ltb_ℤ (pos 0) max_dci)
          (act fl nr g cfg set_up current env assoc now max_dci mac
            (plan fl nr g cfg set_up current mac))
          (over mac)
          (λ _.
            act-Good j now max_dci mac search _ (plan fl nr g cfg set_up current mac) s found
              (next_ul_slot-UplinkAfter n g.is_ul_slot some_slot g.max_frame_number n mac.ul_next m
                full s.0 m_valid)
              (plan-Reaches fl nr g cfg set_up current some_slot full v below_half mac s.0))
          (λ _. tt)

    -- the rounds after this one
    after_round :
        (j fuel : ℕ) (r : Round (UlMac fl nr g))
        → Good j r
        → ((max_dci : ℤ) (mac : UlMac fl nr g)
            → Starts (suc j) mac.ul_next
            → j ≤ most
            → Ends (rounds fl nr g cfg set_up current env assoc fuel max_dci mac))
        → Ends (elim r as (λ _. Outcome (UlMac fl nr g)) [
          | unending ↦ unending
          | failed ↦ failed
          | over mac1 ↦ ended mac1
          | again max_dci1 mac1 ↦ rounds fl nr g cfg set_up current env assoc fuel max_dci1 mac1
        ])
    after_round j fuel unending h rest = h
    after_round j fuel failed h rest = tt
    after_round j fuel (over mac) h rest = tt
    after_round j fuel (again max_dci mac) h rest = rest max_dci mac h.0 h.1

    rounds-Ends :
        (fuel j : ℕ) (max_dci : ℤ) (mac : UlMac fl nr g)
        → Starts j mac.ul_next
        → j ≤ most + 1
        → most + 2 ≤ fuel + j
        → Ends (rounds fl nr g cfg set_up current env assoc fuel max_dci mac)
    unfolding rounds
    rounds-Ends zero j max_dci mac s l enough = omega (arith, l, enough)
    rounds-Ends (suc fuel) j max_dci mac s l enough =
        after_round j fuel (round fl nr g cfg set_up current env assoc (env fuel) max_dci mac)
          (round-Good j (env fuel) max_dci mac s)
          (λ max_dci1 mac1 s1 l1.
            rounds-Ends fuel (suc j) max_dci1 mac1 s1 (omega (arith, l1)) (omega (arith, enough)))

    -- If a frame has an uplink slot, frames are numbered from 0 to 1023, `current` and the slot
    -- that was to be next are valid, and the k2 of every time domain allocation and the shortest
    -- distance to an uplink slot, both with the offset of the cell, are below half of all slots by
    -- more than a frame, the loop of the preprocessor ends within two rounds more than the largest
    -- k2 with the offset, with a result or with a failed assertion, however many UEs the passes
    -- schedule and also in the last downlink slot of a period, where a pass that schedules nothing
    -- does not end it.
    pub nr_ulsch_preprocessor-Ends :
        (fuel : ℕ) (mac : UlMac fl nr g)
        → IsFsn cfg.numb_slots_frame mac.ul_next
        → most + 2 ≤ fuel
        → Ends (nr_ulsch_preprocessor fl nr g cfg set_up current env assoc fuel mac)
    unfolding nr_ulsch_preprocessor
    nr_ulsch_preprocessor-Ends fuel mac w enough =
        rounds-Ends fuel 0 _ mac (w, inl refl) (omega arith) (omega (arith, enough))
