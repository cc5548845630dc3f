-- ===== src/Ul/Preprocessor/Target.antt =====
-- The slot that a round of the preprocessor schedules.
use user_ric.Prelude.{
  ℕ, zero, suc, ◌+◌, ◌*◌, ◌<◌, ◌≡◌, refl, sym, ap, ◌∙◌, true, List, [], ◌∷◌, ◌++◌, Option, none,
  some, arith, if_ind, if◌then◌else◌, get_elem?, take, length, All, All-get_elem?, inl, inr, ◌&&◌,
  ltb, leb, ◌==◌, get_or, drop,
}
use user_ric.Prelude.Int.{pos, pos_part, ◌-ℤ◌, ltb_ℤ}
use mathlib.Core.Path.{subst}
use mathlib.Core.Option.{some-injective, none-ne-some}
use user_ric.Prelude.Float.{Float}
use user_ric.Harq.{NrList}
use user_ric.Frame.{Fsn, fs_add_delta, fs_get_diff}
use user_ric.Frame.Laws.{IsFsn, fs_add_delta-fs_add_delta}
use user_ric.Frame.Distance.{fs_get_diff_inverse}
use user_ric.Frame.Next.Later.{UplinkAfter, next_ul_slot-UplinkAfter}
use user_ric.Tda.{TdaInfo, get_best_ul_tda}
use user_ric.Tda.Best.{get_best_ul_tda_highest}
use user_ric.Tda.Slot.{fits, get_num_ul_tda}
use user_ric.Tda.Slot.Suitable.{Suits, Found, Answer, get_num_ul_tda-Answer}
use user_ric.Dl.Serve.Rule.{WhenSome}
use user_ric.Ul.{UlGnb, UlConfig, UlSlot}
use user_ric.Ul.Prepare.{target}
use user_ric.Ul.Preprocessor.{
  UlMac, UlSetup, Plan, unending, failed, stop, run_pass, min_next, next_found, slot_for, words_at,
  plan_with, plan_best, plan_slot, plan,
}

take_bound :
    {A : Type 0} (n : ℕ) (xs : List A) (k : ℕ) (x : A) → get_elem? (take n xs) k ≡ some x → k < n
take_bound zero xs k x e = absurd (none-ne-some _ e)
take_bound (suc n) [] k x e = absurd (none-ne-some _ e)
take_bound (suc n) (y ∷ ys) zero x e = omega arith
take_bound (suc n) (y ∷ ys) (suc k) x e = omega (arith, take_bound n ys k x e)

-- an element of the middle part of a list
All-middle :
    {A : Type 0} (P : A → Type 0) (front good back : List A) (i k : ℕ) (x : A)
    → All P good
    → i ≡ length front + k
    → k < length good
    → get_elem? (front ++ (good ++ back)) i ≡ some x
    → P x
All-middle P [] [] back i k x all at h e = absurd (omega (arith, h))
All-middle P [] (y ∷ ys) back zero k x all at h e = subst P (some-injective _ _ e) all.0
All-middle P [] (y ∷ ys) back (suc i) zero x all at h e = absurd (omega (arith, at))
All-middle P [] (y ∷ ys) back (suc i) (suc k) x all at h e =
    All-middle P [] ys back i k x all.1 (omega (arith, at)) (omega (arith, h)) e
All-middle P (f ∷ fs) good back zero k x all at h e = absurd (omega (arith, at))
All-middle P (f ∷ fs) good back (suc i) k x all at h e =
    All-middle P fs good back i k x all (omega (arith, at)) h e

module _ (fl : Float) (nr : NrList) (g : UlGnb) (cfg : UlConfig) (set_up : UlSetup)
    (current : Fsn) where
  -- The pass runs for the slot that the round has chosen: an uplink slot, which the control channel
  -- of a downlink slot reaches with a valid allocation of the list that fits into it.
  pub record Reached (search : Option Fsn) (next : Fsn) (at : UlSlot) : Type 0 where
    pub first_found : search ≡ some next
    pub from_current : record { f = at.frame; s = at.slot } ≡ current
    pub same_slot : target fl nr g cfg at ≡ next
    pub is_uplink : g.is_ul_slot next.s ≡ true
    pub from_downlink : g.is_dl_slot at.slot ≡ true
    pub listed : get_elem? set_up.ul_tda at.tda ≡ some at.tda_info
    pub in_range : at.tda < 16
    pub valid : at.tda_info.valid_tda ≡ true
    pub fitting : fits g.sl_to_bitmap set_up.slots next.s at.tda_info ≡ true

  abbrev pub Reaches : Option Fsn → Plan → Type 0
  Reaches search unending = search ≡ none
  Reaches search failed = Unit
  Reaches search (stop next) = (search ≡ some next) × (g.is_ul_slot next.s ≡ true)
  Reaches search (run_pass next at rb_len) = Reached search next at

  module _ (some_slot : 0 < cfg.numb_slots_frame) (full : g.max_frame_number ≡ 1024)
      (v : IsFsn cfg.numb_slots_frame current)
      (short : All (λ t. t.k2 + g.get_ntn_koffset < 512 * cfg.numb_slots_frame) set_up.ul_tda) where
    abbrev SuitsAt : Fsn → ℕ → TdaInfo → Type 0
    SuitsAt next k2 = Suits g.sl_to_bitmap set_up.slots next.s k2

    -- a slot that was chosen from `current`, with its k2
    record Chosen (search : Option Fsn) (next : Fsn) (k2 : ℕ) : Type 0 where
      found : search ≡ some next
      valid : IsFsn cfg.numb_slots_frame next
      up : g.is_ul_slot next.s ≡ true
      down : g.is_dl_slot current.s ≡ true
      distance : fs_get_diff cfg.numb_slots_frame next current ≡ pos (k2 + g.get_ntn_koffset)

    target-Chosen :
        (search : Option Fsn) (next : Fsn) (k2 : ℕ) (info : TdaInfo) (tda : ℕ)
        → Chosen search next k2
        → info.k2 ≡ k2
        → info.k2 + g.get_ntn_koffset < 512 * cfg.numb_slots_frame
        → target fl nr g cfg (slot_for fl nr g cfg set_up current tda info) ≡ next
    target-Chosen search next k2 info tda c same l =
        let n = cfg.numb_slots_frame in
        let d = info.k2 + g.get_ntn_koffset in
        let near : fs_get_diff n next current ≡ pos d =
          c.distance ∙ ap (λ k. pos (k + g.get_ntn_koffset)) (sym same) in
        sym (
          subst (λ m. next ≡ fs_add_delta n m d current) (sym full)
            (fs_get_diff_inverse n d current next some_slot v c.valid l near))

    plan_with-Reaches :
        (search : Option Fsn) (next : Fsn) (k2 tda rb_len : ℕ) (o : Option TdaInfo)
        → Chosen search next k2
        → get_elem? set_up.ul_tda tda ≡ o
        → WhenSome (SuitsAt next k2) o
        → Reaches search (plan_with fl nr g cfg set_up current next tda rb_len o)
    unfolding plan_with
    plan_with-Reaches search next k2 tda rb_len none c e s = tt
    plan_with-Reaches search next k2 tda rb_len (some info) c e s =
        if_ind (Reaches search) (info.valid_tda && ltb tda 16)
          (run_pass next (slot_for fl nr g cfg set_up current tda info) rb_len) failed
          (λ ok. record {
            first_found = c.found;
            from_current = refl;
            same_slot =
                target-Chosen search next k2 info tda c s.0
                  (All-get_elem? _ set_up.ul_tda tda info short e);
            is_uplink = c.up;
            from_downlink = c.down;
            listed = e;
            in_range = ground (arith, ok);
            valid = ground (arith, ok);
            fitting = s.1;
          })
          (λ _. tt)

    -- an allocation of those found suits
    pick_suits :
        (next : Fsn) (k2 first n k : ℕ) (o : Option TdaInfo)
        → Found g.sl_to_bitmap set_up.slots next.s k2 set_up.ul_tda first n
        → k < n
        → get_elem? set_up.ul_tda (first + k) ≡ o
        → WhenSome (SuitsAt next k2) o
    pick_suits next k2 first n k none found l e = tt
    pick_suits next k2 first n k (some info) found l e =
        All-middle (SuitsAt next k2) found.front found.good found.back (first + k) k info
          found.suitable (omega (arith, found.at_first)) (omega (arith, found.number, l))
          (subst (λ ts. get_elem? ts (first + k) ≡ some info) found.split e)

    plan_best-Reaches :
        (search : Option Fsn) (mac : UlMac fl nr g) (next : Fsn) (k2 : ℕ)
        (o : Option (Option ℕ × ℕ))
        → Chosen search next k2
        → Answer g.sl_to_bitmap set_up.slots next.s k2 set_up.ul_tda o
        → Reaches search (plan_best fl nr g cfg set_up current mac next o)
    unfolding plan_best
    plan_best-Reaches search mac next k2 none c a = tt
    plan_best-Reaches search mac next k2 (some (none, n)) c a = (c.found, c.up)
    plan_best-Reaches search mac next k2 (some (some first, n)) c a =
        let words = get_or (words_at fl nr g cfg set_up current mac next) 0 [] in
        let tdas = take n (drop first set_up.ul_tda) in
        let best =
          get_best_ul_tda g.sl_to_bitmap words set_up.ulprbbl 0 cfg.carrier_bandwidth tdas in
        let which =
          get_best_ul_tda_highest g.sl_to_bitmap words set_up.ulprbbl 0 cfg.carrier_bandwidth
            tdas in
        let l : best.best_tda < n = elim which.1 [
          | inl none_free ↦ omega (arith, none_free.0, a.number)
          | inr (t, k, at_k, same, _, _, _) ↦
              omega (arith, same, take_bound n (drop first set_up.ul_tda) k t at_k)
        ] in
        let tda = first + best.best_tda in
        let info = get_elem? set_up.ul_tda tda in
        let suits = pick_suits next k2 first n best.best_tda info a l refl in
        if_ind (Reaches search) (n == 0) (stop next)
          (if leb n 16
            then plan_with fl nr g cfg set_up current next tda best.rb_len info
            else failed)
          (λ _. (c.found, c.up))
          (λ _.
            if_ind (Reaches search) (leb n 16)
              (plan_with fl nr g cfg set_up current next tda best.rb_len info) failed
              (λ _. plan_with-Reaches search next k2 tda best.rb_len info c refl suits) (λ _. tt))

    -- from the slot that was found on
    plan_slot-Reaches :
        (mac : UlMac fl nr g) (a : Fsn) (limit : ℕ) (o : Option Fsn)
        → WhenSome (UplinkAfter cfg.numb_slots_frame g.is_ul_slot some_slot a limit) o
        → Reaches o (plan_slot fl nr g cfg set_up current mac o)
    unfolding plan_slot ◌-ℤ◌
    plan_slot-Reaches mac a limit none h = refl
    plan_slot-Reaches mac a limit (some next) (up, e, _, eq) =
        let n = cfg.numb_slots_frame in
        let diff = fs_get_diff n next current in
        let k2 = diff -ℤ pos g.get_ntn_koffset in
        let found = get_num_ul_tda g.sl_to_bitmap set_up.slots next.s (pos_part k2) set_up.ul_tda in
        let searched = plan_best fl nr g cfg set_up current mac next found in
        if_ind (Reaches (some next)) (g.is_dl_slot current.s)
          (if ltb_ℤ (pos 0) k2 then searched else failed) (stop next)
          (λ down.
            if_ind (Reaches (some next)) (ltb_ℤ (pos 0) k2) searched failed
              (λ later.
                let chosen : Chosen (some next) next (pos_part k2) = record {
                  found = refl;
                  valid = subst (IsFsn n) (sym eq) (fs_add_delta-fs_add_delta n e 0 a some_slot).0;
                  up = up;
                  down = down;
                  distance = ground (arith, later);
                } in
                plan_best-Reaches (some next) mac next (pos_part k2) found chosen (
                  get_num_ul_tda-Answer g.sl_to_bitmap set_up.slots next.s (pos_part k2)
                    set_up.ul_tda))
              (λ _. tt))
          (λ _. (refl, up))

    -- The first slot that can be reached is a valid one.
    pub min_next-IsFsn : IsFsn cfg.numb_slots_frame (min_next fl nr g cfg set_up current)
    min_next-IsFsn =
        let n = cfg.numb_slots_frame in
        let d = cfg.min_rxtx_time + g.get_ntn_koffset in
        subst (λ m. IsFsn n (fs_add_delta n m d current)) (sym full)
          (fs_add_delta-fs_add_delta n d 0 current some_slot).0

    -- If frames are numbered from 0 to 1023, `current` and the slot that was to be next are valid,
    -- and the k2 of every time domain allocation, with the offset of the cell, is below half of all
    -- slots, then a round of the preprocessor that runs a pass runs it for an uplink slot, the one
    -- that its search has found: the slot that `pf_ul` computes from the allocation it is given is
    -- that slot. The control channel is in a downlink slot, and the allocation is a valid one of
    -- the first 16 of the list, under its index, and fits into the uplink symbols of the slot. A
    -- round that ends the loop before a pass leaves the uplink slot found to be next, and a round
    -- is unending only if its search is.
    pub plan-Reaches :
        (mac : UlMac fl nr g)
        → IsFsn cfg.numb_slots_frame mac.ul_next
        → Reaches (next_found fl nr g cfg set_up current mac) (plan fl nr g cfg set_up current mac)
    unfolding plan
    plan-Reaches mac w = plan_slot-Reaches mac _ cfg.numb_slots_frame _ (
        next_ul_slot-UplinkAfter cfg.numb_slots_frame g.is_ul_slot some_slot g.max_frame_number
          cfg.numb_slots_frame mac.ul_next (min_next fl nr g cfg set_up current) full w
          min_next-IsFsn)
