-- ===== src/Ul/Pass/Count.antt =====
-- How many UEs a pass of `pf_ul` schedules, and that its last assertion holds.
use user_ric.Prelude.{
  ◌&&◌, ℕ, zero, suc, ◌+◌, ◌*◌, ◌<◌, ◌≡◌, refl, sym, ◌∙◌, ap, true, List, [], ◌∷◌, Option, none,
  some, All, All-every, length, length-replicate, replicate, ltb, arith,
}
use user_ric.Prelude.Int.{ℤ, pos, pos_part, neg_part, ◌-ℤ◌, +ℤ_parts, -ℤ_parts, eq_of_parts}
use user_ric.Prelude.Float.{Float}
use user_ric.Prelude.Slots.{modify, length-modify}
use mathlib.Core.Path.{subst}
use user_ric.Slice.Assoc.{AssocEntry}
use user_ric.UeLa.{LaEntry}
use user_ric.UeLa.Reload.{Environment}
use user_ric.Harq.{NrList}
use user_ric.Dl.Prepare.{total}
use user_ric.Dl.Serve.Rule.{WhenSome}
use user_ric.Ul.{PuschSched, UlPassUe, UlGnb, UlConfig, UlSlot, UlShared}
use user_ric.Ul.Retrans.{UlRetrans}
use user_ric.Ul.Prepare.{UlEntry, target, settle}
use user_ric.Ul.Prepare.Rule.{prepare_all_ind}
use user_ric.Ul.Serve.{take_blocks}
use user_ric.Ul.Serve.Rule.{MayGrant, serve_all_ind}
use user_ric.Ul.Pass.{
  UlCell, reloaded, begin_pass, first_loop, second_loop, num_ue_sched, agrees, left_by, end_pass,
  pf_ul,
}

-- a sum in which one number is counted down
total-modify :
    (ns : List ℤ) (b : ℕ)
    → b < length ns
    → let after = total (modify ns b (λ n. n -ℤ pos 1)) in
      pos_part after + 1 + neg_part (total ns) ≡ pos_part (total ns) + neg_part after
unfolding total modify
total-modify [] b h = absurd (omega arith)
total-modify (n ∷ ns) zero h =
    omega (arith, +ℤ_parts n (total ns), +ℤ_parts (n -ℤ pos 1) (total ns), -ℤ_parts n (pos 1))
total-modify (n ∷ ns) (suc b) h = omega (
  arith,
  total-modify ns b (omega arith),
  +ℤ_parts n (total ns),
  +ℤ_parts n (total (modify ns b (λ n. n -ℤ pos 1))),
)

total-replicate :
    (n most : ℕ)
    → pos_part (total (replicate n (pos most)))
      ≡ n * most + neg_part (total (replicate n (pos most)))
unfolding total
total-replicate zero most = omega arith
total-replicate (suc n) most =
    omega (arith, total-replicate n most, +ℤ_parts (pos most) (total (replicate n (pos most))))

-- What is left of the limits of all beams, and the UEs scheduled, are `limit` together.
pub record Counted {g : UlGnb} (beams limit : ℕ) (st : UlShared g) : Type 0 where
  pub long : length st.remain_ues ≡ beams
  pub together :
      pos_part (total st.remain_ues) + (length st.allocations + st.resent)
      ≡ limit + neg_part (total st.remain_ues)
  pub told : st.scheduled_something ≡ ltb 0 (length st.allocations + st.resent)

module _ (fl : Float) (nr : NrList) (g : UlGnb) (cfg : UlConfig) (at : UlSlot)
    (beams : (w : g.W) (i b : ℕ)
      → let at_target = target fl nr g cfg at in
        (g.beam_allocation_procedure w at_target.f at_target.s i).0.idx ≡ some b
        → b < cfg.num_beams) where
  settle-Counted :
      (limit b : ℕ) (r : UlRetrans nr g) (st : UlShared g)
      → Counted cfg.num_beams limit st
      → Counted cfg.num_beams limit (settle fl nr g cfg at b st r)
  unfolding settle
  settle-Counted limit b r st c = record { long = c.long; together = c.together; told = c.told }

  resend-Counted :
      (limit b : ℕ) (r : UlRetrans nr g) (st : UlShared g)
      → b < cfg.num_beams
      → Counted cfg.num_beams limit st
      → let st1 = settle fl nr g cfg at b st r in
        Counted cfg.num_beams limit (record st1 {
          remain_ues = modify st1.remain_ues b (λ n. n -ℤ pos 1);
          scheduled_something = true;
          resent = st1.resent + 1;
        })
  unfolding settle
  resend-Counted limit b r st in_use c = record {
    long = length-modify st.remain_ues b _ ∙ c.long;
    together =
        omega (arith, c.together, total-modify st.remain_ues b (omega (arith, in_use, c.long)));
    told = ground arith;
  }

  module _ (assoc : List AssocEntry) (tbl : List (LaEntry fl)) where
    take_blocks-Counted :
        (limit b : ℕ) (s : PuschSched) (ue : UlPassUe fl nr) (st : UlShared g)
        → Unit {0}
        → MayGrant fl nr g cfg at assoc tbl b s ue st
        → Counted cfg.num_beams limit st
        → Counted cfg.num_beams limit (take_blocks fl nr g cfg at assoc tbl b s st)
    unfolding take_blocks
    take_blocks-Counted limit b s ue st q may c = record {
      long = length-modify st.remain_ues b _ ∙ c.long;
      together = omega (
        arith,
        c.together,
        total-modify st.remain_ues b (omega (arith, may.beam_in_use, c.long)),
      );
      told = ground arith;
    }

  module _ (env : Environment) (assoc : List AssocEntry) where
    abbrev Agreed : ℕ → UlCell fl nr g → List (UlPassUe fl nr) × UlShared g → Type 0
    Agreed max_num_ue cell r =
        end_pass fl nr g cfg env assoc at max_num_ue cell (some r)
        ≡ some (
          pos (length r.1.allocations + r.1.resent),
          left_by fl nr g cfg env assoc at cell r,
          r.1,
        )

    end_pass_agrees :
        (max_num_ue : ℕ) (cell : UlCell fl nr g) (ues : List (UlPassUe fl nr)) (st : UlShared g)
        → Counted cfg.num_beams (cfg.num_beams * max_num_ue) st
        → Agreed max_num_ue cell (ues, st)
    unfolding end_pass num_ue_sched agrees
    end_pass_agrees max_num_ue cell ues st c =
        let count = length st.allocations + st.resent in
        let e : num_ue_sched fl nr g cfg env assoc at max_num_ue st ≡ pos count =
          eq_of_parts _ (pos count) (
            omega (
              arith,
              c.together,
              -ℤ_parts (pos (cfg.num_beams * max_num_ue)) (total st.remain_ues),
            )) in
        let told : agrees fl nr g cfg env assoc at (pos count) st.scheduled_something ≡ true =
          ground (arith, c.told) in
        let good =
          subst (λ n. agrees fl nr g cfg env assoc at n st.scheduled_something ≡ true) (sym e)
            told in
        let left = left_by fl nr g cfg env assoc at cell (ues, st) in
        rw good (ap (λ (n : ℤ). some (n, left, st)) e)

    second_part :
        (max_num_ue : ℕ) (cell : UlCell fl nr g)
        (o : Option (List (UlEntry fl) × List (UlPassUe fl nr) × UlShared g))
        → WhenSome
            (λ r. All (λ u. Unit {0}) r.1 × Counted cfg.num_beams (cfg.num_beams * max_num_ue) r.2)
            o
        → WhenSome
            (λ r. Counted cfg.num_beams (cfg.num_beams * max_num_ue) r.1)
            (second_loop fl nr g cfg env assoc at cell o)
    unfolding second_loop
    second_part max_num_ue cell none h = tt
    second_part max_num_ue cell (some (cs, ues, st)) (plain, c) =
        let limit = cfg.num_beams * max_num_ue in
        let tbl = (reloaded fl nr g cfg env assoc at cell).tbl in
        serve_all_ind fl nr g cfg at assoc tbl (λ st. Counted cfg.num_beams limit st)
          (λ _. Unit {0})
          (λ st w rt h. record { long = h.long; together = h.together; told = h.told }) beams
          (take_blocks-Counted assoc tbl limit) _ ues st plain c

    second_loop-Counted :
        (max_num_ue : ℕ) (n_rb_sched : List ℤ) (cell : UlCell fl nr g)
        → WhenSome
            (λ r. Counted cfg.num_beams (cfg.num_beams * max_num_ue) r.1)
            (second_loop fl nr g cfg env assoc at cell
              (first_loop fl nr g cfg env assoc at max_num_ue n_rb_sched cell))
    unfolding first_loop second_loop
    second_loop-Counted max_num_ue n_rb_sched cell =
        let limit = cfg.num_beams * max_num_ue in
        let I = λ (st : UlShared g). Counted cfg.num_beams limit st in
        let tbl = (reloaded fl nr g cfg env assoc at cell).tbl in
        let begun = begin_pass fl nr g cfg env assoc at max_num_ue n_rb_sched cell in
        let start : Counted cfg.num_beams limit begun = record {
          long = length-replicate cfg.num_beams (pos max_num_ue);
          together = omega (arith, total-replicate cfg.num_beams max_num_ue);
          told = refl;
        } in
        second_part max_num_ue cell (first_loop fl nr g cfg env assoc at max_num_ue n_rb_sched cell)
          (prepare_all_ind fl nr g cfg at I
            (λ st w h. record { long = h.long; together = h.together; told = h.told }) beams
            (λ b r st _ h. settle-Counted limit b r st h)
            (λ b r st in_use _ _ h. resend-Counted limit b r st in_use h) assoc tbl (λ _. Unit {0})
            0 cell.ues begun (All-every cell.ues (λ _. tt)) start)

    agreed_ind :
        (max_num_ue : ℕ) (cell : UlCell fl nr g) (o : Option (List (UlPassUe fl nr) × UlShared g))
        → WhenSome (λ r. Counted cfg.num_beams (cfg.num_beams * max_num_ue) r.1) o
        → WhenSome
            (λ r.
              end_pass fl nr g cfg env assoc at max_num_ue cell o
              ≡ some (
                pos (length r.1.allocations + r.1.resent),
                left_by fl nr g cfg env assoc at cell r,
                r.1,
              ))
            o
    agreed_ind max_num_ue cell none c = tt
    agreed_ind max_num_ue cell (some (ues, st)) c = end_pass_agrees max_num_ue cell ues st c

    -- If the time domain allocation is valid, the slot of the transmission is an uplink slot and no
    -- assertion fails in the loops, the last assertion of `pf_ul` holds, for any number of beams, and
    -- `pf_ul` returns the number of new transmissions and retransmissions of the pass.
    pub pf_ul-Agreed :
        (max_num_ue : ℕ) (n_rb_sched : List ℤ) (cell : UlCell fl nr g)
        → at.tda_info.valid_tda && g.is_ul_slot (target fl nr g cfg at).s ≡ true
        → WhenSome
            (λ r.
              pf_ul fl nr g cfg env assoc at max_num_ue n_rb_sched cell
              ≡ some (
                pos (length r.1.allocations + r.1.resent),
                left_by fl nr g cfg env assoc at cell r,
                r.1,
              ))
            (second_loop fl nr g cfg env assoc at cell
              (first_loop fl nr g cfg env assoc at max_num_ue n_rb_sched cell))
    unfolding pf_ul
    pf_ul-Agreed max_num_ue n_rb_sched cell up =
        rw up (agreed_ind max_num_ue cell _ (second_loop-Counted max_num_ue n_rb_sched cell))
