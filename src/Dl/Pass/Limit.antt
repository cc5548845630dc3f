-- ===== src/Dl/Pass/Limit.antt =====
-- How many UEs a pass of `pf_dl` schedules.
use user_ric.Prelude.{
  ℕ, zero, suc, ◌+◌, ◌-◌, ◌<◌, ◌≡◌, sym, ◌∙◌, ap, false, List, [], ◌∷◌, Option, some, length,
  get_or, All-every, replicate, arith,
}
use user_ric.Prelude.Int.{ℤ, pos, ◌+ℤ◌, ◌-ℤ◌, eqb_ℤ}
use user_ric.Prelude.Float.{Float}
use user_ric.Prelude.Slots.{modify}
use mathlib.Core.Path.{subst}
use user_ric.Slice.Assoc.{AssocEntry}
use user_ric.Slice.Runtime.{RuntimeEntry}
use user_ric.UeDl.{DlEntry}
use user_ric.UeDl.Reload.{Environment}
use user_ric.Blocks.{Allocation}
use user_ric.Dl.{BwpInfo, SchedPdsch, DlUe, Gnb, DlConfig, Shared}
use user_ric.Dl.Retrans.{send_again}
use user_ric.Dl.Prepare.{total}
use user_ric.Dl.Prepare.Rule.{prepare_all_ind}
use user_ric.Dl.Serve.{make_grant}
use user_ric.Dl.Serve.Rule.{WhenSome, MayGrant, range_for, serve_all_ind}
use user_ric.Dl.Pass.{DlCell, reloaded, begin_pass, first_loop, second_loop, pf_dl}
use user_ric.Dl.Pass.Rule.{end_pass-cases}

-- What is left of the limit for the only beam, the new transmissions and the retransmissions are the
-- limit together.
pub record Within (most : ℕ) (remain_ues : List ℤ) (allocations : List Allocation) (resent : ℕ)
    : Type 0 where
  pub left : ℕ
  pub remain_left : remain_ues ≡ pos left ∷ []
  pub together : left + (length allocations + resent) ≡ most

-- one more UE, while some are left
count_down :
    (most : ℕ) (remain_ues : List ℤ) (done : List Allocation) (resent b : ℕ) (made : Allocation)
    → b < 1
    → eqb_ℤ (get_or remain_ues b (pos 0)) (pos 0) ≡ false
    → Within most remain_ues done resent
    → Within most (modify remain_ues b (λ n. n -ℤ pos 1)) done (resent + 1)
      × Within most (modify remain_ues b (λ n. n -ℤ pos 1)) (made ∷ done) resent
count_down most remain_ues done resent zero made only some_left w =
    let now = subst (λ r. eqb_ℤ (get_or r 0 (pos 0)) (pos 0) ≡ false) w.remain_left some_left in
    let positive : 0 < w.left = ground (arith, now) in
    let less : pos w.left -ℤ pos 1 ≡ pos (w.left - 1) = unfold ◌-ℤ◌ in ground (arith, positive) in
    let after : modify remain_ues 0 (λ n. n -ℤ pos 1) ≡ pos (w.left - 1) ∷ [] =
      ap (λ (r : List ℤ). modify r 0 (λ n. n -ℤ pos 1)) w.remain_left
      ∙ (unfold modify in ap (λ z. z ∷ []) less) in
    let fits = w.together in
    (
      record { left = w.left - 1; remain_left = after; together = omega arith },
      record { left = w.left - 1; remain_left = after; together = omega arith },
    )
count_down most remain_ues done resent (suc b) made only some_left w = absurd (omega arith)

total_one :
    (most : ℕ) (remain_ues : List ℤ) (done : List Allocation) (resent : ℕ)
    → Within most remain_ues done resent
    → total remain_ues ≡ get_or remain_ues 0 (pos 0)
unfolding total ◌+ℤ◌
total_one most remain_ues done resent w =
    subst (λ r. total r ≡ get_or r 0 (pos 0)) (sym w.remain_left) (ground arith)

module _ (fl : Float) (g : Gnb) (cfg : DlConfig) (env : Environment) (assoc : List AssocEntry)
    (runtime : List RuntimeEntry) (frame slot : ℕ) (one_beam : cfg.num_beams ≡ 1)
    (beams : (w : g.W) (i b : ℕ)
      → (g.beam_allocation_procedure w frame slot i).0.idx ≡ some b
      → b < cfg.num_beams) where
  send_again-Within :
      (most b : ℕ) (bwp : BwpInfo) (rb_start : ℕ) (ret : SchedPdsch) (alloc : Option ℕ) (cce : ℕ)
      (ue : DlUe fl) (st : Shared g)
      → b < cfg.num_beams
      → eqb_ℤ (total st.remain_ues) (pos 0) ≡ false
      → Within most st.remain_ues st.allocations st.resent
      → let st1 = (send_again fl g cfg frame slot b bwp rb_start ret alloc cce ue st).1 in
        Within most (modify st1.remain_ues b (λ n. n -ℤ pos 1)) st1.allocations (st1.resent + 1)
  unfolding send_again
  send_again-Within most zero bwp rb_start ret alloc cce ue st in_use left w =
      (count_down most st.remain_ues st.allocations st.resent 0
        (record { beam = 0; slbitmap = 0; first_rb = 0; rb_count = 0 }) (omega arith)
        (subst (λ k. eqb_ℤ k (pos 0) ≡ false)
          (total_one most st.remain_ues st.allocations st.resent w) left)
        w).0
  send_again-Within most (suc b) bwp rb_start ret alloc cce ue st in_use left w =
      absurd (omega (arith, one_beam, in_use))

  make_grant-Within :
      (tbl : List (DlEntry fl)) (most b : ℕ) (ue : DlUe fl) (st : Shared g) (cce : ℕ)
      (alloc : Option ℕ)
      → Unit {0}
      → MayGrant fl g cfg assoc tbl frame slot b ue st
      → Within most st.remain_ues st.allocations st.resent
      → let st' =
          (make_grant fl g cfg assoc tbl frame slot b
            (range_for fl g cfg assoc tbl frame slot b ue st)
            cce
            alloc
            ue
            st).1 in
        Within most st'.remain_ues st'.allocations st'.resent
  unfolding make_grant
  make_grant-Within tbl most b ue st cce alloc q may w =
      (count_down most st.remain_ues st.allocations st.resent b _
        (omega (arith, may.beam_in_use, one_beam)) may.some_left w).1

  -- With one beam, numbered 0, a pass of `pf_dl` in which no assertion fails schedules at most
  -- `max_num_ue` UEs: what is left of the limit is not negative, and it is the limit less the new
  -- transmissions and the retransmissions of the pass.
  pub pf_dl-Within :
      (max_num_ue : ℕ) (n_rb_sched : List ℤ) (cell : DlCell fl g)
      → WhenSome
          (λ r. Within max_num_ue r.1.remain_ues r.1.allocations r.1.resent)
          (pf_dl fl g cfg env assoc runtime frame slot max_num_ue n_rb_sched cell)
  unfolding pf_dl first_loop second_loop
  pf_dl-Within max_num_ue n_rb_sched cell =
      let I = λ (st : Shared g). Within max_num_ue st.remain_ues st.allocations st.resent in
      let tbl = (reloaded fl g cfg env assoc runtime frame slot cell).tbl in
      let start : Within max_num_ue (replicate cfg.num_beams (pos max_num_ue)) [] 0 = record {
        left = max_num_ue;
        remain_left = ap (λ n. replicate n (pos max_num_ue)) one_beam;
        together = omega arith;
      } in
      let (plain, w) =
        prepare_all_ind fl g cfg frame slot I (λ _ _ h. h) beams (send_again-Within max_num_ue)
          assoc runtime tbl (λ _. Unit {0}) 0 cell.ues
          (begin_pass fl g cfg env assoc runtime frame slot max_num_ue n_rb_sched cell)
          (All-every cell.ues (λ _. tt)) start in
      let r = first_loop fl g cfg env assoc runtime frame slot max_num_ue n_rb_sched cell in
      end_pass-cases fl g cfg env assoc runtime frame slot I cell
        (second_loop fl g cfg env assoc runtime frame slot cell r)
        (serve_all_ind fl g cfg assoc tbl frame slot I (λ _. Unit {0}) (λ _ _ h. h) beams
          (make_grant-Within tbl max_num_ue) _ r.1 r.2 plain w)
