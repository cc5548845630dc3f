-- ===== src/Tx/Grant/Lists.antt =====
-- A grant moves a HARQ process between the lists of its UE.
use user_ric.Prelude.{
  ℕ, ◌+◌, ◌<◌, ◌≡◌, refl, sym, ◌∙◌, List, [], ◌∷◌, Option, none, some, if◌then◌else◌, ◌==◌, arith,
  get_elem?, Bool-cases, inl, inr, Option-cases,
}
use mathlib.Core.Option.{some-injective, none-ne-some}
use user_ric.Prelude.Slots.{count}
use user_ric.Harq.{NrList}
use user_ric.Harq.Lists.{NrListLaws, first, tail, without, occurs, occurs-add_tail}
use user_ric.Dl.Serve.Rule.{WhenSome}
use user_ric.Tx.Grant.{
  DlProcess, DlHarq, SchedPucch, take_process, await_feedback, finish_nr_dl_harq,
}

one_out :
    (q x : ℕ) (xs : List ℕ)
    → 0 < count (λ y. y == x) xs
    → count (λ y. y == q) (without x xs) + (if x == q then 1 else 0) ≡ count (λ y. y == q) xs
unfolding count
one_out q x [] h = absurd (omega (arith, h))
one_out q x (y ∷ ys) h = elim (Bool-cases (y == x)) [
  | inl same ↦ rw same (ground (arith, same))
  | inr other ↦
      let rest = one_out q x ys (ground (arith, other, h)) in rw other (omega (arith, rest))
]

first_out :
    (q x : ℕ) (xs : List ℕ)
    → first xs ≡ some x
    → count (λ y. y == q) (tail xs) + (if x == q then 1 else 0) ≡ count (λ y. y == q) xs
unfolding count
first_out q x [] h = absurd (none-ne-some _ h)
first_out q x (y ∷ ys) h = ground (arith, some-injective _ _ h)

module _ {nr : NrList} (laws : NrListLaws nr) where
  -- how often a process stands in the three lists
  abbrev pub tally : ℕ → DlHarq nr → ℕ
  tally q h =
      occurs laws q h.available_dl_harq
      + occurs laws q h.feedback_dl_harq
      + occurs laws q h.retrans_dl_harq

  -- The process of a grant, if it names one, is in the list for its round.
  abbrev pub IsListed : Option ℕ → DlHarq nr → Type 0
  IsListed none h = Unit
  IsListed (some pid) h =
      (p : DlProcess)
      → get_elem? h.harq_processes pid ≡ some p
      → 0 < occurs laws pid (if p.round == 0 then h.available_dl_harq else h.retrans_dl_harq)

  -- one process is out of the lists
  abbrev pub Out : DlHarq nr → ℕ × DlHarq nr → Type 0
  Out h (pid, h1) = (q : ℕ) → tally q h1 + (if pid == q then 1 else 0) ≡ tally q h

  -- A process that is in the list is taken out of it once.
  removed_by :
      (x : ℕ) (l : nr.L)
      → 0 < occurs laws x l
      → (l' : nr.L) × (nr.remove l x ≡ some l')
        × ((q : ℕ) → occurs laws q l' + (if x == q then 1 else 0) ≡ occurs laws q l)
  removed_by x l h =
      let (l', e, c) = laws.remove-some l x h in
      (l', e, λ q. rw c (one_out q x (laws.contents l) h))

  with_head :
      (h : DlHarq nr) (o : Option ℕ)
      → nr.head h.available_dl_harq ≡ o
      → WhenSome (Out h) (elim o as (λ _. Option (ℕ × DlHarq nr)) [
        | none ↦ none
        | some pid ↦
            some (pid, record h { available_dl_harq = nr.remove_front h.available_dl_harq })
      ])
  with_head h none e = tt
  with_head h (some pid) e = λ q.
      let l = h.available_dl_harq in
      let moved = first_out q pid (laws.contents l) (sym (laws.head-contents l) ∙ e) in
      rw (laws.contents-remove_front l) (omega (arith, moved))

  pub take_process-Out :
      (o : Option ℕ) (h : DlHarq nr) → IsListed o h → WhenSome (Out h) (take_process o h)
  unfolding take_process
  take_process-Out none h listed = with_head h _ refl
  take_process-Out (some pid) h listed = elim (Option-cases (get_elem? h.harq_processes pid)) [
    | inl n ↦ rw (WhenSome, n) tt
    | inr (p, e) ↦
        rw (WhenSome, e)
          (elim (Bool-cases (p.round == 0)) [
            | inl new ↦
                let (l', e', gone) = removed_by pid h.available_dl_harq (rw new at (listed p e)) in
                rw (new, e') (λ q. omega (arith, gone q))
            | inr old ↦
                let (l', e', gone) = removed_by pid h.retrans_dl_harq (rw old at (listed p e)) in
                rw (old, e') (λ q. omega (arith, gone q))
          ])
  ]

  -- one process is in a list again
  abbrev pub Back : ℕ → DlHarq nr → DlHarq nr → Type 0
  Back pid h h1 = (q : ℕ) → tally q h1 ≡ tally q h + (if pid == q then 1 else 0)

  pub await_feedback-Back :
      (sched_pucch : List SchedPucch) (o : Option ℕ) (pid : ℕ) (h : DlHarq nr)
      → WhenSome (Back pid h) (await_feedback sched_pucch o pid h)
  unfolding await_feedback finish_nr_dl_harq
  await_feedback-Back sched_pucch none pid h =
      λ q. omega (arith, occurs-add_tail laws q pid h.available_dl_harq)
  await_feedback-Back sched_pucch (some i) pid h = elim (Option-cases (get_elem? sched_pucch i)) [
    | inl n ↦ rw (WhenSome, n) tt
    | inr (pucch, e) ↦
        rw (WhenSome, e) (λ q. omega (arith, occurs-add_tail laws q pid h.feedback_dl_harq))
  ]
