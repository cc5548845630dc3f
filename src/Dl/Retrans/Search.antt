-- ===== src/Dl/Retrans/Search.antt =====
-- Where `allocate_dl_retransmission` sends a block again.
use user_ric.Prelude.{
  ℕ, zero, suc, ◌+◌, ◌-◌, ◌<◌, ◌≤◌, ◌≡◌, sym, ◌∙◌, inl, inr, Bool, true, false, not, ltb, leb, min,
  Bool-cases, if_ind, if◌then◌else◌, arith,
}
use mathlib.Core.Path.{subst}
use user_ric.Blocks.{skip}
use user_ric.Blocks.Search.{Each-at, not-true, skip_lem}
use user_ric.Dl.Retrans.{Run, find_run}

-- a range of unused blocks from `rb_begin` on that ends in front of `rb_end`
pub record Unused (used : ℕ → Bool) (rb_begin rb_end rb_start rb_size : ℕ) : Type 0 where
  pub behind : rb_begin ≤ rb_start
  pub inside : rb_start + rb_size ≤ rb_end
  pub unused : (rb : ℕ) → rb_start ≤ rb → rb < rb_start + rb_size → used rb ≡ false

-- what the search may return: a range of as many unused blocks as are wanted, or none
pub data Searched (used : ℕ → Bool) (wanted rb_begin rb_end : ℕ) : Run → Type 0 where
  found :
      (rb_start : ℕ)
      → Unused used rb_begin rb_end rb_start wanted
      → Searched used wanted rb_begin rb_end (Run.found rb_start wanted)
  no_resources : Searched used wanted rb_begin rb_end Run.no_resources

-- the blocks that a search passes over
pub run-Unused :
    (used : ℕ → Bool) (rounds start rb_begin rb_end : ℕ)
    → rb_begin ≤ start
    → start + rounds ≤ rb_end
    → Unused used rb_begin rb_end start (skip (λ n. not (used (start + n))) rounds 0)
run-Unused used rounds start rb_begin rb_end b h =
    let unused = λ (n : ℕ). not (used (start + n)) in
    let (n, e, l, each, _) = skip_lem unused rounds 0 in
    let size : skip unused rounds 0 ≡ n = e ∙ omega arith in
    subst (Unused used rb_begin rb_end start) (sym size) (record {
      behind = b;
      inside = omega arith;
      unused = λ rb from to.
          subst (λ k. used k ≡ false) (omega arith)
            (not-true (Each-at unused true 0 n (rb - start) each (omega arith)));
    })

pub run_short :
    (used : ℕ → Bool) (rounds start : ℕ) → skip (λ n. not (used (start + n))) rounds 0 ≤ rounds
run_short used rounds start =
    let (n, e, l, _, _) = skip_lem (λ n. not (used (start + n))) rounds 0 in omega (arith, e, l)

-- a run that begins at an unused block is not empty
run_positive :
    (used : ℕ → Bool) (rounds start : ℕ)
    → 0 < rounds
    → used start ≡ false
    → 0 < skip (λ n. not (used (start + n))) rounds 0
run_positive used rounds start some free =
    let unused = λ (n : ℕ). not (used (start + n)) in
    let (n, e, l, each, last) = skip_lem unused rounds 0 in
    let size : skip unused rounds 0 ≡ n = e ∙ omega arith in
    elim last [
      | inl all ↦ omega (arith, size, all)
      | inr stop ↦ elim (Bool-cases (ltb 0 n)) [
        | inl more ↦ ground (arith, size, more)
        | inr none_left ↦
            let taken : not (used start) ≡ false =
              subst (λ k. not (used k) ≡ false) (ground (arith, none_left)) stop in
            absurd (ground (arith, taken, free))
      ]
    ]

-- With more rounds than there are blocks left, the search ends, and what it finds is unused.
pub find_run-Searched :
    (fuel : ℕ) (used : ℕ → Bool) (wanted rb_begin rb_end rb_start rb_size : ℕ)
    → rb_size ≤ wanted
    → Unused used rb_begin rb_end rb_start rb_size
    → rb_end < rb_start + rb_size + fuel
    → Searched used wanted rb_begin rb_end (find_run fuel used wanted rb_end rb_start rb_size)
unfolding find_run
find_run-Searched zero used wanted rb_begin rb_end rb_start rb_size few u enough =
    absurd (omega (arith, u.inside))
find_run-Searched (suc fuel) used wanted rb_begin rb_end rb_start rb_size few u enough =
    let from = rb_start + rb_size in
    let start = skip used (rb_end - 1 - from) from in
    let size = skip (λ n. not (used (start + n))) (min (rb_end - start) wanted) 0 in
    let next = find_run fuel used wanted rb_end start size in
    if_ind (Searched used wanted rb_begin rb_end) (ltb rb_size wanted)
      (if leb rb_end (start + 1) then Run.no_resources else next) (Run.found rb_start rb_size)
      (λ short.
        if_ind (Searched used wanted rb_begin rb_end) (leb rb_end (start + 1)) Run.no_resources next
          (λ _. Searched.no_resources)
          (λ room.
            let (n, e, l, each, last) = skip_lem used (rb_end - 1 - from) from in
            let before_end : start + 1 < rb_end = ground (arith, room) in
            let free : used start ≡ false = elim last [
              | inl all ↦ absurd (omega (arith, e, all, before_end))
              | inr stop ↦ subst (λ k. used k ≡ false) (sym e) stop
            ] in
            let some_wanted : 0 < wanted = ground (arith, short) in
            let rounds = min (rb_end - start) wanted in
            let u' =
              run-Unused used rounds start rb_begin rb_end (omega (arith, e, u.behind))
                (omega arith) in
            let positive = run_positive used rounds start (omega arith) free in
            let capped = run_short used rounds start in
            find_run-Searched fuel used wanted rb_begin rb_end start size (omega (arith, capped)) u'
              (omega (arith, positive, e, enough))))
      (λ long.
        let all : rb_size ≡ wanted = ground (arith, long, few) in
        subst (λ k. Searched used wanted rb_begin rb_end (Run.found rb_start k)) (sym all)
          (Searched.found rb_start (subst (Unused used rb_begin rb_end rb_start) all u)))
