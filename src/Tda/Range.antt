-- ===== src/Tda/Range.antt =====
-- The range that `get_max_rb_range` returns is a longest run of free blocks.
use user_ric.Prelude.{
  ℕ, zero, suc, ◌+◌, ◌-◌, ◌<◌, ◌≤◌, ◌≡◌, inl, inr, Bool, true, false, List, ltb, Bool-cases, arith,
  max,
}
use mathlib.Core.Path.{subst}
use user_ric.Tda.{Runs, blocked, keep_best, visit, visit_all, get_max_rb_range}

-- every block of a run is free
abbrev pub Free : (ℕ → Bool) → ℕ → ℕ → Type 0
Free taken a n = (j : ℕ) → a ≤ j → j < a + n → taken j ≡ false

module _ (taken : ℕ → Bool) (start : ℕ) where
  -- what holds in front of block `rb`
  record Inv (rb : ℕ) (r : Runs) : Type 0 where
    pub best : (start ≤ r.best_start) × (r.best_start + r.best_len ≤ rb)
    pub best_free : Free taken r.best_start r.best_len
    pub current : (start ≤ r.current_start) × (r.current_start + r.current_len ≡ rb)
    pub current_free : Free taken r.current_start r.current_len
    pub longest :
        (a n : ℕ) → start ≤ a → a + n ≤ rb → Free taken a n → n ≤ max r.best_len r.current_len
    pub ending : (a n : ℕ) → start ≤ a → a + n ≡ rb → Free taken a n → n ≤ r.current_len

  -- a run without its last block
  shorter : (a n : ℕ) → Free taken a (suc n) → Free taken a n
  shorter a n f j l u = f j l (omega arith)

  -- A run that ends at a free block ends the current run.
  ending_extended :
      (rb : ℕ) (r : Runs)
      → Inv rb r
      → (a n : ℕ) → start ≤ a
      → a + n ≡ suc rb
      → Free taken a n
      → n ≤ r.current_len + 1
  ending_extended rb r v a zero l e f = omega arith
  ending_extended rb r v a (suc n) l e f =
      omega (arith, v.ending a n l (omega arith) (shorter a n f))

  -- A run cannot end at a block that is taken, unless it is empty.
  ending_empty : (rb : ℕ) (a n : ℕ) → taken rb ≡ true → a + n ≡ suc rb → Free taken a n → n ≤ 0
  ending_empty rb a zero h e f = omega arith
  ending_empty rb a (suc n) h e f = absurd (ground (arith, h, f rb (omega arith) (omega arith)))

  visit-Inv_unblocked :
      (rb : ℕ) (r : Runs) → taken rb ≡ false → Inv rb r → Inv (suc rb) (visit false rb r)
  unfolding visit
  visit-Inv_unblocked rb r h v = record {
    best = (v.best.0, omega (arith, v.best));
    best_free = v.best_free;
    current = (v.current.0, omega (arith, v.current));
    current_free = λ j l u. elim (Bool-cases (ltb j rb)) [
      | inl old ↦ v.current_free j l (ground (arith, old, v.current))
      | inr new ↦ subst (λ k. taken k ≡ false) (ground (arith, new, u, v.current)) h
    ];
    longest = λ a n l u f. elim (Bool-cases (ltb (a + n) (suc rb))) [
      | inl old ↦ omega (arith, v.longest a n l (ground (arith, old)) f)
      | inr new ↦ omega (arith, ending_extended rb r v a n l (ground (arith, new, u)) f)
    ];
    ending = ending_extended rb r v;
  }

  keep_best-Inv :
      (rb : ℕ) (r : Runs)
      → Inv rb r
      → (start ≤ (keep_best r).best_start)
        × ((keep_best r).best_start + (keep_best r).best_len ≤ rb)
        × Free taken (keep_best r).best_start (keep_best r).best_len
        × (max r.best_len r.current_len ≤ (keep_best r).best_len)
  keep_best-Inv rb r v = elim (Bool-cases (ltb r.best_len r.current_len)) [
    | inl better ↦
        rw better (v.current.0, omega (arith, v.current), v.current_free, ground (arith, better))
    | inr worse ↦ rw worse (v.best.0, v.best.1, v.best_free, ground (arith, worse))
  ]

  visit-Inv_blocked :
      (rb : ℕ) (r : Runs) → start ≤ rb → taken rb ≡ true → Inv rb r → Inv (suc rb) (visit true rb r)
  unfolding visit
  visit-Inv_blocked rb r s h v =
      let (a0, b0, f0, m0) = keep_best-Inv rb r v in
      record {
        best = (a0, omega (arith, b0));
        best_free = f0;
        current = (omega arith, omega arith);
        current_free = λ j l u. absurd (omega arith);
        longest = λ a n l u f. elim (Bool-cases (ltb (a + n) (suc rb))) [
          | inl old ↦ omega (arith, v.longest a n l (ground (arith, old)) f, m0)
          | inr new ↦ omega (arith, ending_empty rb a n h (ground (arith, new, u)) f)
        ];
        ending = λ a n l e f. ending_empty rb a n h e f;
      }

  visit_all-Inv :
      (rounds rb : ℕ) (r : Runs)
      → start ≤ rb
      → Inv rb r
      → Inv (rb + rounds) (visit_all taken rounds rb r)
  unfolding visit_all
  visit_all-Inv zero rb r s v = subst (λ k. Inv k r) (omega arith) v
  visit_all-Inv (suc rounds) rb r s v =
      let next : Inv (suc rb) (visit (taken rb) rb r) = elim (Bool-cases (taken rb)) [
        | inl h ↦ rw h (visit-Inv_blocked rb r s h v)
        | inr h ↦ rw h (visit-Inv_unblocked rb r h v)
      ] in
      subst (λ k. Inv k (visit_all taken rounds (suc rb) (visit (taken rb) rb r))) (omega arith)
        (visit_all-Inv rounds (suc rb) _ (omega arith) next)

-- Given the first block and the end of a part of the band, the range returned is a longest run of
-- free blocks of that part: it lies in it, its blocks are free, and no run of free blocks of the part
-- is longer. A part without a free block gives length 0.
pub get_max_rb_range_longest :
    (vrb_map_ul ulprbbl : List ℕ) (mask start stop : ℕ)
    → start ≤ stop
    → let r = get_max_rb_range vrb_map_ul ulprbbl mask start stop in
      let taken = blocked vrb_map_ul ulprbbl mask in
      (start ≤ r.0)
      × (r.0 + r.1 ≤ stop)
      × Free taken r.0 r.1
      × ((a n : ℕ) → start ≤ a → a + n ≤ stop → Free taken a n → n ≤ r.1)
unfolding get_max_rb_range
get_max_rb_range_longest vrb_map_ul ulprbbl mask start stop h =
    let taken = blocked vrb_map_ul ulprbbl mask in
    let begin : Runs = record {
      best_start = start;
      best_len = 0;
      current_start = start;
      current_len = 0;
    } in
    let v0 : Inv taken start start begin = record {
      best = (omega arith, omega arith);
      best_free = λ j l u. absurd (omega arith);
      current = (omega arith, omega arith);
      current_free = λ j l u. absurd (omega arith);
      longest = λ a n l u f. omega arith;
      ending = λ a n l e f. omega arith;
    } in
    let v = visit_all-Inv taken start (stop - start) start begin (omega arith) v0 in
    let (a, b, f, m) = keep_best-Inv taken start _ _ v in
    (
      a,
      omega (arith, b, h),
      f,
      λ a n l u g. omega (arith, v.longest a n l (omega (arith, u, h)) g, m),
    )
