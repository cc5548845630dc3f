-- ===== src/Tda/Best.antt =====
-- The allocation that `get_best_ul_tda` returns has the highest score.
use user_ric.Prelude.{
  ℕ, suc, ◌+◌, ◌≤◌, ◌≡◌, refl, sym, ap, ◌∙◌, ◌⊎◌, inl, inr, true, false, List, [], ◌∷◌, some,
  if◌then◌else◌, ltb, Bool-cases, arith, get_elem?, All,
}
use mathlib.Core.Path.{subst}
use user_ric.Tda.{TdaInfo, Choice, range_of, score_of, choose, get_best_ul_tda}

module _ (sl_to_bitmap : ℕ → ℕ → ℕ) (vrb_map_ul ulprbbl : List ℕ) (rb_start rb_len : ℕ) where
  abbrev pub score : TdaInfo → ℕ
  score = score_of sl_to_bitmap vrb_map_ul ulprbbl rb_start rb_len

  abbrev pub range : TdaInfo → ℕ × ℕ
  range = range_of sl_to_bitmap vrb_map_ul ulprbbl rb_start rb_len

  -- a choice is that of an allocation of the list
  abbrev pub Chosen : List TdaInfo → ℕ → Choice → Type 0
  Chosen ts i c =
      (t : TdaInfo) × (k : ℕ) × (get_elem? ts k ≡ some t)
      × (c.best_tda ≡ i + k)
      × (c.score ≡ score t)
      × (c.rb_start ≡ (range t).0)
      × (c.rb_len ≡ (range t).1)

  -- what the loop makes of a choice
  abbrev Ends : List TdaInfo → ℕ → Choice → Choice → Type 0
  Ends ts i c c' =
      All (λ t. score t ≤ c'.score) ts × (c.score ≤ c'.score) × ((c' ≡ c) ⊎ Chosen ts i c')

  Chosen-later :
      (t : TdaInfo) (ts : List TdaInfo) (i : ℕ) (c : Choice)
      → Chosen ts (suc i) c
      → Chosen (t ∷ ts) i c
  Chosen-later t ts i c (u, k, at_k, best, a, b, d) = (u, suc k, at_k, best ∙ omega arith, a, b, d)

  Ends-better :
      (t : TdaInfo) (ts : List TdaInfo) (i : ℕ) (c new c' : Choice)
      → new ≡ record { best_tda = i; score = score t; rb_start = (range t).0; rb_len = (range t).1 }
      → ltb c.score (score t) ≡ true
      → Ends ts (suc i) new c'
      → Ends (t ∷ ts) i c c'
  Ends-better t ts i c new c' e better (all, more, which) =
      let size : new.score ≡ score t = ap (λ d. d.score) e in
      (
        (omega (arith, more, size), all),
        ground (arith, better, more, size),
        elim which [
          | inr chosen ↦ inr (Chosen-later t ts i c' chosen)
          | inl same ↦ inr (
            t,
            0,
            refl,
            ap (λ d. d.best_tda) (same ∙ e) ∙ omega arith,
            ap (λ d. d.score) (same ∙ e),
            ap (λ d. d.rb_start) (same ∙ e),
            ap (λ d. d.rb_len) (same ∙ e),
          )
        ],
      )

  Ends-worse :
      (t : TdaInfo) (ts : List TdaInfo) (i : ℕ) (c c' : Choice)
      → ltb c.score (score t) ≡ false
      → Ends ts (suc i) c c'
      → Ends (t ∷ ts) i c c'
  Ends-worse t ts i c c' worse (all, more, which) = (
    (ground (arith, worse, more), all),
    more,
    elim which [ inl same ↦ inl same | inr chosen ↦ inr (Chosen-later t ts i c' chosen) ],
  )

  choose_lem :
      (ts : List TdaInfo) (i : ℕ) (c : Choice)
      → Ends ts i c (choose sl_to_bitmap vrb_map_ul ulprbbl rb_start rb_len i ts c)
  unfolding choose
  choose_lem [] i c = (tt, omega arith, inl refl)
  choose_lem (t ∷ ts) i c = elim (Bool-cases (ltb c.score (score t))) [
    | inl better ↦
        let new : Choice = record {
          best_tda = i;
          score = score t;
          rb_start = (range t).0;
          rb_len = (range t).1;
        } in
        let e : (if ltb c.score (score t) then new else c) ≡ new = rw better refl in
        subst
          (λ d.
            Ends (t ∷ ts) i c (choose sl_to_bitmap vrb_map_ul ulprbbl rb_start rb_len (suc i) ts d))
          (sym e) (Ends-better t ts i c new _ refl better (choose_lem ts (suc i) new))
    | inr worse ↦
        let new : Choice = record {
          best_tda = i;
          score = score t;
          rb_start = (range t).0;
          rb_len = (range t).1;
        } in
        let e : (if ltb c.score (score t) then new else c) ≡ c = rw worse refl in
        subst
          (λ d.
            Ends (t ∷ ts) i c (choose sl_to_bitmap vrb_map_ul ulprbbl rb_start rb_len (suc i) ts d))
          (sym e) (Ends-worse t ts i c _ worse (choose_lem ts (suc i) c))
  ]

  -- No allocation of the list has a higher score, symbols times free blocks, than the one returned.
  -- It is one of the list, with its longest free range; or every score is 0, and the first one is
  -- returned with the range that was searched.
  pub get_best_ul_tda_highest :
      (ts : List TdaInfo)
      → let c = get_best_ul_tda sl_to_bitmap vrb_map_ul ulprbbl rb_start rb_len ts in
        All (λ t. score t ≤ c.score) ts
        × (((c.best_tda ≡ 0) × (c.score ≡ 0) × (c.rb_start ≡ rb_start) × (c.rb_len ≡ rb_len))
            ⊎ Chosen ts 0 c)
  unfolding get_best_ul_tda
  get_best_ul_tda_highest ts =
      let begin : Choice = record {
        best_tda = 0;
        score = 0;
        rb_start = rb_start;
        rb_len = rb_len;
      } in
      let (all, _, which) = choose_lem ts 0 begin in
      (
        all,
        elim which [
          | inl same ↦ inl (
            ap (λ d. d.best_tda) same,
            ap (λ d. d.score) same,
            ap (λ d. d.rb_start) same,
            ap (λ d. d.rb_len) same,
          )
          | inr chosen ↦ inr chosen
        ],
      )
