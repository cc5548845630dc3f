-- ===== src/Blocks/Search.antt =====
-- What the searches for free blocks return.
use user_ric.Prelude.{
  ℕ, zero, suc, ◌+◌, ◌-◌, ◌<◌, ◌≤◌, ◌≡◌, refl, ◌∙◌, ◌⊎◌, inl, inr, Bool, true, false, not, List,
  ltb, Bool-cases, arith, min, get_or,
}
use Prim.Native.Nat.{bit_and}
use mathlib.Core.Path.{subst}
use user_ric.Blocks.{busy, skip, dl_free_range, ul_free_range}

pair_eq : {a b c d : ℕ} → a ≡ b → c ≡ d → ◌≡◌ {A = ℕ × ℕ} (a, c) (b, d)
pair_eq p q = λ i. (p i, q i)

-- the test has this result for each of the `n` blocks from `rb` on
abbrev pub Each : (ℕ → Bool) → Bool → ℕ → ℕ → Type 0
Each test b rb zero = Unit
Each test b rb (suc n) = (test rb ≡ b) × Each test b (suc rb) n

-- Each, one block at a time
pub Each-at :
    (test : ℕ → Bool) (b : Bool) (rb n j : ℕ) → Each test b rb n → j < n → test (rb + j) ≡ b
Each-at test b rb zero j h l = absurd (omega arith)
Each-at test b rb (suc n) zero h l = subst (λ k. test k ≡ b) (omega arith) h.0
Each-at test b rb (suc n) (suc j) h l =
    subst (λ k. test k ≡ b) (omega arith) (Each-at test b (suc rb) n j h.1 (omega arith))

at_eq : (test : ℕ → Bool) {a b : ℕ} {v : Bool} → a ≡ b → test a ≡ v → test b ≡ v
at_eq test {v = v} e h = subst (λ k. test k ≡ v) e h

pub not-true : {b : Bool} → not b ≡ true → b ≡ false
not-true {b} h = ground (arith, h)

-- a block that is not in use has no symbol of the mask in use
pub free_word :
    (m : List ℕ) (slbitmap rb : ℕ)
    → busy m slbitmap rb ≡ false
    → bit_and (get_or m rb 0) slbitmap ≡ 0
unfolding busy
free_word m slbitmap rb h = ground (arith, h)

not-false : {b : Bool} → not b ≡ false → b ≡ true
not-false {b} h = ground (arith, h)

-- A search passes over blocks that pass the test, and stops at one that fails or at its end.
pub skip_lem :
    (test : ℕ → Bool) (rounds rb : ℕ)
    → (n : ℕ) × (skip test rounds rb ≡ rb + n)
      × (n ≤ rounds)
      × Each test true rb n
      × ((n ≡ rounds) ⊎ (test (rb + n) ≡ false))
unfolding skip
skip_lem test zero rb = (0, omega arith, omega arith, tt, inl refl)
skip_lem test (suc rounds) rb = elim (Bool-cases (test rb)) [
  | inr stop ↦ (
    0,
    rw stop (omega arith),
    omega arith,
    tt,
    inr (subst (λ k. test k ≡ false) (omega arith) stop),
  )
  | inl go ↦
      let (n, e, l, each, last) = skip_lem test rounds (suc rb) in
      (
        suc n,
        rw go (e ∙ omega arith),
        omega arith,
        (go, each),
        elim last [
          | inl all ↦ inl (omega arith)
          | inr stop ↦ inr (subst (λ k. test k ≡ false) (omega arith) stop)
        ],
      )
]

-- The range that the downlink search finds in a part of the band that is not empty.
pub record DlRange (vrb_map : List ℕ) (slbitmap bwp_start bwp_size start size : ℕ) : Type 0 where
  pub inside : (0 < size) × (start + size ≤ bwp_size)
  -- every block in front of the range is in use, and every block behind its first one is free
  pub before : Each (λ rb. busy vrb_map slbitmap (rb + bwp_start)) true 0 start
  pub free : Each (λ rb. not (busy vrb_map slbitmap (rb + bwp_start))) true (start + 1) (size - 1)
  -- the first block is free, unless it is the last one of the band part
  pub first :
      (busy vrb_map slbitmap (start + bwp_start) ≡ false) ⊎ ((start + 1 ≡ bwp_size) × (size ≡ 1))
  -- the range cannot be extended
  pub maximal :
      (start + size ≡ bwp_size) ⊎ (busy vrb_map slbitmap (start + size + bwp_start) ≡ true)

-- The downlink search returns the first run of free blocks, as long as it goes. If all blocks but
-- perhaps the last are in use, it returns the last block, free or not.
pub dl_free_range-DlRange :
    (vrb_map : List ℕ) (slbitmap bwp_start bwp_size : ℕ)
    → 0 < bwp_size
    → let r = dl_free_range vrb_map slbitmap bwp_start bwp_size in
      DlRange vrb_map slbitmap bwp_start bwp_size r.0 r.1
unfolding dl_free_range
dl_free_range-DlRange vrb_map slbitmap bwp_start bwp_size h =
    let used = λ (rb : ℕ). busy vrb_map slbitmap (rb + bwp_start) in
    let (s, es, ls, each, last) = skip_lem used (bwp_size - 1) 0 in
    let unused = λ (rb : ℕ). not (busy vrb_map slbitmap (rb + bwp_start)) in
    let (n, en, ln, each', last') = skip_lem unused (bwp_size - 1 - s) (s + 1) in
    let start : skip used (bwp_size - 1) 0 ≡ s = es ∙ omega arith in
    let size : skip unused (bwp_size - 1 - s) (s + 1) - s ≡ suc n = rw en (omega arith) in
    let less : suc n - 1 ≡ n = omega arith in
    rw start (
      rw size (record {
        inside = omega arith;
        before = each;
        free = rw less each';
        first = elim last [
          | inr stop ↦ inl (at_eq used (omega arith) stop)
          | inl all ↦ inr (omega arith, omega arith)
        ];
        maximal = elim last' [
          | inl all ↦ inl (omega arith)
          | inr stop ↦ inr (at_eq used (omega arith) (not-false stop))
        ];
      }))

-- The range that the uplink search finds.
pub record UlRange (vrb_map : List ℕ) (slbitmap bwp_start bwp_size most start size : ℕ)
    : Type 0 where
  -- every block in front of the range is in use, and every block behind its first one is free
  pub before : Each (λ rb. busy vrb_map slbitmap (rb + bwp_start)) true 0 start
  pub free : Each (λ n. not (busy vrb_map slbitmap (start + n + bwp_start))) true 1 (size - 1)
  -- the first block is free, unless the range lies behind the band part
  pub first :
      ((busy vrb_map slbitmap (start + bwp_start) ≡ false) × (start + size ≤ bwp_size))
      ⊎ ((start ≡ bwp_size) × (size ≡ 1))
  -- the range cannot be extended
  pub maximal :
      (bwp_size ≤ start + size)
      ⊎ (most ≤ size)
      ⊎ (busy vrb_map slbitmap (start + size + bwp_start) ≡ true)

fits :
    (s n bwp_size most : ℕ)
    → s < bwp_size
    → n ≤ min (bwp_size - s - 1) (most - 1)
    → s + suc n ≤ bwp_size
fits s n bwp_size most h l = omega arith

ends :
    (s n bwp_size most : ℕ)
    → n ≡ min (bwp_size - s - 1) (most - 1)
    → (bwp_size ≤ s + suc n) ⊎ (most ≤ suc n)
ends s n bwp_size most e = grind arith

pub ul_free_range-UlRange :
    (vrb_map : List ℕ) (slbitmap bwp_start bwp_size most : ℕ)
    → let r = ul_free_range vrb_map slbitmap bwp_start bwp_size most in
      UlRange vrb_map slbitmap bwp_start bwp_size most r.0 r.1
unfolding ul_free_range
ul_free_range-UlRange vrb_map slbitmap bwp_start bwp_size most =
    let used = λ (rb : ℕ). busy vrb_map slbitmap (rb + bwp_start) in
    let (s, es, ls, each, last) = skip_lem used bwp_size 0 in
    let unused = λ (n : ℕ). not (busy vrb_map slbitmap (s + n + bwp_start)) in
    let rounds = min (bwp_size - s - 1) (most - 1) in
    let (n, en, ln, each', last') = skip_lem unused rounds 1 in
    let start : skip used bwp_size 0 ≡ s = es ∙ omega arith in
    let size : skip unused rounds 1 ≡ suc n = en ∙ omega arith in
    let less : suc n - 1 ≡ n = omega arith in
    rw start (
      rw size (record {
        before = each;
        free = rw less each';
        first = elim last [
          | inr stop ↦ elim (Bool-cases (ltb s bwp_size)) [
            | inl room ↦
                inl
                  (at_eq used (omega arith) stop, fits s n bwp_size most (ground (arith, room)) ln)
            | inr none_left ↦ inr (ground (arith, none_left, ls), ground (arith, none_left, ln))
          ]
          | inl all ↦ inr (all, omega arith)
        ];
        maximal = elim last' [
          | inl all ↦ elim (ends s n bwp_size most all) [ inl e ↦ inl e | inr e ↦ inr (inl e) ]
          | inr stop ↦ inr (inr (at_eq used (omega arith) (not-false stop)))
        ];
      }))
