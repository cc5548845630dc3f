-- ===== src/Prelude/Slots.antt =====
-- Fixed tables of slots: a C array that a `for` loop searches for the first entry that passes a
-- test, and that is written through the pointer to the entry found (here, its index).
use user_ric.Prelude.Tests.{◌==◌, if◌then◌else◌, Bool-cases, Option-cases}
use user_ric.Prelude.Lists.{length, get_elem?, get_or, All}
use Prim.Native.Nat.{ℕ, zero, suc, ◌+◌, ◌<◌}
use mathlib.Core.Bool.{Bool, true, false, not}
use mathlib.Core.List.{List, [], ◌∷◌, ◌++◌}
use mathlib.Core.Logic.{◌⊎◌, inl, inr}
use mathlib.Core.Option
use mathlib.Core.Option.{Option, none, some, some-injective}
use mathlib.Core.Path.{◌≡◌, refl, ap}
use native.Mathlib.Omega.{arith}

module _ {ℓ} {A : Type ℓ} where
  -- the index of the first entry that passes the test
  unfoldable pub find_index : (A → Bool) → List A → Option ℕ
  find_index p [] = none
  find_index p (x ∷ xs) = if p x then some 0 else Option.map suc (find_index p xs)

  -- the first entry that passes the test
  unfoldable pub find : (A → Bool) → List A → Option A
  find p [] = none
  find p (x ∷ xs) = if p x then some x else find p xs

  -- a write through a pointer into the array
  unfoldable pub modify : List A → ℕ → (A → A) → List A
  modify [] i f = []
  modify (x ∷ xs) zero f = f x ∷ xs
  modify (x ∷ xs) (suc i) f = x ∷ modify xs i f

  -- the number of entries that pass the test
  unfoldable pub count : (A → Bool) → List A → ℕ
  count p [] = 0
  count p (x ∷ xs) = (if p x then 1 else 0) + count p xs

module _ {ℓ} {A : Type ℓ} where
  pub length-modify : (xs : List A) (i : ℕ) (f : A → A) → length (modify xs i f) ≡ length xs
  unfolding modify
  length-modify [] i f = refl
  length-modify (x ∷ xs) zero f = refl
  length-modify (x ∷ xs) (suc i) f = ap suc (length-modify xs i f)

  pub find_index-cons :
      (p : A → Bool) (x : A) (xs : List A) {i : ℕ}
      → find_index p (x ∷ xs) ≡ some i
      → ((p x ≡ true) × (i ≡ 0))
        ⊎ ((j : ℕ) × (p x ≡ false) × (i ≡ suc j) × (find_index p xs ≡ some j))
  unfolding find_index
  find_index-cons p x xs h = elim (Bool-cases (p x)) [
    | inl e ↦ inl (e, ground arith)
    | inr e ↦ elim (Option-cases (find_index p xs)) [
      | inl n ↦ absurd (ground arith)
      | inr (j, s) ↦ inr (j, e, ground arith, s)
    ]
  ]

  pub find_index-eq-none : (p : A → Bool) (xs : List A) → find_index p xs ≡ none → find p xs ≡ none
  unfolding find_index find
  find_index-eq-none p [] h = refl
  find_index-eq-none p (x ∷ xs) h = ground (arith, find_index-eq-none p xs)

  -- the entry at the index found is the entry found
  pub get_elem?-find_index :
      (p : A → Bool) (xs : List A) (i : ℕ) → find_index p xs ≡ some i → get_elem? xs i ≡ find p xs
  unfolding find_index find
  get_elem?-find_index p [] i h = cc
  get_elem?-find_index p (x ∷ xs) i h = elim (find_index-cons p x xs h) [
    | inl (e, z) ↦ rw (z, e)
    | inr (j, e, z, t) ↦ rw (z, e) (get_elem?-find_index p xs j t)
  ]

  pub find-true : (p : A → Bool) (xs : List A) (y : A) → find p xs ≡ some y → p y ≡ true
  unfolding find
  find-true p [] y h = cc
  find-true p (x ∷ xs) y h = elim (Bool-cases (p x)) [
    | inl e ↦ let y_eq : x ≡ y = ground arith in rw y_eq at e
    | inr e ↦ find-true p xs y (rw e at h)
  ]

  pub find_index-lt :
      (p : A → Bool) (xs : List A) (i : ℕ) → find_index p xs ≡ some i → i < length xs
  find_index-lt p [] i h = unfold find_index in cc
  find_index-lt p (x ∷ xs) i h = elim (find_index-cons p x xs h) [
    | inl (e, z) ↦ omega arith
    | inr (j, e, z, t) ↦ omega (arith, find_index-lt p xs j t)
  ]

  -- A write at the entry found for `p`, seen by a search for `q`: where the entry written before
  -- and after passes `q`, the search may see it; entries that fail `q` on both sides are skipped.
  module _ (p : A → Bool) (f : A → A) where
    pub find-modify_self :
        (xs : List A) (i : ℕ)
        → find_index p xs ≡ some i
        → ((x : A) → p x ≡ true → p (f x) ≡ true)
        → find p (modify xs i f) ≡ Option.map f (find p xs)
    unfolding find modify
    find-modify_self [] i h keep = refl
    find-modify_self (x ∷ xs) i h keep = elim (find_index-cons p x xs h) [
      | inl (e, z) ↦ rw (z, e, keep x e)
      | inr (j, e, z, t) ↦ rw (z, e) (find-modify_self xs j t keep)
    ]

    pub find-modify_other :
        (q : A → Bool) (xs : List A) (i : ℕ)
        → find_index p xs ≡ some i
        → ((x : A) → p x ≡ true → (q x ≡ false) × (q (f x) ≡ false))
        → find q (modify xs i f) ≡ find q xs
    unfolding find modify
    find-modify_other q [] i h skip = refl
    find-modify_other q (x ∷ xs) i h skip = elim (find_index-cons p x xs h) [
      | inl (e, z) ↦ rw (z, (skip x e).0, (skip x e).1)
      | inr (j, e, z, t) ↦ rw (z, find-modify_other q xs j t skip)
    ]

    -- A write that makes an entry pass `q`, where none passed before.
    pub find-modify_new :
        (q : A → Bool) (xs : List A) (i : ℕ) {x : A}
        → find_index p xs ≡ some i
        → get_elem? xs i ≡ some x
        → find q xs ≡ none
        → q (f x) ≡ true
        → find q (modify xs i f) ≡ some (f x)
    unfolding find modify
    find-modify_new q [] i h g n t = ground arith
    find-modify_new q (y ∷ xs) i h g n t = elim (find_index-cons p y xs h) [
      | inl (e, z) ↦ rw z (ground (arith, rw z at g))
      | inr (j, e, z, s) ↦ rw z (ground (arith, find-modify_new q xs j s (rw z at g), n, t))
    ]

    -- How a write changes a count.
    pub count-modify :
        (q : A → Bool) (xs : List A) (i : ℕ) {x : A}
        → find_index p xs ≡ some i
        → get_elem? xs i ≡ some x
        → count q (modify xs i f) + (if q x then 1 else 0) ≡ count q xs + (if q (f x) then 1 else 0)
    unfolding count modify
    count-modify q [] i h g = ground arith
    count-modify q (y ∷ xs) i {x} h g = elim (find_index-cons p y xs h) [
      | inl (e, z) ↦ rw z (ground (arith, some-injective (rw z at g)))
      | inr (j, e, z, s) ↦ rw z (omega (arith, count-modify q xs j s (rw z at g)))
    ]

  pub find-eq-none : (q : A → Bool) (xs : List A) → find q xs ≡ none → count q xs ≡ 0
  unfolding find count
  find-eq-none q [] h = refl
  find-eq-none q (x ∷ xs) h = ground (arith, find-eq-none q xs)

  pub modify-modify :
      (xs : List A) (i : ℕ) (f g : A → A) → modify (modify xs i f) i g ≡ modify xs i (λ x. g (f x))
  unfolding modify
  modify-modify [] i f g = refl
  modify-modify (x ∷ xs) zero f g = refl
  modify-modify (x ∷ xs) (suc i) f g = ap (◌∷◌ x) (modify-modify xs i f g)

  pub at_find_index :
      (p : A → Bool) (xs : List A) (i : ℕ)
      → find_index p xs ≡ some i
      → (x : A) × (find p xs ≡ some x) × (get_elem? xs i ≡ some x) × (p x ≡ true)
  unfolding find
  at_find_index p [] i h = unfold find_index in cc
  at_find_index p (x ∷ xs) i h = elim (find_index-cons p x xs h) [
    | inl (e, z) ↦ (x, rw e, rw z, e)
    | inr (j, e, z, t) ↦ let (y, f, g, py) = at_find_index p xs j t in (y, rw e f, rw z g, py)
  ]

  -- There is an entry that fails the test exactly if fewer entries pass it than there are.
  pub room_cases :
      (p : A → Bool) (xs : List A)
      → ((count p xs < length xs) × ((x : A) × (find (λ y. not (p y)) xs ≡ some x)))
        ⊎ ((count p xs ≡ length xs) × (find (λ y. not (p y)) xs ≡ none))
  unfolding count find
  room_cases p [] = inr (refl, refl)
  room_cases p (x ∷ xs) = elim (Bool-cases (p x)) [
    | inl e ↦ elim (room_cases p xs) [
      | inl (l, (y, f)) ↦ inl (rw e (omega arith), (y, rw e f))
      | inr (l, f) ↦ inr (rw e (omega arith), rw e f)
    ]
    | inr e ↦ elim (room_cases p xs) [
      | inl (l, _) ↦ inl (rw e (omega arith), (x, rw e))
      | inr (l, _) ↦ inl (rw e (omega arith), (x, rw e))
    ]
  ]

pub modify-All {ℓ κ} :
    {A : Type ℓ} (P : A → Type κ) (xs : List A) (i : ℕ) (f : A → A)
    → All P xs
    → ((x : A) → P x → P (f x))
    → All P (modify xs i f)
unfolding modify
modify-All P [] i f h keep = tt
modify-All P (x ∷ xs) zero f h keep = (keep x h.0, h.1)
modify-All P (x ∷ xs) (suc i) f h keep = (h.0, modify-All P xs i f h.1 keep)

module _ {ℓ} {A : Type ℓ} where
  pub modify-All_at {κ} :
      (P : A → Type κ) (xs : List A) (i : ℕ) (f : A → A) (d : A)
      → All P xs
      → P (f (get_or xs i d))
      → All P (modify xs i f)
  unfolding modify
  modify-All_at P [] i f d h new = tt
  modify-All_at P (x ∷ xs) zero f d h new = (new, h.1)
  modify-All_at P (x ∷ xs) (suc i) f d h new = (h.0, modify-All_at P xs i f d h.1 new)

  pub get_or-modify_ne :
      (xs : List A) (i j : ℕ) (f : A → A) (d : A)
      → (i == j) ≡ false
      → get_or (modify xs i f) j d ≡ get_or xs j d
  unfolding modify
  get_or-modify_ne [] i j f d h = refl
  get_or-modify_ne (x ∷ xs) zero zero f d h = absurd (ground (arith, h))
  get_or-modify_ne (x ∷ xs) zero (suc j) f d h = refl
  get_or-modify_ne (x ∷ xs) (suc i) zero f d h = refl
  get_or-modify_ne (x ∷ xs) (suc i) (suc j) f d h = get_or-modify_ne xs i j f d (ground (arith, h))

  pub count-append : (p : A → Bool) (xs ys : List A) → count p (xs ++ ys) ≡ count p xs + count p ys
  unfolding count
  count-append p [] ys = omega arith
  count-append p (x ∷ xs) ys = ground (arith, count-append p xs ys)

  pub get_or-modify_eq :
      (xs : List A) (i : ℕ) (f : A → A) (d : A)
      → i < length xs
      → get_or (modify xs i f) i d ≡ f (get_or xs i d)
  unfolding modify
  get_or-modify_eq [] i f d h = absurd (omega arith)
  get_or-modify_eq (x ∷ xs) zero f d h = refl
  get_or-modify_eq (x ∷ xs) (suc i) f d h = get_or-modify_eq xs i f d (omega arith)
