-- ===== src/Prelude/Alloc.antt =====
-- The allocation pattern of the tables: look for the entry of a key; if there is none and the
-- caller asks for it, take the first free entry and initialise it; then write through the pointer.
use mathlib.Core.Option
use mathlib.Core.Bool.{Bool, true, false, not}
use mathlib.Core.List.{List}
use mathlib.Core.Option.{Option, none, some}
use mathlib.Core.Logic.{◌⊎◌, inl, inr}
use mathlib.Core.Path.{◌≡◌, refl}
use Prim.Native.Nat.{ℕ, ◌+◌}
use native.Mathlib.Omega.{arith}
use user_ric.Prelude.Tests.{if◌then◌else◌, Option-cases}
use user_ric.Prelude.Lists.{length, get_elem?}
use user_ric.Prelude.Slots.{
  find_index, find, modify, count, length-modify, get_elem?-find_index, find_index-eq-none,
  find-modify_self, find-modify_other, find-modify_new, count-modify, modify-modify, at_find_index,
}

module _ {ℓ} {A : Type ℓ} where
  -- Parameters: the test for the key, the test for a free entry, the initialisation.
  unfoldable pub claim_slot : (A → A) → Option ℕ → List A → Option ℕ × List A
  claim_slot fresh none t = (none, t)
  claim_slot fresh (some i) t = (some i, modify t i fresh)

  unfoldable pub find_or_create :
      (A → Bool) → (A → Bool) → (A → A) → Bool → List A → Option ℕ × List A
  unfolding claim_slot
  find_or_create p free fresh create t = elim (find_index p t) [
    | some i ↦ (some i, t)
    | none ↦ if not create then (none, t) else claim_slot fresh (find_index free t) t
  ]

  -- a write through a pointer that may be null
  unfoldable pub write_through : (A → A) → Option ℕ × List A → List A
  write_through g (none, t) = t
  write_through g (some i, t) = modify t i g

  -- the entry behind a pointer that may be null
  unfoldable pub deref : Option ℕ → List A → Option A
  deref none t = none
  deref (some i) t = get_elem? t i

  -- what stands at the key after the write: the entry found, or the first free entry, initialised
  abbrev pub written : (A → A) → (A → A) → Option A → Option A → Option A
  written fresh g (some e) free = some (g e)
  written fresh g none free = Option.map (λ x. g (fresh x)) free

  pub deref-find_index : (p : A → Bool) (t : List A) → deref (find_index p t) t ≡ find p t
  unfolding deref
  deref-find_index p t = elim (Option-cases (find_index p t)) [
    | inl n ↦ rw n (ground (arith, find_index-eq-none p t))
    | inr (i, e) ↦ rw e (get_elem?-find_index p t i e)
  ]

  module _ (p free : A → Bool) (fresh g : A → A) where
    found_slot :
        (c : Bool) (t : List A) (i : ℕ)
        → find_index p t ≡ some i
        → find_or_create p free fresh c t ≡ (some i, t)
    unfolding find_or_create
    found_slot c t i h = ground arith

    claimed_slot :
        (t : List A) (i : ℕ)
        → find_index p t ≡ none
        → find_index free t ≡ some i
        → find_or_create p free fresh true t ≡ (some i, modify t i fresh)
    unfolding find_or_create
    claimed_slot t i h k = ground arith

    no_slot :
        (c : Bool) (t : List A)
        → find_index p t ≡ none
        → (c ≡ false) ⊎ (find_index free t ≡ none)
        → find_or_create p free fresh c t ≡ (none, t)
    unfolding find_or_create
    no_slot true t h k = ground arith
    no_slot false t h k = ground arith

    pub deref-find_or_create :
        (t : List A) → deref (find_or_create p free fresh false t).0 t ≡ find p t
    deref-find_or_create t = elim (Option-cases (find_index p t)) [
      | inl n ↦ rw (no_slot false t n (inl refl), ← deref-find_index p t, n)
      | inr (i, e) ↦ rw (found_slot false t i e, ← deref-find_index p t, e)
    ]

    abbrev pub upsert : List A → List A
    upsert t = write_through g (find_or_create p free fresh true t)

    pub length-upsert : (t : List A) → length (upsert t) ≡ length t
    unfolding find_or_create write_through
    length-upsert t = elim (Option-cases (find_index p t)) [
      | inr (i, e) ↦ rw (found_slot true t i e) (length-modify t i g)
      | inl n ↦ elim (Option-cases (find_index free t)) [
        | inr (j, f) ↦ rw (claimed_slot t j n f, length-modify _ j g) (length-modify t j fresh)
        | inl f ↦ rw (no_slot true t n (inr f))
      ]
    ]

    module _ (keep : (x : A) → p x ≡ true → p (g x) ≡ true)
        (fresh_p : (x : A) → p (fresh x) ≡ true) where
      -- the entry of the key after the write
      pub find-upsert : (t : List A) → find p (upsert t) ≡ written fresh g (find p t) (find free t)
      unfolding write_through
      find-upsert t = elim (Option-cases (find_index p t)) [
        | inr (i, e) ↦
            let (x, fx, _, _) = at_find_index p t i e in
            rw (found_slot true t i e) (rw (find-modify_self p g t i e keep, fx))
        | inl n ↦
            let absent = find_index-eq-none p t n in
            elim (Option-cases (find_index free t)) [
              | inr (j, f) ↦
                  let (x, fx, gx, _) = at_find_index free t j f in
                  let ok = keep (fresh x) (fresh_p x) in
                  let new = find-modify_new free (λ y. g (fresh y)) p t j f gx absent ok in
                  rw (claimed_slot t j n f) (rw (modify-modify, new, absent, fx))
              | inl f ↦ rw (no_slot true t n (inr f)) (rw (absent, find_index-eq-none free t f))
            ]
      ]

    -- A search that neither the key's entry nor a free entry passes, before or after the write,
    -- sees no change.
    module _ (q : A → Bool) (skip_p : (x : A) → p x ≡ true → (q x ≡ false) × (q (g x) ≡ false))
        (skip_free : (x : A) → free x ≡ true → (q x ≡ false) × (q (g (fresh x)) ≡ false)) where
      pub find-upsert_other : (t : List A) → find q (upsert t) ≡ find q t
      unfolding write_through
      find-upsert_other t = elim (Option-cases (find_index p t)) [
        | inr (i, e) ↦ rw (found_slot true t i e) (find-modify_other p g q t i e skip_p)
        | inl n ↦ elim (Option-cases (find_index free t)) [
          | inr (j, f) ↦
              rw (claimed_slot t j n f)
                (rw modify-modify (find-modify_other free (λ y. g (fresh y)) q t j f skip_free))
          | inl f ↦ rw (no_slot true t n (inr f))
        ]
      ]

      pub count-upsert_other : (t : List A) → count q (upsert t) ≡ count q t
      unfolding write_through
      count-upsert_other t = elim (Option-cases (find_index p t)) [
        | inr (i, e) ↦
            let (x, _, gx, px) = at_find_index p t i e in
            rw (found_slot true t i e) (ground (arith, count-modify p g q t i e gx, skip_p x px))
        | inl n ↦ elim (Option-cases (find_index free t)) [
          | inr (j, f) ↦
              let (x, _, gx, fx) = at_find_index free t j f in
              rw (claimed_slot t j n f) (
                rw modify-modify
                  (ground (arith, count-modify free (λ y. g (fresh y)) q t j f gx, skip_free x fx)))
          | inl f ↦ rw (no_slot true t n (inr f))
        ]
      ]

    -- The number of entries that pass `q` where the written entry passes it: one more exactly if
    -- a free entry, which did not pass, was taken.
    module _ (q : A → Bool) (stays : (x : A) → p x ≡ true → (q x ≡ true) × (q (g x) ≡ true))
        (enters : (x : A) → free x ≡ true → (q x ≡ false) × (q (g (fresh x)) ≡ true)) where
      pub count-upsert :
          (t : List A)
          → count q (upsert t)
            ≡ count q t
              + elim (find p t) [ some _ ↦ 0 | none ↦ elim (find free t) [ some _ ↦ 1 | none ↦ 0 ] ]
      unfolding write_through
      count-upsert t = elim (Option-cases (find_index p t)) [
        | inr (i, e) ↦
            let (x, fx, gx, px) = at_find_index p t i e in
            rw (found_slot true t i e, fx) (ground (arith, count-modify p g q t i e gx, stays x px))
        | inl n ↦ elim (Option-cases (find_index free t)) [
          | inr (j, f) ↦
              let (x, fx, gx, free_x) = at_find_index free t j f in
              rw (claimed_slot t j n f, find_index-eq-none p t n, fx)
                (rw modify-modify (
                  ground (arith, count-modify free (λ y. g (fresh y)) q t j f gx, enters x free_x)))
          | inl f ↦
              rw (no_slot true t n (inr f), find_index-eq-none p t n, find_index-eq-none free t f)
                (omega arith)
        ]
      ]
