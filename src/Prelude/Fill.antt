-- ===== src/Prelude/Fill.antt =====
-- Filling a keyed table from a list: the last pair of a key wins, as long as there is room for the
-- different keys.
use mathlib.Core.Bool.{true, false, not, ◌&&◌, ◌||◌}
use mathlib.Core.List.{List, [], ◌∷◌}
use mathlib.Core.Logic.{inl, inr}
use mathlib.Core.Path.{◌≡◌, refl, ◌∙◌, ap}
use Prim.Native.Nat.{ℕ, ◌+◌, ◌≤◌, ◌<◌}
use native.Mathlib.Omega.{arith}
use user_ric.Prelude.Tests.{if◌then◌else◌, ◌==◌, is_some, Bool-cases, ==_iff}
use user_ric.Prelude.Lists.{length}
use user_ric.Prelude.Keyed.{
  Keyed, last_for, names, update, view, used, accepts, put_all, length-update, view-update,
  used-update, HoldsOnce, update-HoldsOnce,
}

module _ {ℓ κ} {A : Type ℓ} {V : Type κ} (o : Keyed A V) where
  -- how many different keys of the list have no entry
  abbrev pub newcomers : List (ℕ × V) → List A → ℕ
  newcomers [] t = 0
  newcomers ((k, v) ∷ es) t = (if is_some (view o t k) || names k es then 0 else 1) + newcomers es t

  -- A key that is new and occurs in the list is counted.
  newcomers_pos :
      (q : ℕ) (es : List (ℕ × V)) (t : List A)
      → names q es ≡ true
      → is_some (view o t q) ≡ false
      → 0 < newcomers es t
  newcomers_pos q [] t h n = absurd (ground arith)
  newcomers_pos q ((k, v) ∷ es) t h n = elim (Bool-cases (names q es)) [
    | inl later ↦ omega (arith, newcomers_pos q es t later n)
    | inr last ↦
        let e : q ≡ k = ground (arith, ==_iff q k, h, last) in rw (← e) (ground (arith, last, n))
  ]

  -- An accepted update takes one newcomer out, if the list names one.
  newcomers-update :
      (k : ℕ) (v : V) (t : List A) (es : List (ℕ × V))
      → accepts o t k ≡ true
      → newcomers es (update o k v t) + (if not (is_some (view o t k)) && names k es then 1 else 0)
        ≤ newcomers es t
  newcomers-update k v t [] ok = ground arith
  newcomers-update k v t ((j, w) ∷ es) ok = elim (Bool-cases (k == j)) [
    | inl same ↦
        let e : k ≡ j = (==_iff k j).0 same in
        rw (← e) (
          ground
            (arith, view-update o k v t k, newcomers-update k v t es ok, (==_iff k k).1 refl, ok))
    | inr d ↦
        ground
          (arith, view-update o k v t j, newcomers-update k v t es ok, ==_iff k j, ==_iff j k, d)
  ]

  -- Enough room for the different keys without an entry.
  abbrev pub Fits : List (ℕ × V) → List A → Type 0
  Fits es t = used o t + newcomers es t ≤ length t

  Fits-next :
      (k : ℕ) (v : V) (es : List (ℕ × V)) (t : List A)
      → Fits ((k, v) ∷ es) t
      → (accepts o t k ≡ true) × Fits es (update o k v t)
  Fits-next k v es t fits = elim (Bool-cases (is_some (view o t k))) [
    | inl old ↦
        let ok : accepts o t k ≡ true = rw old in
        (
          ok,
          ground (
            arith,
            used-update o k v t,
            length-update o k v t,
            newcomers-update k v t es ok,
            old,
            fits,
          ),
        )
    | inr new ↦
        let ok : accepts o t k ≡ true = ground (arith, new, fits, newcomers_pos k es t) in
        (
          ok,
          ground (
            arith,
            used-update o k v t,
            length-update o k v t,
            newcomers-update k v t es ok,
            new,
            ok,
            fits,
          ),
        )
  ]

  -- With enough room, each key has the value of its last pair, and the others keep theirs.
  pub put_all-view :
      (es : List (ℕ × V)) (t : List A) (q : ℕ)
      → Fits es t
      → view o (put_all o es t) q ≡ last_for q es (view o t q)
  unfolding put_all
  put_all-view [] t q fits = refl
  put_all-view ((k, v) ∷ es) t q fits =
      let (ok, fits') = Fits-next k v es t fits in
      put_all-view es (update o k v t) q fits'
      ∙ ap (last_for q es) (view-update o k v t q ∙ rw ok (ground arith))

  pub length-put_all : (es : List (ℕ × V)) (t : List A) → length (put_all o es t) ≡ length t
  unfolding put_all
  length-put_all [] t = refl
  length-put_all ((k, v) ∷ es) t = length-put_all es (update o k v t) ∙ length-update o k v t

  pub put_all-HoldsOnce :
      (es : List (ℕ × V)) (t : List A) → HoldsOnce o t → HoldsOnce o (put_all o es t)
  unfolding put_all
  put_all-HoldsOnce [] t w = w
  put_all-HoldsOnce ((k, v) ∷ es) t w =
      put_all-HoldsOnce es (update o k v t) (update-HoldsOnce o k v t w)
