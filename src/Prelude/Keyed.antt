-- ===== src/Prelude/Keyed.antt =====
-- Tables of entries with a key each, written by an update that finds or creates the entry of a
-- key: seen as bounded maps, and filled from a list of keys and values.
use mathlib.Core.Option
use mathlib.Core.Bool.{Bool, true, false, not, ◌&&◌, ◌||◌}
use mathlib.Core.List.{List, [], ◌∷◌}
use mathlib.Core.Option.{Option, none, some}
use mathlib.Core.Logic.{inl, inr}
use mathlib.Core.Path.{◌≡◌, ◌∙◌, ap}
use Prim.Native.Nat.{ℕ, ◌+◌, ◌≤◌}
use native.Mathlib.Omega.{arith}
use user_ric.Prelude.Tests.{if◌then◌else◌, ◌==◌, ltb, is_some, Bool-cases, Option-cases, ==_iff}
use user_ric.Prelude.Lists.{length}
use user_ric.Prelude.Slots.{find, count, find-eq-none, room_cases}
use user_ric.Prelude.Alloc.{
  find_or_create, write_through, length-upsert, find-upsert, find-upsert_other, count-upsert,
  count-upsert_other,
}

-- An entry in use holds one key; a written entry holds the key and shows the value.
pub record Keyed {ℓ κ} (A : Type ℓ) (V : Type κ) : Type (ℓ ⊔ κ) where
  pub holds : ℕ → A → Bool
  pub valid : A → Bool
  pub value : A → V
  pub fresh : ℕ → A → A
  pub put : ℕ → V → A → A
  pub holds-valid : (k : ℕ) (x : A) → holds k x ≡ true → valid x ≡ true
  pub holds_once : (j k : ℕ) (x : A) → holds j x ≡ true → holds k x ≡ true → j ≡ k
  pub holds-fresh : (k : ℕ) (x : A) → holds k (fresh k x) ≡ true
  pub holds-put : (k : ℕ) (v : V) (x : A) → holds k x ≡ true → holds k (put k v x) ≡ true
  pub value-put : (k : ℕ) (v : V) (x : A) → value (put k v x) ≡ v

-- the value that the last pair with a key gives it, or what it had before
abbrev pub last_for {κ} : {V : Type κ} → ℕ → List (ℕ × V) → Option V → Option V
last_for q [] before = before
last_for q ((k, v) ∷ es) before = last_for q es (if q == k then some v else before)

abbrev pub names {κ} : {V : Type κ} → ℕ → List (ℕ × V) → Bool
names q [] = false
names q ((k, v) ∷ es) = q == k || names q es

module _ {ℓ κ} {A : Type ℓ} {V : Type κ} (o : Keyed A V) where
  open o use {
    holds, valid, value, fresh, put, holds-valid, holds_once, holds-fresh, holds-put, value-put,
  }

  unfoldable pub update : ℕ → V → List A → List A
  update k v t =
      write_through (put k v) (find_or_create (holds k) (λ x. not (valid x)) (fresh k) true t)

  -- what the table says of a key
  unfoldable pub view : List A → ℕ → Option V
  view t k = Option.map value (find (holds k) t)

  -- the number of entries in use
  unfoldable pub used : List A → ℕ
  used = count valid

  abbrev pub accepts : List A → ℕ → Bool
  accepts t k = is_some (view t k) || ltb (used t) (length t)

  -- the updates of a list in order
  unfoldable pub put_all : List (ℕ × V) → List A → List A
  put_all [] t = t
  put_all ((k, v) ∷ es) t = put_all es (update k v t)

  pub length-update : (k : ℕ) (v : V) (t : List A) → length (update k v t) ≡ length t
  unfolding update
  length-update k v t = length-upsert (holds k) (λ x. not (valid x)) (fresh k) (put k v) t

  free_holds : (k : ℕ) (x : A) → not (valid x) ≡ true → holds k x ≡ false
  free_holds k x f = ground (arith, holds-valid k x)

  apart : (j k : ℕ) (x : A) → (j == k) ≡ false → holds k x ≡ true → holds j x ≡ false
  apart j k x d h = ground (arith, holds_once j k x)

  view-update_self :
      (k : ℕ) (v : V) (t : List A) → view (update k v t) k ≡ (if accepts t k then some v else none)
  unfolding view update used
  view-update_self k v t =
      rw
        (find-upsert (holds k) (λ x. not (valid x)) (fresh k) (put k v) (holds-put k v)
          (holds-fresh k) t)
        (elim (Option-cases (find (holds k) t)) [
          | inr (e, h) ↦ rw h (ap some (value-put k v e))
          | inl n ↦ elim (room_cases valid t) [
            | inl (l, (e, f)) ↦ rw (n, f) (ground (arith, l, value-put k v (fresh k e)))
            | inr (l, f) ↦ rw (n, f) (ground (arith, l))
          ]
        ])

  view-update_other :
      (k : ℕ) (v : V) (t : List A) (q : ℕ) → (q == k) ≡ false → view (update k v t) q ≡ view t q
  unfolding view update
  view-update_other k v t q d = rw (
      find-upsert_other (holds k) (λ x. not (valid x)) (fresh k) (put k v) (holds q)
        (λ x h. (apart q k x d h, apart q k _ d (holds-put k v x h)))
        (λ x f. (free_holds q x f, apart q k _ d (holds-put k v _ (holds-fresh k x)))) t)

  pub view-update :
      (k : ℕ) (v : V) (t : List A) (q : ℕ)
      → view (update k v t) q ≡ (if (q == k) && accepts t k then some v else view t q)
  view-update k v t q = elim (Bool-cases (q == k)) [
    | inr d ↦ rw d (view-update_other k v t q d)
    | inl same ↦
        let e : q ≡ k = (==_iff q k).0 same in rw (same, e) (view-update_self k v t ∙ ground arith)
  ]

  pub used-update :
      (k : ℕ) (v : V) (t : List A)
      → used (update k v t) ≡ used t + (if not (is_some (view t k)) && accepts t k then 1 else 0)
  unfolding update used view
  used-update k v t =
      rw
        (count-upsert (holds k) (λ x. not (valid x)) (fresh k) (put k v) valid
          (λ x h. (holds-valid k x h, holds-valid k _ (holds-put k v x h)))
          (λ x f. (ground (arith, f), holds-valid k _ (holds-put k v _ (holds-fresh k x)))) t)
        (elim (Option-cases (find (holds k) t)) [
          | inr (e, h) ↦ rw h
          | inl n ↦ elim (room_cases valid t) [
            | inl (l, (e, f)) ↦ rw (n, f) (ground (arith, l))
            | inr (l, f) ↦ rw (n, f) (ground (arith, l))
          ]
        ])

  -- no key has two entries
  abbrev pub HoldsOnce : List A → Type 0
  HoldsOnce t = (q : ℕ) → count (holds q) t ≤ 1

  pub update-HoldsOnce : (k : ℕ) (v : V) (t : List A) → HoldsOnce t → HoldsOnce (update k v t)
  unfolding update
  update-HoldsOnce k v t w q = elim (Bool-cases (q == k)) [
    | inr d ↦
        rw
          (count-upsert_other (holds k) (λ x. not (valid x)) (fresh k) (put k v) (holds q)
            (λ x h. (apart q k x d h, apart q k _ d (holds-put k v x h)))
            (λ x f. (free_holds q x f, apart q k _ d (holds-put k v _ (holds-fresh k x)))) t)
          (w q)
    | inl same ↦
        let e : q ≡ k = (==_iff q k).0 same in
        rw e (
          rw
            (count-upsert (holds k) (λ x. not (valid x)) (fresh k) (put k v) (holds k)
              (λ x h. (h, holds-put k v x h))
              (λ x f. (free_holds k x f, holds-put k v _ (holds-fresh k x))) t)
            (ground (arith, w k, find-eq-none (holds k) t)))
  ]

-- an element in front, if there is one
abbrev pub add_some {κ} : {E : Type κ} → Option E → List E → List E
add_some none es = es
add_some (some e) es = e ∷ es
