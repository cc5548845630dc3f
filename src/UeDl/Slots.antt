-- ===== src/UeDl/Slots.antt =====
-- The one loop of `rk_ue_dl_find_or_alloc` in gnb_patch/rk_ue_dl_policy.c finds the same slot as a
-- search for the UE and a second search for a free entry.
use mathlib.Core.Option
use user_ric.Prelude.{
  ℕ, suc, ◌+◌, ◌≡◌, refl, inl, inr, Bool, true, not, ◌&&◌, List, [], ◌∷◌, Option, none, some,
  if◌then◌else◌, is_some, Option-cases, arith,
}
use user_ric.Prelude.Float.{Float}
use user_ric.Prelude.Slots.{find_index}
use user_ric.Prelude.Alloc.{find_or_create}
use user_ric.UeDl.{DlEntry, holds, fresh, scan, find_or_alloc}

abbrev pub is_free : {fl : Float} → DlEntry fl → Bool
is_free e = not e.used

-- an index into the rest of the array, and the first of two indices
abbrev shifted : ℕ → Option ℕ → Option ℕ
shifted i = Option.map (λ j. i + j)

abbrev first : Option ℕ → Option ℕ → Option ℕ
first none o = o
first (some i) o = some i

module _ (fl : Float) (rnti : ℕ) where
  scan_found :
      (i : ℕ) (free : Option ℕ) (t : List (DlEntry fl))
      → (scan fl rnti i free t).0 ≡ shifted i (find_index (holds fl rnti) t)
  unfolding scan find_index
  scan_found i free [] = refl
  scan_found i free (e ∷ es) =
      ground
        (arith, scan_found (suc i) (if not e.used && not (is_some free) then some i else free) es)

  scan_free :
      (i : ℕ) (free : Option ℕ) (t : List (DlEntry fl))
      → find_index (holds fl rnti) t ≡ none
      → (scan fl rnti i free t).1 ≡ first free (shifted i (find_index is_free t))
  unfolding scan find_index
  scan_free i none [] h = refl
  scan_free i (some j) [] h = refl
  scan_free i free (e ∷ es) h =
      ground
        (arith, scan_free (suc i) (if not e.used && not (is_some free) then some i else free) es, h)

  -- The one loop that looks for the UE and notes the first free entry on its way returns the entry
  -- and the table that a search for the UE and, only if that fails, a second search for a free entry
  -- return.
  pub find_or_alloc-eq-find_or_create :
      (t : List (DlEntry fl))
      → find_or_alloc fl rnti t ≡ find_or_create (holds fl rnti) is_free (fresh fl rnti) true t
  unfolding find_or_alloc find_or_create
  find_or_alloc-eq-find_or_create t = elim (Option-cases (find_index (holds fl rnti) t)) [
    | inr (i, e) ↦ ground (arith, scan_found 0 none t, e)
    | inl n ↦ elim (Option-cases (find_index is_free t)) [
      | inl full ↦ ground (arith, scan_found 0 none t, scan_free 0 none t, n, full)
      | inr (j, room) ↦ ground (arith, scan_found 0 none t, scan_free 0 none t, n, room)
    ]
  ]
