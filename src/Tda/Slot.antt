-- ===== src/Tda/Slot.antt =====
-- The time domain allocations that a slot can take: `get_num_ul_tda` of
-- gnb_patch/gNB_scheduler_ulsch.c.
pub mod Suitable
use Prim.Native.Nat.{bit_and}
use user_ric.Prelude.{
  ℕ, suc, ◌+◌, ◌-◌, ◌%◌, not, Bool, true, false, List, [], ◌∷◌, Option, none, some, if◌then◌else◌,
  ◌==◌, ltb,
}
use user_ric.Tda.{TdaInfo}

-- what is known of the slots of a period: `num_ul_symbols` of a mixed slot, and `none` for the others
pub record UlSlots : Type 0 where
  pub numb_slots_period : ℕ
  pub mixed_ul_symbols : ℕ → Option ℕ

abbrev pub symbols_or_all : Option ℕ → ℕ
symbols_or_all none = 14
symbols_or_all (some n) = n

module _ (sl_to_bitmap : ℕ → ℕ → ℕ) (fs : UlSlots) (slot : ℕ) where
  -- `ul_bitmap`
  unfoldable pub ul_bitmap : ℕ
  ul_bitmap =
      let n = symbols_or_all (fs.mixed_ul_symbols (slot % fs.numb_slots_period)) in
      sl_to_bitmap (14 - n) n

  -- `(tda_bitmap & ul_bitmap) == tda_bitmap`
  unfoldable pub fits : TdaInfo → Bool
  unfolding ul_bitmap
  fits t =
      let tda_bitmap = sl_to_bitmap t.start_symbol_index t.nr_of_symbols in
      bit_and tda_bitmap ul_bitmap == tda_bitmap

  -- the first loop, from index `i` on: the index of the first suitable allocation, and the allocations
  -- from it on, if there is one; the outer `none` is a failed assertion
  unfoldable pub find_first : ℕ → ℕ → List TdaInfo → Option (Option (ℕ × List TdaInfo))
  unfolding fits
  find_first k2 i [] = some none
  find_first k2 i (t ∷ ts) =
      let rest = find_first k2 (suc i) ts in
      if not t.valid_tda
      then none
      else if ltb t.k2 k2
      then rest
      else if ltb k2 t.k2
      then some none
      else if fits t
      then some (some (i, t ∷ ts))
      else rest

  -- the second loop: how many allocations follow with the same k2; `none` is a failed assertion
  unfoldable pub count_more : ℕ → List TdaInfo → Option ℕ
  unfolding fits
  count_more k2 [] = some 0
  count_more k2 (t ∷ ts) =
      let rest = count_more k2 ts in
      if t.k2 == k2
      then (if fits t then elim rest [ none ↦ none | some n ↦ some (suc n) ] else none)
      else some 0

  -- the number of suitable allocations from the first one on
  unfoldable pub count_from : ℕ → Option (Option (ℕ × List TdaInfo)) → Option (Option ℕ × ℕ)
  unfolding count_more
  count_from k2 none = none
  count_from k2 (some none) = some (none, 0)
  count_from k2 (some (some (i, []))) = some (some i, 0)
  count_from k2 (some (some (i, t ∷ ts))) = elim (count_more k2 ts) [
    | none ↦ none
    | some n ↦ some (some i, suc n)
  ]

  -- `get_num_ul_tda`: the index `first_idx`, with `none` for a null pointer, and the number
  unfoldable pub get_num_ul_tda : ℕ → List TdaInfo → Option (Option ℕ × ℕ)
  unfolding find_first count_from
  get_num_ul_tda k2 tdas = count_from k2 (find_first k2 0 tdas)
