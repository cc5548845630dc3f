-- ===== src/Tda/Slot/Suitable.antt =====
-- Which allocations `get_num_ul_tda` answers with.
use user_ric.Prelude.{
  ℕ, suc, ◌+◌, ◌<◌, ◌≤◌, ◌≡◌, refl, ◌∙◌, ap, true, false, ◌&&◌, List, [], ◌∷◌, ◌++◌, Option, none,
  some, not, ◌==◌, ltb, length, All, All-map, if_ind, if◌then◌else◌, arith,
}
use user_ric.Tda.{TdaInfo}
use user_ric.Tda.Slot.{UlSlots, fits, find_first, count_more, count_from, get_num_ul_tda}

-- a list that is ordered by k2
abbrev pub Ascending : List TdaInfo → Type 0
Ascending [] = Unit
Ascending (t ∷ ts) = All (λ u. t.k2 ≤ u.k2) ts × Ascending ts

module _ (sl_to_bitmap : ℕ → ℕ → ℕ) (fs : UlSlots) (slot k2 : ℕ) where
  -- an allocation with this k2 that fits the slot
  abbrev pub Suits : TdaInfo → Type 0
  Suits t = (t.k2 ≡ k2) × (fits sl_to_bitmap fs slot t ≡ true)

  abbrev pub Unsuitable : TdaInfo → Type 0
  Unsuitable t = (t.k2 == k2) && fits sl_to_bitmap fs slot t ≡ false

  -- the allocations in front of the answer, those of the answer, and those behind it
  pub record Found (tdas : List TdaInfo) (first n : ℕ) : Type 0 where
    pub front : List TdaInfo
    pub good : List TdaInfo
    pub back : List TdaInfo
    pub split : tdas ≡ front ++ (good ++ back)
    pub at_first : first ≡ length front
    pub number : (0 < n) × (length good ≡ n)
    pub earlier : All Unsuitable front
    pub suitable : All Suits good

  -- what an answer says; `none` is a failed assertion
  abbrev pub Answer : List TdaInfo → Option (Option ℕ × ℕ) → Type 0
  Answer tdas none = Unit
  Answer tdas (some (some i, n)) = Found tdas i n
  Answer tdas (some (none, n)) = (n ≡ 0) × (Ascending tdas → All Unsuitable tdas)

  -- there is a first one, and it suits
  abbrev HeadSuits : List TdaInfo → Type 0
  HeadSuits [] = 1 ≤ 0
  HeadSuits (t ∷ ts) = Suits t

  -- what the first loop finds
  record Start (i : ℕ) (tdas : List TdaInfo) (j : ℕ) (rest : List TdaInfo) : Type 0 where
    front : List TdaInfo
    split : tdas ≡ front ++ rest
    at : j ≡ i + length front
    earlier : All Unsuitable front
    suits : HeadSuits rest

  abbrev First : ℕ → List TdaInfo → Option (Option (ℕ × List TdaInfo)) → Type 0
  First i tdas none = Unit
  First i tdas (some none) = Ascending tdas → All Unsuitable tdas
  First i tdas (some (some (j, rest))) = Start i tdas j rest

  pass :
      (i : ℕ) (t : TdaInfo) (ts : List TdaInfo) (o : Option (Option (ℕ × List TdaInfo)))
      → Unsuitable t
      → First (suc i) ts o
      → First i (t ∷ ts) o
  pass i t ts none u h = tt
  pass i t ts (some none) u h = λ asc. (u, h asc.1)
  pass i t ts (some (some (j, rest))) u h = record {
    front = t ∷ h.front;
    split = ap (λ l. t ∷ l) h.split;
    at = omega (arith, h.at);
    earlier = (u, h.earlier);
    suits = h.suits;
  }

  find_first-First :
      (i : ℕ) (tdas : List TdaInfo) → First i tdas (find_first sl_to_bitmap fs slot k2 i tdas)
  unfolding find_first
  find_first-First i [] = λ _. tt
  find_first-First i (t ∷ ts) =
      let rest = find_first sl_to_bitmap fs slot k2 (suc i) ts in
      let h = find_first-First (suc i) ts in
      let ok = fits sl_to_bitmap fs slot t in
      let found = if ok then some (some (i, t ∷ ts)) else rest in
      let known = if ltb t.k2 k2 then rest else if ltb k2 t.k2 then some none else found in
      let below_or_not =
        if_ind (First i (t ∷ ts)) (ltb t.k2 k2) rest (if ltb k2 t.k2 then some none else found)
          (λ below. pass i t ts rest (ground (arith, below)) h)
          (λ not_below.
            if_ind (First i (t ∷ ts)) (ltb k2 t.k2) (some none) found
              (λ above asc.
                (ground (arith, above), All-map ts (λ u le. ground (arith, above, le)) asc.0))
              (λ not_above.
                if_ind (First i (t ∷ ts)) ok (some (some (i, t ∷ ts))) rest
                  (λ good. record {
                    front = [];
                    split = refl;
                    at = omega arith;
                    earlier = tt;
                    suits = (ground (arith, not_below, not_above), good);
                  })
                  (λ bad. pass i t ts rest (ground (arith, bad)) h))) in
      if_ind (First i (t ∷ ts)) (not t.valid_tda) none known (λ _. tt) (λ _. below_or_not)

  -- the allocations that the second loop counts
  abbrev Counted : List TdaInfo → Option ℕ → Type 0
  Counted tdas none = Unit
  Counted tdas (some n) =
      (good : List TdaInfo) × (back : List TdaInfo) × (tdas ≡ good ++ back)
      × (length good ≡ n)
      × All Suits good

  one_more :
      (t : TdaInfo) (ts : List TdaInfo) (o : Option ℕ)
      → Suits t
      → Counted ts o
      → Counted (t ∷ ts) (elim o [ none ↦ none | some n ↦ some (suc n) ])
  one_more t ts none s h = tt
  one_more t ts (some n) s (good, back, split, number, suit) =
      (t ∷ good, back, ap (λ l. t ∷ l) split, omega (arith, number), (s, suit))

  count_more-Counted :
      (tdas : List TdaInfo) → Counted tdas (count_more sl_to_bitmap fs slot k2 tdas)
  unfolding count_more
  count_more-Counted [] = ([], [], refl, refl, tt)
  count_more-Counted (t ∷ ts) =
      let rest = count_more sl_to_bitmap fs slot k2 ts in
      let more : Option ℕ = elim rest [ none ↦ none | some n ↦ some (suc n) ] in
      let ok = fits sl_to_bitmap fs slot t in
      if_ind (Counted (t ∷ ts)) (t.k2 == k2) (if ok then more else none) (some 0)
        (λ same.
          if_ind (Counted (t ∷ ts)) ok more none
            (λ good. one_more t ts rest (ground (arith, same), good) (count_more-Counted ts))
            (λ _. tt))
        (λ _. ([], t ∷ ts, refl, refl, tt))

  with_more :
      (tdas : List TdaInfo) (i : ℕ) (t : TdaInfo) (ts front : List TdaInfo) (o : Option ℕ)
      → tdas ≡ front ++ (t ∷ ts)
      → i ≡ length front
      → All Unsuitable front
      → Suits t
      → Counted ts o
      → Answer tdas (elim o [ none ↦ none | some n ↦ some (some i, suc n) ])
  with_more tdas i t ts front none split first earlier s c = tt
  with_more tdas i t ts front (some n) split first earlier s (good, back, more, number, suit) =
      record {
        front = front;
        good = t ∷ good;
        back = back;
        split = split ∙ ap (λ l. front ++ (t ∷ l)) more;
        at_first = first;
        number = (omega arith, omega (arith, number));
        earlier = earlier;
        suitable = (s, suit);
      }

  count_from-Answer :
      (tdas : List TdaInfo) (o : Option (Option (ℕ × List TdaInfo)))
      → First 0 tdas o
      → Answer tdas (count_from sl_to_bitmap fs slot k2 o)
  unfolding count_from
  count_from-Answer tdas none h = tt
  count_from-Answer tdas (some none) h = (refl, h)
  count_from-Answer tdas (some (some (j, []))) h = absurd (omega (arith, h.suits))
  count_from-Answer tdas (some (some (j, t ∷ ts))) h =
      with_more tdas j t ts h.front (count_more sl_to_bitmap fs slot k2 ts) h.split
        (omega (arith, h.at)) h.earlier h.suits (count_more-Counted ts)

  -- If an index and a number are returned, the number is positive, the allocations from the index on,
  -- as many as the number says, all have the k2 asked for and fit into the slot, and none in front of
  -- them does. If none is returned, and the list is ordered by k2, no allocation of the list does.
  pub get_num_ul_tda-Answer :
      (tdas : List TdaInfo) → Answer tdas (get_num_ul_tda sl_to_bitmap fs slot k2 tdas)
  unfolding get_num_ul_tda
  get_num_ul_tda-Answer tdas = count_from-Answer tdas _ (find_first-First 0 tdas)
