-- ===== src/Tests/Tda.antt =====
-- Uplink time domain allocations: gnb_patch/gNB_scheduler_ulsch.c.
use user_ric.Prelude.{
  true, ℕ, ◌+◌, ◌-◌, ◌*◌, ◌^◌, ◌≤◌, ◌≡◌, refl, List, [], ◌∷◌, arith, All, ◌⊎◌, some, none, ◌==◌,
  if◌then◌else◌,
}
use user_ric.Tda.Slot.{UlSlots, get_num_ul_tda}
use user_ric.Tda.Slot.Suitable.{Answer, get_num_ul_tda-Answer}
use user_ric.Tda.{TdaInfo, blocked, get_max_rb_range, get_best_ul_tda}
use user_ric.Tda.Range.{Free, get_max_rb_range_longest}
use user_ric.Tda.Best.{Chosen, score, get_best_ul_tda_highest}

-- Eight blocks: 0 is blocked for the uplink, 3 and 4 are in use in symbols of mask 6.
abbrev used : List ℕ
used = 0 ∷ 0 ∷ 8 ∷ 2 ∷ 4 ∷ 0 ∷ 0 ∷ 0 ∷ []

abbrev prb_black_list : List ℕ
prb_black_list = 1 ∷ 0 ∷ 0 ∷ 0 ∷ 0 ∷ 0 ∷ 0 ∷ 0 ∷ []

abbrev bits_of : ℕ → ℕ → ℕ
bits_of start number = 2 ^ start * (2 ^ number - 1)

abbrev tdas : List TdaInfo
tdas =
    record { valid_tda = true; k2 = 4; start_symbol_index = 0; nr_of_symbols = 3 }
    ∷ record { valid_tda = true; k2 = 4; start_symbol_index = 0; nr_of_symbols = 1 }
    ∷ []

range : get_max_rb_range used prb_black_list 6 0 8 ≡ (5, 3)
unfolding get_max_rb_range blocked
range = refl

get_max_rb_range_longest_example :
    let r = get_max_rb_range used prb_black_list 6 0 8 in
    let taken = blocked used prb_black_list 6 in
    (0 ≤ r.0)
    × (r.0 + r.1 ≤ 8)
    × Free taken r.0 r.1
    × ((a n : ℕ) → 0 ≤ a → a + n ≤ 8 → Free taken a n → n ≤ r.1)
get_max_rb_range_longest_example = get_max_rb_range_longest used prb_black_list 6 0 8 (omega arith)

get_best_ul_tda_highest_example :
    let c = get_best_ul_tda bits_of used prb_black_list 0 8 tdas in
    All (λ t. score bits_of used prb_black_list 0 8 t ≤ c.score) tdas
    × (((c.best_tda ≡ 0) × (c.score ≡ 0) × (c.rb_start ≡ 0) × (c.rb_len ≡ 8))
        ⊎ Chosen bits_of used prb_black_list 0 8 tdas 0 c)
get_best_ul_tda_highest_example = get_best_ul_tda_highest bits_of used prb_black_list 0 8 tdas

-- Slots of a period of five: slot 3 is mixed, with four symbols for the uplink.
abbrev slots : UlSlots
slots = record { numb_slots_period = 5; mixed_ul_symbols = λ s. if s == 3 then some 4 else none }

abbrev listed : List TdaInfo
listed =
    record { valid_tda = true; k2 = 3; start_symbol_index = 0; nr_of_symbols = 13 }
    ∷ record { valid_tda = true; k2 = 4; start_symbol_index = 0; nr_of_symbols = 13 }
    ∷ record { valid_tda = true; k2 = 4; start_symbol_index = 10; nr_of_symbols = 3 }
    ∷ record { valid_tda = true; k2 = 5; start_symbol_index = 0; nr_of_symbols = 13 }
    ∷ []

-- the second allocation is too long for the mixed slot, the third one is not
answers :
    (get_num_ul_tda bits_of slots 8 4 listed ≡ some (some 2, 1))
    × (get_num_ul_tda bits_of slots 8 3 listed ≡ some (none, 0))
unfolding get_num_ul_tda
answers = (refl, refl)

get_num_ul_tda-Answer_example :
    Answer bits_of slots 8 4 listed (get_num_ul_tda bits_of slots 8 4 listed)
get_num_ul_tda-Answer_example = get_num_ul_tda-Answer bits_of slots 8 4 listed
