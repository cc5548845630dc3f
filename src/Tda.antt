-- ===== src/Tda.antt =====
-- The choice of an uplink time domain allocation: `get_max_rb_range` and `get_best_ul_tda` of
-- gnb_patch/gNB_scheduler_ulsch.c.
pub mod Range
pub mod Best
pub mod Slot
use Prim.Native.Nat.{bit_and}
use user_ric.Prelude.{
  ℕ, zero, suc, ◌+◌, ◌-◌, ◌*◌, Bool, true, false, not, ◌&&◌, List, [], ◌∷◌, if◌then◌else◌, ◌==◌,
  ltb, get_or,
}

-- the local variables of `get_max_rb_range`
pub record Runs : Type 0 where
  pub best_start : ℕ
  pub best_len : ℕ
  pub current_start : ℕ
  pub current_len : ℕ

-- this block is blocked for the uplink, or already in use
unfoldable pub blocked : List ℕ → List ℕ → ℕ → ℕ → Bool
blocked vrb_map_ul ulprbbl mask rb =
    not (get_or ulprbbl rb 0 == 0 && bit_and mask (get_or vrb_map_ul rb 0) == 0)

-- the better of the best run and the current one
abbrev pub keep_best : Runs → Runs
keep_best r =
    if ltb r.best_len r.current_len
    then record r { best_start = r.current_start; best_len = r.current_len }
    else r

-- the body of the loop
unfoldable pub visit : Bool → ℕ → Runs → Runs
visit false rb r = record r { current_len = r.current_len + 1 }
visit true rb r = record (keep_best r) { current_start = rb + 1; current_len = 0 }

-- the loop, with the rounds left
unfoldable pub visit_all : (ℕ → Bool) → ℕ → ℕ → Runs → Runs
unfolding visit
visit_all taken zero rb r = r
visit_all taken (suc rounds) rb r = visit_all taken rounds (suc rb) (visit (taken rb) rb r)

-- `get_max_rb_range`: the new values of `*rb_start` and `*rb_len`
unfoldable pub get_max_rb_range : List ℕ → List ℕ → ℕ → ℕ → ℕ → ℕ × ℕ
unfolding visit_all
get_max_rb_range vrb_map_ul ulprbbl mask rb_start rb_len =
    let begin : Runs = record {
      best_start = rb_start;
      best_len = 0;
      current_start = rb_start;
      current_len = 0;
    } in
    let r =
      keep_best (visit_all (blocked vrb_map_ul ulprbbl mask) (rb_len - rb_start) rb_start begin) in
    (r.best_start, r.best_len)

-- `NR_tda_info_t`, as far as it is used
pub record TdaInfo : Type 0 where
  pub valid_tda : Bool
  pub k2 : ℕ
  pub start_symbol_index : ℕ
  pub nr_of_symbols : ℕ

-- the choice so far: the index of the allocation, its score and its range
pub record Choice : Type 0 where
  pub best_tda : ℕ
  pub score : ℕ
  pub rb_start : ℕ
  pub rb_len : ℕ

-- `SL_to_bitmap` is the gNB's
module _ (sl_to_bitmap : ℕ → ℕ → ℕ) (vrb_map_ul ulprbbl : List ℕ)
    (check_rb_start check_rb_len : ℕ) where
  -- the range of an allocation, and its score
  abbrev pub range_of : TdaInfo → ℕ × ℕ
  range_of t =
      get_max_rb_range vrb_map_ul ulprbbl (sl_to_bitmap t.start_symbol_index t.nr_of_symbols)
        check_rb_start check_rb_len

  abbrev pub score_of : TdaInfo → ℕ
  score_of t = t.nr_of_symbols * (range_of t).1

  -- the loop over the allocations, from index `i` on
  unfoldable pub choose : ℕ → List TdaInfo → Choice → Choice
  unfolding get_max_rb_range
  choose i [] c = c
  choose i (t ∷ ts) c =
      let r = range_of t in
      choose (suc i) ts (
        if ltb c.score (score_of t)
        then record { best_tda = i; score = score_of t; rb_start = r.0; rb_len = r.1 }
        else c)

  -- `get_best_ul_tda`: the index of the allocation, with its score and its range
  unfoldable pub get_best_ul_tda : List TdaInfo → Choice
  unfolding choose
  get_best_ul_tda tdas =
      choose 0 tdas
        (record { best_tda = 0; score = 0; rb_start = check_rb_start; rb_len = check_rb_len })
