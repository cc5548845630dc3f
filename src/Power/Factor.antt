-- ===== src/Power/Factor.antt =====
-- The power that a grant takes, relative to that of one block: `compute_ph_factor` of
-- gnb_patch/gNB_scheduler_ulsch.c, and the part of the band of an uplink grant,
-- `get_pusch_bwp_start_size`.
use user_ric.Prelude.{ℕ, ◌-◌, ◌*◌, ◌^◌, Bool, ◌&&◌, Option, if◌then◌else◌, ◌==◌, is_some, min}
use user_ric.Prelude.Int.{ℤ, pos}
use user_ric.Prelude.Float.{Float}

-- the functions of the C library that are called, with a `float` result
pub record Maths (fl : Float) : Type 0 where
  -- `pow(2, x * 1.25)`
  pub pow2_scaled : fl.F → fl.F
  -- `10 * log10(x)`
  pub decibel : fl.F → fl.F
  -- `(int)roundf(x)`
  pub roundf : fl.F → ℤ

-- `compute_ph_factor`, with the number of subcarriers of a block; the symbols for the reference
-- signals do not take up more than the grant has
unfoldable pub compute_ph_factor :
    (fl : Float) → Maths fl → ℕ → ℕ → ℕ → ℕ → ℕ → ℕ → ℕ → Option ℤ → Bool → ℤ
compute_ph_factor fl maths nr_nb_sc_per_rb mu tbs_bits rb n_layers n_symbols n_dmrs delta_mcs
      include_bw =
    let zero_f = fl.literal (pos 0) 0 in
    let one_f = fl.literal (pos 1) 0 in
    let n_re = (nr_nb_sc_per_rb * n_symbols - n_dmrs) * rb in
    let bpre = fl.div (fl.of_nat tbs_bits) (fl.of_nat n_re) in
    let f = maths.pow2_scaled bpre in
    let delta_tf =
      if is_some delta_mcs && n_layers == 1
      then maths.decibel (fl.mul (fl.sub f one_f) one_f)
      else zero_f in
    let bw_factor = if include_bw then maths.decibel (fl.of_nat (rb * 2 ^ mu)) else zero_f in
    maths.roundf (fl.add delta_tf bw_factor)

-- what decides the part of the band; the first field says that DCI format 0_0 is decoded in a common
-- search space
pub record UlBand : Type 0 where
  pub common_search_space : Bool
  pub bwp_start : ℕ
  pub bwp_size : ℕ
  pub initial_ul_bwp_size : ℕ

-- `get_pusch_bwp_start_size`: the first block and the number of blocks
unfoldable pub get_pusch_bwp_start_size : UlBand → ℕ × ℕ
get_pusch_bwp_start_size b = (
  b.bwp_start,
  if b.common_search_space then min b.bwp_size b.initial_ul_bwp_size else b.bwp_size,
)
