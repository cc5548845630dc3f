-- ===== src/Tests/Link.antt =====
-- Power and activity of a UE: gnb_patch/gNB_scheduler_ulsch.c.
use user_ric.Prelude.{
  ℕ, ◌+◌, ◌-◌, ◌*◌, ◌/◌, ◌≤◌, ◌≡◌, refl, List, [], ◌∷◌, length, arith, Bool, true, false, ◌||◌,
  none, some, if◌then◌else◌, ltb, leb,
}
use user_ric.Prelude.Int.{pos, pos_part, ◌+ℤ◌, ◌-ℤ◌}
use user_ric.Power.{Phy, SchedPusch, UlBwp, nr_ue_max_mcs_min_rb}
use user_ric.Tests.Decimal.{milli}
use user_ric.Power.Factor.{Maths, compute_ph_factor, UlBand, get_pusch_bwp_start_size}
use user_ric.Power.Fit.{Lowered, needed, nr_ue_max_mcs_min_rb_largest}
use user_ric.Bsr.{BsrTables, estimate_ul_buffer_short_bsr, estimate_ul_buffer_long_bsr}
use user_ric.Bsr.Cover.{BsrTablesLaws, margin, reported, bsr_estimates}
use user_ric.Frame.{fs_add_delta}
use user_ric.Activity.{FrameStructure, UlActivity, nr_ue_is_to_be_scheduled}
use user_ric.Activity.Due.{last_ul, nr_ue_is_to_be_scheduled_iff}

-- A power that grows with the blocks and the MCS.
abbrev phy : Phy
phy = record {
  nr_get_code_rate_ul = λ mcs table. 100 * mcs;
  nr_get_qm_ul = λ mcs table. 2;
  nr_compute_tbs = λ qm r rb symbols dmrs oh scaling layers. r * rb;
  compute_ph_factor = λ mu tbs rb layers symbols dmrs delta ce. pos (tbs + rb);
}

abbrev pusch : SchedPusch
pusch = record { nr_of_symbols = 13; n_prb_dmrs = 6; num_dmrs_symb = 2; nr_of_layers = 1 }

abbrev bwp : UlBwp
bwp = record { mcs_table = 0; pusch_config = none }

nr_ue_max_mcs_min_rb_largest_example :
    (rb' : ℕ) × (mcs' : ℕ) × (nr_ue_max_mcs_min_rb phy 1 (pos 2000) pusch bwp 5 20 9
      ≡ some (rb', mcs'))
    × Lowered phy 1 (pos 2000) pusch bwp (needed phy 1 (pos 2000) pusch bwp 9) 5 20 rb'
    × Lowered phy 1 (pos 2000) pusch bwp (λ m. needed phy 1 (pos 2000) pusch bwp m rb') 0 9 mcs'
nr_ue_max_mcs_min_rb_largest_example =
    nr_ue_max_mcs_min_rb_largest phy 1 (pos 2000) pusch bwp 5 20 9 (omega arith) (omega arith)

abbrev tdd : FrameStructure
tdd = record { numb_slots_frame = 20; numb_slots_period = 10; is_tdd = true; first_ul_slot = 8 }

abbrev idle_ue : UlActivity
idle_ue = record {
  estimated_ul_buffer = 0;
  sched_ul_bytes = 0;
  sr = false;
  last_ul_frame = 1023;
  last_ul_slot = 9;
}

nr_ue_is_to_be_scheduled_iff_example :
    let b = fs_add_delta 20 1024 45 (last_ul tdd idle_ue) in
    nr_ue_is_to_be_scheduled tdd idle_ue b.f b.s 2
    ≡ (ltb 0 0 || (false || leb (if ltb 0 2 then 2 * 20 else 10) 45))
nr_ue_is_to_be_scheduled_iff_example =
    nr_ue_is_to_be_scheduled_iff tdd idle_ue 45 2 (omega arith) (omega arith, omega arith)
      (omega arith)

abbrev sizes : BsrTables
sizes = record {
  get_short_bsr_value = λ i. i * 10;
  short_table_size = 32;
  get_long_bsr_value = λ i. i * 7;
  long_table_size = 256;
}

sizes_laws : BsrTablesLaws sizes
sizes_laws = record { short_grows = λ i j h. omega arith; long_grows = λ i j h. omega arith }

abbrev groups : List Bool
groups = true ∷ false ∷ true ∷ false ∷ []

-- the largest index of a short report is not raised
estimates :
    (estimate_ul_buffer_short_bsr sizes 31 ≡ 310)
    × (estimate_ul_buffer_long_bsr sizes groups (λ m. m) ≡ 14)
unfolding estimate_ul_buffer_short_bsr estimate_ul_buffer_long_bsr
estimates = (refl, refl)

bsr_estimates_example :
    (estimate_ul_buffer_short_bsr sizes 31
      ≡ sizes.get_short_bsr_value 31
        + margin sizes sizes_laws sizes.get_short_bsr_value sizes.short_table_size 31)
    × (estimate_ul_buffer_long_bsr sizes groups (λ _. 9)
        ≡ reported sizes sizes_laws (λ _. 9) 0 groups)
    × (estimate_ul_buffer_long_bsr sizes groups (λ _. 9)
        ≤ length groups * sizes.get_long_bsr_value (sizes.long_table_size - 1))
bsr_estimates_example =
    bsr_estimates sizes sizes_laws 31 groups (λ _. 9) (omega arith) (λ k. omega arith)

-- stand-ins for the functions of the C library, on thousandths
abbrev maths : Maths milli
maths = record {
  pow2_scaled = λ x. pos (1000 + 2 * pos_part x);
  decibel = λ x. pos (pos_part x / 2);
  roundf = λ x. pos (pos_part x / 1000);
}

-- 400 bits on 2 blocks, with and without the bandwidth, and on two layers
factors :
    (compute_ph_factor milli maths 12 1 400 2 1 10 20 (some (pos 0)) false ≡ pos 2)
    × (compute_ph_factor milli maths 12 1 400 2 1 10 20 (some (pos 0)) true ≡ pos 4)
    × (compute_ph_factor milli maths 12 1 400 2 2 10 20 (some (pos 0)) true ≡ pos 2)
unfolding compute_ph_factor ◌-ℤ◌ ◌+ℤ◌
factors = (refl, refl, refl)

abbrev half_band : UlBand
half_band = record {
  common_search_space = true;
  bwp_start = 3;
  bwp_size = 50;
  initial_ul_bwp_size = 24;
}

initial_part : get_pusch_bwp_start_size half_band ≡ (3, 24)
unfolding get_pusch_bwp_start_size
initial_part = refl
