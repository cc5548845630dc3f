-- ===== src/Tests/Order.antt =====
-- The order of UEs: gnb_patch/gNB_scheduler_dlsch.c and gnb_patch/gNB_scheduler_ulsch.c.
use user_ric.Prelude.{◌≤◌, ◌≡◌, refl, List, [], ◌∷◌, arith, true, false}
use user_ric.Prelude.Int.{pos, ◌-ℤ◌}
use user_ric.Prelude.Slots.{find_index}
use user_ric.Prelude.Alloc.{deref}
use user_ric.Slice.Assoc
use user_ric.Slice.Runtime.Tracking.{Grant, replay, distinct, granted}
use user_ric.Slice.Runtime.History.{dl_ticks, ul_ticks, limit_filled, run_ending}
use user_ric.UeLa
use user_ric.UeDl
use user_ric.Order.{
  dl_maxcg, ul_maxcg, dl_final_coeff, ul_final_coeff, dl_comparator, ul_comparator,
}
use user_ric.Order.Throttled.{throttled_last}
use user_ric.Tests.Decimal.{milli, milli_laws}

abbrev grants : List Grant
grants = Grant.dl 7 (pos 11) ∷ Grant.ul 7 (pos 11) ∷ Grant.dl 8 (pos 10) ∷ []

abbrev dl_table : List (UeDl.DlEntry milli)
dl_table =
    record {
      rnti = 7;
      used = true;
      settings = record (UeDl.unset_settings milli) { dl_maxcg_override = pos 1 };
    }
    ∷ []

abbrev ul_table : List (UeLa.LaEntry milli)
ul_table =
    record {
      rnti = 7;
      valid = true;
      settings = record (UeLa.unset_settings milli) { ul_maxcg_override = pos 1 };
    }
    ∷ []

few_ues : distinct grants ≤ 256
unfolding distinct granted
few_ues = omega arith

dl_filled :
    limit_filled
      (pos 12)
      (dl_maxcg milli 7 (pos 12) Assoc.initial (replay grants) dl_table)
      (dl_ticks 7 grants)
    ≡ true
unfolding dl_maxcg UeDl.get_maxcg_override find_index run_ending dl_ticks ◌-ℤ◌ deref
dl_filled = refl

ul_filled :
    limit_filled
      (pos 12)
      (ul_maxcg milli 7 (pos 12) Assoc.initial (replay grants) ul_table)
      (ul_ticks 7 grants)
    ≡ true
unfolding ul_maxcg UeLa.get_ul_maxcg_override UeLa.get_entry find_index run_ending ul_ticks ◌-ℤ◌
    deref
ul_filled = refl

throttled_last_example :
    (dl_comparator milli
        (dl_final_coeff milli 7 (pos 12) Assoc.initial (replay grants) dl_table (pos 5000) 40)
        (pos 1)
      ≡ pos 1)
    × (ul_comparator milli
          (record {
            coef =
                ul_final_coeff milli 7
                  (pos 12)
                  Assoc.initial
                  (replay grants)
                  ul_table
                  (pos 5000)
                  40;
            sched_inactive = false;
          })
          (record { coef = pos 1; sched_inactive = false })
        ≡ pos 1)
throttled_last_example =
    throttled_last milli milli_laws grants 7 (pos 12) Assoc.initial dl_table ul_table (pos 5000)
      (pos 1) 40 few_ues refl dl_filled ul_filled
