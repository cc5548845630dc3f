-- ===== src/Tests/Preprocessor.antt =====
-- Rounds of the uplink preprocessor: gnb_patch/gNB_scheduler_ulsch.c.
use user_ric.Prelude.{
  ℕ, ◌≡◌, refl, List, [], ◌∷◌, Option, some, none, arith, replicate, map, take, get_or,
}
use user_ric.Prelude.Int.{◌+ℤ◌}
use user_ric.Slice.Assoc
use user_ric.Frame.{Fsn}
use user_ric.Frame.Next
use user_ric.Prelude.Slots.{modify, find_index, count}
use user_ric.Prelude.Alloc.{deref, find_or_create}
use user_ric.Slice.Policy.{policy_get}
use user_ric.UeLa.{get_min_grant_prb, get_ul_max_mcs}
use user_ric.Tda.{blocked}
use user_ric.Ul.{UlGnb, UlConfig}
use user_ric.Ul.Preprocessor.{
  UlMac, UlSetup, Outcome, ended, plan, next_found, nr_ulsch_preprocessor,
}
use user_ric.Ul.Preprocessor.Target.{Reaches, plan-Reaches}
use user_ric.Ul.Preprocessor.Ends.{Ends, nr_ulsch_preprocessor-Ends}
use user_ric.Tests.Harq.{plain}
use user_ric.Tests.Decimal.{milli}
use user_ric.Tests.Uplink.{cell, config, ul_cell, new_tda, no_file}

-- up to six grants in a slot, and uplink slots that are one slot away
abbrev gnb : UlGnb
gnb = record cell { nr_nb_reg_per_cce = 1 }

abbrev near : UlConfig
near = record config { min_rxtx_time = 1 }

abbrev set_up : UlSetup
set_up = record {
  slots = record { numb_slots_period = 10; mixed_ul_symbols = λ _. none };
  ul_tda =
      record new_tda { k2 = 1 }
      ∷ record new_tda { k2 = 2; nr_of_symbols = 3 }
      ∷ record new_tda { k2 = 2 }
      ∷ [];
  ulprbbl = [];
  ul_buffer_index = λ f s. s;
}

-- the last downlink slot of a period
abbrev last_one : Fsn
last_one = record { f = 5; s = 7 }

abbrev mac : UlMac milli plain gnb
mac = record {
  ul_next = record { f = 0; s = 0 };
  policy = ul_cell.policy;
  ues = ul_cell.ues;
  runtime = [];
  world = tt;
  vrb_map_ul = replicate 20 (replicate 24 0 ∷ []);
}

plan-Reaches_example :
    Reaches milli plain gnb near set_up last_one
      (next_found milli plain gnb near set_up last_one mac)
      (plan milli plain gnb near set_up last_one mac)
plan-Reaches_example =
    plan-Reaches milli plain gnb near set_up last_one (omega arith) refl (omega arith, omega arith)
      (omega arith, (omega arith, (omega arith, tt))) mac (omega arith, omega arith)

nr_ulsch_preprocessor-Ends_example :
    Ends (
      nr_ulsch_preprocessor milli plain gnb near set_up last_one (λ _. no_file) Assoc.initial 4 mac)
nr_ulsch_preprocessor-Ends_example =
    nr_ulsch_preprocessor-Ends milli plain gnb near set_up last_one (omega arith) refl
      (omega arith, omega arith) 2 8 (omega arith, (omega arith, (omega arith, tt))) (omega arith)
      (omega arith) (omega arith) refl (λ _. no_file) Assoc.initial 4 mac (omega arith, omega arith)
      (omega arith)

-- the slot that is next after the call, and the first words of the two slots of the passes
abbrev left : Outcome (UlMac milli plain gnb) → Option (Fsn × List (List ℕ))
left (ended m) =
    some (m.ul_next, map (λ i. take 9 (get_or (get_or m.vrb_map_ul i []) 0 [])) (8 ∷ 9 ∷ []))
left o = none

-- Slot 8 begins with a retransmission in four symbols and goes on with new transmissions in six. The
-- uplink slot after slot 9, slot 18, is out of reach.
preprocessor_result :
    left (
      nr_ulsch_preprocessor milli plain gnb near set_up last_one (λ _. no_file) Assoc.initial 4 mac)
    ≡ some (
      record { f = 5; s = 18 },
      (15 ∷ 15 ∷ 15 ∷ 15 ∷ 15 ∷ 63 ∷ 63 ∷ 63 ∷ 63 ∷ [])
          ∷ (63 ∷ 63 ∷ 63 ∷ 63 ∷ 63 ∷ 63 ∷ 63 ∷ 63 ∷ 63 ∷ [])
          ∷ [],
    )
unfolding nr_ulsch_preprocessor Next.next_ul_slot blocked ◌+ℤ◌ modify get_min_grant_prb deref
    find_index get_ul_max_mcs policy_get Assoc.get_ul_id find_or_create Assoc.initial count
preprocessor_result = refl
