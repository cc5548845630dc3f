-- ===== src/Tests/Frame.antt =====
-- Frames and slots: gnb_patch/gNB_scheduler_ulsch.c.
use user_ric.Prelude.{ℕ, ◌%◌, ◌≡◌, refl, Bool, ◌==◌, some, arith}
use user_ric.Prelude.Int.{◌-ℤ◌}
use user_ric.Frame.{Fsn, fs_get_max}
use user_ric.Frame.Next.{next_ul_slot}
use user_ric.Frame.Next.First.{First, next_ul_slot-First}

-- the last slot of the last frame
abbrev last : Fsn
last = record { f = 1023; s = 19 }

-- the two uplink slots of a frame of two periods
abbrev uplink : ℕ → Bool
uplink s = s % 10 == 9

-- the first slot that can be reached
abbrev reachable : Fsn
reachable = record { f = 0; s = 4 }

next_ul_slot-First_example :
    First 20 uplink
      (omega arith)
      (fs_get_max 20 last reachable)
      19
      (next_ul_slot 20 1024 uplink 20 last reachable)
next_ul_slot-First_example =
    next_ul_slot-First 20 uplink (omega arith) 9 last reachable (omega arith) refl
      (omega arith, omega arith) (omega arith, omega arith)

-- the search passes the end of the last frame
found : next_ul_slot 20 1024 uplink 20 last reachable ≡ some (record { f = 0; s = 9 })
unfolding next_ul_slot ◌-ℤ◌
found = refl
