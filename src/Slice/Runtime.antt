-- ===== src/Slice/Runtime.antt =====
-- The run-time record of grants, `g_rk_slice_runtime` of gnb_patch/rk_slice_policy.c: for each UE
-- the tick of its last grant and the length of its current run of grants in successive ticks.
-- The counters are C `int`s; a run of 2 ^ 31 ticks is beyond what they are asked to count.
pub mod History
pub mod Tracking
use user_ric.Prelude.{
  ℕ, ◌+◌, Bool, true, false, not, ◌&&◌, List, Option, none, some, if◌then◌else◌, ◌==◌, replicate,
}
use user_ric.Prelude.Int.{ℤ, pos, minus_one, ◌-ℤ◌, leb_ℤ, eqb_ℤ}
use user_ric.Prelude.Alloc.{find_or_create, write_through, deref}

-- `rk_slice_runtime_entry_t`
pub record RuntimeEntry : Type 0 where
  pub rnti : ℕ
  pub valid : Bool
  pub last_dl_tick : ℤ
  pub last_ul_tick : ℤ
  pub dl_consecutive_grants : ℕ
  pub ul_consecutive_grants : ℕ

abbrev pub runtime_max : ℕ
runtime_max = 256

-- `g_rk_slice_runtime` when the program starts: static storage is zero
unfoldable pub initial : List RuntimeEntry
initial = replicate runtime_max (record {
  rnti = 0;
  valid = false;
  last_dl_tick = pos 0;
  last_ul_tick = pos 0;
  dl_consecutive_grants = 0;
  ul_consecutive_grants = 0;
})

abbrev pub holds : ℕ → RuntimeEntry → Bool
holds rnti e = e.valid && e.rnti == rnti

abbrev pub is_free : RuntimeEntry → Bool
is_free e = not e.valid

-- the entry that `rk_find_slice_runtime` writes into a free slot
abbrev pub fresh : ℕ → RuntimeEntry
fresh rnti = record {
  rnti = rnti;
  valid = true;
  last_dl_tick = minus_one;
  last_ul_tick = minus_one;
  dl_consecutive_grants = 0;
  ul_consecutive_grants = 0;
}

-- `rk_find_slice_runtime`: the index of the entry, for the pointer, and the table
unfoldable pub find_slice_runtime : ℕ → Bool → List RuntimeEntry → Option ℕ × List RuntimeEntry
find_slice_runtime rnti = find_or_create (holds rnti) is_free (λ _. fresh rnti)

-- the test on the entry in `rk_slice_runtime_dl_should_throttle`
unfoldable pub dl_limit_reached : ℤ → ℤ → Option RuntimeEntry → Bool
dl_limit_reached now most none = false
dl_limit_reached now most (some e) =
    if eqb_ℤ e.last_dl_tick (now -ℤ pos 1) && leb_ℤ most (pos e.dl_consecutive_grants)
    then true
    else false

-- `rk_slice_runtime_dl_should_throttle`
unfoldable pub dl_should_throttle : ℕ → ℤ → ℤ → List RuntimeEntry → Bool
unfolding dl_limit_reached find_slice_runtime
dl_should_throttle rnti now most t =
    if leb_ℤ most (pos 0)
    then false
    else dl_limit_reached now most (deref (find_slice_runtime rnti false t).0 t)

-- the test on the entry in `rk_slice_runtime_ul_should_throttle`
unfoldable pub ul_limit_reached : ℤ → ℤ → Option RuntimeEntry → Bool
ul_limit_reached now most none = false
ul_limit_reached now most (some e) =
    if eqb_ℤ e.last_ul_tick (now -ℤ pos 1) && leb_ℤ most (pos e.ul_consecutive_grants)
    then true
    else false

-- `rk_slice_runtime_ul_should_throttle`
unfoldable pub ul_should_throttle : ℕ → ℤ → ℤ → List RuntimeEntry → Bool
unfolding ul_limit_reached find_slice_runtime
ul_should_throttle rnti now most t =
    if leb_ℤ most (pos 0)
    then false
    else ul_limit_reached now most (deref (find_slice_runtime rnti false t).0 t)

-- the writes of `rk_slice_runtime_note_dl_grant` through `e`
abbrev pub note_dl : ℤ → RuntimeEntry → RuntimeEntry
note_dl now e = record e {
  dl_consecutive_grants =
      if eqb_ℤ e.last_dl_tick (now -ℤ pos 1) then e.dl_consecutive_grants + 1 else 1;
  last_dl_tick = now;
}

-- the writes of `rk_slice_runtime_note_ul_grant` through `e`
abbrev pub note_ul : ℤ → RuntimeEntry → RuntimeEntry
note_ul now e = record e {
  ul_consecutive_grants =
      if eqb_ℤ e.last_ul_tick (now -ℤ pos 1) then e.ul_consecutive_grants + 1 else 1;
  last_ul_tick = now;
}

-- `rk_slice_runtime_note_dl_grant`
unfoldable pub note_dl_grant : ℕ → ℤ → List RuntimeEntry → List RuntimeEntry
unfolding find_slice_runtime
note_dl_grant rnti now t = write_through (note_dl now) (find_slice_runtime rnti true t)

-- `rk_slice_runtime_note_ul_grant`
unfoldable pub note_ul_grant : ℕ → ℤ → List RuntimeEntry → List RuntimeEntry
unfolding find_slice_runtime
note_ul_grant rnti now t = write_through (note_ul now) (find_slice_runtime rnti true t)
