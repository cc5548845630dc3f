-- ===== src/Frame/Next/Later.antt =====
-- What the search for the next uplink slot finds, if it finds one at all.
use user_ric.Prelude.{
  ℕ, zero, suc, ◌<◌, ◌≤◌, ◌≡◌, sym, ◌∙◌, Bool, true, Option, none, some, arith, if_ind,
}
use mathlib.Core.Path.{subst}
use user_ric.Frame.{Fsn, fs_get_max}
use user_ric.Frame.Laws.{IsFsn, fs_add_delta-fs_add_delta}
use user_ric.Frame.Next.{go_on, next_ul_slot}
use user_ric.Frame.Next.First.{after, after_zero, later_again, max-IsFsn}
use user_ric.Dl.Serve.Rule.{WhenSome}

module _ (n : ℕ) (is_ul_slot : ℕ → Bool) (some_slot : 0 < n) where
  -- an uplink slot, at most `limit` slots after `a`
  abbrev pub UplinkAfter : Fsn → ℕ → Fsn → Type 0
  UplinkAfter a limit b =
      (is_ul_slot b.s ≡ true) × (e : ℕ) × (e ≤ limit) × (b ≡ after n is_ul_slot some_slot e a)

  here : (a : Fsn) (limit : ℕ) → IsFsn n a → is_ul_slot a.s ≡ true → UplinkAfter a limit a
  here a limit v up = (up, 0, omega arith, sym (after_zero n is_ul_slot some_slot a v))

  one_later :
      (a : Fsn) (limit : ℕ) (o : Option Fsn)
      → WhenSome (UplinkAfter (after n is_ul_slot some_slot 1 a) limit) o
      → WhenSome (UplinkAfter a (suc limit)) o
  one_later a limit none h = tt
  one_later a limit (some b) (up, e, l, eq) =
      (up, suc e, omega (arith, l), eq ∙ later_again n is_ul_slot some_slot e a)

  go_on-UplinkAfter :
      (fuel : ℕ) (a : Fsn)
      → IsFsn n a
      → WhenSome (UplinkAfter a fuel) (go_on n 1024 is_ul_slot fuel a)
  unfolding go_on
  go_on-UplinkAfter zero a v =
      if_ind (WhenSome (UplinkAfter a 0)) (is_ul_slot a.s) (some a) none (here a 0 v) (λ _. tt)
  go_on-UplinkAfter (suc fuel) a v =
      let next = after n is_ul_slot some_slot 1 a in
      let rest = go_on n 1024 is_ul_slot fuel next in
      if_ind (WhenSome (UplinkAfter a (suc fuel))) (is_ul_slot a.s) (some a) rest
        (here a (suc fuel) v)
        (λ _.
          one_later a fuel rest
            (go_on-UplinkAfter fuel next (fs_add_delta-fs_add_delta n 1 0 a some_slot).0))

  -- what is found is an uplink slot not before the later of the two slots
  pub next_ul_slot-UplinkAfter :
      (most_frames fuel : ℕ) (next min_next : Fsn)
      → most_frames ≡ 1024
      → IsFsn n next
      → IsFsn n min_next
      → WhenSome
          (UplinkAfter (fs_get_max n next min_next) fuel)
          (next_ul_slot n most_frames is_ul_slot fuel next min_next)
  unfolding next_ul_slot
  next_ul_slot-UplinkAfter most_frames fuel next min_next full v w =
      let a = fs_get_max n next min_next in
      subst (λ m. WhenSome (UplinkAfter a fuel) (go_on n m is_ul_slot fuel a)) (sym full)
        (go_on-UplinkAfter fuel a (max-IsFsn n is_ul_slot some_slot next min_next v w))
