-- ===== src/Slice/Runtime/History.antt =====
-- The throttling test against the history of grants.
use user_ric.Prelude.{
  ℕ, suc, ◌+◌, ◌≤◌, ◌≡◌, refl, sym, ◌∙◌, ◌⊎◌, inl, inr, Bool, true, false, List, [], ◌∷◌, none,
  some, arith, if◌then◌else◌, ◌==◌, ◌&&◌, Bool-cases,
}
use user_ric.Prelude.Int.{ℤ, minus_one, eqb_ℤ_iff, pos, ◌-ℤ◌, leb_ℤ, eqb_ℤ, ltb_ℤ}
use user_ric.Prelude.Alloc.{deref-find_or_create}
use user_ric.Slice.Runtime.{
  RuntimeEntry, holds, is_free, fresh, dl_should_throttle, ul_should_throttle, dl_limit_reached,
  ul_limit_reached, runtime_max,
}
use user_ric.Slice.Runtime.Tracking.{
  Grant, dl, ul, replay, track, entry, granted, distinct, replay-Recorded, replay-Complete,
}

-- the ticks of the grants of one UE in one direction, the latest first
unfoldable pub dl_ticks : ℕ → List Grant → List ℤ
dl_ticks q [] = []
dl_ticks q (dl r now ∷ gs) = let ts = dl_ticks q gs in if r == q then now ∷ ts else ts
dl_ticks q (ul r now ∷ gs) = dl_ticks q gs

unfoldable pub ul_ticks : ℕ → List Grant → List ℤ
ul_ticks q [] = []
ul_ticks q (ul r now ∷ gs) = let ts = ul_ticks q gs in if r == q then now ∷ ts else ts
ul_ticks q (dl r now ∷ gs) = ul_ticks q gs

-- How many of the latest grants came at the ticks t, t - 1, t - 2, and so on.
unfoldable pub run_ending : ℤ → List ℤ → ℕ
run_ending t [] = 0
run_ending t (x ∷ xs) =
    let earlier = run_ending (t -ℤ pos 1) xs in if eqb_ℤ x t then suc earlier else 0

abbrev last_tick : List ℤ → ℤ
last_tick [] = minus_one
last_tick (x ∷ xs) = x

-- The run that ends at `t` is the run that ends at the latest grant, if that came at `t`.
run_ending-last :
    (t : ℤ) (ts : List ℤ)
    → run_ending t ts ≡ (if eqb_ℤ (last_tick ts) t then run_ending (last_tick ts) ts else 0)
unfolding run_ending
run_ending-last t [] = ground arith
run_ending-last t (x ∷ xs) = elim (Bool-cases (eqb_ℤ x t)) [
  | inl same ↦ let e : x ≡ t = (eqb_ℤ_iff x t).0 same in rw (e, (eqb_ℤ_iff t t).1 refl)
  | inr d ↦ rw d
]

-- One more grant extends the run, or starts one.
run_ending-cons :
    (now : ℤ) (ts : List ℤ)
    → run_ending now (now ∷ ts)
      ≡ (if eqb_ℤ (last_tick ts) (now -ℤ pos 1) then run_ending (last_tick ts) ts + 1 else 1)
unfolding run_ending
run_ending-cons now ts =
    rw ((eqb_ℤ_iff now now).1 refl) (ground (arith, run_ending-last (now -ℤ pos 1) ts))

track-dl :
    (q : ℕ) (gs : List Grant)
    → ((track q gs).last_dl_tick ≡ last_tick (dl_ticks q gs))
      × ((track q gs).dl_consecutive_grants
          ≡ run_ending (last_tick (dl_ticks q gs)) (dl_ticks q gs))
unfolding track dl_ticks
track-dl q [] = (refl, unfold run_ending in refl)
track-dl q (ul r now ∷ gs) = ground (arith, track-dl q gs)
track-dl q (dl r now ∷ gs) = ground (arith, track-dl q gs, run_ending-cons now (dl_ticks q gs))

track-ul :
    (q : ℕ) (gs : List Grant)
    → ((track q gs).last_ul_tick ≡ last_tick (ul_ticks q gs))
      × ((track q gs).ul_consecutive_grants
          ≡ run_ending (last_tick (ul_ticks q gs)) (ul_ticks q gs))
unfolding track ul_ticks
track-ul q [] = (refl, unfold run_ending in refl)
track-ul q (dl r now ∷ gs) = ground (arith, track-ul q gs)
track-ul q (ul r now ∷ gs) = ground (arith, track-ul q gs, run_ending-cons now (ul_ticks q gs))

-- the limit is set, and the latest grants fill it up to the tick before `now`
abbrev pub limit_filled : ℤ → ℤ → List ℤ → Bool
limit_filled now most ts = ltb_ℤ (pos 0) most && leb_ℤ most (pos (run_ending (now -ℤ pos 1) ts))

limit_reached-track :
    (q : ℕ) (now most : ℤ) (gs : List Grant)
    → leb_ℤ most (pos 0) ≡ false
    → (dl_limit_reached now most (some (track q gs)) ≡ limit_filled now most (dl_ticks q gs))
      × (ul_limit_reached now most (some (track q gs)) ≡ limit_filled now most (ul_ticks q gs))
unfolding dl_limit_reached ul_limit_reached
limit_reached-track q now most gs h = (
  ground (arith, track-dl q gs, run_ending-last (now -ℤ pos 1) (dl_ticks q gs)),
  ground (arith, track-ul q gs, run_ending-last (now -ℤ pos 1) (ul_ticks q gs)),
)

should_throttle-entry :
    (q : ℕ) (now most : ℤ) (t : List RuntimeEntry)
    → (dl_should_throttle q now most t
        ≡ (if leb_ℤ most (pos 0) then false else dl_limit_reached now most (entry q t)))
      × (ul_should_throttle q now most t
          ≡ (if leb_ℤ most (pos 0) then false else ul_limit_reached now most (entry q t)))
unfolding dl_should_throttle ul_should_throttle entry
should_throttle-entry q now most t =
    let e = deref-find_or_create (holds q) is_free (λ _. fresh q) (λ x. x) t in rw e (refl, refl)

ticks_ungranted :
    (q : ℕ) (gs : List Grant) → granted q gs ≡ false → (dl_ticks q gs ≡ []) × (ul_ticks q gs ≡ [])
unfolding granted dl_ticks ul_ticks
ticks_ungranted q [] h = (refl, refl)
ticks_ungranted q (dl r now ∷ gs) h = ground (arith, ticks_ungranted q gs)
ticks_ungranted q (ul r now ∷ gs) h = ground (arith, ticks_ungranted q gs)

either : {a b : Bool} → (a ≡ true) ⊎ (a ≡ false) → a ≡ b → (a ≡ false) ⊎ (b ≡ true)
either (inl h) e = inr (sym e ∙ h)
either (inr h) e = inl h

-- The two tests in terms of the history.
abbrev pub Throttles : ℕ → ℤ → ℤ → List Grant → Type 0
Throttles q now most gs =
    (dl_should_throttle q now most (replay gs) ≡ limit_filled now most (dl_ticks q gs))
    × (ul_should_throttle q now most (replay gs) ≡ limit_filled now most (ul_ticks q gs))

Throttles-held :
    (q : ℕ) (now most : ℤ) (gs : List Grant)
    → entry q (replay gs) ≡ some (track q gs)
    → Throttles q now most gs
Throttles-held q now most gs e = elim (Bool-cases (leb_ℤ most (pos 0))) [
  | inl off ↦ ground (arith, should_throttle-entry q now most (replay gs))
  | inr on ↦
      ground (
        arith,
        should_throttle-entry q now most (replay gs),
        limit_reached-track q now most gs on,
        e,
      )
]

Throttles-absent :
    (q : ℕ) (now most : ℤ) (gs : List Grant)
    → entry q (replay gs) ≡ none
    → (dl_should_throttle q now most (replay gs) ≡ false)
      × (ul_should_throttle q now most (replay gs) ≡ false)
unfolding dl_limit_reached ul_limit_reached
Throttles-absent q now most gs n = ground (arith, should_throttle-entry q now most (replay gs), n)

-- While no more than 256 UEs have had grants, a UE is throttled in a direction at a tick exactly if
-- its limit k is positive and its k latest grants in that direction, taken from the latest back, came
-- at the tick just before, at the one before that, and so on, one at each of the k ticks. Grants of
-- other UEs and of the other direction play no part.
pub should_throttle-replay :
    (gs : List Grant) (q : ℕ) (now most : ℤ) → distinct gs ≤ runtime_max → Throttles q now most gs
unfolding run_ending
should_throttle-replay gs q now most few = elim (Bool-cases (granted q gs)) [
  | inl old ↦ Throttles-held q now most gs ((replay-Complete gs few).1 q old)
  | inr new ↦ elim (replay-Recorded q gs) [
    | inl e ↦ Throttles-held q now most gs e
    | inr (n, _) ↦ ground (arith, Throttles-absent q now most gs n, ticks_ungranted q gs new)
  ]
]

-- However many UEs there are, a UE that is throttled in a direction has had a grant in that
-- direction at each of the ticks that its limit counts, just before.
pub should_throttle_sound :
    (gs : List Grant) (q : ℕ) (now most : ℤ)
    → ((dl_should_throttle q now most (replay gs) ≡ false)
        ⊎ (limit_filled now most (dl_ticks q gs) ≡ true))
      × ((ul_should_throttle q now most (replay gs) ≡ false)
          ⊎ (limit_filled now most (ul_ticks q gs) ≡ true))
should_throttle_sound gs q now most = elim (replay-Recorded q gs) [
  | inl e ↦
      let t = Throttles-held q now most gs e in
      (either (Bool-cases _) t.0, either (Bool-cases _) t.1)
  | inr (n, _) ↦ let t = Throttles-absent q now most gs n in (inl t.0, inl t.1)
]
