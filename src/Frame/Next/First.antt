-- ===== src/Frame/Next/First.antt =====
-- The search for the next uplink slot ends, and finds the first one.
use user_ric.Prelude.{
  ℕ, zero, suc, ◌+◌, ◌-◌, ◌/◌, ◌%◌, ◌<◌, ◌≤◌, ◌≡◌, sym, ap, ◌∙◌, inl, inr, Bool, true, false,
  Option, some, arith, Bool-cases, leb, if_ind,
}
use mathlib.Core.Path.{subst}
use native.Mathlib.Nat.{mod-eq_of_lt, div-eq_of_lt, add-mod_right}
use user_ric.Prelude.Int.{pos, leb_ℤ}
use user_ric.Frame.{Fsn, fs_add_delta, fs_get_diff, fs_get_max}
use user_ric.Frame.Laws.{IsFsn, fs_add_delta-fs_add_delta}
use user_ric.Frame.Next.{go_on, next_ul_slot}

module _ (n : ℕ) (is_ul_slot : ℕ → Bool) (some_slot : 0 < n) where
  -- the slot that lies `d` slots after `a`
  abbrev pub after : ℕ → Fsn → Fsn
  after d a = fs_add_delta n 1024 d a

  -- the first uplink slot from `a` on, at most `limit` slots later
  pub record First (a : Fsn) (limit : ℕ) (found : Option Fsn) : Type 0 where
    pub distance : ℕ
    pub near : distance ≤ limit
    pub reached : found ≡ some (after distance a)
    pub is_uplink : is_ul_slot (after distance a).s ≡ true
    pub no_earlier : (e : ℕ) → e < distance → is_ul_slot (after e a).s ≡ false

  pub after_zero : (a : Fsn) → IsFsn n a → after 0 a ≡ a
  unfolding fs_add_delta
  after_zero a v =
      let whole : a.s + 0 ≡ a.s = omega arith in
      let none_over : (a.s + 0) / n ≡ 0 = ap (λ x. x / n) whole ∙ div-eq_of_lt v.1 in
      let slot_eq : (a.s + 0) % n ≡ a.s = ap (λ x. x % n) whole ∙ mod-eq_of_lt v.1 in
      let frame_eq : (a.f + (a.s + 0) / n) % 1024 ≡ a.f = omega (arith, none_over, v) in
      λ i. record { f = frame_eq i; s = slot_eq i }

  pub later_again : (d : ℕ) (a : Fsn) → after d (after 1 a) ≡ after (suc d) a
  later_again d a =
      (fs_add_delta-fs_add_delta n 1 d a some_slot).1 ∙ ap (λ x. after x a) (omega arith)

  is_first : (a : Fsn) (limit : ℕ) → IsFsn n a → is_ul_slot a.s ≡ true → First a limit (some a)
  is_first a limit v up = record {
    distance = 0;
    near = omega arith;
    reached = ap some (sym (after_zero a v));
    is_uplink = subst (λ b. is_ul_slot b.s ≡ true) (sym (after_zero a v)) up;
    no_earlier = λ e l. absurd (omega arith);
  }

  earlier :
      (a : Fsn) (d : ℕ)
      → IsFsn n a
      → is_ul_slot a.s ≡ false
      → ((e : ℕ) → e < d → is_ul_slot (after e (after 1 a)).s ≡ false)
      → (e : ℕ) → e < suc d
      → is_ul_slot (after e a).s ≡ false
  earlier a d v down rest zero l = subst (λ b. is_ul_slot b.s ≡ false) (sym (after_zero a v)) down
  earlier a d v down rest (suc e) l =
      subst (λ b. is_ul_slot b.s ≡ false) (later_again e a) (rest e (omega arith))

  one_later :
      (a : Fsn) (k : ℕ) (found : Option Fsn)
      → IsFsn n a
      → is_ul_slot a.s ≡ false
      → First (after 1 a) k found
      → First a (suc k) found
  one_later a k found v down first = record {
    distance = suc first.distance;
    near = omega (arith, first.near);
    reached = first.reached ∙ ap some (later_again first.distance a);
    is_uplink = subst (λ b. is_ul_slot b.s ≡ true) (later_again first.distance a) first.is_uplink;
    no_earlier = earlier a first.distance v down first.no_earlier;
  }

  -- an uplink slot that is `k` slots away is found within `k` rounds, or an earlier one is
  go_on-First :
      (fuel k : ℕ) (a : Fsn)
      → IsFsn n a
      → k ≤ fuel
      → is_ul_slot (after k a).s ≡ true
      → First a k (go_on n 1024 is_ul_slot fuel a)
  unfolding go_on
  go_on-First zero zero a v l h =
      let up = subst (λ b. is_ul_slot b.s ≡ true) (after_zero a v) h in rw up (is_first a zero v up)
  go_on-First zero (suc k) a v l h = absurd (omega arith)
  go_on-First (suc fuel) zero a v l h =
      let up = subst (λ b. is_ul_slot b.s ≡ true) (after_zero a v) h in rw up (is_first a zero v up)
  go_on-First (suc fuel) (suc k) a v l h = elim (Bool-cases (is_ul_slot a.s)) [
    | inl up ↦ rw up (is_first a (suc k) v up)
    | inr down ↦ rw down (
        one_later a k (go_on n 1024 is_ul_slot fuel (after 1 a)) v down (
          go_on-First fuel k (after 1 a) (fs_add_delta-fs_add_delta n 1 0 a some_slot).0
            (omega arith) (subst (λ b. is_ul_slot b.s ≡ true) (sym (later_again k a)) h)))
  ]

  weaken :
      (a : Fsn) (k limit : ℕ) (found : Option Fsn)
      → k ≤ limit
      → First a k found
      → First a limit found
  weaken a k limit found l first = record {
    distance = first.distance;
    near = omega (arith, l, first.near);
    reached = first.reached;
    is_uplink = first.is_uplink;
    no_earlier = first.no_earlier;
  }

  -- each slot number is reached within a frame
  distance_to : (a : Fsn) (t : ℕ) → IsFsn n a → t < n → (k : ℕ) × (k + 1 ≤ n) × ((after k a).s ≡ t)
  unfolding fs_add_delta
  distance_to a t v l = elim (Bool-cases (leb a.s t)) [
    | inl ahead ↦
        let before : a.s ≤ t = ground (arith, ahead) in
        let sum : a.s + (t - a.s) ≡ t = omega (arith, before) in
        (t - a.s, omega arith, ap (λ x. x % n) sum ∙ mod-eq_of_lt l)
    | inr behind ↦
        let past : t < a.s = ground (arith, behind) in
        let sum : a.s + (t + n - a.s) ≡ t + n = omega (arith, past, v) in
        (
          t + n - a.s,
          omega (arith, past, v),
          ap (λ x. x % n) sum ∙ add-mod_right t n ∙ mod-eq_of_lt l,
        )
  ]

  pub max-IsFsn : (a b : Fsn) → IsFsn n a → IsFsn n b → IsFsn n (fs_get_max n a b)
  unfolding fs_get_max
  max-IsFsn a b va vb = if_ind (IsFsn n) (leb_ℤ (fs_get_diff n a b) (pos 0)) b a (λ _. vb) (λ _. va)

  -- If a frame has an uplink slot at all, the search ends within as many rounds as a frame has slots:
  -- it gives the first uplink slot that does not lie before the later of the two slots it is called
  -- with, less than a frame later. Frames are numbered from 0 to 1023.
  pub next_ul_slot-First :
      (t : ℕ) (next min_next : Fsn)
      → t < n
      → is_ul_slot t ≡ true
      → IsFsn n next
      → IsFsn n min_next
      → First (fs_get_max n next min_next) (n - 1) (next_ul_slot n 1024 is_ul_slot n next min_next)
  unfolding next_ul_slot
  next_ul_slot-First t next min_next l up v w =
      let a = fs_get_max n next min_next in
      let valid = max-IsFsn next min_next v w in
      let (k, near, at) = distance_to a t valid l in
      weaken a k (n - 1) (go_on n 1024 is_ul_slot n a) (omega arith)
        (go_on-First n k a valid (omega arith) (subst (λ x. is_ul_slot x ≡ true) (sym at) up))
