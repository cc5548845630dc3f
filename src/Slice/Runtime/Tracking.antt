-- ===== src/Slice/Runtime/Tracking.antt =====
-- The grant table after any sequence of grants, UE by UE.
use mathlib.Core.Path.{subst}
use user_ric.Prelude.{
  ℕ, ◌+◌, ◌<◌, ◌≤◌, ◌≡◌, ◌≢◌, refl, ◌∙◌, ◌⊎◌, inl, inr, Bool, true, false, List, [], ◌∷◌, Option,
  none, some, arith, if◌then◌else◌, ◌==◌, ◌||◌, length, Bool-cases, Option-cases, ==_iff,
}
use user_ric.Prelude.Int.{ℤ}
use user_ric.Prelude.Slots.{find, count, room_cases}
use user_ric.Prelude.Alloc.{
  find_or_create, write_through, written, length-upsert, find-upsert, find-upsert_other,
  count-upsert,
}
use user_ric.Slice.Runtime.{
  RuntimeEntry, holds, is_free, fresh, note_dl, note_ul, note_dl_grant, note_ul_grant, initial,
  runtime_max,
}

-- One grant: the UE and the tick.
pub data Grant : Type 0 where
  dl : ℕ → ℤ → Grant
  ul : ℕ → ℤ → Grant

abbrev pub ue : Grant → ℕ
ue (dl q _) = q
ue (ul q _) = q

-- its effect on an entry, and on the table
abbrev pub mark : Grant → RuntimeEntry → RuntimeEntry
mark (dl _ now) = note_dl now
mark (ul _ now) = note_ul now

unfoldable pub note : Grant → List RuntimeEntry → List RuntimeEntry
note (dl q now) = note_dl_grant q now
note (ul q now) = note_ul_grant q now

-- The table after a sequence of grants, the latest first.
unfoldable pub replay : List Grant → List RuntimeEntry
replay [] = initial
replay (g ∷ gs) = note g (replay gs)

-- What the grants of one UE amount to.
unfoldable pub track : ℕ → List Grant → RuntimeEntry
track q [] = fresh q
track q (g ∷ gs) = let e = track q gs in if ue g == q then mark g e else e

-- the entry of a UE
unfoldable pub entry : ℕ → List RuntimeEntry → Option RuntimeEntry
entry q = find (holds q)

unfoldable pub used : List RuntimeEntry → ℕ
used = count (λ e. e.valid)

-- A grant writes the entry of its UE, found or created.
note-eq-write :
    (g : Grant) (t : List RuntimeEntry)
    → note g t
      ≡ write_through (mark g) (find_or_create (holds (ue g)) is_free (λ _. fresh (ue g)) true t)
unfolding note note_dl_grant note_ul_grant
note-eq-write (dl q now) t = refl
note-eq-write (ul q now) t = refl

fills_up : (t : List RuntimeEntry) → find is_free t ≡ none → used t ≡ length t
unfolding used
fills_up t f = elim (room_cases (λ e. e.valid) t) [
  | inr (l, _) ↦ l
  | inl (_, (e, h)) ↦ absurd (ground (arith, f, h))
]

module _ (g : Grant) where
  keeps :
      (q : ℕ) (x : RuntimeEntry) → (holds q (mark g x) ≡ holds q x) × ((mark g x).valid ≡ x.valid)
  keeps q x = elim g as (λ h. (holds q (mark h x) ≡ holds q x) × ((mark h x).valid ≡ x.valid)) [
    | dl _ _ ↦ (refl, refl)
    | ul _ _ ↦ (refl, refl)
  ]

  entry-note_self :
      (t : List RuntimeEntry)
      → entry (ue g) (note g t)
        ≡ written (λ _. fresh (ue g)) (mark g) (entry (ue g) t) (find is_free t)
  unfolding entry
  entry-note_self t = rw note-eq-write (
      find-upsert (holds (ue g)) is_free (λ _. fresh (ue g)) (mark g)
        (λ x h. (keeps (ue g) x).0 ∙ h) (λ x. ground arith) t)

  pub entry-note_other :
      (q : ℕ) (t : List RuntimeEntry) → (ue g == q) ≡ false → entry q (note g t) ≡ entry q t
  unfolding entry
  entry-note_other q t d = rw note-eq-write (
      find-upsert_other (holds (ue g)) is_free (λ _. fresh (ue g)) (mark g) (holds q)
        (λ x h. ground (arith, keeps q x)) (λ x h. ground (arith, keeps q (fresh (ue g)))) t)

  pub used-note :
      (t : List RuntimeEntry)
      → used (note g t)
        ≡ used t + elim (entry (ue g) t) [
          | some _ ↦ 0
          | none ↦ elim (find is_free t) [ some _ ↦ 1 | none ↦ 0 ]
        ]
  unfolding used entry
  used-note t = rw note-eq-write (
      count-upsert (holds (ue g)) is_free (λ _. fresh (ue g)) (mark g) (λ e. e.valid)
        (λ x h. ground (arith, keeps 0 x)) (λ x h. ground (arith, keeps 0 (fresh (ue g)))) t)

  pub length-note : (t : List RuntimeEntry) → length (note g t) ≡ length t
  length-note t =
      rw note-eq-write (length-upsert (holds (ue g)) is_free (λ _. fresh (ue g)) (mark g) t)

  -- A full table stays full.
  full-note : (t : List RuntimeEntry) → find is_free t ≡ none → find is_free (note g t) ≡ none
  unfolding used
  full-note t f = elim (room_cases (λ e. e.valid) (note g t)) [
    | inr (_, h) ↦ h
    | inl (l, _) ↦ absurd (ground (arith, l, used-note t, length-note t, fills_up t f))
  ]

-- whether a UE has had a grant, and how many UEs have
unfoldable pub granted : ℕ → List Grant → Bool
granted q [] = false
granted q (g ∷ gs) = (ue g == q) || granted q gs

unfoldable pub distinct : List Grant → ℕ
distinct [] = 0
distinct (g ∷ gs) = (if granted (ue g) gs then 0 else 1) + distinct gs

track_ungranted : (q : ℕ) (gs : List Grant) → granted q gs ≡ false → track q gs ≡ fresh q
unfolding granted track
track_ungranted q [] h = refl
track_ungranted q (g ∷ gs) h = ground (arith, track_ungranted q gs)

-- What the table holds for a UE: all its grants, or nothing, and then it has had none or the
-- table is full.
abbrev pub Recorded : ℕ → List Grant → Type 0
Recorded q gs =
    (entry q (replay gs) ≡ some (track q gs))
    ⊎ ((entry q (replay gs) ≡ none) × ((granted q gs ≡ false) ⊎ (find is_free (replay gs) ≡ none)))

record_grant : (g : Grant) (gs : List Grant) → Recorded (ue g) gs → Recorded (ue g) (g ∷ gs)
unfolding replay track
record_grant g gs (inl e) = inl (ground (arith, entry-note_self g (replay gs), e))
record_grant g gs (inr (n, why)) = elim (Option-cases (find is_free (replay gs))) [
  | inl full ↦
      inr
        (ground (arith, entry-note_self g (replay gs), n, full), inr (full-note g (replay gs) full))
  | inr (x, room) ↦ elim why [
    | inl none_yet ↦
        inl (
          ground
            (arith, entry-note_self g (replay gs), n, room, track_ungranted (ue g) gs none_yet))
    | inr full ↦ absurd (ground (arith, room, full))
  ]
]

-- After any sequence of grants the table holds, for each UE, either what all its grants amount to,
-- or nothing; and nothing only if the UE has had no grant or the table is full.
pub replay-Recorded : (q : ℕ) (gs : List Grant) → Recorded q gs
unfolding replay track granted
replay-Recorded q [] = inr (unfold entry initial find in refl, inl refl)
replay-Recorded q (g ∷ gs) = elim (Bool-cases (ue g == q)) [
  | inl same ↦
      let e : ue g ≡ q = (==_iff (ue g) q).0 same in
      subst (λ r. Recorded r (g ∷ gs)) e (record_grant g gs (replay-Recorded (ue g) gs))
  | inr d ↦ elim (replay-Recorded q gs) [
    | inl e ↦ inl (ground (arith, entry-note_other g q (replay gs) d, e))
    | inr (n, why) ↦ inr (
      entry-note_other g q (replay gs) d ∙ n,
      elim why [ inl h ↦ inl (ground (arith, h)) | inr full ↦ inr (full-note g (replay gs) full) ],
    )
  ]
]

length-replay : (gs : List Grant) → length (replay gs) ≡ runtime_max
unfolding replay
length-replay [] = unfold initial in refl
length-replay (g ∷ gs) = length-note g (replay gs) ∙ length-replay gs

-- A free entry is there while fewer than 256 are in use.
has_room : (gs : List Grant) → used (replay gs) < runtime_max → find is_free (replay gs) ≢ none
has_room gs l full = omega (arith, length-replay gs, fills_up (replay gs) full)

abbrev Complete : List Grant → Type 0
Complete gs =
    (used (replay gs) ≤ distinct gs)
    × ((q : ℕ) → granted q gs ≡ true → entry q (replay gs) ≡ some (track q gs))

Complete-self :
    (g : Grant) (gs : List Grant)
    → distinct (g ∷ gs) ≤ runtime_max
    → Complete gs
    → (used (replay (g ∷ gs)) ≤ distinct (g ∷ gs))
      × (entry (ue g) (replay (g ∷ gs)) ≡ some (track (ue g) (g ∷ gs)))
unfolding replay distinct track
Complete-self g gs h (fits, held) = elim (Bool-cases (granted (ue g) gs)) [
  | inl old ↦
      let e = held (ue g) old in
      (
        ground (arith, used-note g (replay gs), e, old, fits),
        ground (arith, entry-note_self g (replay gs), e),
      )
  | inr new ↦ elim (replay-Recorded (ue g) gs) [
    | inl e ↦ (
      ground (arith, used-note g (replay gs), e, new, fits),
      ground (arith, entry-note_self g (replay gs), e),
    )
    | inr (n, _) ↦ elim (Option-cases (find is_free (replay gs))) [
      | inl full ↦ absurd (has_room gs (ground (arith, new, h, fits)) full)
      | inr (x, room) ↦ (
        ground (arith, used-note g (replay gs), n, room, new, fits),
        ground (arith, entry-note_self g (replay gs), n, room, track_ungranted (ue g) gs new),
      )
    ]
  ]
]

-- While no more than 256 UEs have had grants, no grant is lost: the entries in use are at most as
-- many, and the entry of each of these UEs is what all its grants amount to.
pub replay-Complete : (gs : List Grant) → distinct gs ≤ runtime_max → Complete gs
unfolding replay track granted distinct
replay-Complete [] h = (unfold used initial count in omega arith, λ q e. absurd (ground arith))
replay-Complete (g ∷ gs) h =
    let before = replay-Complete gs (ground (arith, h)) in
    let (fits, now) = Complete-self g gs h before in
    (
      fits,
      λ q e. elim (Bool-cases (ue g == q)) [
        | inl same ↦
            let eq : ue g ≡ q = (==_iff (ue g) q).0 same in
            subst (λ r. entry r (note g (replay gs)) ≡ some (track r (g ∷ gs))) eq now
        | inr d ↦ rw d (entry-note_other g q (replay gs) d ∙ before.1 q (ground (arith, e, d)))
      ],
    )
