-- ===== src/Blocks/Marks.antt =====
-- What marking a grant does to the map of used blocks.
use user_ric.Prelude.{
  ℕ, zero, suc, ◌+◌, ◌-◌, ◌<◌, ◌≤◌, ◌≡◌, ◌≢◌, refl, ◌∙◌, inl, inr, true, ◌&&◌, List, [], ◌∷◌,
  if◌then◌else◌, ◌==◌, ltb, leb, Bool-cases, arith, length, get_or,
}
use Prim.Native.Nat.{bit_or}
use user_ric.Prelude.Bits.{bit_and-bit_or}
use user_ric.Prelude.Slots.{modify, length-modify}
use user_ric.Blocks.{busy, mark, mark_grant}

get_or-modify :
    (m : List ℕ) (i j : ℕ) (f : ℕ → ℕ)
    → i < length m
    → get_or (modify m i f) j 0 ≡ (if i == j then f (get_or m j 0) else get_or m j 0)
unfolding modify
get_or-modify [] i j f h = absurd (omega arith)
get_or-modify (x ∷ m) zero zero f h = refl
get_or-modify (x ∷ m) zero (suc j) f h = ground arith
get_or-modify (x ∷ m) (suc i) zero f h = ground arith
get_or-modify (x ∷ m) (suc i) (suc j) f h = ground (arith, get_or-modify m i j f)

-- Marking keeps the number of blocks.
pub length-mark :
    (mask : ℕ) (m : List ℕ) (rb rounds : ℕ) → length (mark mask m rb rounds) ≡ length m
unfolding mark
length-mark mask m rb zero = refl
length-mark mask m rb (suc rounds) =
    length-mark mask (modify m rb (λ w. bit_or w mask)) (suc rb) rounds
    ∙ length-modify m rb (λ w. bit_or w mask)

-- The words of the marked blocks have the bits set, all others are as before.
pub get_or-mark :
    (mask : ℕ) (m : List ℕ) (rb rounds j : ℕ)
    → rb + rounds ≤ length m
    → get_or (mark mask m rb rounds) j 0
      ≡ (if leb rb j && ltb j (rb + rounds) then bit_or (get_or m j 0) mask else get_or m j 0)
unfolding mark
get_or-mark mask m rb zero j h = ground arith
get_or-mark mask m rb (suc rounds) j h =
    let m' = modify m rb (λ w. bit_or w mask) in
    ground (
      arith,
      get_or-mark mask m' (suc rb) rounds j,
      length-modify m rb (λ w. bit_or w mask),
      get_or-modify m rb j (λ w. bit_or w mask),
    )

-- Where the band part begins at block 0 and the grant lies inside the map, exactly the granted
-- blocks become busy for the symbols of the grant; the words of all other blocks are unchanged.
pub mark_grant-busy :
    (vrb_map : List ℕ) (slbitmap start size rb : ℕ)
    → slbitmap ≢ 0
    → start + size ≤ length vrb_map
    → (busy (mark_grant vrb_map slbitmap 0 start size) slbitmap rb
        ≡ (if leb start rb && ltb rb (start + size) then true else busy vrb_map slbitmap rb))
      × (get_or (mark_grant vrb_map slbitmap 0 start size) rb 0 ≡ (
          if leb start rb && ltb rb (start + size)
          then bit_or (get_or vrb_map rb 0) slbitmap
          else get_or vrb_map rb 0))
unfolding mark_grant busy
mark_grant-busy vrb_map slbitmap start size rb some_symbol inside =
    let word = get_or-mark slbitmap vrb_map (0 + start) (size - 0) rb (omega arith) in
    let found = bit_and-bit_or (get_or vrb_map rb 0) slbitmap in
    elim (Bool-cases (leb start rb && ltb rb (start + size))) [
      | inl mine ↦
          let w : get_or (mark slbitmap vrb_map (0 + start) (size - 0)) rb 0
              ≡ bit_or (get_or vrb_map rb 0) slbitmap =
            word ∙ ground (arith, mine) in
          rw (mine, w, found) (ground (arith, some_symbol), refl)
      | inr other ↦
          let w : get_or (mark slbitmap vrb_map (0 + start) (size - 0)) rb 0 ≡ get_or vrb_map rb 0 =
            word ∙ ground (arith, other) in
          rw (other, w) (refl, refl)
    ]

-- Where the band part begins at a block whose number is not below the size of the grant, no block
-- is marked at all.
pub mark_grant_lost :
    (vrb_map : List ℕ) (slbitmap bwp_start start size : ℕ)
    → size ≤ bwp_start
    → mark_grant vrb_map slbitmap bwp_start start size ≡ vrb_map
unfolding mark_grant mark
mark_grant_lost vrb_map slbitmap bwp_start start size h =
    let none_left : size - bwp_start ≡ 0 = omega arith in rw none_left
