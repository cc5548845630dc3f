-- ===== src/Blocks/Apart.antt =====
-- Grants made one after the other from the same maps of used blocks never share a block in a symbol.
use user_ric.Prelude.{
  ℕ, ◌+◌, ◌-◌, ◌<◌, ◌≤◌, ◌≡◌, sym, ◌∙◌, ap, inl, inr, true, ◌&&◌, ◌==◌, List, [], ◌∷◌,
  if◌then◌else◌, ltb, leb, Bool-cases, arith, length, get_or, All, All-get_or_lt, All-map,
}
use Prim.Native.Nat.{bit_and, bit_or}
use mathlib.Core.Path.{subst}
use user_ric.Prelude.Bits.{bit_or-avoids}
use user_ric.Prelude.Slots.{modify, length-modify, get_or-modify_eq, get_or-modify_ne, modify-All}
use user_ric.Blocks.{Allocation, mark_grant}
use user_ric.Blocks.Marks.{get_or-mark, length-mark}

-- the symbols in use of a block in the map of a beam
abbrev pub word : List (List ℕ) → ℕ → ℕ → ℕ
word maps beam rb = get_or (get_or maps beam []) rb 0

abbrev pub Has : Allocation → ℕ → Type 0
Has a rb = (a.first_rb ≤ rb) × (rb < a.first_rb + a.rb_count)

-- a block that both allocations have has no symbol that both have
abbrev pub Apart : Allocation → Allocation → Type 0
Apart a b = a.beam ≡ b.beam → (rb : ℕ) → Has a rb → Has b rb → bit_and a.slbitmap b.slbitmap ≡ 0

-- any two allocations of a list are apart
abbrev pub AllApart : List Allocation → Type 0
AllApart [] = Unit
AllApart (a ∷ rest) = All (λ b. Apart b a) rest × AllApart rest

-- the bits of `m` are in use in the word `w`: a mask that avoids `w` avoids `m`
abbrev Shows : ℕ → ℕ → Type 0
Shows w m = (n : ℕ) → bit_and w n ≡ 0 → bit_and m n ≡ 0

-- the blocks of the allocation are in use
abbrev pub Covered : List (List ℕ) → Allocation → Type 0
Covered maps a = (rb : ℕ) → Has a rb → Shows (word maps a.beam rb) a.slbitmap

-- Maps of at least `blocks` blocks for each of `beams` beams, and the allocations made from them.
pub record Sound (beams blocks : ℕ) (maps : List (List ℕ)) (allocations : List Allocation)
    : Type 0 where
  pub enough : beams ≤ length maps
  pub wide : All (λ m. blocks ≤ length m) maps
  pub apart : AllApart allocations
  pub covered : All (Covered maps) allocations

module _ (maps : List (List ℕ)) (beam slbitmap start size : ℕ) where
  abbrev marked : List (List ℕ)
  marked = modify maps beam (λ m. mark_grant m slbitmap 0 start size)

  -- the words after a grant
  word-marked :
      (rb : ℕ)
      → beam < length maps
      → start + size ≤ length (get_or maps beam [])
      → word marked beam rb ≡ (
          if leb start rb && ltb rb (start + size)
          then bit_or (word maps beam rb) slbitmap
          else word maps beam rb)
  unfolding mark_grant
  word-marked rb in_use inside =
      let m = get_or maps beam [] in
      let here = get_or-modify_eq maps beam (λ m. mark_grant m slbitmap 0 start size) [] in_use in
      let marks = get_or-mark slbitmap m (0 + start) (size - 0) rb (omega arith) in
      let mine = leb start rb && ltb rb (start + size) in
      elim (Bool-cases mine) [
        | inl e ↦ rw e (ap (λ (l : List ℕ). get_or l rb 0) here ∙ marks ∙ ground (arith, e))
        | inr e ↦ rw e (ap (λ (l : List ℕ). get_or l rb 0) here ∙ marks ∙ ground (arith, e))
      ]

  word-marked-Shows :
      (b rb : ℕ)
      → beam < length maps
      → start + size ≤ length (get_or maps beam [])
      → Shows (word marked b rb) (word maps b rb)
  word-marked-Shows b rb in_use inside n e = elim (Bool-cases (beam == b)) [
    | inr ne ↦
        let same = get_or-modify_ne maps beam b (λ m. mark_grant m slbitmap 0 start size) [] ne in
        subst (λ (l : List ℕ). bit_and (get_or l rb 0) n ≡ 0) same e
    | inl eq ↦
        let beams_eq : beam ≡ b = ground (arith, eq) in
        let here = subst (λ c. bit_and (word marked c rb) n ≡ 0) (sym beams_eq) e in
        let after = word-marked rb in_use inside in
        subst (λ c. bit_and (word maps c rb) n ≡ 0) beams_eq
          (elim (Bool-cases (leb start rb && ltb rb (start + size))) [
            | inl mine ↦
                let both = bit_or-avoids (word maps beam rb) slbitmap n in
                (both (rw (rw mine at after) at here)).0
            | inr other ↦ rw (rw other at after) at here
          ])
  ]

  word-marked_own :
      (rb : ℕ)
      → beam < length maps
      → start + size ≤ length (get_or maps beam [])
      → start ≤ rb
      → rb < start + size
      → Shows (word marked beam rb) slbitmap
  word-marked_own rb in_use inside from to n e =
      let after = word-marked rb in_use inside in
      let mine : leb start rb && ltb rb (start + size) ≡ true = ground arith in
      (bit_or-avoids (word maps beam rb) slbitmap n (rw (rw mine at after) at e)).1

module _ (beams blocks beam slbitmap start size : ℕ) (maps : List (List ℕ))
    (allocations : List Allocation) where
  abbrev made : ℕ → Allocation
  made bwp_start = record {
    beam = beam;
    slbitmap = slbitmap;
    first_rb = bwp_start + start;
    rb_count = size;
  }

  from_zero :
      Sound beams blocks maps allocations
      → beam < beams
      → start + size ≤ blocks
      → ((rb : ℕ) → start ≤ rb → rb < start + size → bit_and (word maps beam rb) slbitmap ≡ 0)
      → Sound beams blocks (marked maps beam slbitmap start size) (made 0 ∷ allocations)
  unfolding mark_grant
  from_zero s in_use inside free =
      let known : beam < length maps = omega (arith, s.enough) in
      let room : start + size ≤ length (get_or maps beam []) =
        omega
          (arith, All-get_or_lt (λ (m : List ℕ). blocks ≤ length m) maps beam [] s.wide known) in
      record {
        enough =
            omega
              (arith, s.enough, length-modify maps beam (λ m. mark_grant m slbitmap 0 start size));
        wide =
            modify-All (λ (m : List ℕ). blocks ≤ length m) maps beam
              (λ m. mark_grant m slbitmap 0 start size) s.wide
              (λ m h. omega (arith, length-mark slbitmap m (0 + start) (size - 0)));
        apart = (
          All-map allocations
              (λ b c same rb mine his. c rb mine slbitmap (
                subst (λ k. bit_and (word maps k rb) slbitmap ≡ 0) (sym same)
                  (free rb (omega (arith, his.0)) (omega (arith, his.1)))))
              s.covered,
          s.apart,
        );
        covered = (
          λ rb has.
              word-marked_own maps beam slbitmap start size rb known room (omega (arith, has.0))
                (omega (arith, has.1)),
          All-map allocations
              (λ b c rb has n e.
                c rb has n
                  (word-marked-Shows maps beam slbitmap start size b.beam rb known room n e))
              s.covered,
        );
      }

  -- A grant from block 0 of the map on, of blocks that are free in the beam's map for its symbols.
  pub Sound-mark_grant :
      (bwp_start : ℕ)
      → bwp_start ≡ 0
      → Sound beams blocks maps allocations
      → beam < beams
      → start + size ≤ blocks
      → ((rb : ℕ) → start ≤ rb → rb < start + size → bit_and (word maps beam rb) slbitmap ≡ 0)
      → Sound beams blocks
          (modify maps beam (λ m. mark_grant m slbitmap bwp_start start size))
          (made bwp_start ∷ allocations)
  Sound-mark_grant bwp_start zero_start s in_use inside free =
      subst
        (λ b.
          Sound beams blocks (modify maps beam (λ m. mark_grant m slbitmap b start size))
            (made b ∷ allocations))
        (sym zero_start) (from_zero s in_use inside free)
