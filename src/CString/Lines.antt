-- ===== src/CString/Lines.antt =====
-- Nothing of a file is lost or changed by reading it in pieces, and each piece fits the buffer.
use user_ric.Prelude.{
  All, ℕ, ◌+◌, ◌-◌, ◌<◌, ◌≤◌, ◌≡◌, refl, ap, ◌∙◌, inl, inr, ◌||◌, List, [], ◌∷◌, ◌==◌, length,
  Bool-cases, arith,
}
use mathlib.Core.List.{flatten}
use mathlib.Core.Path.{subst, sym}
use user_ric.CString.{Bytes, onto_first, fgets_from, fgets_all}

flatten-onto_first : (c : ℕ) (ls : List Bytes) → flatten (onto_first c ls) ≡ c ∷ flatten ls
unfolding onto_first flatten
flatten-onto_first c [] = refl
flatten-onto_first c (l ∷ ls) = refl

flatten-fgets_from : (room : ℕ) (cs : Bytes) → flatten (fgets_from room cs) ≡ cs
unfolding fgets_from flatten
flatten-fgets_from room [] = refl
flatten-fgets_from room (c ∷ cs) = elim (Bool-cases (c == b'\n' || room == 0)) [
  | inl full ↦ rw full (ap (◌∷◌ c) (flatten-fgets_from 510 cs))
  | inr more ↦ rw more (
      flatten-onto_first c (fgets_from (room - 1) cs)
      ∙ ap (◌∷◌ c) (flatten-fgets_from (room - 1) cs))
]

-- The pieces of a file, put together, are the file.
pub flatten-fgets_all : (cs : Bytes) → flatten (fgets_all cs) ≡ cs
unfolding fgets_all
flatten-fgets_all = flatten-fgets_from 510

-- a piece that fits `char line[512]` with its NUL byte, and is not empty
abbrev pub IsPiece : ℕ → Bytes → Type 0
IsPiece most l = (0 < length l) × (length l ≤ most)

-- The first piece may be cut short by what the call has room for.
abbrev Pieces : ℕ → List Bytes → Type 0
Pieces room [] = Unit
Pieces room (l ∷ ls) = IsPiece (room + 1) l × All (IsPiece 511) ls

Pieces-All : (ls : List Bytes) → Pieces 510 ls → All (IsPiece 511) ls
Pieces-All [] h = h
Pieces-All (l ∷ ls) h = h

Pieces-onto_first :
    (c room : ℕ) (ls : List Bytes) → Pieces room ls → Pieces (room + 1) (onto_first c ls)
unfolding onto_first
Pieces-onto_first c room [] h = ((omega arith, omega arith), tt)
Pieces-onto_first c room (l ∷ ls) h = ((omega arith, omega arith), h.1)

fgets_from-Pieces : (room : ℕ) (cs : Bytes) → Pieces room (fgets_from room cs)
unfolding fgets_from
fgets_from-Pieces room [] = tt
fgets_from-Pieces room (c ∷ cs) = elim (Bool-cases (c == b'\n' || room == 0)) [
  | inl full ↦ rw full ((omega arith, omega arith), Pieces-All _ (fgets_from-Pieces 510 cs))
  | inr more ↦
      let e : room ≡ room - 1 + 1 = ground (arith, more) in
      rw more (
        subst (λ r. Pieces r (onto_first c (fgets_from (room - 1) cs))) (sym e)
          (Pieces-onto_first c (room - 1) _ (fgets_from-Pieces (room - 1) cs)))
]

-- Each piece has at least one byte and, with its NUL byte, fits the buffer of 512.
pub fgets_all-IsPiece : (cs : Bytes) → All (IsPiece 511) (fgets_all cs)
unfolding fgets_all
fgets_all-IsPiece cs = Pieces-All _ (fgets_from-Pieces 510 cs)
