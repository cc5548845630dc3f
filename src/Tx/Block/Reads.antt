-- ===== src/Tx/Block/Reads.antt =====
-- The receiver of a transport block reads back the data that was put into it.
use user_ric.Prelude.{
  take-append, drop-append, ℕ, zero, suc, ◌+◌, ◌*◌, ◌/◌, ◌%◌, ◌<◌, ◌≤◌, ◌≡◌, ◌≢◌, refl, false, List,
  [], ◌∷◌, ◌++◌, if◌then◌else◌, ◌==◌, length, take, drop, All, arith,
}

-- the data of the sub-PDUs up to the padding, each with its logical channel, with a bound on the
-- number of sub-PDUs; in the low six bits of a header stands the channel, and the length in the two
-- bytes behind
abbrev pub read_sdus : ℕ → ℕ → List ℕ → List (ℕ × List ℕ)
read_sdus padding zero bytes = []
read_sdus padding (suc fuel) (b0 ∷ b1 ∷ b2 ∷ rest) =
    let len = b1 * 256 + b2 in
    let more = read_sdus padding fuel (drop len rest) in
    if b0 % 64 == padding then [] else (b0 % 64, take len rest) ∷ more
read_sdus padding (suc fuel) bytes = []

-- data of a channel that is not the padding, as long as the length field can say
abbrev pub Fits : ℕ → ℕ × List ℕ → Type 0
Fits padding p = (p.0 < 64) × (p.0 ≢ padding) × (length p.1 < 65536)

-- the sub-PDUs of such data, and what follows them
abbrev pub encode_all : List (ℕ × List ℕ) → List ℕ → List ℕ
encode_all [] end = end
encode_all (p ∷ ps) end =
    (64 + p.0 % 64) ∷ length p.1 / 256 % 256 ∷ length p.1 % 256 ∷ (p.1 ++ encode_all ps end)

pub encode_all-append :
    (ps qs : List (ℕ × List ℕ)) (end : List ℕ)
    → encode_all (ps ++ qs) end ≡ encode_all ps (encode_all qs end)
encode_all-append [] qs end = refl
encode_all-append (p ∷ ps) qs end = rw (encode_all-append ps qs end)

-- behind the data there is nothing, or a padding header
abbrev pub Ending : ℕ → List ℕ → Type 0
Ending padding [] = Unit
Ending padding (b ∷ bs) = b % 64 ≡ padding

read_sdus-Ending :
    (padding fuel : ℕ) (end : List ℕ) → Ending padding end → read_sdus padding fuel end ≡ []
read_sdus-Ending padding zero end h = refl
read_sdus-Ending padding (suc fuel) [] h = refl
read_sdus-Ending padding (suc fuel) (a ∷ []) h = refl
read_sdus-Ending padding (suc fuel) (a ∷ b ∷ []) h = refl
read_sdus-Ending padding (suc fuel) (a ∷ b ∷ c ∷ rest) h = ground (arith, h)

pub read_sdus-encode_all :
    (padding fuel : ℕ) (ps : List (ℕ × List ℕ)) (end : List ℕ)
    → All (Fits padding) ps
    → Ending padding end
    → length ps ≤ fuel
    → read_sdus padding fuel (encode_all ps end) ≡ ps
read_sdus-encode_all padding fuel [] end h e l = read_sdus-Ending padding fuel end e
read_sdus-encode_all padding zero (p ∷ ps) end h e l = absurd (omega (arith, l))
read_sdus-encode_all padding (suc fuel) (p ∷ ps) end h e l =
    let len = length p.1 in
    let rest = p.1 ++ encode_all ps end in
    let size : len / 256 % 256 * 256 + len % 256 ≡ len = omega (arith, h.0) in
    let channel : (64 + p.0 % 64) % 64 ≡ p.0 = omega (arith, h.0) in
    let other : (p.0 == padding) ≡ false = ground (arith, h.0) in
    rw
      (
        channel,
        size,
        other,
        take-append p.1 (encode_all ps end),
        drop-append p.1 (encode_all ps end),
        read_sdus-encode_all padding fuel ps end h.1 e (omega (arith, l)),
      )
      refl
