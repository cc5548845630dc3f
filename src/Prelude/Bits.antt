-- ===== src/Prelude/Bits.antt =====
-- Bit masks: a mask that has been set in a word is found in it.
use Prim.Native.Nat.{
  ℕ, zero, suc, ◌+◌, ◌*◌, ◌/◌, ◌%◌, ◌≤◌, min, max, bit_and, bit_or, digits, bitwise,
  bit_and-bitwise, bit_or-bitwise,
}
use mathlib.Core.Path.{◌≡◌, refl, ap}
use native.Mathlib.Omega.{arith}

-- Digit by digit, any number of rounds that covers the first operand gives the same result.
module _ (rest : ℕ → ℕ) (op : ℕ → ℕ → ℕ) where
  rounds : (a m n b : ℕ) → a ≤ m → a ≤ n → digits rest op m a b ≡ digits rest op n a b
  rounds zero zero zero b p q = refl
  rounds zero zero (suc n) b p q = refl
  rounds zero (suc m) zero b p q = refl
  rounds zero (suc m) (suc n) b p q = refl
  rounds (suc a) zero n b p q = absurd (omega arith)
  rounds (suc a) (suc m) zero b p q = absurd (omega arith)
  rounds (suc a) (suc m) (suc n) b p q =
      ap (λ (k : ℕ). k * 2 + op (suc a % 2) (b % 2))
        (rounds (suc a / 2) m n (b / 2) (omega arith) (omega arith))

  lowest_digit :
      (a b : ℕ)
      → bitwise rest op (suc a) b ≡ bitwise rest op (suc a / 2) (b / 2) * 2 + op (suc a % 2) (b % 2)
  lowest_digit a b =
      ap (λ (k : ℕ). k * 2 + op (suc a % 2) (b % 2))
        (rounds (suc a / 2) a (suc a / 2) (b / 2) (omega arith) (omega arith))

and_digit : (a b : ℕ) → bit_and a b ≡ bit_and (a / 2) (b / 2) * 2 + min (a % 2) (b % 2)
and_digit zero b = omega (arith, bit_and-bitwise 0 b, bit_and-bitwise 0 (b / 2))
and_digit (suc a) b = omega (
  arith,
  bit_and-bitwise (suc a) b,
  bit_and-bitwise (suc a / 2) (b / 2),
  lowest_digit (λ c. zero) min a b,
)

or_digit : (a b : ℕ) → bit_or a b ≡ bit_or (a / 2) (b / 2) * 2 + max (a % 2) (b % 2)
or_digit zero b = omega (arith, bit_or-bitwise 0 b, bit_or-bitwise 0 (b / 2))
or_digit (suc a) b = omega (
  arith,
  bit_or-bitwise (suc a) b,
  bit_or-bitwise (suc a / 2) (b / 2),
  lowest_digit (λ c. c) max a b,
)

and_none : (n a : ℕ) → a ≤ n → bit_and a 0 ≡ 0
and_none zero zero h = omega (arith, bit_and-bitwise 0 0)
and_none zero (suc a) h = absurd (omega arith)
and_none (suc n) zero h = omega (arith, bit_and-bitwise 0 0)
and_none (suc n) (suc a) h =
    omega (arith, and_digit (suc a) 0, and_none n (suc a / 2) (omega arith))

and_zero : (a : ℕ) → bit_and a 0 ≡ 0
and_zero a = and_none a a (omega arith)

absorbs : (n w m : ℕ) → m ≤ n → bit_and (bit_or w m) m ≡ m
absorbs zero w zero h = and_zero (bit_or w 0)
absorbs zero w (suc m) h = absurd (omega arith)
absorbs (suc n) w zero h = and_zero (bit_or w 0)
absorbs (suc n) w (suc m) h =
    let half : bit_or w (suc m) / 2 ≡ bit_or (w / 2) (suc m / 2) =
      omega (arith, or_digit w (suc m)) in
    let below = absorbs n (w / 2) (suc m / 2) (omega arith) in
    let here = and_digit (bit_or w (suc m)) (suc m) in
    omega (arith, or_digit w (suc m), rw half at here, below)

-- All of a mask that has been set in a word is found in it.
pub bit_and-bit_or : (w m : ℕ) → bit_and (bit_or w m) m ≡ m
bit_and-bit_or w m = absorbs m w m (omega arith)

or_avoids :
    (k w m n : ℕ) → n ≤ k → bit_and (bit_or w m) n ≡ 0 → (bit_and w n ≡ 0) × (bit_and m n ≡ 0)
or_avoids zero w m zero h e = (and_zero w, and_zero m)
or_avoids zero w m (suc n) h e = absurd (omega arith)
or_avoids (suc k) w m zero h e = (and_zero w, and_zero m)
or_avoids (suc k) w m (suc n) h e =
    let half : bit_or w m / 2 ≡ bit_or (w / 2) (m / 2) = omega (arith, or_digit w m) in
    let here = and_digit (bit_or w m) (suc n) in
    let above : bit_and (bit_or (w / 2) (m / 2)) (suc n / 2) ≡ 0 =
      omega (arith, rw half at here, e) in
    let below = or_avoids k (w / 2) (m / 2) (suc n / 2) (omega arith) above in
    (
      omega (arith, and_digit w (suc n), or_digit w m, here, e, below.0),
      omega (arith, and_digit m (suc n), or_digit w m, here, e, below.1),
    )

-- A mask that avoids a word and another avoids both.
pub bit_or-avoids : (w m n : ℕ) → bit_and (bit_or w m) n ≡ 0 → (bit_and w n ≡ 0) × (bit_and m n ≡ 0)
bit_or-avoids w m n e = or_avoids n w m n (omega arith) e
