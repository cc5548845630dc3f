-- ===== src/Prelude/Float.antt =====
-- The C type `float` as a parameter: its values, the operations of the scheduler, decimal literals
-- and `(float)atof(...)`, with the documented behaviour that the proofs rely on.
use user_ric.Prelude.Int.{ℤ, pos, minus_one}
use Prim.Native.Nat.{ℕ}
use mathlib.Core.Bool.{Bool, true, false}
use mathlib.Core.List.{List}
use mathlib.Core.Path.{◌≡◌}

pub record Float : Type 1 where
  pub F : Type 0
  -- `literal m k` is the literal m / 10 ^ k, rounded to a `float`
  pub literal : ℤ → ℕ → F
  pub add : F → F → F
  pub sub : F → F → F
  pub mul : F → F → F
  pub div : F → F → F
  pub of_nat : ℕ → F
  pub ltb : F → F → Bool
  pub leb : F → F → Bool
  -- `(float)atof(s)` on the bytes of a string
  pub atof : List ℕ → F

-- `<` on IEEE 754 numbers is a strict order, NaN included.
pub record FloatLaws (fl : Float) : Type 0 where
  pub irreflexive : (a : fl.F) → fl.ltb a a ≡ false
  pub transitive : (a b c : fl.F) → fl.ltb a b ≡ true → fl.ltb b c ≡ true → fl.ltb a c ≡ true
  -- the literals 0.0f and -1.0f
  pub minus_one-not_above_zero : fl.ltb (fl.literal (pos 0) 0) (fl.literal minus_one 0) ≡ false
  pub minus_one-at_most_zero : fl.leb (fl.literal minus_one 0) (fl.literal (pos 0) 0) ≡ true
