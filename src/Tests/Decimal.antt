-- ===== src/Tests/Decimal.antt =====
-- Decimal fractions with three places in the role of `float`, for the tests.
use user_ric.Prelude.{ℕ, ◌+◌, ◌*◌, ◌/◌, ◌^◌, ◌≡◌, refl, true, false, arith}
use user_ric.Prelude.Int.{◌+ℤ◌, ◌-ℤ◌, ℤ, pos, negsuc, sub_ℕ, pos_part, neg_part, ltb_ℤ, leb_ℤ}
use user_ric.Prelude.Float.{Float, FloatLaws}
use user_ric.CString.{strtol}

-- thousandths, rounded towards zero
abbrev scaled : ℕ → ℕ → ℤ → ℤ
scaled n d (pos m) = pos (m * n / d)
scaled n d (negsuc m) = sub_ℕ 0 ((m + 1) * n / d)

abbrev pub milli : Float
milli = record {
  F = ℤ;
  literal = λ m k. scaled 1000 (10 ^ k) m;
  add = λ a b. a +ℤ b;
  sub = λ a b. a -ℤ b;
  mul = λ a b.
      sub_ℕ ((pos_part a * pos_part b + neg_part a * neg_part b) / 1000)
        ((pos_part a * neg_part b + neg_part a * pos_part b) / 1000);
  div = λ a b. sub_ℕ (pos_part a * 1000 / pos_part b) (neg_part a * 1000 / pos_part b);
  of_nat = λ n. pos (n * 1000);
  ltb = ltb_ℤ;
  leb = leb_ℤ;
  atof = λ s. scaled 1000 1 (strtol s);
}

milli_irreflexive : (a : ℤ) → ltb_ℤ a a ≡ false
milli_irreflexive a = ground arith

milli_transitive : (a b c : ℤ) → ltb_ℤ a b ≡ true → ltb_ℤ b c ≡ true → ltb_ℤ a c ≡ true
milli_transitive a b c h k = ground arith

pub milli_laws : FloatLaws milli
milli_laws = record {
  irreflexive = milli_irreflexive;
  transitive = milli_transitive;
  minus_one-not_above_zero = refl;
  minus_one-at_most_zero = refl;
}
