-- ===== src/Tests/Rationals.antt =====
-- Exact fractions in the place of doubles: every integer is exact.
use compliance_data_platform.Prelude.{ℕ, ◌+◌, ◌*◌, refl, true, some, ltb, leb, ◌==◌, arith, ◌/◌}
use compliance_data_platform.Numbers.{pos_part, neg_part, sub_ℕ, Double, IsFaithful}

-- (plus - minus) / den
pub record Fraction : Type 0 where
  pub plus : ℕ
  pub minus : ℕ
  pub den : ℕ

abbrev pub rationals : Double
rationals = record {
  carrier = Fraction;
  of_ℤ = λ z. record { plus = pos_part z; minus = neg_part z; den = 1 };
  is_exact = λ z. true;
  to_big_int = λ x. some (sub_ℕ (x.plus / x.den) (x.minus / x.den));
  add = λ x y. record {
    plus = x.plus * y.den + y.plus * x.den;
    minus = x.minus * y.den + y.minus * x.den;
    den = x.den * y.den;
  };
  mul = λ x y. record {
    plus = x.plus * y.plus + x.minus * y.minus;
    minus = x.plus * y.minus + x.minus * y.plus;
    den = x.den * y.den;
  };
  div = λ x y. record { plus = x.plus * y.den; minus = x.minus * y.den; den = x.den * y.plus };
  lt = λ x y. ltb (x.plus * y.den + y.minus * x.den) (y.plus * x.den + x.minus * y.den);
  le = λ x y. leb (x.plus * y.den + y.minus * x.den) (y.plus * x.den + x.minus * y.den);
  is_zero = λ x. x.plus == x.minus;
}

pub rationals-IsFaithful : IsFaithful rationals
rationals-IsFaithful = record { exact = λ n h. refl; lt_hundredths = λ a b h k. ground arith }
