-- ===== src/Base/Fractions.antt =====
-- Python's floats, where the program only compares them or scales a length by them: exact
-- fractions with a positive denominator.
use Prim.Native.Nat.{ℕ, ◌*◌}
use mathlib.Core.Bool.{Bool}
use nodelm.Base.Tests.{ltb, leb}

pub record Fraction : Type 0 where
  pub numerator : ℕ
  pub denominator : ℕ

-- a <= b and a < b
abbrev pub leb_fraction : Fraction → Fraction → Bool
leb_fraction a b = leb (a.numerator * b.denominator) (b.numerator * a.denominator)

abbrev pub ltb_fraction : Fraction → Fraction → Bool
ltb_fraction a b = ltb (a.numerator * b.denominator) (b.numerator * a.denominator)

abbrev pub zero_fraction : Fraction
zero_fraction = record { numerator = 0; denominator = 1 }

abbrev pub one_fraction : Fraction
one_fraction = record { numerator = 1; denominator = 1 }
