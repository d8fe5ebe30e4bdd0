-- ===== src/Selection/Fractions.antt =====
-- Fractions as coordinates: exact quotients, where whole pixels round. Selection/Fractions/Laws has
-- their laws.
pub mod Order
pub mod Quotients
pub mod Laws
use code_roam.Prelude.{
  ℕ, zero, suc, ◌+◌, ◌-◌, ◌*◌, ◌/◌, ◌<◌, ℤ, pos, negsuc, pos_part, neg_part, Bool, true, false, leb,
  arith, if◌then◌else◌,
}
use native.Mathlib.Nat.{mul-pos}
use code_roam.Selection.Coordinates.{Coordinates}

-- The fraction `(up - down) / den`; a value has many of them.
pub record Fraction : Type 0 where
  pub up : ℕ
  pub down : ℕ
  pub den : ℕ
  pub den_pos : 0 < den

abbrev pub whole : ℤ → Fraction
whole n = record { up = pos_part n; down = neg_part n; den = 1; den_pos = omega arith }

unfoldable pub sum : Fraction → Fraction → Fraction
sum a b = record {
  up = a.up * b.den + b.up * a.den;
  down = a.down * b.den + b.down * a.den;
  den = a.den * b.den;
  den_pos = mul-pos a.den_pos b.den_pos;
}

abbrev negative : Fraction → Fraction
negative a = record a { up = a.down; down = a.up }

unfoldable pub product : Fraction → Fraction → Fraction
product a b = record {
  up = a.up * b.up + a.down * b.down;
  down = a.up * b.down + a.down * b.up;
  den = a.den * b.den;
  den_pos = mul-pos a.den_pos b.den_pos;
}

-- `a / (n / d)` for a positive `n`; a divisor of 0 or below does not occur in the code.
unfoldable pub divided : Fraction → ℕ → ℕ → Fraction
divided a zero d = whole (pos 0)
divided a (suc n) d = record {
  up = a.up * d;
  down = a.down * d;
  den = a.den * suc n;
  den_pos = mul-pos a.den_pos (omega arith);
}

unfoldable pub quotient : Fraction → Fraction → Fraction
unfolding divided
quotient a b = divided a (b.up - b.down) b.den

unfoldable pub le_fraction : Fraction → Fraction → Bool
le_fraction a b = leb (a.up * b.den + b.down * a.den) (b.up * a.den + a.down * b.den)

unfoldable pub floor_fraction : Fraction → ℤ
floor_fraction a =
    if leb a.down a.up then pos ((a.up - a.down) / a.den) else negsuc ((a.down - a.up - 1) / a.den)

abbrev absolute : Fraction → Fraction
absolute a = if leb a.down a.up then a else negative a

-- The distance along the axes stands in for the Euclidean one.
abbrev pub fractions : Coordinates
fractions = record {
  Coordinate = Fraction;
  of_int = whole;
  plus = sum;
  minus = λ a b. sum a (negative b);
  times = product;
  over = quotient;
  le = le_fraction;
  floor = floor_fraction;
  hypot = λ a b. sum (absolute a) (absolute b);
}
