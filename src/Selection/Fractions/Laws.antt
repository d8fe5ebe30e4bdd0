-- ===== src/Selection/Fractions/Laws.antt =====
-- Fractions have exact quotients and products.
use code_roam.Prelude.{suc, ◌-◌, ℤ, pos, negsuc, ◌≤ℤ◌, true, arith, ◌≡◌, ◌↔◌}
use native.Mathlib.Nat.{le-div_iff_mul-le}
use code_roam.Selection.Coordinates.{IsExact}
use code_roam.Selection.Fractions.{Fraction, whole, le_fraction, floor_fraction, fractions}
use code_roam.Selection.Fractions.Order.{
  le_trans_lem, le_total_lem, plus_comm_lem, plus_iff_lem, minus_iff_lem, plus_mono_lem,
  plus_cancel_lem,
}
use code_roam.Selection.Fractions.Quotients.{
  le-over_lem, over-le_lem, over_iff_lem, times_iff_lem, half_below_lem, parts-both, part-both,
}

floor_lem : (n : ℤ) (a : Fraction) → (le_fraction (whole n) a ≡ true) ↔ (n ≤ℤ floor_fraction a)
unfolding le_fraction floor_fraction
floor_lem (pos m) a =
    let at = le-div_iff_mul-le {k = a.den} {x = m} {y = a.up - a.down} a.den_pos in
    ground (arith, at)
floor_lem (negsuc m) a =
    let at = le-div_iff_mul-le {k = a.den} {x = suc m} {y = a.down - a.up - 1} a.den_pos in
    ground (arith, at)

whole_lem : (m n : ℤ) → (le_fraction (whole m) (whole n) ≡ true) ↔ (m ≤ℤ n)
unfolding le_fraction
whole_lem m n = ground arith

pub fractions-IsExact : IsExact fractions
fractions-IsExact = record {
  order = record { le_trans = le_trans_lem; le_total = le_total_lem };
  le-floor_iff = floor_lem;
  of_int_iff = whole_lem;
  le-minus_iff = minus_iff_lem;
  plus_comm = plus_comm_lem;
  plus_iff = plus_iff_lem;
  plus_mono = plus_mono_lem;
  plus_cancel = plus_cancel_lem;
  le-over_iff = le-over_lem;
  over-le_iff = over-le_lem;
  over_iff = over_iff_lem;
  times_iff = times_iff_lem;
  half_below = half_below_lem;
  parts-le = λ i j s a h. (parts-both i j s a h).0;
  le-parts = λ i j s a h. (parts-both i j s a h).1;
  part-le = λ s a h. (part-both s a h).0;
  le-part = λ s a h. (part-both s a h).1;
}
