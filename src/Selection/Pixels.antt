-- ===== src/Selection/Pixels.antt =====
-- Whole pixels as coordinates, with quotients rounded down: they satisfy the laws of
-- Selection/Coordinates, and the tests run on them.
use code_roam.Prelude.{
  suc, ◌+◌, ◌/◌, ℤ, pos, negsuc, pos_part, neg_part, ◌+ℤ◌, ◌-ℤ◌, ◌*ℤ◌, leb_ℤ, +ℤ_parts, -ℤ_parts,
  ◌≡◌, arith, true,
}
use code_roam.Selection.Coordinates.{Coordinates, IsOrder, IsLinear}

-- The quotient rounded down; a divisor of 0 or below does not occur in the code.
unfoldable pub div_ℤ : ℤ → ℤ → ℤ
div_ℤ (pos a) (pos (suc b)) = pos (a / suc b)
div_ℤ (negsuc a) (pos (suc b)) = negsuc (a / suc b)
div_ℤ a b = pos 0

-- The distance along the axes stands in for the Euclidean one.
unfoldable pub norm_ℤ : ℤ → ℤ → ℤ
norm_ℤ a b = pos (pos_part a + neg_part a + (pos_part b + neg_part b))

abbrev pub pixels : Coordinates
pixels = record {
  Coordinate = ℤ;
  of_int = λ n. n;
  plus = ◌+ℤ◌;
  minus = ◌-ℤ◌;
  times = ◌*ℤ◌;
  over = div_ℤ;
  le = leb_ℤ;
  floor = λ n. n;
  hypot = norm_ℤ;
}

pub pixels-IsOrder : IsOrder pixels
pixels-IsOrder = record { le_trans = λ a b c h h'. ground arith; le_total = λ a b h. ground arith }

halves_lem : (a : ℤ) → leb_ℤ (div_ℤ a (pos 2) +ℤ div_ℤ a (pos 2)) a ≡ true
unfolding div_ℤ
halves_lem (pos a) = ground (arith, +ℤ_parts (pos (a / 2)) (pos (a / 2)))
halves_lem (negsuc a) = ground (arith, +ℤ_parts (negsuc (a / 2)) (negsuc (a / 2)))

half_lem : (a : ℤ) → leb_ℤ (pos 0) a ≡ true → leb_ℤ (pos 0) (div_ℤ a (pos 2)) ≡ true
unfolding div_ℤ
half_lem (pos a) h = ground arith
half_lem (negsuc a) h = ground arith

pub pixels-IsLinear : IsLinear pixels
pixels-IsLinear = record {
  order = pixels-IsOrder;
  le-minus_iff = λ a b c. ground (arith, -ℤ_parts b c, +ℤ_parts a c);
  plus_mono = λ a b c d h h'. ground (arith, +ℤ_parts a c, +ℤ_parts b d);
  zero-plus = λ a. ground (arith, +ℤ_parts (pos 0) a);
  halves = halves_lem;
  half_nonneg = half_lem;
}
