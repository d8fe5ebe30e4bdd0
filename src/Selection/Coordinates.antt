-- ===== src/Selection/Coordinates.antt =====
-- The lengths and positions on the screen, JavaScript's finite numbers, as an interface. The code
-- compares, adds, subtracts, multiplies and divides them and takes floors; the laws, where a
-- theorem asks for them, are those of the real numbers that the doubles stand for.
use code_roam.Prelude.{
  ℤ, pos, ◌+ℤ◌, Bool, true, false, ◌≡◌, ◌↔◌, if◌then◌else◌, arith, leb_ℤ, ◌≤ℤ◌, Bool-cases, inl,
  inr,
}

pub record Coordinates : Type 1 where
  pub Coordinate : Type 0
  pub of_int : ℤ → Coordinate
  pub plus : Coordinate → Coordinate → Coordinate
  pub minus : Coordinate → Coordinate → Coordinate
  pub times : Coordinate → Coordinate → Coordinate
  pub over : Coordinate → Coordinate → Coordinate
  pub le : Coordinate → Coordinate → Bool
  pub floor : Coordinate → ℤ
  pub hypot : Coordinate → Coordinate → Coordinate

-- `Math.min`, `Math.max` and `clamp(value, minimum, maximum)`, over any numbers.
module _ {A : Type 0} (le : A → A → Bool) where
  abbrev pub min : A → A → A
  min a b = if le a b then a else b

  abbrev pub max : A → A → A
  max a b = if le a b then b else a

  unfoldable pub clamp : A → A → A → A
  clamp value minimum maximum = min (max value minimum) maximum

-- The order that the comparisons decide.
pub record IsOrder (k : Coordinates) : Type 0 where
  pub le_trans : (a b c : k.Coordinate) → k.le a b ≡ true → k.le b c ≡ true → k.le a c ≡ true
  pub le_total : (a b : k.Coordinate) → k.le a b ≡ false → k.le b a ≡ true

-- Sums and halves.
pub record IsLinear (k : Coordinates) : Type 0 where
  pub order : IsOrder k
  pub le-minus_iff :
      (a b c : k.Coordinate) → (k.le a (k.minus b c) ≡ true) ↔ (k.le (k.plus a c) b ≡ true)
  pub plus_mono :
      (a b c d : k.Coordinate)
      → k.le a b ≡ true
      → k.le c d ≡ true
      → k.le (k.plus a c) (k.plus b d) ≡ true
  pub zero-plus : (a : k.Coordinate) → k.le (k.plus (k.of_int (pos 0)) a) a ≡ true
  pub halves :
      (a : k.Coordinate)
      → k.le (k.plus (k.over a (k.of_int (pos 2))) (k.over a (k.of_int (pos 2)))) a ≡ true
  pub half_nonneg :
      (a : k.Coordinate)
      → k.le (k.of_int (pos 0)) a ≡ true
      → k.le (k.of_int (pos 0)) (k.over a (k.of_int (pos 2))) ≡ true

-- Exact quotients and products, as real numbers have them.
pub record IsExact (k : Coordinates) : Type 0 where
  pub order : IsOrder k
  pub le-floor_iff : (n : ℤ) (a : k.Coordinate) → (k.le (k.of_int n) a ≡ true) ↔ (n ≤ℤ k.floor a)
  pub of_int_iff : (m n : ℤ) → (k.le (k.of_int m) (k.of_int n) ≡ true) ↔ (m ≤ℤ n)
  pub le-minus_iff :
      (a b c : k.Coordinate) → (k.le a (k.minus b c) ≡ true) ↔ (k.le (k.plus a c) b ≡ true)
  pub plus_comm : (a b : k.Coordinate) → k.le (k.plus a b) (k.plus b a) ≡ true
  pub plus_iff :
      (a b c : k.Coordinate) → (k.le (k.plus a c) (k.plus b c) ≡ true) ↔ (k.le a b ≡ true)
  pub plus_mono :
      (a b c d : k.Coordinate)
      → k.le a b ≡ true
      → k.le c d ≡ true
      → k.le (k.plus a c) (k.plus b d) ≡ true
  pub plus_cancel :
      (a b c d : k.Coordinate)
      → (k.le (k.plus a d) (k.plus (k.plus d b) c) ≡ true) ↔ (k.le a (k.plus b c) ≡ true)
  pub le-over_iff :
      (a b s : k.Coordinate)
      → k.le s (k.of_int (pos 0)) ≡ false
      → (k.le a (k.over b s) ≡ true) ↔ (k.le (k.times a s) b ≡ true)
  pub over-le_iff :
      (a b s : k.Coordinate)
      → k.le s (k.of_int (pos 0)) ≡ false
      → (k.le (k.over a s) b ≡ true) ↔ (k.le a (k.times b s) ≡ true)
  pub over_iff :
      (a b s : k.Coordinate)
      → k.le s (k.of_int (pos 0)) ≡ false
      → (k.le (k.over a s) (k.over b s) ≡ true) ↔ (k.le a b ≡ true)
  pub times_iff :
      (a b s : k.Coordinate)
      → k.le s (k.of_int (pos 0)) ≡ false
      → (k.le (k.times a s) (k.times b s) ≡ true) ↔ (k.le a b ≡ true)
  pub half_below :
      (a b s : k.Coordinate)
      → (k.le a (k.plus b (k.over (k.minus (k.of_int (pos 0)) s) (k.of_int (pos 2)))) ≡ true)
        ↔ (k.le (k.plus (k.plus a a) s) (k.plus b b) ≡ true)
  -- `i` and `j` parts of `a`, of which there are `s`.
  pub parts-le :
      (i j : ℤ) (s a : k.Coordinate)
      → k.le s (k.of_int (pos 0)) ≡ false
      → k.le
          (k.plus (k.times (k.over (k.of_int i) s) a) (k.times (k.over (k.of_int j) s) a))
          (k.times (k.over (k.of_int (i +ℤ j)) s) a)
        ≡ true
  pub le-parts :
      (i j : ℤ) (s a : k.Coordinate)
      → k.le s (k.of_int (pos 0)) ≡ false
      → k.le
          (k.times (k.over (k.of_int (i +ℤ j)) s) a)
          (k.plus (k.times (k.over (k.of_int i) s) a) (k.times (k.over (k.of_int j) s) a))
        ≡ true
  pub part-le :
      (s a : k.Coordinate)
      → k.le s (k.of_int (pos 0)) ≡ false
      → k.le (k.over a s) (k.times (k.over (k.of_int (pos 1)) s) a) ≡ true
  pub le-part :
      (s a : k.Coordinate)
      → k.le s (k.of_int (pos 0)) ≡ false
      → k.le (k.times (k.over (k.of_int (pos 1)) s) a) (k.over a s) ≡ true

module _ (k : Coordinates) (o : IsOrder k) where
  pub le_refl : (a : k.Coordinate) → k.le a a ≡ true
  le_refl a = elim (Bool-cases (k.le a a)) [ inl h ↦ h | inr h ↦ o.le_total a a h ]

  -- A clamped value lies between the bounds.
  pub clamp_bounds :
      (value minimum maximum : k.Coordinate)
      → k.le minimum maximum ≡ true
      → (k.le minimum (clamp k.le value minimum maximum) ≡ true)
        × (k.le (clamp k.le value minimum maximum) maximum ≡ true)
  unfolding clamp
  clamp_bounds v lo hi h = (
    ground (arith, o.le_total v lo, o.le_total (max k.le v lo) hi, le_refl lo, le_refl hi),
    ground (arith, o.le_total v lo, o.le_total v hi, o.le_total lo hi, le_refl hi),
  )

-- Integers are clamped by the same function.
pub clamp_ℤ_bounds :
    (value minimum maximum : ℤ)
    → minimum ≤ℤ maximum
    → (minimum ≤ℤ clamp leb_ℤ value minimum maximum)
      × (clamp leb_ℤ value minimum maximum ≤ℤ maximum)
unfolding clamp
clamp_ℤ_bounds v lo hi h = ground arith
