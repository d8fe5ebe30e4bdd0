-- ===== src/Selection/Fractions/Order.antt =====
-- The order of fractions, and sums.
use code_roam.Prelude.{ℕ, ◌+◌, ◌*◌, ◌<◌, ◌≤◌, true, false, leb, leb→le, le→leb, arith, ◌≡◌, ◌↔◌}
use native.Mathlib.Nat.{mul-pos, mul-le-mul_right, le_of_mul-le-mul_right}
use code_roam.Selection.Fractions.{Fraction, sum, le_fraction}

-- The two sides by a common factor, and with a common summand.
pub scaled :
    (a b c d n r : ℕ) → 0 < n → c ≡ a * n + r → d ≡ b * n + r → (leb c d ≡ true) ↔ (leb a b ≡ true)
scaled a b c d n r h p q = (
  λ e.
      let le : a * n ≤ b * n = omega (arith, leb→le c d e) in
      let le' : a ≤ b = le_of_mul-le-mul_right le h in ground arith,
  λ e. ground (arith, mul-le-mul_right {m = a} {n = b} n (leb→le a b e)),
)

pub le_trans_lem :
    (a b c : Fraction) → le_fraction a b ≡ true → le_fraction b c ≡ true → le_fraction a c ≡ true
unfolding le_fraction
le_trans_lem a b c h h' =
    (scaled (a.up * c.den + c.down * a.den) (c.up * a.den + a.down * c.den)
        ((a.up * c.den + c.down * a.den) * b.den) ((c.up * a.den + a.down * c.den) * b.den) b.den 0
        b.den_pos (omega arith) (omega arith)).0
      (le→leb _ _ (
        omega
          (arith, mul-le-mul_right c.den (leb→le _ _ h), mul-le-mul_right a.den (leb→le _ _ h'))))

pub le_total_lem : (a b : Fraction) → le_fraction a b ≡ false → le_fraction b a ≡ true
unfolding le_fraction
le_total_lem a b h = ground arith

pub plus_comm_lem : (a b : Fraction) → le_fraction (sum a b) (sum b a) ≡ true
unfolding le_fraction sum
plus_comm_lem a b = le→leb _ _ (omega arith)

pub plus_iff_lem :
    (a b c : Fraction) → (le_fraction (sum a c) (sum b c) ≡ true) ↔ (le_fraction a b ≡ true)
unfolding le_fraction sum
plus_iff_lem a b c =
    scaled _ _ _ _ (c.den * c.den) (c.up * a.den * b.den * c.den + c.down * a.den * b.den * c.den)
      (mul-pos c.den_pos c.den_pos) (omega arith) (omega arith)

pub minus_iff_lem :
    (a b c : Fraction)
    → (le_fraction a (sum b (record c { up = c.down; down = c.up })) ≡ true)
      ↔ (le_fraction (sum a c) b ≡ true)
unfolding le_fraction sum
minus_iff_lem a b c = scaled _ _ _ _ 1 0 (omega arith) (omega arith) (omega arith)

pub plus_mono_lem :
    (a b c d : Fraction)
    → le_fraction a b ≡ true
    → le_fraction c d ≡ true
    → le_fraction (sum a c) (sum b d) ≡ true
unfolding le_fraction sum
plus_mono_lem a b c d h h' = le→leb _ _ (
    omega (
      arith,
      mul-le-mul_right (c.den * d.den) (leb→le _ _ h),
      mul-le-mul_right (a.den * b.den) (leb→le _ _ h'),
    ))

pub plus_cancel_lem :
    (a b c d : Fraction)
    → (le_fraction (sum a d) (sum (sum d b) c) ≡ true) ↔ (le_fraction a (sum b c) ≡ true)
unfolding le_fraction sum
plus_cancel_lem a b c d =
    scaled _ _ _ _ (d.den * d.den)
      (d.up * a.den * b.den * c.den * d.den + d.down * a.den * b.den * c.den * d.den)
      (mul-pos d.den_pos d.den_pos) (omega arith) (omega arith)
