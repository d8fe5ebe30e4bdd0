-- ===== src/Selection/Fractions/Quotients.antt =====
-- Products and quotients of fractions, and their order.
use code_roam.Prelude.{
  ℕ, suc, ◌+◌, ◌-◌, ◌*◌, ◌<◌, ℤ, pos, ◌+ℤ◌, +ℤ_parts, true, false, le→leb, arith, ◌≡◌, ◌↔◌, sym, ap,
}
use native.Mathlib.Nat.{mul-pos}
use mathlib.Core.Path.{subst, subst₂, subst₃}
use code_roam.Selection.Fractions.{Fraction, whole, sum, product, divided, quotient, le_fraction}
use code_roam.Selection.Fractions.Order.{scaled}

-- A positive fraction, by how much its `up` is greater.
abbrev grown : ℕ → ℕ → (den : ℕ) → 0 < den → Fraction
grown n down den h = record { up = down + suc n; down = down; den = den; den_pos = h }

positive :
    (P : Fraction → Type 0)
    → ((n down den : ℕ) (h : 0 < den) → P (grown n down den h))
    → (s : Fraction) → le_fraction s (whole (pos 0)) ≡ false
    → P s
unfolding le_fraction
positive P each s h =
    let more : s.down < s.up = ground arith in
    let up : s.up ≡ s.down + suc (s.up - s.down - 1) = omega arith in
    subst P (sym (ap (λ u. record s { up = u }) up))
      (each (s.up - s.down - 1) s.down s.den s.den_pos)

quotient-grown :
    (a : Fraction) (n down den : ℕ) (h : 0 < den)
    → quotient a (grown n down den h) ≡ divided a (suc n) den
unfolding quotient
quotient-grown a n down den h =
    let left : down + suc n - down ≡ suc n = omega arith in ap (λ m. divided a m den) left

swap_iff : {A B : Type 0} → A ↔ B → B ↔ A
swap_iff h = (h.1, h.0)

pub le-over_lem :
    (a b s : Fraction)
    → le_fraction s (whole (pos 0)) ≡ false
    → (le_fraction a (quotient b s) ≡ true) ↔ (le_fraction (product a s) b ≡ true)
unfolding le_fraction product divided
le-over_lem a b =
    positive (λ s. (le_fraction a (quotient b s) ≡ true) ↔ (le_fraction (product a s) b ≡ true))
      λ n down den h.
        subst
          (λ q. (le_fraction a q ≡ true) ↔ (le_fraction (product a (grown n down den h)) b ≡ true))
          (sym (quotient-grown b n down den h))
          (swap_iff (
            scaled _ _ _ _ 1 ((a.up * down + a.down * down) * b.den) (omega arith) (omega arith)
              (omega arith)))

pub over-le_lem :
    (a b s : Fraction)
    → le_fraction s (whole (pos 0)) ≡ false
    → (le_fraction (quotient a s) b ≡ true) ↔ (le_fraction a (product b s) ≡ true)
unfolding le_fraction product divided
over-le_lem a b =
    positive (λ s. (le_fraction (quotient a s) b ≡ true) ↔ (le_fraction a (product b s) ≡ true))
      λ n down den h.
        subst
          (λ q. (le_fraction q b ≡ true) ↔ (le_fraction a (product b (grown n down den h)) ≡ true))
          (sym (quotient-grown a n down den h))
          (swap_iff (
            scaled _ _ _ _ 1 ((b.up * down + b.down * down) * a.den) (omega arith) (omega arith)
              (omega arith)))

pub over_iff_lem :
    (a b s : Fraction)
    → le_fraction s (whole (pos 0)) ≡ false
    → (le_fraction (quotient a s) (quotient b s) ≡ true) ↔ (le_fraction a b ≡ true)
unfolding le_fraction divided
over_iff_lem a b =
    positive (λ s. (le_fraction (quotient a s) (quotient b s) ≡ true) ↔ (le_fraction a b ≡ true))
      λ n down den h.
        subst₂ (λ q r. (le_fraction q r ≡ true) ↔ (le_fraction a b ≡ true))
          (sym (quotient-grown a n down den h)) (sym (quotient-grown b n down den h))
          (scaled _ _ _ _ (den * suc n) 0 (mul-pos h (omega arith)) (omega arith) (omega arith))

pub times_iff_lem :
    (a b s : Fraction)
    → le_fraction s (whole (pos 0)) ≡ false
    → (le_fraction (product a s) (product b s) ≡ true) ↔ (le_fraction a b ≡ true)
unfolding le_fraction product
times_iff_lem a b =
    positive (λ s. (le_fraction (product a s) (product b s) ≡ true) ↔ (le_fraction a b ≡ true))
      λ n down den h.
        scaled _ _ _ _ (den * suc n)
          (den * down * (a.up * b.den + a.down * b.den + b.up * a.den + b.down * a.den))
          (mul-pos h (omega arith)) (omega arith) (omega arith)

pub half_below_lem :
    (a b s : Fraction)
    → (le_fraction a (
          sum b (
            quotient (sum (whole (pos 0)) (record s { up = s.down; down = s.up })) (whole (pos 2))))
        ≡ true)
      ↔ (le_fraction (sum (sum a a) s) (sum b b) ≡ true)
unfolding le_fraction sum quotient divided
half_below_lem a b s =
    swap_iff
      (scaled _ _ _ _ (a.den * b.den) 0 (mul-pos a.den_pos b.den_pos) (omega arith) (omega arith))

abbrev pub part : ℤ → Fraction → Fraction → Fraction
part i s a = product (quotient (whole i) s) a

abbrev divided_part : ℤ → ℕ → ℕ → Fraction → Fraction
divided_part i n den a = product (divided (whole i) (suc n) den) a

parts_lem :
    (i j : ℤ) (n den : ℕ) (a : Fraction)
    → (le_fraction
          (sum (divided_part i n den a) (divided_part j n den a))
          (divided_part (i +ℤ j) n den a)
        ≡ true)
      × (le_fraction
            (divided_part (i +ℤ j) n den a)
            (sum (divided_part i n den a) (divided_part j n den a))
          ≡ true)
unfolding le_fraction product divided sum
parts_lem i j n den a =
    let up = ap (λ (t : ℕ). t * (a.up * den * (suc n * a.den) * (suc n * a.den))) (+ℤ_parts i j) in
    let down =
      ap (λ (t : ℕ). t * (a.down * den * (suc n * a.den) * (suc n * a.den))) (+ℤ_parts i j) in
    (le→leb _ _ (omega (arith, up, down)), le→leb _ _ (omega (arith, up, down)))

pub parts-both :
    (i j : ℤ) (s a : Fraction)
    → le_fraction s (whole (pos 0)) ≡ false
    → (le_fraction (sum (part i s a) (part j s a)) (part (i +ℤ j) s a) ≡ true)
      × (le_fraction (part (i +ℤ j) s a) (sum (part i s a) (part j s a)) ≡ true)
parts-both i j s a h =
    positive
      (λ s.
        (le_fraction (sum (part i s a) (part j s a)) (part (i +ℤ j) s a) ≡ true)
        × (le_fraction (part (i +ℤ j) s a) (sum (part i s a) (part j s a)) ≡ true))
      (λ n down den h.
        subst₃
          (λ p q r.
            (le_fraction (sum (product p a) (product q a)) (product r a) ≡ true)
            × (le_fraction (product r a) (sum (product p a) (product q a)) ≡ true))
          (sym (quotient-grown (whole i) n down den h))
          (sym (quotient-grown (whole j) n down den h))
          (sym (quotient-grown (whole (i +ℤ j)) n down den h)) (parts_lem i j n den a))
      s h

part_lem :
    (n den : ℕ) (a : Fraction)
    → (le_fraction (divided a (suc n) den) (divided_part (pos 1) n den a) ≡ true)
      × (le_fraction (divided_part (pos 1) n den a) (divided a (suc n) den) ≡ true)
unfolding le_fraction product divided
part_lem n den a = (le→leb _ _ (omega arith), le→leb _ _ (omega arith))

pub part-both :
    (s a : Fraction)
    → le_fraction s (whole (pos 0)) ≡ false
    → (le_fraction (quotient a s) (part (pos 1) s a) ≡ true)
      × (le_fraction (part (pos 1) s a) (quotient a s) ≡ true)
part-both s a h =
    positive
      (λ s.
        (le_fraction (quotient a s) (part (pos 1) s a) ≡ true)
        × (le_fraction (part (pos 1) s a) (quotient a s) ≡ true))
      (λ n down den h.
        subst₂ (λ p q. (le_fraction p (product q a) ≡ true) × (le_fraction (product q a) p ≡ true))
          (sym (quotient-grown a n down den h)) (sym (quotient-grown (whole (pos 1)) n down den h))
          (part_lem n den a))
      s h
