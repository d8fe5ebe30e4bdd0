-- ===== src/Js/Numerals.antt =====
-- `String(n)` and `n.toString(16)` of a natural number, and `padStart`.
use native.Mathlib.Nat.{mod-lt, div-add-mod', div-lt_iff_lt-mul, pow-suc, pow-zero, one-mul}
use code_roam.Prelude.{
  ℕ, zero, suc, ◌+◌, ◌-◌, ◌*◌, ◌/◌, ◌%◌, ◌^◌, ◌≤◌, ◌<◌, ◌≡◌, ◌∙◌, sym, refl, ap, arith, true, ltb,
  [], ◌∷◌, ◌++◌, if◌then◌else◌, length, length-append, length-replicate, replicate, Bool-cases, inl,
  inr, ltb→lt, lt→ltb,
}
use code_roam.Js.Strings.{Text}

-- The code unit of a digit, and back.
unfoldable pub digit : ℕ → ℕ
digit d = if ltb d 10 then 48 + d else 87 + d

digit_value : ℕ → ℕ
digit_value c = if ltb c 58 then c - 48 else c - 87

digits_from : ℕ → ℕ → ℕ → Text
digits_from zero base n = []
digits_from (suc fuel) base n =
    let rest = digits_from fuel base (n / base) in
    if ltb n base then digit n ∷ [] else rest ++ digit (n % base) ∷ []

-- `n` has at most `n + 1` digits.
unfoldable pub number_text : ℕ → ℕ → Text
unfolding digits_from digit
number_text base n = digits_from (n + 1) base n

-- `text.padStart(width, "0")`
unfoldable pub pad_start : ℕ → Text → Text
pad_start width text = replicate (width - length text) b'0' ++ text

-- The number that a text of digits stands for.
value_from : ℕ → ℕ → Text → ℕ
value_from base acc [] = acc
value_from base acc (c ∷ t) = value_from base (acc * base + digit_value c) t

pub value : ℕ → Text → ℕ
value base t = value_from base 0 t

value-append :
    (base acc : ℕ) (s t : Text)
    → value_from base acc (s ++ t) ≡ value_from base (value_from base acc s) t
unfolding value_from
value-append base acc [] t = refl
value-append base acc (c ∷ s) t = value-append base (acc * base + digit_value c) s t

digit_value-digit : (d : ℕ) → d < 36 → digit_value (digit d) ≡ d
unfolding digit_value digit
digit_value-digit d h = ground arith

module _ (base : ℕ) (low : 2 ≤ base) (high : base ≤ 36) where
  quotient-lt : (n fuel : ℕ) → base ≤ n → n < suc fuel → n / base < fuel
  quotient-lt n fuel h k = grind arith

  last_digit : (n : ℕ) {v : ℕ} → v ≡ n / base → v * base + digit_value (digit (n % base)) ≡ n
  last_digit n e =
      rw (e, digit_value-digit (n % base) (omega (arith, mod-lt n {m = base} (omega arith))))
        (div-add-mod' n base)

  value-digits_from : (fuel n : ℕ) → n < fuel → value_from base 0 (digits_from fuel base n) ≡ n
  unfolding digits_from value_from
  value-digits_from zero n h = absurd (omega arith)
  value-digits_from (suc fuel) n h = elim (Bool-cases (ltb n base)) [
    | inl small ↦ rw small (omega (arith, digit_value-digit n, ltb→lt n base small))
    | inr large ↦ rw large (
        value-append base 0 (digits_from fuel base (n / base)) (digit (n % base) ∷ [])
        ∙ last_digit n (value-digits_from fuel (n / base) (quotient-lt n fuel (ground arith) h)))
  ]

  -- A number's digits stand for it, in any base up to 36.
  pub value-number_text : (n : ℕ) → value base (number_text base n) ≡ n
  unfolding number_text value
  value-number_text n = value-digits_from (n + 1) n (omega arith)

  pub number_text-injective : (m n : ℕ) → number_text base m ≡ number_text base n → m ≡ n
  number_text-injective m n e = sym (value-number_text m) ∙ ap (value base) e ∙ value-number_text n

value-zeros :
    (base n : ℕ) (t : Text) → value_from base 0 (replicate n b'0' ++ t) ≡ value_from base 0 t
unfolding value_from digit_value
value-zeros base zero t = refl
value-zeros base (suc n) t =
    let start : 0 * base + 0 ≡ 0 = omega arith in
    ap (λ acc. value_from base acc (replicate n b'0' ++ t)) start ∙ value-zeros base n t

-- Padding with zeros does not change the number.
pub value-pad_start : (base width : ℕ) (t : Text) → value base (pad_start width t) ≡ value base t
unfolding value pad_start
value-pad_start base width t = value-zeros base (width - length t) t

pub length-pad_start :
    (width : ℕ) (t : Text) → length t ≤ width → length (pad_start width t) ≡ width
unfolding pad_start
length-pad_start width t h = omega (
  arith,
  length-append (replicate (width - length t) b'0') t,
  length-replicate {A = ℕ} (width - length t) b'0',
)

pow_one : {base : ℕ} → base ^ 1 ≡ base
pow_one {base} = pow-suc base 0 ∙ ap (λ (p : ℕ). p * base) (pow-zero base) ∙ one-mul base

-- A number below the power of the base has at most so many digits.
length-digits_from :
    (base : ℕ)
    → 2 ≤ base
    → (width fuel n : ℕ) → n < base ^ suc width
    → length (digits_from fuel base n) ≤ suc width
unfolding digits_from
length-digits_from base low width zero n h = omega arith
length-digits_from base low zero (suc fuel) n h =
    let small : ltb n base ≡ true = lt→ltb n base (rw pow_one at h) in rw small (omega arith)
length-digits_from base low (suc width) (suc fuel) n h = elim (Bool-cases (ltb n base)) [
  | inl small ↦ rw small (omega arith)
  | inr large ↦
      let positive : 0 < base = omega arith in
      let product : n < base ^ suc width * base = omega (arith, pow-suc base (suc width)) in
      let below : n / base < base ^ suc width =
        (div-lt_iff_lt-mul {k = base} {x = n} {y = base ^ suc width} positive).1 product in
      rw large (
        omega (
          arith,
          length-append (digits_from fuel base (n / base)) (digit (n % base) ∷ []),
          length-digits_from base low width fuel (n / base) below,
        ))
]

pub length-number_text :
    (base : ℕ)
    → 2 ≤ base
    → (width n : ℕ) → n < base ^ suc width
    → length (number_text base n) ≤ suc width
unfolding number_text
length-number_text base low width n h = length-digits_from base low width (n + 1) n h
