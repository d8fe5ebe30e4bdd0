-- ===== src/Js/Strings.antt =====
-- Strings as their UTF-16 code units: `===`, `length`, `trim` and the white space of `\s`.
use Prim.Native.Char.{code}
use Prim.Native.String.{String}
use code_roam.Prelude.{
  ℕ, ◌≡◌, refl, Bool, true, false, ◌&&◌, ◌||◌, List, [], ◌∷◌, arith, leb, ◌==◌, if◌then◌else◌,
  length, all, Bool-cases, inl, inr,
}

abbrev pub Text : Type 0
Text = List ℕ

-- A literal of the source, all of them ASCII.
abbrev pub codes : String → Text
codes String.[] = []
codes (String.◌∷◌ c s) = code c ∷ codes s

unfoldable pub text_eq : Text → Text → Bool
text_eq [] [] = true
text_eq [] (y ∷ ys) = false
text_eq (x ∷ xs) [] = false
text_eq (x ∷ xs) (y ∷ ys) = x == y && text_eq xs ys

pub text_eq_refl : (t : Text) → text_eq t t ≡ true
unfolding text_eq
text_eq_refl [] = refl
text_eq_refl (x ∷ xs) = ground (arith, text_eq_refl xs)

pub text_eq→eq : (s t : Text) → text_eq s t ≡ true → s ≡ t
unfolding text_eq
text_eq→eq [] [] h = refl
text_eq→eq [] (y ∷ ys) h = ground arith
text_eq→eq (x ∷ xs) [] h = ground arith
text_eq→eq (x ∷ xs) (y ∷ ys) h = ground (arith, text_eq→eq xs ys)

-- White space and line terminators, as `trim` and `\s` have them.
unfoldable pub is_space : ℕ → Bool
is_space c =
    leb 9 c && leb c 13
    || c == 0x20
    || c == 0xa0
    || c == 0x1680
    || leb 0x2000 c && leb c 0x200a
    || c == 0x2028
    || c == 0x2029
    || c == 0x202f
    || c == 0x205f
    || c == 0x3000
    || c == 0xfeff

trim_start : Text → Text
trim_start [] = []
trim_start (c ∷ t) = if is_space c then trim_start t else c ∷ t

-- `c ∷ t` without its trailing white space, from `t` without its own
trim_unit : ℕ → Text → Text
trim_unit c [] = if is_space c then [] else c ∷ []
trim_unit c (d ∷ t) = c ∷ d ∷ t

trim_end : Text → Text
trim_end [] = []
trim_end (c ∷ t) = trim_unit c (trim_end t)

unfoldable pub trim : Text → Text
unfolding trim_start trim_end trim_unit is_space
trim t = trim_end (trim_start t)

-- `text.trim().length === 0`
unfoldable pub is_blank : Text → Bool
unfolding trim
is_blank t = length (trim t) == 0

length-trim_unit :
    (c : ℕ) (t : Text) → (length (trim_unit c t) == 0) ≡ (is_space c && (length t == 0))
unfolding trim_unit
length-trim_unit c [] = ground arith
length-trim_unit c (d ∷ t) = ground arith

length-trim_end : (t : Text) → (length (trim_end t) == 0) ≡ all is_space t
unfolding trim_end
length-trim_end [] = refl
length-trim_end (c ∷ t) = ground (arith, length-trim_unit c (trim_end t), length-trim_end t)

length-trim : (t : Text) → (length (trim_end (trim_start t)) == 0) ≡ all is_space t
unfolding trim_start
length-trim [] = length-trim_end []
length-trim (c ∷ t) = elim (Bool-cases (is_space c)) [
  | inl space ↦ rw (space, trim_start) (length-trim t)
  | inr other ↦ ground (arith, length-trim_end (c ∷ t))
]

-- A text is blank exactly when all of it is white space.
pub is_blank_lem : (t : Text) → is_blank t ≡ all is_space t
unfolding is_blank
is_blank_lem t = length-trim t
