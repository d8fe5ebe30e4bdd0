-- ===== src/Editor/Diagnostics/Marks.antt =====
-- The ranges of `findConsoleLogRanges` are all the places of `console.log`, in order.
use code_roam.Prelude.{
  ℕ, zero, suc, ◌+◌, ◌-◌, ◌≤◌, ◌<◌, ◌≡◌, refl, sym, ap, ◌∙◌, Bool, true, false, Option, none, some,
  List, [], ◌∷◌, length, drop, length-drop, ◌>>=◌, Bool-cases, Option-cases, >>=-eq-some, inl, inr,
  arith,
}
use code_roam.Js.Strings.{Text}
use code_roam.Editor.Diagnostics.{
  DiagnosticRange, diagnostic_target, starts_with, position, index_of, ranges_from,
  find_console_log_ranges,
}

-- The document has `console.log` at a place.
abbrev pub occurs : Text → ℕ → Bool
occurs document i = starts_with diagnostic_target (drop i document)

-- No place from `low` up to `high` has it.
abbrev pub NoneFrom : Text → ℕ → ℕ → Type 0
NoneFrom document low high = (i : ℕ) → low ≤ i → i < high → occurs document i ≡ false

-- From `low` on, the ranges are the places, the leftmost first, none inside another, and no place
-- between two ranges or after the last.
abbrev pub Marks : Text → ℕ → List DiagnosticRange → Type 0
Marks document low [] = (i : ℕ) → low ≤ i → occurs document i ≡ false
Marks document low (r ∷ ranges) =
    (low ≤ r.from)
    × (occurs document r.from ≡ true)
    × (r.to ≡ r.from + length diagnostic_target)
    × NoneFrom document low r.from
    × Marks document r.to ranges

starts_with_length : (s t : Text) → starts_with s t ≡ true → length s ≤ length t
starts_with_length [] t h = omega arith
starts_with_length (c ∷ s) [] h = cc
starts_with_length (c ∷ s) (d ∷ t) h = ground (arith, starts_with_length s t)

pub drop_nil : (n : ℕ) → drop {A = ℕ} n [] ≡ []
drop_nil zero = refl
drop_nil (suc n) = refl

pub drop-drop : (low i : ℕ) (t : Text) → drop i (drop low t) ≡ drop (low + i) t
drop-drop zero i t = let same : i ≡ zero + i = omega arith in ap (λ n. drop n t) same
drop-drop (suc low) i [] = drop_nil i ∙ sym (drop_nil (suc low + i))
drop-drop (suc low) i (c ∷ t) =
    let moved : suc (low + i) ≡ suc low + i = omega arith in
    drop-drop low i t ∙ ap (λ n. drop n (c ∷ t)) moved

some_eq : {m n : ℕ} → some m ≡ some n → m ≡ n
some_eq h = ground arith

position_found :
    (s t : Text) (n : ℕ)
    → position s t ≡ some n
    → (starts_with s (drop n t) ≡ true) × ((i : ℕ) → i < n → starts_with s (drop i t) ≡ false)
position_found [] [] n h = (refl, λ i less. absurd (omega (arith, some_eq h)))
position_found (a ∷ s) [] n h = cc
position_found s (c ∷ t) n h = elim (Bool-cases (starts_with s (c ∷ t))) [
  | inl here ↦
      let same : n ≡ 0 = ground arith in (rw same here, λ i less. absurd (omega (arith, same)))
  | inr later ↦ elim (Option-cases (position s t)) [
    | inl none_later ↦ absurd (ground arith)
    | inr (m, found) ↦
        let same : n ≡ suc m = ground arith in
        let (there, before) = position_found s t m found in
        (rw same there, passed s c t n m same later before)
  ]
]
  where
    passed :
        (s : Text) (c : ℕ) (t : Text) (n m : ℕ)
        → n ≡ suc m
        → starts_with s (c ∷ t) ≡ false
        → ((i : ℕ) → i < m → starts_with s (drop i t) ≡ false)
        → (i : ℕ) → i < n
        → starts_with s (drop i (c ∷ t)) ≡ false
    passed s c t n m same later before zero less = later
    passed s c t n m same later before (suc i) less = before i (omega arith)

position_missing : (s t : Text) → position s t ≡ none → (i : ℕ) → starts_with s (drop i t) ≡ false
position_missing [] [] h i = cc
position_missing (a ∷ s) [] h zero = refl
position_missing (a ∷ s) [] h (suc i) = refl
position_missing s (c ∷ t) h i = elim (Bool-cases (starts_with s (c ∷ t))) [
  | inl here ↦ absurd (ground arith)
  | inr later ↦ elim (Option-cases (position s t)) [
    | inl none_later ↦ passed s c t later (position_missing s t none_later) i
    | inr (m, found) ↦ absurd (ground arith)
  ]
]
  where
    passed :
        (s : Text) (c : ℕ) (t : Text)
        → starts_with s (c ∷ t) ≡ false
        → ((i : ℕ) → starts_with s (drop i t) ≡ false)
        → (i : ℕ) → starts_with s (drop i (c ∷ t)) ≡ false
    passed s c t later before zero = later
    passed s c t later before (suc i) = before i

index_of_found :
    (document : Text) (low n : ℕ)
    → index_of document diagnostic_target low ≡ some n
    → (low ≤ n) × (occurs document n ≡ true) × NoneFrom document low n
unfolding index_of
index_of_found document low n h =
    let (m, found, same) = >>=-eq-some (position diagnostic_target (drop low document)) _ h in
    let (there, before) = position_found diagnostic_target (drop low document) m found in
    let n_lem : n ≡ low + m = sym (some_eq same) in
    (
      omega (arith, n_lem),
      rw (n_lem) (ap (starts_with diagnostic_target) (sym (drop-drop low m document)) ∙ there),
      λ i from less.
          let at : drop (i - low) (drop low document) ≡ drop i document =
            drop-drop low (i - low) document ∙ ap (λ k. drop k document) (omega arith) in
          ap (starts_with diagnostic_target) (sym at) ∙ before (i - low) (omega arith),
    )

index_of_missing :
    (document : Text) (low : ℕ)
    → index_of document diagnostic_target low ≡ none
    → (i : ℕ) → low ≤ i
    → occurs document i ≡ false
unfolding index_of
index_of_missing document low h i from =
    let missing : position diagnostic_target (drop low document) ≡ none =
      >>=-eq-none (λ n. low + n) (position diagnostic_target (drop low document)) h in
    let at : drop (i - low) (drop low document) ≡ drop i document =
      drop-drop low (i - low) document ∙ ap (λ k. drop k document) (omega arith) in
    ap (starts_with diagnostic_target) (sym at)
    ∙ position_missing diagnostic_target (drop low document) missing (i - low)
  where
    >>=-eq-none : (f : ℕ → ℕ) (o : Option ℕ) → (o >>= λ n. some (f n)) ≡ none → o ≡ none
    >>=-eq-none f none h = refl
    >>=-eq-none f (some n) h = cc

-- A place is far enough from the end of the document.
pub occurs-le : (document : Text) (i : ℕ) → occurs document i ≡ true → i + 11 ≤ length document
occurs-le document i h =
    omega (arith, starts_with_length diagnostic_target (drop i document) h, length-drop i document)

ranges-Marks :
    (fuel : ℕ) (document : Text) (low : ℕ)
    → length document < fuel + low
    → Marks document low (ranges_from fuel document (index_of document diagnostic_target low))
unfolding ranges_from
ranges-Marks zero document low enough = λ i from. elim (Bool-cases (occurs document i)) [
  | inl here ↦ absurd (omega (arith, occurs-le document i here))
  | inr absent ↦ absent
]
ranges-Marks (suc fuel) document low enough =
    elim (Option-cases (index_of document diagnostic_target low)) [
      | inl missing ↦ rw missing (index_of_missing document low missing)
      | inr (n, found) ↦
          let (from, there, before) = index_of_found document low n found in
          rw found (from, there, refl, before, ranges-Marks fuel document (n + 11) (omega arith))
    ]

-- The ranges are the places of `console.log` in the document, from left to right and without
-- overlap, and no place is left out.
pub find-Marks : (document : Text) → Marks document 0 (find_console_log_ranges document)
unfolding find_console_log_ranges
find-Marks document = ranges-Marks (length document + 1) document 0 (omega arith)
