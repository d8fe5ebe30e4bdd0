-- ===== src/Editor/Diagnostics/Actions/Counting.antt =====
-- The number of places of `console.log`, and how a replacement changes it.
use code_roam.Prelude.{
  ℕ, zero, suc, ◌+◌, ◌-◌, ◌==◌, ◌≡◌, refl, sym, ap, ◌∙◌, Bool, true, false, ◌&&◌, List, [], ◌∷◌,
  ◌++◌, length, drop, all, not, arith, if◌then◌else◌,
}
use code_roam.Js.Strings.{Text, codes}
use code_roam.Editor.Diagnostics.{DiagnosticRange, diagnostic_target, starts_with}
use code_roam.Editor.Diagnostics.Marks.{occurs, NoneFrom, Marks, drop-drop, drop_nil}
use code_roam.Editor.Diagnostics.Actions.{replacement}

abbrev tally : Bool → ℕ
tally b = if b then 1 else 0

-- How many suffixes of a text begin with `console.log`.
abbrev pub places : Text → ℕ
places [] = 0
places (c ∷ t) = tally (starts_with diagnostic_target (c ∷ t)) + places t

-- `console.log` holds one place, whatever follows, and `console.info` none.
pub places-target : (rest : Text) → places (diagnostic_target ++ rest) ≡ 1 + places rest
places-target rest = omega arith

places-replacement : (rest : Text) → places (replacement ++ rest) ≡ places rest
places-replacement rest = omega arith

-- A text without the letter `c` begins what goes on with that letter no further than the letter.
starts_with-past :
    (s before x y : Text)
    → all (λ d. not (d == b'c')) s ≡ true
    → starts_with s (before ++ b'c' ∷ x) ≡ starts_with s (before ++ b'c' ∷ y)
starts_with-past [] before x y h = refl
starts_with-past (d ∷ s) [] x y h = ground arith
starts_with-past (d ∷ s) (a ∷ before) x y h =
    let tail : all (λ d. not (d == b'c')) s ≡ true = ground arith in
    ap (λ b. (d == a) && b) (starts_with-past s before x y tail)

-- Before both texts the places are the same.
pub places-replace :
    (before rest : Text)
    → places (before ++ (diagnostic_target ++ rest)) ≡ 1 + places (before ++ (replacement ++ rest))
places-replace [] rest = places-target rest ∙ ap (λ n. 1 + n) (sym (places-replacement rest))
places-replace (a ∷ before) rest =
    let alike : starts_with diagnostic_target (a ∷ (before ++ (diagnostic_target ++ rest)))
        ≡ starts_with diagnostic_target (a ∷ (before ++ (replacement ++ rest))) =
      ap (λ b. (b'c' == a) && b) (starts_with-past (codes "onsole.log") before _ _ refl) in
    omega (arith, ap tally alike, places-replace before rest)

places-step :
    (document : Text) (low : ℕ)
    → occurs document low ≡ false
    → places (drop low document) ≡ places (drop (suc low) document)
places-step [] low h = ap places (drop_nil low)
places-step (c ∷ t) zero h = rw h (omega arith)
places-step (c ∷ t) (suc low) h = places-step t low h

-- Between two suffixes without a place there is none.
places-skip :
    (document : Text) (gap low : ℕ)
    → NoneFrom document low (low + gap)
    → places (drop low document) ≡ places (drop (low + gap) document)
places-skip document zero low absent =
    let same : low ≡ low + 0 = omega arith in ap (λ i. places (drop i document)) same
places-skip document (suc gap) low absent =
    let same : suc low + gap ≡ low + suc gap = omega arith in
    places-step document low (absent low (omega arith) (omega arith))
    ∙ places-skip document gap (suc low) (λ i from less. absent i (omega arith) (omega arith))
    ∙ ap (λ i. places (drop i document)) same

places-none :
    (t : Text) → ((i : ℕ) → starts_with diagnostic_target (drop i t) ≡ false) → places t ≡ 0
places-none [] absent = refl
places-none (c ∷ t) absent = omega (arith, ap tally (absent 0), places-none t (λ i. absent (suc i)))

-- A text that begins with another is that one and the rest.
pub starts_with-append : (s t : Text) → starts_with s t ≡ true → t ≡ s ++ drop (length s) t
starts_with-append [] t h = refl
starts_with-append (d ∷ s) [] h = cc
starts_with-append (d ∷ s) (a ∷ t) h = ground (arith, starts_with-append s t)

places-occurs :
    (document : Text) (i : ℕ)
    → occurs document i ≡ true
    → places (drop i document) ≡ 1 + places (drop (i + 11) document)
places-occurs document i h =
    ap places (starts_with-append diagnostic_target (drop i document) h)
    ∙ places-target (drop 11 (drop i document))
    ∙ ap (λ t. 1 + places t) (drop-drop i 11 document)

-- The ranges of a document are as many as its places.
pub length-Marks :
    (document : Text) (low : ℕ) (ranges : List DiagnosticRange)
    → Marks document low ranges
    → length ranges ≡ places (drop low document)
length-Marks document low [] absent = sym (
    places-none (drop low document) (λ i.
      ap (starts_with diagnostic_target) (drop-drop low i document)
      ∙ absent (low + i) (omega arith)))
length-Marks document low (r ∷ ranges) (from, here, to, absent, rest) =
    let reach : low + (r.from - low) ≡ r.from = omega arith in
    let skipped : places (drop low document) ≡ places (drop r.from document) =
      places-skip document (r.from - low) low (λ i after less. absent i after (omega arith))
      ∙ ap (λ i. places (drop i document)) reach in
    omega (
      arith,
      length-Marks document r.to ranges rest,
      skipped,
      places-occurs document r.from here,
      ap (λ i. places (drop i document)) to,
    )
