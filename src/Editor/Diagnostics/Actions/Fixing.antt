-- ===== src/Editor/Diagnostics/Actions/Fixing.antt =====
-- Each action removes one diagnostic, and no action adds one.
use mathlib.Core.List.{Mem}
use code_roam.Prelude.{
  ℕ, zero, suc, ◌+◌, ◌≤◌, ◌≡◌, refl, sym, ap, ◌∙◌, true, List, [], ◌∷◌, ◌++◌, map, length, drop,
  take, All, All-Mem, arith,
}
use code_roam.Js.Strings.{Text}
use code_roam.Editor.Diagnostics.{DiagnosticRange, diagnostic_target, find_console_log_ranges}
use code_roam.Editor.Diagnostics.Marks.{occurs, Marks, find-Marks, occurs-le, drop-drop}
use code_roam.Editor.Diagnostics.Actions.{
  Dispatching, Diagnostic, diagnostic_of, replacement, code_roam_diagnostics, apply_action, Fixes,
  untouched, fixed,
}
use code_roam.Editor.Diagnostics.Actions.Counting.{
  places, places-replace, length-Marks, starts_with-append,
}

-- What CodeMirror documents of a change: it puts the text in place of the range.
pub record Splices (v : Dispatching) : Type 0 where
  pub splice :
      (from to : ℕ) (t : Text) (s : v.State)
      → from ≤ to
      → to ≤ length (v.document s)
      → v.document (v.dispatch from to t s)
        ≡ take from (v.document s) ++ (t ++ drop to (v.document s))

-- A diagnostic marks a place.
abbrev IsPlace : Text → Diagnostic → Type 0
IsPlace document d = (occurs document d.from ≡ true) × (d.to ≡ d.from + 11)

IsPlace-prop : (document : Text) (d : Diagnostic) → IsProp (IsPlace document d)
IsPlace-prop document d = hlevel

Marks-All :
    (document : Text) (low : ℕ) (ranges : List DiagnosticRange)
    → Marks document low ranges
    → All (IsPlace document) (map diagnostic_of ranges)
unfolding diagnostic_of
Marks-All document low [] m = tt
Marks-All document low (r ∷ ranges) (from, here, to, absent, rest) =
    ((here, to), Marks-All document r.to ranges rest)

take-drop : (n : ℕ) (t : Text) → take n t ++ drop n t ≡ t
take-drop zero t = refl
take-drop (suc n) [] = refl
take-drop (suc n) (c ∷ t) = ap (λ r. c ∷ r) (take-drop n t)

-- The document is what stands before a place, the place, and what follows.
split :
    (document : Text) (i : ℕ)
    → occurs document i ≡ true
    → document ≡ take i document ++ (diagnostic_target ++ drop (i + 11) document)
split document i h =
    sym (take-drop i document)
    ∙ ap (λ t. take i document ++ t) (starts_with-append diagnostic_target (drop i document) h)
    ∙ ap (λ t. take i document ++ (diagnostic_target ++ t)) (drop-drop i 11 document)

length-map_lem : (ranges : List DiagnosticRange) → length (map diagnostic_of ranges) ≡ length ranges
length-map_lem [] = refl
length-map_lem (r ∷ ranges) = ap suc (length-map_lem ranges)

module _ (v : Dispatching) (law : Splices v) where
  diagnostics-places : (s : v.State) → length (code_roam_diagnostics v s) ≡ places (v.document s)
  unfolding code_roam_diagnostics
  diagnostics-places s =
      length-map_lem (find_console_log_ranges (v.document s))
      ∙ length-Marks (v.document s) 0 _ (find-Marks (v.document s))

  action-places :
      (d : Diagnostic) (s : v.State)
      → Mem d (code_roam_diagnostics v s)
      → 1 + places (v.document (apply_action v d.from d.to s)) ≡ places (v.document s)
  unfolding code_roam_diagnostics apply_action
  action-places d s shown =
      let (here, to) =
        All-Mem (IsPlace (v.document s)) _ (IsPlace-prop (v.document s))
          (Marks-All (v.document s) 0 _ (find-Marks (v.document s))) shown in
      let fits = occurs-le (v.document s) d.from here in
      ap (λ t. 1 + places t) (law.splice d.from d.to replacement s (omega arith) (omega arith))
      ∙ ap (λ i. 1 + places (take d.from (v.document s) ++ (replacement ++ drop i (v.document s))))
          to
      ∙ sym (places-replace (take d.from (v.document s)) _)
      ∙ ap places (sym (split (v.document s) d.from here))

  -- After the actions of `n` diagnostics, there are `n` fewer: each action removes its own
  -- diagnostic, whatever the order, and none adds one.
  pub Fixes-length :
      (s s' : v.State) (n : ℕ)
      → Fixes v s n s'
      → n + length (code_roam_diagnostics v s') ≡ length (code_roam_diagnostics v s)
  Fixes-length s s' n untouched = omega arith
  Fixes-length s _ _ (fixed {n = n} {s' = before} d f shown) = omega (
    arith,
    Fixes-length s before n f,
    diagnostics-places before,
    diagnostics-places (apply_action v d.from d.to before),
    action-places d before shown,
  )
