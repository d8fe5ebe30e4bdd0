-- ===== src/Selection/Word/Around.antt =====
-- The part of a row that `terminalWordSelection` gives is around the column asked for.
use code_roam.Prelude.{
  ℕ, ℤ, pos, negsuc, ◌+ℤ◌, ◌-ℤ◌, ◌≤ℤ◌, false, List, some, ◌≡◌, arith, sym, ◌≤◌, ◌∙◌, Bool-cases,
  inl, inr,
}
use mathlib.Core.Path.{subst}
use code_roam.Js.Strings.{Text}
use code_roam.Selection.Word.{WordSelection, is_word_at, word_around, terminal_word_selection}
use code_roam.Selection.Word.Run.{selection_of_run, word_selection-IsRun}

abbrev pub Around : WordSelection → ℤ → Type 0
Around w column = (w.column ≤ℤ column) × (column ≤ℤ w.column +ℤ w.length -ℤ pos 1)

some_eq : {a b : WordSelection} → some a ≡ some b → b ≡ a
some_eq h = cc

run-Around : (n start end : ℕ) → start ≤ n → n ≤ end → Around (selection_of_run start end) (pos n)
unfolding ◌+ℤ◌ ◌-ℤ◌
run-Around n start end low high = ground arith

single-Around :
    (cells : List Text) (n : ℕ) (w : WordSelection)
    → is_word_at cells n ≡ false
    → terminal_word_selection cells (pos n) ≡ some w
    → Around w (pos n)
unfolding terminal_word_selection word_around ◌+ℤ◌ ◌-ℤ◌
single-Around cells n w other h = ground arith

negative-none :
    (cells : List Text) (n : ℕ) {w : WordSelection}
    → terminal_word_selection cells (negsuc n) ≡ some w
    → ⊥
unfolding terminal_word_selection
negative-none cells n h = ground arith

pub word_selection-Around :
    (cells : List Text) (column : ℤ) (w : WordSelection)
    → terminal_word_selection cells column ≡ some w
    → Around w column
unfolding terminal_word_selection
word_selection-Around cells (pos n) w h = elim (Bool-cases (is_word_at cells n)) [
  | inl word ↦
      let (start, end, found, r) = word_selection-IsRun cells n word in
      let same : some (selection_of_run start end) ≡ some w = sym found ∙ h in
      subst (λ w. Around w (pos n)) (sym (some_eq same)) (run-Around n start end r.from r.to)
  | inr other ↦ single-Around cells n w other h
]
word_selection-Around cells (negsuc n) w h = absurd (negative-none cells n h)
