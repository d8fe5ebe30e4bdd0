-- ===== src/Selection/Word/Run.antt =====
-- A selected word is the longest run of word cells around the cell.
use native.Mathlib.Decide.{dec_lt}
use code_roam.Prelude.{
  ℕ, zero, suc, ◌+◌, ◌-◌, ◌≤◌, ◌<◌, pos, ◌≤ℤ◌, ◌<ℤ◌, ◌+ℤ◌, pos-add, ◌≡◌, ◌∙◌, sym, ap, ◌⊎◌, Bool,
  true, false, List, [], ◌∷◌, some, length, arith,
}
use code_roam.Js.Strings.{Text}
use code_roam.Selection.Word.{
  WordSelection, is_word_at, word_start, word_end, word_around, terminal_word_selection,
}

-- The cells from `start` to `end`, both among them, are word cells around `column`, and the
-- cells next to them are not.
pub record IsRun (cells : List Text) (column start end : ℕ) : Type 0 where
  pub from : start ≤ column
  pub to : column ≤ end
  pub words : (i : ℕ) → start ≤ i → i ≤ end → is_word_at cells i ≡ true
  pub left : (i : ℕ) → suc i ≡ start → is_word_at cells i ≡ false
  pub right : is_word_at cells (suc end) ≡ false

is_word_at-lt : (cells : List Text) (i : ℕ) → is_word_at cells i ≡ true → i < length cells
unfolding is_word_at
is_word_at-lt [] i h = cc
is_word_at-lt (c ∷ cells) zero h = omega arith
is_word_at-lt (c ∷ cells) (suc i) h = omega (arith, is_word_at-lt cells i h)

module _ (cells : List Text) where
  word_start-le : (column : ℕ) → word_start cells column ≤ column
  unfolding word_start
  word_start-le zero = omega arith
  word_start-le (suc c) = ground (arith, word_start-le c)

  split : (c i : ℕ) → i < suc c → (i ≡ c) ⊎ (i < c)
  split c i h = omega arith

  word_start-words :
      (column i : ℕ) → word_start cells column ≤ i → i < column → is_word_at cells i ≡ true
  unfolding word_start
  word_start-words zero i h k = absurd (omega arith)
  word_start-words (suc c) i h k = ground (arith, word_start-words c i, split c i k)

  word_start-left : (column i : ℕ) → suc i ≡ word_start cells column → is_word_at cells i ≡ false
  unfolding word_start
  word_start-left zero i h = absurd (omega arith)
  word_start-left (suc c) i h = ground (arith, word_start-left c i)

  -- The second loop, with enough rounds to reach the end of the row.
  word_end-ge : (fuel column : ℕ) → column ≤ word_end fuel cells column
  unfolding word_end
  word_end-ge zero column = omega arith
  word_end-ge (suc fuel) column = ground (arith, word_end-ge fuel (column + 1))

  word_end-words :
      (fuel column i : ℕ) → column < i → i ≤ word_end fuel cells column → is_word_at cells i ≡ true
  unfolding word_end
  word_end-words zero column i h k = absurd (omega arith)
  word_end-words (suc fuel) column i h k =
      ground (arith, word_end-words fuel (column + 1) i, later column i h)
    where
      later : (c i : ℕ) → c < i → (i ≡ c + 1) ⊎ (c + 1 < i)
      later c i h = omega arith

  word_end-right :
      (fuel column : ℕ)
      → length cells ≤ column + fuel
      → is_word_at cells (suc (word_end fuel cells column)) ≡ false
  unfolding word_end
  word_end-right zero column h = ground (arith, is_word_at-lt cells (suc column))
  word_end-right (suc fuel) column h =
      ground (arith, word_end-right fuel (column + 1), is_word_at-lt cells (column + 1))

  place : (i column : ℕ) → (i < column) ⊎ (column < i) ⊎ (i ≡ column)
  place i column = omega arith

  run :
      (column : ℕ)
      → is_word_at cells column ≡ true
      → IsRun cells column (word_start cells column) (word_end (length cells) cells column)
  run column word = record {
    from = word_start-le column;
    to = word_end-ge (length cells) column;
    words = λ i low high.
        ground (
          arith,
          word_start-words column i,
          word_end-words (length cells) column i,
          place i column,
        );
    left = word_start-left column;
    right = word_end-right (length cells) column (omega arith);
  }

true-false : {b : Bool} → b ≡ true → b ≡ false → ⊥
true-false p q = cc

-- A run is inside the row.
pub IsRun-lt :
    (cells : List Text) (column start end : ℕ) → IsRun cells column start end → end < length cells
IsRun-lt cells column start end r =
    is_word_at-lt cells end (r.words end (omega (arith, r.from, r.to)) (omega arith))

-- The run around a cell is determined by any of its cells.
module _ {cells : List Text} {c c' s s' e e' : ℕ} (r : IsRun cells c s e)
    (r' : IsRun cells c' s' e') (low : s ≤ c') (high : c' ≤ e) where
  start-le : s' ≤ s
  start-le = elim (dec_lt s s') [
    | yes less ↦
        let before : suc (s' - 1) ≡ s' = omega arith in
        absurd (
          true-false (r.words (s' - 1) (omega arith) (omega (arith, r'.from)))
            (r'.left (s' - 1) before))
    | no h ↦ omega arith
  ]

  start-ge : s ≤ s'
  start-ge = elim (dec_lt s' s) [
    | yes less ↦
        let before : suc (s - 1) ≡ s = omega arith in
        absurd (
          true-false (r'.words (s - 1) (omega arith) (omega (arith, r'.to)))
            (r.left (s - 1) before))
    | no h ↦ omega arith
  ]

  end-le : e' ≤ e
  end-le = elim (dec_lt e e') [
    | yes less ↦
        absurd (true-false (r'.words (suc e) (omega (arith, r'.from)) (omega arith)) r.right)
    | no h ↦ omega arith
  ]

  end-ge : e ≤ e'
  end-ge = elim (dec_lt e' e) [
    | yes less ↦
        absurd (true-false (r.words (suc e') (omega (arith, r'.to)) (omega arith)) r'.right)
    | no h ↦ omega arith
  ]

  same_run : (s' ≡ s) × (e' ≡ e)
  same_run = (omega (arith, start-le, start-ge), omega (arith, end-le, end-ge))

-- What a run is as a selection.
abbrev pub selection_of_run : ℕ → ℕ → WordSelection
selection_of_run start end = record { column = pos start; length = pos (end - start + 1) }

selection_lem :
    (cells : List Text) (column : ℕ)
    → is_word_at cells column ≡ true
    → terminal_word_selection cells (pos column)
      ≡ some (selection_of_run (word_start cells column) (word_end (length cells) cells column))
unfolding terminal_word_selection word_around
selection_lem cells column word = ground (arith, is_word_at-lt cells column word)

-- On a word cell `terminalWordSelection` gives the longest run of word cells around it.
pub word_selection-IsRun :
    (cells : List Text) (column : ℕ)
    → is_word_at cells column ≡ true
    → (start end : ℕ) × (terminal_word_selection cells (pos column)
        ≡ some (selection_of_run start end))
      × IsRun cells column start end
word_selection-IsRun cells column word = (
  word_start cells column,
  word_end (length cells) cells column,
  selection_lem cells column word,
  run cells column word,
)

within_run :
    (start end other : ℕ) (w : WordSelection)
    → w ≡ selection_of_run start end
    → start ≤ end
    → w.column ≤ℤ pos other
    → pos other <ℤ w.column +ℤ w.length
    → (start ≤ other) × (other ≤ end)
within_run start end other w same h low high = ground (arith, pos-add start (end - start + 1))

-- Every cell of a selected word selects the same word.
pub word_selection-same :
    (cells : List Text) (column other : ℕ) (w : WordSelection)
    → is_word_at cells column ≡ true
    → terminal_word_selection cells (pos column) ≡ some w
    → w.column ≤ℤ pos other
    → pos other <ℤ w.column +ℤ w.length
    → terminal_word_selection cells (pos other) ≡ some w
word_selection-same cells column other w word found low high =
    let r = run cells column word in
    let start = word_start cells column in
    let end = word_end (length cells) cells column in
    let same : w ≡ selection_of_run start end = cc (selection_lem cells column word) in
    let (above, below) = within_run start end other w same (omega (arith, r.from, r.to)) low high in
    let word' = r.words other above below in
    let (starts, ends) = same_run r (run cells other word') above below in
    selection_lem cells other word' ∙ rw (starts, ends) (ap some (sym same))
