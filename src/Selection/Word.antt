-- ===== src/Selection/Word.antt =====
-- `terminalWordSelection` and `isWordCell`: the run of word cells around a cell of one row.
pub mod Around
pub mod Run
use code_roam.Prelude.{
  ℕ, zero, suc, ◌+◌, ◌-◌, ℤ, pos, pos_part, ltb_ℤ, leb_ℤ, ltb, ◌==◌, Bool, true, false, not, ◌&&◌,
  ◌||◌, List, Option, none, some, length, get_elem?, any, if◌then◌else◌,
}
use code_roam.Js.Strings.{Text, is_space}

-- The characters of the class [\s()[\]{}'"`,]; each is one code unit.
unfoldable pub is_separator : ℕ → Bool
unfolding is_space
is_separator c =
    is_space c
    || c == b'('
    || c == b')'
    || c == b'['
    || c == b']'
    || c == b'{'
    || c == b'}'
    || c == b'\''
    || c == b'"'
    || c == b'`'
    || c == b','

unfoldable pub is_word_cell : Text → Bool
unfolding is_separator
is_word_cell value = ltb 0 (length value) && not (any is_separator value)

-- `isWordCell(cells[i])` at an index in range; out of range there is no cell.
unfoldable pub is_word_at : List Text → ℕ → Bool
unfolding is_word_cell
is_word_at cells i = elim (get_elem? cells i) [ none ↦ false | some value ↦ is_word_cell value ]

-- The first loop: `start` moves left over word cells.
word_start : List Text → ℕ → ℕ
word_start cells zero = zero
word_start cells (suc start) = if is_word_at cells start then word_start cells start else suc start

-- The second loop: `end` moves right over word cells, at most `fuel` times.
word_end : ℕ → List Text → ℕ → ℕ
word_end zero cells end = end
word_end (suc fuel) cells end = elim (ltb (end + 1) (length cells) && is_word_at cells (end + 1)) [
  | true ↦ word_end fuel cells (end + 1)
  | false ↦ end
]

-- A part of a row: `Pick<TerminalSelectionRange, "column" | "length">`.
pub record WordSelection : Type 0 where
  pub column : ℤ
  pub length : ℤ

-- The body past the range check, at a column in range.
word_around : List Text → ℕ → WordSelection
unfolding is_word_at word_start word_end
word_around cells column =
    if is_word_at cells column
    then (let start = word_start cells column in
        let end = word_end (length cells) cells column in
        record { column = pos start; length = pos (end - start + 1) })
    else record { column = pos column; length = pos 1 }

unfoldable pub terminal_word_selection : List Text → ℤ → Option WordSelection
unfolding word_around
terminal_word_selection cells column =
    if ltb_ℤ column (pos 0) || leb_ℤ (pos (length cells)) column
    then none
    else some (word_around cells (pos_part column))
