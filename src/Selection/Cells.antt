-- ===== src/Selection/Cells.antt =====
-- Cells of the terminal grid in reading order, and the range between two of them
-- (`terminalSelectionBetween`, `orderedTerminalSelectionEndpoints`, `compareTerminalCells`,
-- `isTerminalCell`). Columns and rows are integers by their type.
pub mod Covers
pub mod Order
use code_roam.Prelude.{
  ℤ, pos, ◌+ℤ◌, ◌-ℤ◌, ◌*ℤ◌, ltb_ℤ, leb_ℤ, eqb_ℤ, Bool, ◌&&◌, ◌||◌, not, Option, none, some,
  if◌then◌else◌,
}

pub record TerminalCellPosition : Type 0 where
  pub column : ℤ
  pub row : ℤ

pub record TerminalSelectionRange : Type 0 where
  pub column : ℤ
  pub row : ℤ
  pub length : ℤ

pub record TerminalSelectionEndpoints : Type 0 where
  pub start : TerminalCellPosition
  pub end : TerminalCellPosition

unfoldable pub compare_terminal_cells : TerminalCellPosition → TerminalCellPosition → ℤ
compare_terminal_cells first second =
    if eqb_ℤ first.row second.row then first.column -ℤ second.column else first.row -ℤ second.row

unfoldable pub is_terminal_cell : TerminalCellPosition → ℤ → Bool
is_terminal_cell position columns =
    leb_ℤ (pos 0) position.column && ltb_ℤ position.column columns && leb_ℤ (pos 0) position.row

unfoldable pub ordered_terminal_selection_endpoints :
    TerminalCellPosition → TerminalCellPosition → TerminalSelectionEndpoints
unfolding compare_terminal_cells
ordered_terminal_selection_endpoints first second =
    if leb_ℤ (compare_terminal_cells first second) (pos 0)
    then record { start = first; end = second }
    else record { start = second; end = first }

-- `(end.row - start.row) * columns + end.column - start.column + 1`
selection_length : TerminalSelectionEndpoints → ℤ → ℤ
selection_length e columns =
    (e.end.row -ℤ e.start.row) *ℤ columns +ℤ e.end.column -ℤ e.start.column +ℤ pos 1

unfoldable pub terminal_selection_between :
    TerminalCellPosition → TerminalCellPosition → ℤ → Option TerminalSelectionRange
unfolding is_terminal_cell ordered_terminal_selection_endpoints selection_length
terminal_selection_between first second columns =
    if ltb_ℤ columns (pos 1)
      || not (is_terminal_cell first columns)
      || not (is_terminal_cell second columns)
    then none
    else let e = ordered_terminal_selection_endpoints first second in
      let n = selection_length e columns in
      if ltb_ℤ (pos 0) n
      then some (record { column = e.start.column; row = e.start.row; length = n })
      else none
