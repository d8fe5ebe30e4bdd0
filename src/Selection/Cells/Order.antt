-- ===== src/Selection/Cells/Order.antt =====
-- `compareTerminalCells` is the reading order, and the endpoints do not depend on the order in
-- which the two cells are given.
use code_roam.Prelude.{
  ℤ, pos, -ℤ_parts, ◌≤ℤ◌, ◌<ℤ◌, leb_ℤ, eq_of_parts, ◌≡◌, refl, sym, ◌∙◌, ◌⊎◌, ◌↔◌, inl, inr, true,
  Bool-cases, arith,
}
use code_roam.Selection.Cells.{
  TerminalCellPosition, TerminalSelectionEndpoints, compare_terminal_cells,
  ordered_terminal_selection_endpoints, terminal_selection_between,
}

-- Reading order: by row, then by column.
abbrev pub Precedes : TerminalCellPosition → TerminalCellPosition → Type 0
Precedes a b = (a.row <ℤ b.row) ⊎ ((a.row ≡ b.row) × (a.column ≤ℤ b.column))

-- A cell between two ends, in reading order.
abbrev pub Within : TerminalCellPosition → TerminalSelectionEndpoints → Type 0
Within c e = Precedes e.start c × Precedes c e.end

pub compare_iff :
    (a b : TerminalCellPosition)
    → (leb_ℤ (compare_terminal_cells a b) (pos 0) ≡ true) ↔ Precedes a b
unfolding compare_terminal_cells
compare_iff a b =
    ground (arith, -ℤ_parts a.column b.column, -ℤ_parts a.row b.row, eq_of_parts a.row b.row)

pub Precedes-total : (a b : TerminalCellPosition) → Precedes a b ⊎ Precedes b a
Precedes-total a b = ground (arith, eq_of_parts a.row b.row)

Precedes-antisym : (a b : TerminalCellPosition) → Precedes a b → Precedes b a → a ≡ b
Precedes-antisym a b p q = ground (arith, eq_of_parts a.column b.column)

-- The endpoints in reading order are the two cells, the one that precedes first.
pub ordered_lem :
    (a b : TerminalCellPosition)
    → Precedes a b
    → ordered_terminal_selection_endpoints a b ≡ record { start = a; end = b }
unfolding ordered_terminal_selection_endpoints
ordered_lem a b p = rw ((compare_iff a b).1 p)

pub ordered-flip :
    (a b : TerminalCellPosition)
    → Precedes a b
    → ordered_terminal_selection_endpoints b a ≡ record { start = a; end = b }
unfolding ordered_terminal_selection_endpoints
ordered-flip a b p = elim (Bool-cases (leb_ℤ (compare_terminal_cells b a) (pos 0))) [
  | inl back ↦
      rw (Precedes-antisym a b p ((compare_iff b a).0 back))
        (ordered_lem b b (inr (refl, omega arith)))
  | inr ahead ↦ rw ahead
]

-- The endpoints do not depend on which cell is given first.
pub ordered_comm :
    (a b : TerminalCellPosition)
    → ordered_terminal_selection_endpoints a b ≡ ordered_terminal_selection_endpoints b a
ordered_comm a b = elim (Precedes-total a b) [
  | inl p ↦ ordered_lem a b p ∙ sym (ordered-flip a b p)
  | inr p ↦ ordered-flip b a p ∙ sym (ordered_lem b a p)
]

-- The selected range is the same from either end.
pub between_comm :
    (a b : TerminalCellPosition) (columns : ℤ)
    → terminal_selection_between a b columns ≡ terminal_selection_between b a columns
unfolding terminal_selection_between
between_comm a b columns = ground (arith, ordered_comm a b)
