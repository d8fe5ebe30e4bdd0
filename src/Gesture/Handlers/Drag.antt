-- ===== src/Gesture/Handlers/Drag.antt =====
-- A drag after a long press keeps the cell that was pressed inside the selection.
use code_roam.Prelude.{
  pos, -ℤ_parts, leb_ℤ, ◌≡◌, refl, inl, inr, true, false, Option, none, some, Bool-cases, arith,
  eq_of_parts,
}
use code_roam.Selection.Cells.{
  TerminalCellPosition, TerminalSelectionEndpoints, compare_terminal_cells,
  ordered_terminal_selection_endpoints,
}
use code_roam.Selection.Cells.Order.{Precedes, Precedes-total, Within, ordered_lem, ordered-flip}
use code_roam.Gesture.Selecting.Words.{Holds}
use code_roam.Gesture.Handlers.{fixed_endpoint}

Precedes-trans : (a b c : TerminalCellPosition) → Precedes a b → Precedes b c → Precedes a c
Precedes-trans a b c p q = ground arith

compare-nonneg :
    (a b : TerminalCellPosition) → leb_ℤ (pos 0) (compare_terminal_cells a b) ≡ true → Precedes b a
unfolding compare_terminal_cells
compare-nonneg a b h =
    ground (arith, -ℤ_parts a.column b.column, -ℤ_parts a.row b.row, eq_of_parts b.row a.row)

compare-neg :
    (a b : TerminalCellPosition) → leb_ℤ (pos 0) (compare_terminal_cells a b) ≡ false → Precedes a b
unfolding compare_terminal_cells
compare-neg a b h =
    ground (arith, -ℤ_parts a.column b.column, -ℤ_parts a.row b.row, eq_of_parts a.row b.row)

Within-ends :
    (a c b : TerminalCellPosition)
    → Precedes a c
    → Precedes c b
    → Within c (ordered_terminal_selection_endpoints a b)
      × Within c (ordered_terminal_selection_endpoints b a)
Within-ends a c b p q =
    let ab = Precedes-trans a c b p q in
    (rw (ordered_lem a b ab) (p, q), rw (ordered-flip a b ab) (p, q))

-- The endpoints that a drag to `current` selects hold the anchor, whichever way it goes.
pub drag-Within :
    (word : Option TerminalSelectionEndpoints) (anchor current : TerminalCellPosition)
    → Holds word anchor
    → Within anchor
        (ordered_terminal_selection_endpoints (fixed_endpoint word anchor current) current)
unfolding fixed_endpoint
drag-Within none anchor current h = elim (Precedes-total anchor current) [
  | inl p ↦ (Within-ends anchor anchor current (inr (refl, omega arith)) p).0
  | inr p ↦ (Within-ends current anchor anchor p (inr (refl, omega arith))).1
]
drag-Within (some word) anchor current (low, high) =
    elim (Bool-cases (leb_ℤ (pos 0) (compare_terminal_cells current anchor))) [
      | inl ahead ↦
          rw (ahead, fixed_endpoint)
            (Within-ends word.start anchor current low (compare-nonneg current anchor ahead)).0
      | inr back ↦
          rw (back, fixed_endpoint)
            (Within-ends current anchor word.end (compare-neg current anchor back) high).1
    ]
