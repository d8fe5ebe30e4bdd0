-- ===== src/Selection/Cells/Covers.antt =====
-- A range selects cells the way the terminal reads it: `length` cells of the grid in reading
-- order, wrapping from the end of a row to the next one.
use mathlib.Core.Path.{subst₂, subst₃}
use code_roam.Prelude.{
  ℕ, ◌+◌, ◌-◌, ◌*◌, ◌≤◌, ◌<◌, ℤ, pos, pos_part, ◌+ℤ◌, ◌*ℤ◌, ◌≤ℤ◌, ◌<ℤ◌, pos-add, pos-sub, pos-mul,
  eq_pos_of_nonneg, ◌≡◌, refl, sym, ◌∙◌, ◌↔◌, inl, inr, true, false, arith, none, some, ap, ◌&&◌,
  Bool-cases, and-true,
}
use code_roam.Selection.Cells.{
  TerminalCellPosition, TerminalSelectionRange, TerminalSelectionEndpoints, is_terminal_cell,
  ordered_terminal_selection_endpoints, terminal_selection_between, selection_length,
}
use code_roam.Selection.Cells.Order.{
  Precedes, Precedes-total, ordered_lem, ordered_comm, between_comm,
}

-- The place of a cell in reading order, in a grid of so many columns.
abbrev pub index : ℤ → TerminalCellPosition → ℤ
index columns c = c.row *ℤ columns +ℤ c.column

abbrev pub first_cell : TerminalSelectionRange → TerminalCellPosition
first_cell r = record { column = r.column; row = r.row }

abbrev pub Covers : ℤ → TerminalSelectionRange → TerminalCellPosition → Type 0
Covers columns r c =
    (index columns (first_cell r) ≤ℤ index columns c)
    × (index columns c <ℤ index columns (first_cell r) +ℤ r.length)

abbrev pub IsCell : TerminalCellPosition → ℤ → Type 0
IsCell c columns = is_terminal_cell c columns ≡ true

-- A cell of natural coordinates.
abbrev cell : ℕ → ℕ → TerminalCellPosition
cell r c = record { column = pos c; row = pos r }

eq_cell :
    (p : TerminalCellPosition) (columns : ℤ)
    → IsCell p columns
    → (p ≡ cell (pos_part p.row) (pos_part p.column)) × (pos_part p.column < pos_part columns)
unfolding is_terminal_cell
eq_cell p columns h =
    (ground (arith, eq_pos_of_nonneg p.row, eq_pos_of_nonneg p.column), ground arith)

-- Reading order on the grid is the order of the indices.
index-lt_of_row : (w r c r' c' : ℕ) → c < w → r < r' → r * w + c < r' * w + c'
index-lt_of_row w r c r' c' h k = grind arith

index_order :
    (w r c r' c' : ℕ)
    → c < w
    → c' < w
    → Precedes (cell r c) (cell r' c') ↔ (r * w + c ≤ r' * w + c')
index_order w r c r' c' h k =
    ground (arith, index-lt_of_row w r c r' c', index-lt_of_row w r' c' r c)

index-cell : (w r c : ℕ) → index (pos w) (cell r c) ≡ pos (r * w + c)
index-cell w r c = simp (pos-mul, pos-add)

row_difference : (w r r' : ℕ) → r ≤ r' → (r' - r) * w + r * w ≡ r' * w
row_difference w r r' h =
    let split : r' - r + r ≡ r' = omega arith in omega (arith, ap (λ (t : ℕ). t * w) split)

module _ (w r c r' c' : ℕ) (k : r ≤ r') (le : r * w + c ≤ r' * w + c') where
  selection_length-cells :
      selection_length (record { start = cell r c; end = cell r' c' }) (pos w)
      ≡ pos (r' * w + c' + 1 - (r * w + c))
  unfolding selection_length
  selection_length-cells =
      let room : c ≤ (r' - r) * w + c' = omega (arith, row_difference w r r' k) in
      let count : (r' - r) * w + c' - c + 1 ≡ r' * w + c' + 1 - (r * w + c) =
        omega (arith, row_difference w r r' k) in
      simp (pos-sub r' r k, pos-mul, pos-add, pos-sub _ _ room) (ap pos count)

  between-cells :
      c < w
      → c' < w
      → Precedes (cell r c) (cell r' c')
      → terminal_selection_between (cell r c) (cell r' c') (pos w)
        ≡ some
            (record { column = pos c; row = pos r; length = pos (r' * w + c' + 1 - (r * w + c)) })
  unfolding terminal_selection_between is_terminal_cell
  between-cells h h' p =
      ground (arith, ordered_lem (cell r c) (cell r' c') p, selection_length-cells)

-- What `terminal_selection_between a b columns` is to be: a range that starts at the first end
-- and covers exactly the cells between the two ends in reading order.
abbrev pub Selects :
    TerminalCellPosition → TerminalCellPosition → ℤ → TerminalSelectionEndpoints → Type 0
Selects a b columns e =
    (range : TerminalSelectionRange) × (terminal_selection_between a b columns ≡ some range)
    × (first_cell range ≡ e.start)
    × ((c : TerminalCellPosition)
        → IsCell c columns
        → Covers columns range c ↔ (Precedes e.start c × Precedes c e.end))

row-le_of_Precedes : (r c r' c' : ℕ) → Precedes (cell r c) (cell r' c') → r ≤ r'
row-le_of_Precedes r c r' c' p = ground arith

Covers-cells :
    (w r c r' c' x y : ℕ)
    → c < w
    → c' < w
    → y < w
    → Precedes (cell r c) (cell r' c')
    → Covers
        (pos w)
        (record { column = pos c; row = pos r; length = pos (r' * w + c' + 1 - (r * w + c)) })
        (cell x y)
      ↔ (Precedes (cell r c) (cell x y) × Precedes (cell x y) (cell r' c'))
Covers-cells w r c r' c' x y h h' hy p =
    let ends = (index_order w r c r' c' h h').0 p in
    let from = index_order w r c x y h hy in
    let to = index_order w x y r' c' hy h' in
    let sum = pos-add (r * w + c) (r' * w + c' + 1 - (r * w + c)) in
    rw (index-cell w x y, index-cell w r c, sum)
      (
        λ (low, high). (from.1 (omega arith), to.1 (omega arith)),
        λ (low, high). (omega (arith, from.0 low), omega (arith, to.0 high, ends)),
      )

Selects-cells :
    (w r c r' c' : ℕ)
    → c < w
    → c' < w
    → Precedes (cell r c) (cell r' c')
    → Selects (cell r c) (cell r' c') (pos w) (record { start = cell r c; end = cell r' c' })
Selects-cells w r c r' c' h h' p =
    let le = (index_order w r c r' c' h h').0 p in
    (
      record { column = pos c; row = pos r; length = pos (r' * w + c' + 1 - (r * w + c)) },
      between-cells w r c r' c' (row-le_of_Precedes r c r' c' p) le h h' p,
      refl,
      λ x valid.
          let (same, inside) = eq_cell x (pos w) valid in
          rw same (Covers-cells w r c r' c' _ _ h h' inside p),
    )

columns-IsPos :
    (p : TerminalCellPosition) (columns : ℤ) → IsCell p columns → columns ≡ pos (pos_part columns)
unfolding is_terminal_cell
columns-IsPos p columns h = ground (arith, eq_pos_of_nonneg columns)

Selects-ordered :
    (a b : TerminalCellPosition) (columns : ℤ)
    → IsCell a columns
    → IsCell b columns
    → Precedes a b
    → Selects a b columns (record { start = a; end = b })
Selects-ordered a b columns va vb p =
    let (ea, ha) = eq_cell a columns va in
    let (eb, hb) = eq_cell b columns vb in
    let cells = subst₂ Precedes ea eb p in
    subst₃ (λ x y w. Selects x y w (record { start = x; end = y })) (sym ea) (sym eb)
      (sym (columns-IsPos a columns va)) (Selects-cells (pos_part columns) _ _ _ _ ha hb cells)

-- Between two cells of the grid `terminalSelectionBetween` gives a range that starts at the
-- first of them in reading order and covers exactly the cells from the one to the other.
pub between-Selects :
    (a b : TerminalCellPosition) (columns : ℤ)
    → IsCell a columns
    → IsCell b columns
    → Selects a b columns (ordered_terminal_selection_endpoints a b)
between-Selects a b columns va vb = elim (Precedes-total a b) [
  | inl p ↦ rw (ordered_lem a b p) (Selects-ordered a b columns va vb p)
  | inr p ↦
      rw (ordered_comm a b) (
        rw (ordered_lem b a p)
          (rw (between_comm a b columns) (Selects-ordered b a columns vb va p)))
]

-- Between two cells of a row, the range is the cells from the one to the other.
between-row-cells :
    (w r a b : ℕ)
    → a ≤ b
    → a < w
    → b < w
    → terminal_selection_between (cell r a) (cell r b) (pos w)
      ≡ some (record { column = pos a; row = pos r; length = pos (b - a + 1) })
between-row-cells w r a b le h h' =
    let count : r * w + b + 1 - (r * w + a) ≡ b - a + 1 = omega arith in
    between-cells w r a r b (omega arith) (omega arith) h h' (inr (refl, omega arith))
    ∙ ap (λ n. some (record { column = pos a; row = pos r; length = pos n })) count

pub between-row :
    (columns row : ℤ) (a b : ℕ)
    → a ≤ b
    → IsCell (record { column = pos a; row = row }) columns
    → IsCell (record { column = pos b; row = row }) columns
    → terminal_selection_between
        (record { column = pos a; row = row })
        (record { column = pos b; row = row })
        columns
      ≡ some (record { column = pos a; row = row; length = pos (b - a + 1) })
between-row columns row a b le va vb =
    let (ea, ha) = eq_cell (record { column = pos a; row = row }) columns va in
    let (eb, hb) = eq_cell (record { column = pos b; row = row }) columns vb in
    let place = ap (λ c. c.row) ea in
    subst₂
      (λ y w.
        terminal_selection_between (record { column = pos a; row = y })
          (record { column = pos b; row = y }) w
        ≡ some (record { column = pos a; row = y; length = pos (b - a + 1) }))
      (sym place) (sym (columns-IsPos (record { column = pos a; row = row }) columns va))
      (between-row-cells (pos_part columns) (pos_part row) a b le ha hb)

-- Nothing is selected exactly when one of the two cells is outside the grid.
pub between-eq-none_iff :
    (a b : TerminalCellPosition) (columns : ℤ)
    → (terminal_selection_between a b columns ≡ none)
      ↔ ((is_terminal_cell a columns && is_terminal_cell b columns) ≡ false)
unfolding terminal_selection_between
between-eq-none_iff a b columns =
    elim (Bool-cases (is_terminal_cell a columns && is_terminal_cell b columns)) [
      | inl both ↦
          let (va, vb) = and-true _ _ both in
          let (r, found, _, _) = between-Selects a b columns va vb in (λ e. cc, λ e. cc)
      | inr one ↦ (λ _. one, λ _. ground arith)
    ]
