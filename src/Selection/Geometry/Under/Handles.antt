-- ===== src/Selection/Geometry/Under/Handles.antt =====
-- The cell that a touch at a handle's point finds, half a row above the point.
use code_roam.Prelude.{
  ℤ, pos, ◌+ℤ◌, ◌-ℤ◌, ◌≤ℤ◌, ◌<ℤ◌, +ℤ_parts, -ℤ_parts, eq_of_parts, leb_ℤ, some, ◌≡◌, arith, refl,
  ap, ap₂, ◌∙◌,
}
use mathlib.Core.Path.{subst}
use code_roam.Selection.Coordinates.{Coordinates, IsExact, min}
use code_roam.Selection.Cells.{TerminalCellPosition, is_terminal_cell}
use code_roam.Selection.Geometry.{
  Edge, start, end, TerminalPointMapping, TerminalHandlePointMapping, TerminalHandlePoint,
  column_edge, terminal_cell_from_point, terminal_handle_point,
}
use code_roam.Selection.Geometry.Points.{IsScreen, IsShown, handle-IsShown, touched, touched-found}
use code_roam.Selection.Geometry.Under.Parts.{part, half_up, at_edge, at_middle}

module _ (k : Coordinates) where
  open k use {plus}

  -- The point of a handle, where it has one.
  point_of : (m : TerminalHandlePointMapping k) → TerminalHandlePoint k
  point_of m = record {
    client_x =
        plus m.screen_left
          (part k m.screen_width m.columns (column_edge k m.edge m.position.column));
    client_y =
        plus m.screen_top (part k m.screen_height m.rows (m.position.row -ℤ m.viewport_y +ℤ pos 1));
  }

  handle_point_lem :
      (m : TerminalHandlePointMapping k) (p : TerminalHandlePoint k)
      → terminal_handle_point k m ≡ some p
      → point_of m ≡ p
  unfolding terminal_handle_point point_of
  handle_point_lem m p e = ground arith

  -- What a touch reads at a handle's point, half a row up.
  abbrev pub grasp : TerminalHandlePointMapping k → TerminalHandlePoint k → TerminalPointMapping k
  grasp m p = record {
    client_x = some p.client_x;
    client_y = some (plus p.client_y (half_up k m.screen_height m.rows));
    screen_left = m.screen_left;
    screen_top = m.screen_top;
    screen_width = m.screen_width;
    screen_height = m.screen_height;
    columns = m.columns;
    rows = m.rows;
    viewport_y = m.viewport_y;
  }

  -- The cell of a handle, one column further for the end handle unless the row ends there.
  abbrev pub grasped : TerminalHandlePointMapping k → TerminalCellPosition
  grasped m = record {
    column = min leb_ℤ (column_edge k m.edge m.position.column) (m.columns -ℤ pos 1);
    row = m.position.row;
  }

  column_edge-nonneg :
      (edge : Edge) (column : ℤ) → pos 0 ≤ℤ column → pos 0 ≤ℤ column_edge k edge column
  unfolding column_edge
  column_edge-nonneg start column h = omega (arith, +ℤ_parts column (pos 0))
  column_edge-nonneg end column h = omega (arith, +ℤ_parts column (pos 1))

module _ (k : Coordinates) (exact : IsExact k) where
  open k use {plus}

  grasp-touched :
      (m : TerminalHandlePointMapping k)
      → IsScreen k m.screen_width m.screen_height m.columns m.rows
      → IsShown k m.columns m.rows m.viewport_y m.position
      → touched k
          (point_of k m).client_x
          (plus (point_of k m).client_y (half_up k m.screen_height m.rows))
          (grasp k m (point_of k m))
        ≡ grasped k m
  unfolding touched point_of is_terminal_cell
  grasp-touched m screen shown =
      let row = m.position.row -ℤ m.viewport_y in
      let first : pos 0 ≤ℤ m.position.column = ground (arith, shown.in_grid) in
      let column =
        at_edge k exact m.screen_left m.screen_width m.columns
          (column_edge k m.edge m.position.column) screen.wide screen.has_columns
          (column_edge-nonneg k m.edge m.position.column first) in
      let low : pos 0 ≤ℤ row =
        omega (arith, shown.under_top, -ℤ_parts m.position.row m.viewport_y) in
      let high : row <ℤ m.rows = omega (
        arith,
        shown.over_bottom,
        -ℤ_parts m.position.row m.viewport_y,
        +ℤ_parts m.viewport_y m.rows,
      ) in
      let back : m.viewport_y +ℤ row ≡ m.position.row =
        eq_of_parts _ _
          (omega (arith, -ℤ_parts m.position.row m.viewport_y, +ℤ_parts m.viewport_y row)) in
      ap₂ (λ c r. record { column = c; row = r }) column
        (ap (λ r. m.viewport_y +ℤ r)
            (at_middle k exact m.screen_top m.screen_height m.rows row screen.high low high)
          ∙ back)

  pub grasp-cell :
      (m : TerminalHandlePointMapping k) (p : TerminalHandlePoint k)
      → terminal_handle_point k m ≡ some p
      → pos 0 ≤ℤ m.viewport_y
      → terminal_cell_from_point k (grasp k m p) ≡ some (grasped k m)
  grasp-cell m p e h =
      let (screen, shown) = handle-IsShown k m h p e in
      subst (λ q. terminal_cell_from_point k (grasp k m q) ≡ some (grasped k m))
        (handle_point_lem k m p e)
        (touched-found k (point_of k m).client_x
            (plus (point_of k m).client_y (half_up k m.screen_height m.rows))
            (grasp k m (point_of k m)) refl refl screen h
          ∙ ap some (grasp-touched m screen shown))
