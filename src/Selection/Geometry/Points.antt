-- ===== src/Selection/Geometry/Points.antt =====
-- A touch finds a cell of the visible part of the grid, and a handle is shown for such cells only.
use code_roam.Prelude.{
  ℤ, pos, ◌+ℤ◌, ◌-ℤ◌, ◌≤ℤ◌, ◌<ℤ◌, +ℤ_parts, -ℤ_parts, true, false, Option, none, some, ◌≡◌, ◌↔◌,
  ◌≢◌, arith, Option-cases, inl, inr,
}
use code_roam.Selection.Coordinates.{Coordinates, clamp_ℤ_bounds}
use code_roam.Selection.Cells.{TerminalCellPosition, is_terminal_cell}
use code_roam.Selection.Geometry.{
  TerminalPointMapping, TerminalHandlePointMapping, TerminalHandlePoint, no_screen, cell_along,
  cell_at, terminal_cell_from_point, terminal_handle_point,
}

module _ (k : Coordinates) where
  -- A screen of positive size that shows at least one cell.
  pub record IsScreen (width height : k.Coordinate) (columns rows : ℤ) : Type 0 where
    pub wide : k.le width (k.of_int (pos 0)) ≡ false
    pub high : k.le height (k.of_int (pos 0)) ≡ false
    pub has_columns : pos 1 ≤ℤ columns
    pub has_rows : pos 1 ≤ℤ rows

  no_screen-IsScreen :
      (width height : k.Coordinate) (columns rows : ℤ)
      → (no_screen k width height columns rows ≡ false) ↔ IsScreen width height columns rows
  unfolding no_screen
  no_screen-IsScreen width height columns rows = (λ h. ground arith, λ h. ground arith)

  pub cell_along_bounds :
      (at origin size : k.Coordinate) (count : ℤ)
      → pos 1 ≤ℤ count
      → (pos 0 ≤ℤ cell_along k at origin size count) × (cell_along k at origin size count <ℤ count)
  unfolding cell_along
  cell_along_bounds at origin size count h =
      let n = k.floor (k.times (k.over (k.minus at origin) size) (k.of_int count)) in
      let room : pos 0 ≤ℤ count -ℤ pos 1 = omega (arith, -ℤ_parts count (pos 1)) in
      let (low, high) = clamp_ℤ_bounds n (pos 0) (count -ℤ pos 1) room in
      (low, omega (arith, high, -ℤ_parts count (pos 1)))

  -- The cell is in the grid of so many columns, in one of the rows that the screen shows.
  pub record IsShown (columns rows viewport_y : ℤ) (c : TerminalCellPosition) : Type 0 where
    pub in_grid : is_terminal_cell c columns ≡ true
    pub under_top : viewport_y ≤ℤ c.row
    pub over_bottom : c.row <ℤ viewport_y +ℤ rows

  unfoldable pub touched : (x y : k.Coordinate) → TerminalPointMapping k → TerminalCellPosition
  touched x y m = record {
    column = cell_along k x m.screen_left m.screen_width m.columns;
    row = m.viewport_y +ℤ cell_along k y m.screen_top m.screen_height m.rows;
  }

  pub touched-IsShown :
      (x y : k.Coordinate) (m : TerminalPointMapping k)
      → IsScreen m.screen_width m.screen_height m.columns m.rows
      → pos 0 ≤ℤ m.viewport_y
      → IsShown m.columns m.rows m.viewport_y (touched x y m)
  unfolding touched is_terminal_cell
  touched-IsShown x y m screen h =
      let (left, right) =
        cell_along_bounds x m.screen_left m.screen_width m.columns screen.has_columns in
      let row = cell_along k y m.screen_top m.screen_height m.rows in
      let (top, bottom) = cell_along_bounds y m.screen_top m.screen_height m.rows screen.has_rows in
      record {
        in_grid = ground (arith, left, right, top, +ℤ_parts m.viewport_y row);
        under_top = omega (arith, top, +ℤ_parts m.viewport_y row);
        over_bottom =
            omega (arith, bottom, +ℤ_parts m.viewport_y row, +ℤ_parts m.viewport_y m.rows);
      }

  pub touched-found :
      (x y : k.Coordinate) (m : TerminalPointMapping k)
      → m.client_x ≡ some x
      → m.client_y ≡ some y
      → IsScreen m.screen_width m.screen_height m.columns m.rows
      → pos 0 ≤ℤ m.viewport_y
      → terminal_cell_from_point k m ≡ some (touched x y m)
  unfolding terminal_cell_from_point cell_at touched
  touched-found x y m ex ey screen h =
      let has_screen =
        (no_screen-IsScreen m.screen_width m.screen_height m.columns m.rows).1 screen in
      rw (ex, ey) (ground (arith, has_screen))

  -- On a screen of positive size every touch at finite coordinates finds a cell, and the cell is
  -- one of those that the screen shows.
  pub touch-IsShown :
      (x y : k.Coordinate) (m : TerminalPointMapping k)
      → m.client_x ≡ some x
      → m.client_y ≡ some y
      → IsScreen m.screen_width m.screen_height m.columns m.rows
      → pos 0 ≤ℤ m.viewport_y
      → (c : TerminalCellPosition) × (terminal_cell_from_point k m ≡ some c)
        × IsShown m.columns m.rows m.viewport_y c
  touch-IsShown x y m ex ey screen h =
      (touched x y m, touched-found x y m ex ey screen h, touched-IsShown x y m screen h)

  cell_at-IsShown :
      (x y : Option k.Coordinate) (m : TerminalPointMapping k) (c : TerminalCellPosition)
      → cell_at k x y m ≡ some c
      → IsShown m.columns m.rows m.viewport_y c
  unfolding cell_at touched
  cell_at-IsShown none y m c e = cc
  cell_at-IsShown (some x) none m c e = cc
  cell_at-IsShown (some x) (some y) m c e =
      let has_screen : no_screen k m.screen_width m.screen_height m.columns m.rows ≡ false =
        ground arith in
      let screen =
        (no_screen-IsScreen m.screen_width m.screen_height m.columns m.rows).0 has_screen in
      let same : touched x y m ≡ c = ground arith in
      rw same at (touched-IsShown x y m screen (ground arith))

  -- Whatever cell a touch finds is one that the screen shows.
  pub cell_from_point-IsShown :
      (m : TerminalPointMapping k) (c : TerminalCellPosition)
      → terminal_cell_from_point k m ≡ some c
      → IsShown m.columns m.rows m.viewport_y c
  unfolding terminal_cell_from_point
  cell_from_point-IsShown m c found = cell_at-IsShown m.client_x m.client_y m c found

  module _ (m : TerminalHandlePointMapping k) (h : pos 0 ≤ℤ m.viewport_y) where
    pub handle-IsShown :
        (p : TerminalHandlePoint k)
        → terminal_handle_point k m ≡ some p
        → IsScreen m.screen_width m.screen_height m.columns m.rows
          × IsShown m.columns m.rows m.viewport_y m.position
    unfolding terminal_handle_point is_terminal_cell
    handle-IsShown p e =
        let has_screen : no_screen k m.screen_width m.screen_height m.columns m.rows ≡ false =
          ground arith in
        (
          (no_screen-IsScreen m.screen_width m.screen_height m.columns m.rows).0 has_screen,
          record {
            in_grid = ground (arith, -ℤ_parts m.position.row m.viewport_y);
            under_top = ground (arith, -ℤ_parts m.position.row m.viewport_y);
            over_bottom =
                ground (arith, -ℤ_parts m.position.row m.viewport_y, +ℤ_parts m.viewport_y m.rows);
          },
        )

    shown-handle :
        IsScreen m.screen_width m.screen_height m.columns m.rows
        → IsShown m.columns m.rows m.viewport_y m.position
        → terminal_handle_point k m ≢ none
    unfolding terminal_handle_point is_terminal_cell
    shown-handle screen shown =
        let has_screen =
          (no_screen-IsScreen m.screen_width m.screen_height m.columns m.rows).1 screen in
        ground
          (arith, has_screen, -ℤ_parts m.position.row m.viewport_y, +ℤ_parts m.viewport_y m.rows)

    -- A handle has a point on the screen exactly when the screen has a positive size and shows
    -- the cell of the handle.
    pub handle_point_iff : (terminal_handle_point k m ≢ none) ↔ (
        IsScreen m.screen_width m.screen_height m.columns m.rows
        × IsShown m.columns m.rows m.viewport_y m.position)
    handle_point_iff = (
      λ ne. elim (Option-cases (terminal_handle_point k m)) [
        | inl e ↦ absurd (ne e)
        | inr (p, e) ↦ handle-IsShown p e
      ],
      λ (screen, shown). shown-handle screen shown,
    )
