-- ===== src/Selection/Geometry.antt =====
-- From points of the screen to cells and back, and the place of the toolbar
-- (`terminalCellFromPoint`, `terminalHandlePoint`, `terminalSelectionToolbarPosition`).
pub mod Points
pub mod Under
pub mod Toolbar
use code_roam.Prelude.{
  ℤ, pos, ◌+ℤ◌, ◌-ℤ◌, ltb_ℤ, leb_ℤ, Bool, true, false, not, ◌&&◌, ◌||◌, Option, none, some,
  if◌then◌else◌, ◌>>=◌,
}
use code_roam.Selection.Coordinates.{Coordinates, min, max, clamp}
use code_roam.Selection.Cells.{TerminalCellPosition}

pub data Edge : Type 0 where
  start end : Edge

pub data Placement : Type 0 where
  above below : Placement

-- A coordinate that `Number.isFinite` may refuse is `none` where it does.
pub record TerminalPointMapping (k : Coordinates) : Type 0 where
  pub client_x : Option k.Coordinate
  pub client_y : Option k.Coordinate
  pub screen_left : k.Coordinate
  pub screen_top : k.Coordinate
  pub screen_width : k.Coordinate
  pub screen_height : k.Coordinate
  pub columns : ℤ
  pub rows : ℤ
  pub viewport_y : ℤ

pub record TerminalHandlePointMapping (k : Coordinates) : Type 0 where
  pub position : TerminalCellPosition
  pub edge : Edge
  pub screen_left : k.Coordinate
  pub screen_top : k.Coordinate
  pub screen_width : k.Coordinate
  pub screen_height : k.Coordinate
  pub columns : ℤ
  pub rows : ℤ
  pub viewport_y : ℤ

pub record TerminalHandlePoint (k : Coordinates) : Type 0 where
  pub client_x : k.Coordinate
  pub client_y : k.Coordinate

pub record TerminalToolbarPositionMapping (k : Coordinates) : Type 0 where
  pub anchor_client_x : Option k.Coordinate
  pub selection_top_client_y : Option k.Coordinate
  pub selection_bottom_client_y : Option k.Coordinate
  pub host_left : Option k.Coordinate
  pub host_top : Option k.Coordinate
  pub host_width : k.Coordinate
  pub host_height : k.Coordinate
  pub toolbar_width : k.Coordinate
  pub toolbar_height : k.Coordinate

pub record TerminalToolbarPosition (k : Coordinates) : Type 0 where
  pub left : k.Coordinate
  pub top : k.Coordinate
  pub pointer_x : k.Coordinate
  pub placement : Placement

module _ (k : Coordinates) where
  open k use {Coordinate, of_int, plus, minus, times, over, le, floor}

  abbrev zero_length : Coordinate
  zero_length = of_int (pos 0)

  -- The guard on the screen and the grid that both directions share.
  no_screen : Coordinate → Coordinate → ℤ → ℤ → Bool
  no_screen width height columns rows =
      le width zero_length || le height zero_length || ltb_ℤ columns (pos 1) || ltb_ℤ rows (pos 1)

  -- `clamp(Math.floor(((at - origin) / size) * count), 0, count - 1)`
  pub cell_along : Coordinate → Coordinate → Coordinate → ℤ → ℤ
  cell_along at origin size count =
      clamp leb_ℤ (floor (times (over (minus at origin) size) (of_int count))) (pos 0)
        (count -ℤ pos 1)

  cell_at :
      Option Coordinate → Option Coordinate → TerminalPointMapping k → Option TerminalCellPosition
  unfolding no_screen cell_along
  cell_at none y m = none
  cell_at (some x) none m = none
  cell_at (some x) (some y) m =
      if no_screen m.screen_width m.screen_height m.columns m.rows || ltb_ℤ m.viewport_y (pos 0)
      then none
      else some (record {
        column = cell_along x m.screen_left m.screen_width m.columns;
        row = m.viewport_y +ℤ cell_along y m.screen_top m.screen_height m.rows;
      })

  unfoldable pub terminal_cell_from_point : TerminalPointMapping k → Option TerminalCellPosition
  unfolding cell_at
  terminal_cell_from_point m = cell_at m.client_x m.client_y m

  -- `position.column + (edge === "end" ? 1 : 0)`
  unfoldable pub column_edge : Edge → ℤ → ℤ
  column_edge start column = column +ℤ pos 0
  column_edge end column = column +ℤ pos 1

  unfoldable pub terminal_handle_point :
      TerminalHandlePointMapping k → Option (TerminalHandlePoint k)
  unfolding no_screen column_edge
  terminal_handle_point m =
      let viewport_row = m.position.row -ℤ m.viewport_y in
      if no_screen m.screen_width m.screen_height m.columns m.rows
        || ltb_ℤ m.position.column (pos 0)
        || leb_ℤ m.columns m.position.column
        || ltb_ℤ viewport_row (pos 0)
        || leb_ℤ m.rows viewport_row
      then none
      else some (record {
        client_x = plus m.screen_left (
            times (over (of_int (column_edge m.edge m.position.column)) (of_int m.columns))
              m.screen_width);
        client_y =
            plus m.screen_top
              (times (over (of_int (viewport_row +ℤ pos 1)) (of_int m.rows)) m.screen_height);
      })

  abbrev selection_toolbar_gap : Coordinate
  selection_toolbar_gap = of_int (pos 8)

  abbrev selection_toolbar_margin : Coordinate
  selection_toolbar_margin = of_int (pos 8)

  abbrev half : Coordinate → Coordinate
  half a = over a (of_int (pos 2))

  -- The lengths of one dimension of host and toolbar, and what is computed from them.
  pub horizontal_margin : Coordinate → Coordinate → Coordinate
  horizontal_margin host_width toolbar_width =
      min le selection_toolbar_margin (max le zero_length (half (minus host_width toolbar_width)))

  pub maximum_left : Coordinate → Coordinate → Coordinate
  unfolding horizontal_margin
  maximum_left host_width toolbar_width =
      let margin = horizontal_margin host_width toolbar_width in
      max le margin (minus (minus host_width toolbar_width) margin)

  pub maximum_top : Coordinate → Coordinate → Coordinate
  maximum_top host_height toolbar_height = max le zero_length (minus host_height toolbar_height)

  -- `fitsAbove || !fitsBelow ? "above" : "below"`
  placement_for : Bool → Bool → Placement
  placement_for fits_above fits_below = if fits_above || not fits_below then above else below

  placed_top : Placement → Coordinate → Coordinate → Coordinate
  placed_top above above_top below_top = above_top
  placed_top below above_top below_top = below_top

  module _ (anchor top_y bottom_y host_left host_top : Coordinate)
      (m : TerminalToolbarPositionMapping k) where
    above_top : Coordinate
    above_top = minus (minus (minus top_y host_top) m.toolbar_height) selection_toolbar_gap

    below_top : Coordinate
    below_top = plus (minus bottom_y host_top) selection_toolbar_gap

    placement : Placement
    unfolding placement_for above_top below_top
    placement =
        placement_for (le selection_toolbar_margin above_top)
          (le (plus below_top m.toolbar_height) (minus m.host_height selection_toolbar_margin))

    toolbar_left : Coordinate
    toolbar_left =
        clamp le (minus (minus anchor host_left) (half m.toolbar_width))
          (horizontal_margin m.host_width m.toolbar_width)
          (maximum_left m.host_width m.toolbar_width)

    toolbar_at : TerminalToolbarPosition k
    toolbar_at =
        let inset = min le (of_int (pos 12)) (half m.toolbar_width) in
        record {
          left = toolbar_left;
          top =
              clamp le (placed_top placement above_top below_top) zero_length
                (maximum_top m.host_height m.toolbar_height);
          pointer_x =
              clamp le (minus (minus anchor host_left) toolbar_left) inset
                (minus m.toolbar_width inset);
          placement = placement;
        }

  -- A length that is 0 or below.
  no_toolbar : TerminalToolbarPositionMapping k → Bool
  no_toolbar m =
      le m.host_width zero_length
      || le m.host_height zero_length
      || le m.toolbar_width zero_length
      || le m.toolbar_height zero_length

  unfoldable pub terminal_selection_toolbar_position :
      TerminalToolbarPositionMapping k → Option (TerminalToolbarPosition k)
  unfolding toolbar_at no_toolbar toolbar_left placement placed_top maximum_top maximum_left
      horizontal_margin
  terminal_selection_toolbar_position m = do
    anchor ← m.anchor_client_x
    top_y ← m.selection_top_client_y
    bottom_y ← m.selection_bottom_client_y
    host_left ← m.host_left
    host_top ← m.host_top
    if no_toolbar m then none else some (toolbar_at anchor top_y bottom_y host_left host_top m)
