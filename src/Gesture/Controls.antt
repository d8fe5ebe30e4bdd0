-- ===== src/Gesture/Controls.antt =====
-- `positionHandle`, `positionToolbar` and `updateSelectionControls`: the handles and the toolbar
-- follow the selection.
pub mod Consistent
pub mod Inside
use code_roam.Prelude.{
  ℤ, pos, Bool, true, false, not, ◌&&◌, ◌||◌, Option, none, some, if◌then◌else◌,
}
use code_roam.Selection.Coordinates.{Coordinates, min, max, clamp}
use code_roam.Selection.Cells.{TerminalCellPosition, TerminalSelectionEndpoints}
use code_roam.Selection.Geometry.{
  Edge, Placement, TerminalHandlePoint, TerminalToolbarPosition, terminal_handle_point,
  terminal_selection_toolbar_position,
}
use code_roam.Gesture.{
  Bounds, Terminal, HandleStyle, HandleView, ToolbarView, ToolbarPlacement, Controller, unset,
  nowhere,
}

abbrev placement_of : Placement → ToolbarPlacement
placement_of Placement.above = ToolbarPlacement.above
placement_of Placement.below = ToolbarPlacement.below

module _ (k : Coordinates) (t : Terminal k) where
  open k use {Coordinate, of_int, plus, minus, over, le}

  abbrev length_of : ℤ → Coordinate
  length_of n = of_int n

  -- `selectionHandleTouchTargetSize`
  abbrev handle_size : Coordinate
  handle_size = of_int (pos 48)

  abbrev toolbar_margin : Coordinate
  toolbar_margin = of_int (pos 8)

  abbrev half : Coordinate → Coordinate
  half a = over a (of_int (pos 2))

  abbrev hide : HandleView k → HandleView k × Option (TerminalHandlePoint k)
  hide h = (record h { hidden = true }, none)

  handle_style : TerminalHandlePoint k → Bounds k → HandleStyle k
  handle_style point host =
      let x =
        clamp le (minus point.client_x host.left) (of_int (pos 8))
          (minus host.width (of_int (pos 8))) in
      let y =
        clamp le (minus point.client_y host.top) (of_int (pos 8))
          (minus host.height (of_int (pos 8))) in
      let left =
        clamp le (minus x (half handle_size)) (of_int (pos 0)) (minus host.width handle_size) in
      let top =
        clamp le (minus y (half handle_size)) (of_int (pos 0)) (minus host.height handle_size) in
      record { left = left; top = top; handle_x = minus x left; handle_y = minus y top }

  place_handle :
      Option (TerminalHandlePoint k)
      → Bounds k
      → HandleView k
      → HandleView k × Option (TerminalHandlePoint k)
  unfolding handle_style
  place_handle none host h = hide h
  place_handle (some point) host h =
      if not (le handle_size host.width) || not (le handle_size host.height)
      then hide h
      else (record { hidden = false; style = some (handle_style point host) }, some point)

  handle_point_on :
      Bounds k → TerminalCellPosition → Edge → t.State → Option (TerminalHandlePoint k)
  handle_point_on screen position edge s = terminal_handle_point k (record {
    position = position;
    edge = edge;
    screen_left = screen.left;
    screen_top = screen.top;
    screen_width = screen.width;
    screen_height = screen.height;
    columns = t.cols s;
    rows = t.rows s;
    viewport_y = t.viewport_y s;
  })

  handle_on :
      Option (Bounds k)
      → TerminalCellPosition
      → Edge
      → t.State
      → HandleView k
      → HandleView k × Option (TerminalHandlePoint k)
  unfolding place_handle handle_point_on
  handle_on none position edge s h = hide h
  handle_on (some screen) position edge s h =
      place_handle (handle_point_on screen position edge s) (t.host_bounds s) h

  -- `positionHandle(handle, position, edge)`: the element and the point.
  unfoldable pub position_handle :
      TerminalCellPosition
      → Edge
      → t.State
      → HandleView k
      → HandleView k × Option (TerminalHandlePoint k)
  unfolding handle_on
  position_handle position edge s h = handle_on (t.screen_bounds s) position edge s h

  -- `Math.abs`, and the point between two handles of one row.
  abs : Coordinate → Coordinate
  abs a = if le (of_int (pos 0)) a then a else minus (of_int (pos 0)) a

  toolbar_anchor : TerminalHandlePoint k → TerminalHandlePoint k → Coordinate → Coordinate
  unfolding abs
  toolbar_anchor a b row_height =
      if not (le row_height (abs (minus a.client_y b.client_y)))
      then half (plus a.client_x b.client_x)
      else a.client_x

  -- The toolbar at an anchor, above or below the lines between two heights.
  toolbar_between : Coordinate → Coordinate → Coordinate → t.State → ToolbarView k → ToolbarView k
  toolbar_between anchor top_y bottom_y s v =
      let host = t.host_bounds s in
      let size = t.toolbar_bounds v.hidden s in
      elim (terminal_selection_toolbar_position k (record {
        anchor_client_x = some anchor;
        selection_top_client_y = some top_y;
        selection_bottom_client_y = some bottom_y;
        host_left = some host.left;
        host_top = some host.top;
        host_width = host.width;
        host_height = host.height;
        toolbar_width = size.width;
        toolbar_height = size.height;
      })) [
        | none ↦ v
        | some p ↦ record v {
          placement = placement_of p.placement;
          left = some p.left;
          top = some p.top;
          pointer_x = some p.pointer_x;
        }
      ]

  -- No handle is visible: the toolbar goes to the upper right corner.
  toolbar_in_corner : t.State → ToolbarView k → ToolbarView k
  toolbar_in_corner s v = record v {
    placement = nowhere;
    left = some (
        max le toolbar_margin (
          minus (minus (t.host_bounds s).width (t.toolbar_bounds v.hidden s).width)
            toolbar_margin));
    top = some toolbar_margin;
  }

  toolbar_on :
      Coordinate
      → Option (TerminalHandlePoint k)
      → Option (TerminalHandlePoint k)
      → t.State
      → ToolbarView k
      → ToolbarView k
  unfolding toolbar_anchor toolbar_between toolbar_in_corner
  toolbar_on row_height none none s v = toolbar_in_corner s v
  toolbar_on row_height (some a) none s v =
      toolbar_between a.client_x (minus a.client_y row_height) a.client_y s v
  toolbar_on row_height none (some b) s v =
      toolbar_between b.client_x (minus b.client_y row_height) b.client_y s v
  toolbar_on row_height (some a) (some b) s v =
      toolbar_between (toolbar_anchor a b row_height)
        (minus (min le a.client_y b.client_y) row_height) (max le a.client_y b.client_y) s v

  toolbar_with :
      Option (Bounds k)
      → Option (TerminalHandlePoint k)
      → Option (TerminalHandlePoint k)
      → t.State
      → ToolbarView k
      → ToolbarView k
  unfolding toolbar_on toolbar_in_corner
  toolbar_with none a b s v = toolbar_in_corner s v
  toolbar_with (some screen) a b s v = toolbar_on (over screen.height (of_int (t.rows s))) a b s v

  -- `positionToolbar()`, from the two handle points.
  unfoldable pub position_toolbar :
      Option (TerminalHandlePoint k)
      → Option (TerminalHandlePoint k)
      → t.State
      → ToolbarView k
      → ToolbarView k
  unfolding toolbar_with
  position_toolbar a b s v = toolbar_with (t.screen_bounds s) a b s v

  -- No handles.
  pub without_handles : Controller k → Controller k
  without_handles c = record c {
    start_handle_point = none;
    end_handle_point = none;
    start_handle = record c.start_handle { hidden = true };
    end_handle = record c.end_handle { hidden = true };
  }

  pub with_handles : TerminalSelectionEndpoints → t.State → Controller k → Controller k
  with_handles e s c =
      let (start_handle, start_point) = position_handle e.start Edge.start s c.start_handle in
      let (end_handle, end_point) = position_handle e.end Edge.end s c.end_handle in
      record c {
        start_handle_point = start_point;
        end_handle_point = end_point;
        start_handle = start_handle;
        end_handle = end_handle;
        toolbar = position_toolbar start_point end_point s c.toolbar;
      }

  -- The last part, while the terminal has a selection.
  pub show_selection : Option TerminalSelectionEndpoints → t.State → Controller k → Controller k
  unfolding without_handles with_handles
  show_selection none s c =
      let c' = without_handles c in record c' { toolbar = position_toolbar none none s c'.toolbar }
  show_selection (some e) s c = with_handles e s c

  -- The two ways of the update, by `terminal.hasSelection()`.
  update_with : Bool → t.State → Controller k → Controller k
  unfolding show_selection without_handles
  update_with true s c =
      show_selection c.current_selection s
        (record c { toolbar = record c.toolbar { hidden = false } })
  update_with false s c =
      without_handles
        (record c { current_selection = none; toolbar = record c.toolbar { hidden = true } })

  -- `updateSelectionControls()`
  unfoldable pub update_selection_controls : t.State → Controller k → Controller k
  unfolding update_with
  update_selection_controls s c = update_with (t.has_selection s) s c
