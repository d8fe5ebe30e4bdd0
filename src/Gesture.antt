-- ===== src/Gesture.antt =====
-- The controller of `attachTerminalTouchSelection` in
-- webview/terminal/src/terminal_touch_selection.ts: its variables, what it reads of the terminal
-- and of the page, and the effects of its handlers.
pub mod Controls
pub mod Timers
pub mod Selecting
pub mod Handlers
pub mod Attach
use code_roam.Prelude.{ℕ, ℤ, pos, Bool, true, false, Option, none, List, [], ◌∷◌}
use code_roam.Js.Strings.{Text}
use code_roam.Selection.Coordinates.{Coordinates}
use code_roam.Selection.Cells.{TerminalCellPosition, TerminalSelectionEndpoints}
use code_roam.Selection.Geometry.{TerminalHandlePoint, Edge}

-- `getBoundingClientRect()`
pub record Bounds (k : Coordinates) : Type 0 where
  pub left : k.Coordinate
  pub top : k.Coordinate
  pub width : k.Coordinate
  pub height : k.Coordinate

-- xterm's terminal and the layout of the page around it, which this code only calls. `select` and
-- `clear_selection` also say whether the terminal calls its selection listeners before they return.
pub record Terminal (k : Coordinates) : Type 1 where
  pub State : Type 0
  pub cols : State → ℤ
  pub rows : State → ℤ
  pub viewport_y : State → ℤ
  pub has_selection : State → Bool
  pub get_selection : State → Text
  pub select : ℤ → ℤ → ℤ → State → State × Bool
  pub clear_selection : State → State × Bool
  pub focus : State → State
  -- `buffer.active.getLine(row)`, and `getCell(column)?.getChars()` of a line
  pub line : State → ℤ → Option (ℕ → Option Text)
  pub screen_bounds : State → Option (Bounds k)
  pub host_bounds : State → Bounds k
  -- those of the toolbar, shown or hidden
  pub toolbar_bounds : Bool → State → Bounds k

-- A handle's element: `hidden`, and the styles once they are set.
pub record HandleStyle (k : Coordinates) : Type 0 where
  pub left : k.Coordinate
  pub top : k.Coordinate
  pub handle_x : k.Coordinate
  pub handle_y : k.Coordinate

pub record HandleView (k : Coordinates) : Type 0 where
  pub hidden : Bool
  pub style : Option (HandleStyle k)

-- `toolbar.dataset.placement`, which is first unset
pub data ToolbarPlacement : Type 0 where
  unset nowhere above below : ToolbarPlacement

pub record ToolbarView (k : Coordinates) : Type 0 where
  pub hidden : Bool
  pub placement : ToolbarPlacement
  pub left : Option k.Coordinate
  pub top : Option k.Coordinate
  pub pointer_x : Option k.Coordinate

-- The variables of the closure, and the elements that it made.
pub record Controller (k : Coordinates) : Type 0 where
  pub long_press_timer : Option ℕ
  pub active_touch_identifier : Option ℤ
  pub start_client_x : k.Coordinate
  pub start_client_y : k.Coordinate
  pub touch_cell_y_offset : k.Coordinate
  pub selection_anchor : Option TerminalCellPosition
  pub long_press_selection : Option TerminalSelectionEndpoints
  pub current_selection : Option TerminalSelectionEndpoints
  pub start_handle_point : Option (TerminalHandlePoint k)
  pub end_handle_point : Option (TerminalHandlePoint k)
  pub is_touch_selecting : Bool
  pub start_handle : HandleView k
  pub end_handle : HandleView k
  pub toolbar : ToolbarView k

pub data Effect : Type 0 where
  prevent_default stop_propagation on_paste : Effect
  set_timeout clear_timeout timeout_ran : ℕ → Effect
  on_copy : Text → Effect

-- The controller, the terminal with the page, and what was done so far, the latest first.
pub record Session (k : Coordinates) (t : Terminal k) : Type 0 where
  pub controller : Controller k
  pub terminal : t.State
  pub effects : List Effect

-- A touch; its coordinates are finite numbers.
pub record Touch (k : Coordinates) : Type 0 where
  pub identifier : ℤ
  pub client_x : k.Coordinate
  pub client_y : k.Coordinate

-- Where a touch began: on a handle, in the toolbar, or anywhere else.
pub data Target : Type 0 where
  handle : Edge → Target
  in_toolbar elsewhere : Target

module _ (k : Coordinates) where
  abbrev pub hidden_handle : HandleView k
  hidden_handle = record { hidden = true; style = none }

  abbrev hidden_toolbar : ToolbarView k
  hidden_toolbar = record {
    hidden = true;
    placement = unset;
    left = none;
    top = none;
    pointer_x = none;
  }

  abbrev pub new_controller : Controller k
  new_controller = record {
    long_press_timer = none;
    active_touch_identifier = none;
    start_client_x = k.of_int (pos 0);
    start_client_y = k.of_int (pos 0);
    touch_cell_y_offset = k.of_int (pos 0);
    selection_anchor = none;
    long_press_selection = none;
    current_selection = none;
    start_handle_point = none;
    end_handle_point = none;
    is_touch_selecting = false;
    start_handle = hidden_handle;
    end_handle = hidden_handle;
    toolbar = hidden_toolbar;
  }

  -- The session that `attachTerminalTouchSelection` starts.
  abbrev pub attach : (t : Terminal k) → t.State → Session k t
  attach t s = record { controller = new_controller; terminal = s; effects = [] }

-- The variables of a gesture.
pub record Gesture : Type 0 where
  pub timer : Option ℕ
  pub active : Option ℤ
  pub anchor : Option TerminalCellPosition
  pub word : Option TerminalSelectionEndpoints
  pub selecting : Bool

abbrev pub gesture_of : (k : Coordinates) → Controller k → Gesture
gesture_of k c = record {
  timer = c.long_press_timer;
  active = c.active_touch_identifier;
  anchor = c.selection_anchor;
  word = c.long_press_selection;
  selecting = c.is_touch_selecting;
}
