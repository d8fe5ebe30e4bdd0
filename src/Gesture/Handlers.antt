-- ===== src/Gesture/Handlers.antt =====
-- The handlers of `attachTerminalTouchSelection`. A handler takes the session before it and gives
-- the one after it.
pub mod Events
pub mod Orderly
pub mod Invariant
pub mod Copies
pub mod Dismissed
pub mod LongPress
pub mod Anchors
pub mod Preserved
pub mod Shown
pub mod Resigned
pub mod Drag
pub mod Grasp
pub mod Phases
mod Tests
use code_roam.Prelude.{
  ℕ, ℤ, pos, pos_part, suc, zero, ◌+◌, ◌+ℤ◌, ◌-ℤ◌, leb_ℤ, eqb_ℤ, leb, ltb, Bool, true, false, not,
  ◌&&◌, ◌||◌, Option, none, some, List, [], ◌∷◌, length, if◌then◌else◌, is_none,
}
use code_roam.Js.Strings.{Text}
use code_roam.Selection.Coordinates.{Coordinates}
use code_roam.Selection.Cells.{
  TerminalCellPosition, TerminalSelectionRange, TerminalSelectionEndpoints, compare_terminal_cells,
  ordered_terminal_selection_endpoints, terminal_selection_between,
}
use code_roam.Selection.Word.{WordSelection, terminal_word_selection}
use code_roam.Selection.Geometry.{Edge, TerminalHandlePoint, terminal_cell_from_point}
use code_roam.Gesture.{
  Bounds, Terminal, Controller, Session, Effect, prevent_default, stop_propagation, on_paste,
  set_timeout, clear_timeout, timeout_ran, on_copy, Touch, Target, handle, in_toolbar, elsewhere,
}
use code_roam.Js.{string}
use code_roam.Selection.Clipboard.{bounded_terminal_clipboard_text}
use code_roam.Gesture.Selecting.{
  with_controller, effect, consume, update_controls, clear_selection, dismiss_selection,
  cancel_long_press_timer, reset_gesture, terminal_cell_for_touch, select_between, select_word_at,
}

module _ (k : Coordinates) where
  -- `touchWithIdentifier(touches, identifier)`
  unfoldable pub touch_with_identifier : List (Touch k) → ℤ → Option (Touch k)
  touch_with_identifier [] identifier = none
  touch_with_identifier (touch ∷ touches) identifier =
      if eqb_ℤ touch.identifier identifier
      then some touch
      else touch_with_identifier touches identifier

  abbrev distance_to : Touch k → TerminalHandlePoint k → k.Coordinate
  distance_to touch p =
      k.hypot (k.minus touch.client_x p.client_x) (k.minus touch.client_y p.client_y)

  -- `nearestSelectionEdge(touch, start, end, fallback)`
  unfoldable pub nearest_selection_edge :
      Touch k → Option (TerminalHandlePoint k) → Option (TerminalHandlePoint k) → Edge → Edge
  nearest_selection_edge touch (some start) (some end) fallback =
      if k.le (distance_to touch start) (distance_to touch end) then Edge.start else Edge.end
  nearest_selection_edge touch _ _ fallback = fallback

-- The end that stays while the other is dragged.
abbrev pub opposite_end : Edge → TerminalSelectionEndpoints → TerminalCellPosition
opposite_end Edge.start e = e.end
opposite_end Edge.end e = e.start

-- The end of the selection that a drag from `anchor` to `current` keeps.
pub fixed_endpoint :
    Option TerminalSelectionEndpoints
    → TerminalCellPosition
    → TerminalCellPosition
    → TerminalCellPosition
fixed_endpoint none anchor current = anchor
fixed_endpoint (some word) anchor current =
    if leb_ℤ (pos 0) (compare_terminal_cells current anchor) then word.start else word.end

module _ (k : Coordinates) (t : Terminal k) where
  -- `screen ? -(screen.height / terminal.rows) / 2 : 0`
  cell_offset : Option (Bounds k) → t.State → k.Coordinate
  cell_offset none state = k.of_int (pos 0)
  cell_offset (some bounds) state =
      k.over (k.minus (k.of_int (pos 0)) (k.over bounds.height (k.of_int (t.rows state))))
        (k.of_int (pos 2))

  -- A touch on a handle while there is a selection.
  begin_handle_drag : Touch k → Edge → TerminalSelectionEndpoints → Session k t → Session k t
  unfolding cancel_long_press_timer cell_offset
  begin_handle_drag touch edge e s =
      let s' = cancel_long_press_timer k t (consume k t s) in
      let c = s'.controller in
      let dragged = nearest_selection_edge k touch c.start_handle_point c.end_handle_point edge in
      record s' {
        controller = record c {
          active_touch_identifier = some touch.identifier;
          selection_anchor = some (opposite_end dragged e);
          touch_cell_y_offset = cell_offset (t.screen_bounds s'.terminal) s'.terminal;
          long_press_selection = none;
          is_touch_selecting = true;
        };
      }

  -- `longPressTimer = window.setTimeout(…)`; the browser gives the timer.
  arm_timer : ℕ → Session k t → Session k t
  arm_timer timer s =
      with_controller k t (λ c. record c { long_press_timer = some timer })
        (effect k t (set_timeout timer) s)

  -- The variables of a touch that found a cell.
  abbrev pub hold_press : Touch k → TerminalCellPosition → Session k t → Session k t
  hold_press touch cell = with_controller k t (λ c. record c {
    active_touch_identifier = some touch.identifier;
    start_client_x = touch.client_x;
    start_client_y = touch.client_y;
    touch_cell_y_offset = k.of_int (pos 0);
    selection_anchor = some cell;
    long_press_selection = none;
    is_touch_selecting = false;
  })

  begin_press : Touch k → ℕ → TerminalCellPosition → Session k t → Session k t
  unfolding cancel_long_press_timer arm_timer
  begin_press touch timer cell s =
      arm_timer timer (cancel_long_press_timer k t (hold_press touch cell s))

  press_at : Option TerminalCellPosition → Touch k → ℕ → Session k t → Session k t
  unfolding reset_gesture begin_press
  press_at none touch timer s = reset_gesture k t s
  press_at (some cell) touch timer s = begin_press touch timer cell s

  -- A touch elsewhere: the selection is cleared, and the long press begins.
  press : Touch k → ℕ → Session k t → Session k t
  unfolding clear_selection terminal_cell_for_touch press_at
  press touch timer s =
      let s' = clear_selection k t s in
      press_at (terminal_cell_for_touch k t touch s') touch timer s'

  start_touch : Target → Option TerminalSelectionEndpoints → Touch k → ℕ → Session k t → Session k t
  unfolding begin_handle_drag reset_gesture press
  start_touch (handle edge) (some e) touch timer s = begin_handle_drag touch edge e s
  start_touch (handle edge) none touch timer s = press touch timer s
  start_touch in_toolbar selection touch timer s = reset_gesture k t s
  start_touch elsewhere selection touch timer s = press touch timer s

  unfoldable pub handle_touch_start : List (Touch k) → Target → ℕ → Session k t → Session k t
  unfolding start_touch reset_gesture
  handle_touch_start (touch ∷ []) target timer s =
      start_touch target s.controller.current_selection touch timer s
  handle_touch_start _ target timer s = reset_gesture k t s

  long_press_at : Option ℤ → Option TerminalCellPosition → Session k t → Session k t
  unfolding select_word_at
  long_press_at (some touch) (some anchor) s =
      let (s', word) = select_word_at k t anchor s in
      with_controller k t
        (λ c. record c { long_press_selection = word; is_touch_selecting = not (is_none word) }) s'
  long_press_at _ _ s = s

  -- The callback of the timer, which ran.
  unfoldable pub on_long_press : ℕ → Session k t → Session k t
  unfolding long_press_at
  on_long_press timer s =
      let s' =
        with_controller k t (λ c. record c { long_press_timer = none })
          (effect k t (timeout_ran timer) s) in
      long_press_at s'.controller.active_touch_identifier s'.controller.selection_anchor s'

  -- A move before the selection has begun: one that is too far gives up the long press.
  await_press : Touch k → Session k t → Session k t
  unfolding cancel_long_press_timer
  await_press touch s =
      let movement =
        k.hypot (k.minus touch.client_x s.controller.start_client_x)
          (k.minus touch.client_y s.controller.start_client_y) in
      if not (k.le movement (k.of_int (pos 12))) then cancel_long_press_timer k t s else s

  drag_to : Option TerminalCellPosition → Option TerminalCellPosition → Session k t → Session k t
  unfolding select_between fixed_endpoint
  drag_to (some current) (some anchor) s =
      (select_between k t (fixed_endpoint s.controller.long_press_selection anchor current) current
        s).0
  drag_to _ _ s = s

  -- A move while a selection is made.
  drag : Touch k → Session k t → Session k t
  unfolding terminal_cell_for_touch drag_to
  drag touch s =
      let s' = consume k t s in
      drag_to (terminal_cell_for_touch k t touch s') s'.controller.selection_anchor s'

  moved : Option (Touch k) → Session k t → Session k t
  unfolding await_press drag
  moved none s = s
  moved (some touch) s =
      if s.controller.is_touch_selecting then drag touch s else await_press touch s

  move_active : Option ℤ → List (Touch k) → Session k t → Session k t
  unfolding moved
  move_active none touches s = s
  move_active (some identifier) touches s = moved (touch_with_identifier k touches identifier) s

  unfoldable pub handle_touch_move : List (Touch k) → Session k t → Session k t
  unfolding move_active
  handle_touch_move touches s = move_active s.controller.active_touch_identifier touches s

  end_found : Option (Touch k) → Session k t → Session k t
  unfolding reset_gesture
  end_found none s = s
  end_found (some touch) s =
      reset_gesture k t (if s.controller.is_touch_selecting then consume k t s else s)

  end_active : Option ℤ → List (Touch k) → Session k t → Session k t
  unfolding end_found
  end_active none changed s = s
  end_active (some identifier) changed s = end_found (touch_with_identifier k changed identifier) s

  -- `touchend` and `touchcancel`
  unfoldable pub handle_touch_end : List (Touch k) → Session k t → Session k t
  unfolding end_active
  handle_touch_end changed s = end_active s.controller.active_touch_identifier changed s

  unfoldable pub handle_context_menu : Session k t → Session k t
  handle_context_menu s = if t.has_selection s.terminal then effect k t prevent_default s else s

  copied : Option Text → Session k t → Session k t
  unfolding dismiss_selection
  copied none s = consume k t s
  copied (some selection) s = dismiss_selection k t (effect k t (on_copy selection) (consume k t s))

  unfoldable pub handle_copy : Session k t → Session k t
  unfolding copied
  handle_copy s = copied (bounded_terminal_clipboard_text (string (t.get_selection s.terminal))) s

  unfoldable pub handle_paste : Session k t → Session k t
  unfolding dismiss_selection
  handle_paste s =
      let s' = dismiss_selection k t (consume k t s) in
      effect k t on_paste (record s' { terminal = t.focus s'.terminal })

  unfoldable pub handle_close : Session k t → Session k t
  unfolding dismiss_selection
  handle_close s = dismiss_selection k t (consume k t s)

  -- `dispose()`, after which no listener is left.
  unfoldable pub dispose : Session k t → Session k t
  unfolding reset_gesture
  dispose s = reset_gesture k t s
