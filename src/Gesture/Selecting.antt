-- ===== src/Gesture/Selecting.antt =====
-- How the controller uses the terminal: clearing and dismissing the selection, selecting between
-- two cells or a word, and the cell under a touch.
pub mod Keeps
pub mod Words
pub mod Selects
pub mod Touched
pub mod Shown
use code_roam.Prelude.{
  ℕ, ℤ, pos, pos_part, suc, zero, ◌+◌, ◌+ℤ◌, ◌-ℤ◌, leb_ℤ, eqb_ℤ, leb, ltb, Bool, true, false, not,
  ◌&&◌, ◌||◌, Option, none, some, List, [], ◌∷◌, length, if◌then◌else◌, is_none,
}
use code_roam.Js.Strings.{Text}
use code_roam.Selection.Coordinates.{Coordinates}
use code_roam.Selection.Cells.{
  TerminalCellPosition, TerminalSelectionRange, TerminalSelectionEndpoints, compare_terminal_cells,
  ordered_terminal_selection_endpoints, terminal_selection_between,
}
use code_roam.Selection.Word.{WordSelection, terminal_word_selection}
use code_roam.Selection.Geometry.{Edge, TerminalHandlePoint, terminal_cell_from_point}
use code_roam.Gesture.{
  Bounds, Terminal, Controller, Session, Effect, prevent_default, stop_propagation, on_paste,
  set_timeout, clear_timeout, timeout_ran, on_copy, Touch, Target, handle, in_toolbar, elsewhere,
}
use code_roam.Js.{string}
use code_roam.Selection.Clipboard.{bounded_terminal_clipboard_text}
use code_roam.Gesture.Controls.{update_selection_controls}

-- `line.getCell(column)?.getChars() ?? ""` for `n` columns from `column` on
cells_from : ℕ → ℕ → (ℕ → Option Text) → List Text
cells_from zero column line = []
cells_from (suc n) column line =
    elim (line column) [ none ↦ [] | some chars ↦ chars ] ∷ cells_from n (column + 1) line

module _ (k : Coordinates) (t : Terminal k) where
  abbrev pub S : Type 0
  S = Session k t

  abbrev pub with_controller : (Controller k → Controller k) → S → S
  with_controller f s = record s { controller = f s.controller }

  abbrev pub effect : Effect → S → S
  effect e s = record s { effects = e ∷ s.effects }

  -- `event.preventDefault(); event.stopPropagation();`
  abbrev pub consume : S → S
  consume s = effect stop_propagation (effect prevent_default s)

  unfoldable pub update_controls : S → S
  update_controls s = with_controller (update_selection_controls k t s.terminal) s

  -- The terminal after a call, and its listeners, if they run before the call returns.
  after_call : t.State × Bool → S → S
  unfolding update_controls
  after_call (state, notified) s =
      let s' = record s { terminal = state } in if notified then update_controls s' else s'

  unfoldable pub clear_selection : S → S
  unfolding after_call
  clear_selection s = after_call (t.clear_selection s.terminal) s

  unfoldable pub dismiss_selection : S → S
  unfolding update_controls clear_selection
  dismiss_selection s =
      update_controls
        (clear_selection (with_controller (λ c. record c { current_selection = none }) s))

  cancel_timer : Option ℕ → S → S
  cancel_timer none s = s
  cancel_timer (some timer) s =
      with_controller (λ c. record c { long_press_timer = none }) (effect (clear_timeout timer) s)

  unfoldable pub cancel_long_press_timer : S → S
  unfolding cancel_timer
  cancel_long_press_timer s = cancel_timer s.controller.long_press_timer s

  abbrev idle : Controller k → Controller k
  idle c = record c {
    active_touch_identifier = none;
    touch_cell_y_offset = k.of_int (pos 0);
    selection_anchor = none;
    long_press_selection = none;
    is_touch_selecting = false;
  }

  unfoldable pub reset_gesture : S → S
  unfolding cancel_long_press_timer
  reset_gesture s = with_controller idle (cancel_long_press_timer s)

  cell_on : Option (Bounds k) → Touch k → S → Option TerminalCellPosition
  cell_on none touch s = none
  cell_on (some bounds) touch s = terminal_cell_from_point k (record {
    client_x = some touch.client_x;
    client_y = some (k.plus touch.client_y s.controller.touch_cell_y_offset);
    screen_left = bounds.left;
    screen_top = bounds.top;
    screen_width = bounds.width;
    screen_height = bounds.height;
    columns = t.cols s.terminal;
    rows = t.rows s.terminal;
    viewport_y = t.viewport_y s.terminal;
  })

  unfoldable pub terminal_cell_for_touch : Touch k → S → Option TerminalCellPosition
  unfolding cell_on
  terminal_cell_for_touch touch s = cell_on (t.screen_bounds s.terminal) touch s

  select_range :
      Option TerminalSelectionRange
      → TerminalSelectionEndpoints
      → S
      → S × Option TerminalSelectionEndpoints
  unfolding after_call update_controls
  select_range none e s = (s, none)
  select_range (some range) e s =
      let chosen = with_controller (λ c. record c { current_selection = some e }) s in
      let s' =
        update_controls
          (after_call (t.select range.column range.row range.length chosen.terminal) chosen) in
      (s', s'.controller.current_selection)

  unfoldable pub select_between :
      TerminalCellPosition → TerminalCellPosition → S → S × Option TerminalSelectionEndpoints
  unfolding select_range
  select_between first second s =
      select_range (terminal_selection_between first second (t.cols s.terminal))
        (ordered_terminal_selection_endpoints first second) s

  select_found :
      Option WordSelection → TerminalCellPosition → S → S × Option TerminalSelectionEndpoints
  unfolding select_between
  select_found none position s = (s, none)
  select_found (some word) position s =
      select_between (record { column = word.column; row = position.row })
        (record { column = word.column +ℤ word.length -ℤ pos 1; row = position.row }) s

  select_word_in :
      Option (ℕ → Option Text) → TerminalCellPosition → S → S × Option TerminalSelectionEndpoints
  unfolding select_found cells_from
  select_word_in none position s = (s, none)
  select_word_in (some line) position s =
      select_found
        (terminal_word_selection (cells_from (pos_part (t.cols s.terminal)) 0 line) position.column)
        position s

  unfoldable pub select_word_at : TerminalCellPosition → S → S × Option TerminalSelectionEndpoints
  unfolding select_word_in
  select_word_at position s = select_word_in (t.line s.terminal position.row) position s
