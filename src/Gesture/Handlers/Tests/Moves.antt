-- ===== src/Gesture/Handlers/Tests/Moves.antt =====
-- The theorems on a finger that presses and moves, at the gesture of the tests.
use code_roam.Prelude.{pos, ◌≡◌, refl, true, false, some, [], ◌∷◌}
use code_roam.Selection.Pixels.{pixels, div_ℤ, norm_ℤ}
use code_roam.Selection.Cells.{
  TerminalCellPosition, ordered_terminal_selection_endpoints, terminal_selection_between,
}
use code_roam.Gesture.{Touch}
use code_roam.Selection.Geometry.{terminal_cell_from_point}
use code_roam.Prelude.{◌-ℤ◌, ◌+ℤ◌, ◌*ℤ◌}
use code_roam.Selection.Word.{terminal_word_selection}
use code_roam.Selection.Coordinates.{clamp}
use code_roam.Gesture.Timers.{pending}
use code_roam.Gesture.Controls.{update_selection_controls}
use code_roam.Gesture.Selecting.{
  clear_selection, consume, select_between, terminal_cell_for_touch, cancel_long_press_timer,
}
use code_roam.Gesture.Handlers.{
  handle_touch_start, handle_touch_move, touch_with_identifier, on_long_press,
}
use code_roam.Gesture.Handlers.Events.{handle_event}
use code_roam.Prelude.{◌⊎◌}
use code_roam.Gesture.Handlers.Resigned.{is_near, move_cases}
use code_roam.Gesture.Handlers.LongPress.{long_press-Selected}
use code_roam.Gesture.Selecting.Selects.{row_of, Selected}
use code_roam.Selection.Word.{is_word_at}
use code_roam.Gesture.Handlers.Anchors.{move-Within}
use code_roam.Selection.Cells.Order.{Within}
use code_roam.Gesture.Handlers.Tests.{
  glass, finger, at_start, pressed, held, listing, cell, pressed-Reachable, held-Reachable,
  held_is_active,
}

finger_finds :
    terminal_cell_for_touch pixels glass finger (clear_selection pixels glass at_start)
    ≡ some (cell 0)
unfolding terminal_cell_for_touch clear_selection terminal_cell_from_point div_ℤ norm_ℤ clamp ◌*ℤ◌
    ◌-ℤ◌ ◌+ℤ◌ update_selection_controls
finger_finds = refl

is_on_word : is_word_at (row_of pixels glass pressed.terminal listing) 0 ≡ true
unfolding handle_event row_of is_word_at handle_touch_start clear_selection terminal_cell_for_touch
    cancel_long_press_timer terminal_cell_from_point div_ℤ norm_ℤ
is_on_word = refl

long_press-Selected_example : Selected pixels glass (cell 0) listing pressed held.terminal
unfolding handle_event
long_press-Selected_example =
    long_press-Selected pixels glass finger 7 (cell 0) listing at_start finger_finds refl is_on_word

abbrev moved_finger : Touch pixels
moved_finger = record finger { client_x = pos 85 }

held_selects :
    (held.controller.is_touch_selecting ≡ true)
    × (held.controller.selection_anchor ≡ some (cell 0))
    × (terminal_cell_for_touch pixels glass moved_finger (consume pixels glass held)
        ≡ some (cell 7))
unfolding handle_event handle_touch_start on_long_press clear_selection terminal_cell_for_touch
    cancel_long_press_timer terminal_cell_from_point div_ℤ norm_ℤ terminal_word_selection clamp ◌*ℤ◌
    ◌-ℤ◌ terminal_selection_between ◌+ℤ◌ update_selection_controls
held_selects = (refl, refl, refl)

finger_is_found : touch_with_identifier pixels (moved_finger ∷ []) (pos 1) ≡ some moved_finger
unfolding touch_with_identifier
finger_is_found = refl

move-Within_example :
    (fixed : TerminalCellPosition) × (handle_touch_move pixels glass (moved_finger ∷ []) held
      ≡ (select_between pixels glass fixed (cell 7) (consume pixels glass held)).0)
    × Within (cell 0) (ordered_terminal_selection_endpoints fixed (cell 7))
move-Within_example =
    move-Within pixels glass false held (pos 1) (moved_finger ∷ []) moved_finger (cell 0) (cell 7)
      held-Reachable held_is_active held_selects.0 held_selects.1 finger_is_found held_selects.2

pressed_waits :
    (pressed.controller.active_touch_identifier ≡ some (pos 1))
    × (pressed.controller.is_touch_selecting ≡ false)
unfolding handle_event handle_touch_start clear_selection terminal_cell_for_touch
    cancel_long_press_timer terminal_cell_from_point div_ℤ norm_ℤ update_selection_controls
pressed_waits = (refl, refl)

move_cases_example :
    ((is_near pixels glass moved_finger pressed ≡ true)
      × (handle_touch_move pixels glass (moved_finger ∷ []) pressed ≡ pressed))
    ⊎ ((is_near pixels glass moved_finger pressed ≡ false)
        × ((handle_touch_move pixels glass (moved_finger ∷ []) pressed).terminal ≡ pressed.terminal)
        × (pending (handle_touch_move pixels glass (moved_finger ∷ []) pressed).effects ≡ []))
move_cases_example =
    move_cases pixels glass false pressed (pos 1) (moved_finger ∷ []) moved_finger pressed-Reachable
      pressed_waits.0 pressed_waits.1 finger_is_found
