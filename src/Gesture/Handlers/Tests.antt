-- ===== src/Gesture/Handlers/Tests.antt =====
-- A gesture from its first touch to a drag, and the theorems on the controller at it.
mod Moves
mod Grasp
use code_roam.Prelude.{
  ℕ, zero, suc, ◌==◌, ℤ, pos, ◌≡◌, refl, Bool, true, false, if◌then◌else◌, Option, some, [], ◌∷◌,
  any,
}
use code_roam.Js.Strings.{Text, codes}
use code_roam.Selection.Pixels.{pixels, pixels-IsLinear, div_ℤ, norm_ℤ}
use code_roam.Selection.Cells.{
  TerminalCellPosition, TerminalSelectionEndpoints, ordered_terminal_selection_endpoints,
  terminal_selection_between,
}
use code_roam.Gesture.{Bounds, Terminal, Session, Touch, elsewhere, attach, new_controller}
use code_roam.Selection.Geometry.{Edge, terminal_cell_from_point, terminal_handle_point}
use code_roam.Prelude.{◌-ℤ◌, ◌+ℤ◌, ◌*ℤ◌}
use code_roam.Selection.Word.{terminal_word_selection}
use code_roam.Selection.Coordinates.{clamp}
use code_roam.Gesture.{HandleStyle, hidden_handle}
use code_roam.Gesture.Timers.{pending}
use code_roam.Gesture.Controls.{position_handle, update_selection_controls}
use code_roam.Gesture.Controls.Inside.{InHost, position_handle-InHost}
use code_roam.Gesture.Controls.Consistent.{IsConsistent, update-IsConsistent}
use code_roam.Gesture.Selecting.{
  clear_selection, consume, select_between, terminal_cell_for_touch, cancel_long_press_timer,
}
use code_roam.Gesture.Handlers.{
  handle_touch_start, handle_touch_end, handle_touch_move, touch_with_identifier, on_long_press,
}
use code_roam.Gesture.Handlers.Events.{
  touch_start, touch_move, handle_event, happens, fires, attached, step, Reachable,
}
use code_roam.Gesture.Handlers.Orderly.{Orderly}
use code_roam.Gesture.Handlers.Invariant.{Reachable-Orderly}
use code_roam.Js.{string}
use code_roam.Selection.Clipboard.{bounded_terminal_clipboard_text}
use code_roam.Gesture.Handlers.Events.{copy}
use code_roam.Gesture.Handlers.Dismissed.{
  ClearsSelection, IsDismissed, by_copy, Dismisses-IsDismissed,
}
use code_roam.Prelude.{◌⊎◌}
use code_roam.Gesture.Handlers.Resigned.{is_near, move_cases}
use code_roam.Gesture.Handlers.LongPress.{long_press-Selected}
use code_roam.Gesture.Selecting.Selects.{row_of, Selected}
use code_roam.Selection.Word.{is_word_at}
use code_roam.Gesture.Handlers.Anchors.{move-Within}
use code_roam.Gesture.Selecting.Shown.{TellsSelection}
use code_roam.Gesture.Handlers.Shown.{fresh, told, Told-IsConsistent}
use code_roam.Selection.Cells.Order.{Within}
use code_roam.Gesture.Handlers.Phases.{PhaseStep, fires_timer, idle, phase}
use code_roam.Gesture.Handlers.Phases.Refines.{Step-PhaseStep, lifted-idle}

abbrev box : ℤ → ℤ → Bounds pixels
box width height = record { left = pos 0; top = pos 0; width = width; height = height }

-- The row `ls`, and blank cells after it.
abbrev listing : ℕ → Option Text
listing zero = some (codes "l")
listing (suc zero) = some (codes "s")
listing (suc (suc n)) = some []

-- Two rows of eight cells of ten pixels; the state says whether there is a selection.
abbrev glass : Terminal pixels
glass = record {
  State = Bool;
  cols = λ s. pos 8;
  rows = λ s. pos 2;
  viewport_y = λ s. pos 0;
  has_selection = λ s. s;
  get_selection = λ s. codes "ls";
  select = λ column row length s. (true, true);
  clear_selection = λ s. (false, true);
  focus = λ s. s;
  line = λ s row. some listing;
  screen_bounds = λ s. some (box (pos 80) (pos 20));
  host_bounds = λ s. box (pos 80) (pos 60);
  toolbar_bounds = λ hidden s. if hidden then box (pos 0) (pos 0) else box (pos 30) (pos 8);
}

abbrev finger : Touch pixels
finger = record { identifier = pos 1; client_x = pos 15; client_y = pos 5 }

abbrev at_start : Session pixels glass
at_start = attach pixels glass false

abbrev pressed : Session pixels glass
pressed = handle_event pixels glass (touch_start (finger ∷ []) elsewhere 7) at_start

abbrev held : Session pixels glass
held = on_long_press pixels glass 7 pressed

abbrev dragged : Session pixels glass
dragged = handle_event pixels glass (touch_move (record finger { client_x = pos 55 } ∷ [])) held

press_is_due : any (λ x. x == 7) (pending pressed.effects) ≡ true
unfolding handle_event handle_touch_start clear_selection terminal_cell_for_touch
    cancel_long_press_timer terminal_cell_from_point div_ℤ norm_ℤ
press_is_due = refl

Reachable-Orderly_example : Orderly pixels glass dragged
Reachable-Orderly_example = Reachable-Orderly pixels glass false dragged (
    step
      (step (step attached (happens (touch_start (finger ∷ []) elsewhere 7)))
        (fires 7 press_is_due))
      (happens (touch_move (record finger { client_x = pos 55 } ∷ []))))

held-Reachable : Reachable pixels glass false held
held-Reachable =
    step (step attached (happens (touch_start (finger ∷ []) elsewhere 7))) (fires 7 press_is_due)

Step-PhaseStep_example :
    PhaseStep fires_timer (phase pixels glass pressed) (phase pixels glass held)
Step-PhaseStep_example =
    Step-PhaseStep pixels glass false pressed held
      (step attached (happens (touch_start (finger ∷ []) elsewhere 7))) (fires 7 press_is_due)

held_is_active : held.controller.active_touch_identifier ≡ some (pos 1)
unfolding handle_event handle_touch_start on_long_press clear_selection terminal_cell_for_touch
    cancel_long_press_timer terminal_cell_from_point div_ℤ norm_ℤ terminal_word_selection clamp ◌*ℤ◌
    ◌-ℤ◌ terminal_selection_between ◌+ℤ◌ update_selection_controls
held_is_active = refl

lifted_is_found : touch_with_identifier pixels (finger ∷ []) (pos 1) ≡ some finger
unfolding touch_with_identifier
lifted_is_found = refl

lifted-idle_example :
    (phase pixels glass (handle_touch_end pixels glass (finger ∷ []) held) ≡ idle)
    × (pending (handle_touch_end pixels glass (finger ∷ []) held).effects ≡ [])
lifted-idle_example =
    lifted-idle pixels glass false held (pos 1) (finger ∷ []) finger held-Reachable held_is_active
      lifted_is_found

glass-TellsSelection : TellsSelection pixels glass
glass-TellsSelection = record { cleared = λ s same. cc; focused = λ s. refl }

Told-IsConsistent_example : IsConsistent pixels glass held.terminal held.controller
Told-IsConsistent_example = Told-IsConsistent pixels glass glass-TellsSelection held (
    told (told (fresh false refl) (happens (touch_start (finger ∷ []) elsewhere 7)) tt)
      (fires 7 press_is_due) tt)

ls_is_bounded : bounded_terminal_clipboard_text (string (codes "ls")) ≡ some (codes "ls")
unfolding bounded_terminal_clipboard_text
ls_is_bounded = refl

glass-ClearsSelection : ClearsSelection pixels glass
glass-ClearsSelection = record { gone = λ s. refl; focused = λ s. refl }

Dismisses-IsDismissed_example : IsDismissed pixels glass (handle_event pixels glass copy held)
Dismisses-IsDismissed_example =
    Dismisses-IsDismissed pixels glass glass-ClearsSelection copy held
      (by_copy (codes "ls") ls_is_bounded)

pressed-Reachable : Reachable pixels glass false pressed
pressed-Reachable = step attached (happens (touch_start (finger ∷ []) elsewhere 7))

update-IsConsistent_example :
    IsConsistent pixels glass true
      (update_selection_controls pixels glass true (new_controller pixels))
update-IsConsistent_example = update-IsConsistent pixels glass true (new_controller pixels)

abbrev cell : ℕ → TerminalCellPosition
cell column = record { column = pos column; row = pos 0 }

abbrev word : TerminalSelectionEndpoints
word = record { start = cell 0; end = cell 1 }

start_is_shown :
    (position_handle pixels glass (cell 1) Edge.start true (hidden_handle pixels)).0.hidden ≡ false
unfolding position_handle terminal_handle_point div_ℤ ◌-ℤ◌
start_is_shown = refl

position_handle-InHost_example :
    (style : HandleStyle pixels) × ((position_handle pixels glass
        (cell 1)
        Edge.start
        true
        (hidden_handle pixels)).0.style
      ≡ some style)
    × InHost pixels glass pixels-IsLinear (box (pos 80) (pos 60)) style
position_handle-InHost_example =
    position_handle-InHost pixels glass pixels-IsLinear (cell 1) Edge.start true
      (hidden_handle pixels) start_is_shown
