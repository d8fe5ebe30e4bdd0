-- ===== src/Gesture/Handlers/Anchors.antt =====
-- The pressed cell of a gesture: the word of the long press holds it, and so does every selection
-- that a move makes.
use code_roam.Prelude.{ℤ, List, true, some, ◌≡◌, ap, ◌∙◌, if◌then◌else◌}
use code_roam.Selection.Coordinates.{Coordinates}
use code_roam.Selection.Cells.{TerminalCellPosition, ordered_terminal_selection_endpoints}
use code_roam.Selection.Cells.Order.{Within}
use code_roam.Gesture.{Terminal, Session, Touch}
use code_roam.Gesture.Selecting.{consume, select_between, terminal_cell_for_touch}
use code_roam.Gesture.Selecting.Keeps.{Held}
use code_roam.Gesture.Handlers.{
  touch_with_identifier, fixed_endpoint, move_active, await_press, moved, drag, drag_to,
  handle_touch_move,
}
use code_roam.Gesture.Handlers.Events.{Reachable}
use code_roam.Gesture.Handlers.Preserved.{HoldsAnchor, IsClosed}
use code_roam.Gesture.Handlers.Drag.{drag-Within}
use code_roam.Gesture.Handlers.Preserved.Steps.{Reachable-closed}

abbrev Anchored : Held → Type 0
Anchored h = HoldsAnchor h.gesture.word h.gesture.anchor

Anchored-IsClosed : IsClosed Anchored
Anchored-IsClosed = record {
  without_timer = λ h a. a;
  reset = λ h a cell at. tt;
  logged = λ h e q a. a;
  copied = λ h text c a. a;
  pressed = λ h id cell a cell' at. tt;
  armed = λ h timer a. a;
  grabbed = λ h id cell a cell' at. tt;
  ran = λ h timer a. a;
  chosen = λ h word fits a. fits;
}

module _ (k : Coordinates) (t : Terminal k) where
  -- In every session that the controller reaches, when the finger that selects moves to a cell of
  -- the screen, the move selects between that cell and another, and the cell where the gesture is
  -- anchored lies within the two ends.
  pub move-Within :
      (start : t.State) (s : Session k t) (id : ℤ) (touches : List (Touch k)) (touch : Touch k)
      (anchor current : TerminalCellPosition)
      → Reachable k t start s
      → s.controller.active_touch_identifier ≡ some id
      → s.controller.is_touch_selecting ≡ true
      → s.controller.selection_anchor ≡ some anchor
      → touch_with_identifier k touches id ≡ some touch
      → terminal_cell_for_touch k t touch (consume k t s) ≡ some current
      → (fixed : TerminalCellPosition) × (handle_touch_move k t touches s
          ≡ (select_between k t fixed current (consume k t s)).0)
        × Within anchor (ordered_terminal_selection_endpoints fixed current)
  unfolding handle_touch_move move_active moved drag drag_to
  move-Within start s id touches touch anchor current r active selecting at found here =
      let word = s.controller.long_press_selection in
      (
        fixed_endpoint word anchor current,
        ap (λ a. move_active k t a touches s) active
            ∙ ap (λ o. moved k t o s) found
            ∙ ap (λ b. if b then drag k t touch s else await_press k t touch s) selecting
            ∙ ap (λ o. drag_to k t o s.controller.selection_anchor (consume k t s)) here
            ∙ ap (λ o. drag_to k t (some current) o (consume k t s)) at,
        drag-Within word anchor current
            (Reachable-closed k t Anchored Anchored-IsClosed start s (λ cell at. tt) r anchor at),
      )
