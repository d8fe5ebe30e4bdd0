-- ===== src/Gesture/Selecting/Touched.antt =====
-- The cell under a touch is read of the terminal and the gesture's offset alone, and a cancelled
-- timer leaves the rest of the controller as it was.
use code_roam.Prelude.{ℕ, Option, none, some, ◌≡◌, refl, ap}
use code_roam.Selection.Coordinates.{Coordinates}
use code_roam.Selection.Geometry.{TerminalPointMapping, terminal_cell_from_point}
use code_roam.Gesture.{Bounds, Terminal, Controller, Session, Touch}
use code_roam.Gesture.Selecting.{
  cell_on, terminal_cell_for_touch, cancel_timer, cancel_long_press_timer,
}

module _ (k : Coordinates) (t : Terminal k) where
  abbrev pub point_on : Bounds k → k.Coordinate → k.Coordinate → t.State → TerminalPointMapping k
  point_on bounds x y state = record {
    client_x = some x;
    client_y = some y;
    screen_left = bounds.left;
    screen_top = bounds.top;
    screen_width = bounds.width;
    screen_height = bounds.height;
    columns = t.cols state;
    rows = t.rows state;
    viewport_y = t.viewport_y state;
  }

  pub touch-cell :
      (touch : Touch k) (s : Session k t) (bounds : Bounds k)
      → t.screen_bounds s.terminal ≡ some bounds
      → terminal_cell_for_touch k t touch s
        ≡ terminal_cell_from_point k (
            point_on bounds touch.client_x
              (k.plus touch.client_y s.controller.touch_cell_y_offset)
              s.terminal)
  unfolding terminal_cell_for_touch cell_on
  touch-cell touch s bounds h = ap (λ o. cell_on k t o touch s) h

  abbrev pub untimed : Controller k → Controller k
  untimed c = record c { long_press_timer = none }

  cancel_timer-untimed :
      (o : Option ℕ) (s : Session k t)
      → untimed (cancel_timer k t o s).controller ≡ untimed s.controller
  unfolding cancel_timer
  cancel_timer-untimed none s = refl
  cancel_timer-untimed (some timer) s = refl

  pub cancel-untimed :
      (s : Session k t) → untimed (cancel_long_press_timer k t s).controller ≡ untimed s.controller
  unfolding cancel_long_press_timer
  cancel-untimed s = cancel_timer-untimed s.controller.long_press_timer s
