-- ===== src/Gesture/Handlers/Tests/Grasp.antt =====
-- A finger on the end handle of a selection, on a screen whose lengths are fractions.
use code_roam.Prelude.{ℤ, pos, ◌+ℤ◌, ◌-ℤ◌, ◌≡◌, refl, Bool, true, false, some, none, [], ◌∷◌, arith}
use code_roam.Js.Strings.{codes}
use code_roam.Selection.Fractions.{whole, sum, product, quotient, le_fraction, fractions}
use code_roam.Selection.Fractions.Laws.{fractions-IsExact}
use code_roam.Selection.Cells.{TerminalSelectionEndpoints}
use code_roam.Selection.Geometry.{Edge, terminal_handle_point}
use code_roam.Selection.Geometry.Under.Handles.{grasped}
use code_roam.Gesture.{Bounds, Terminal, Session, Touch, handle, attach}
use code_roam.Gesture.Selecting.{consume, select_between}
use code_roam.Gesture.Handlers.{handle_touch_start, handle_touch_move, nearest_selection_edge}
use code_roam.Gesture.Handlers.Grasp.{handle_at, point_of_touch, dragged_edge, grab-selects}

abbrev box : ℤ → ℤ → Bounds fractions
box width height = record {
  left = whole (pos 0);
  top = whole (pos 0);
  width = whole width;
  height = whole height;
}

-- Three rows of eight cells of ten by eight.
abbrev pane : Terminal fractions
pane = record {
  State = Bool;
  cols = λ s. pos 8;
  rows = λ s. pos 3;
  viewport_y = λ s. pos 5;
  has_selection = λ s. s;
  get_selection = λ s. codes "ls";
  select = λ column row length s. (true, true);
  clear_selection = λ s. (false, true);
  focus = λ s. s;
  line = λ s row. none;
  screen_bounds = λ s. some (box (pos 80) (pos 24));
  host_bounds = λ s. box (pos 80) (pos 60);
  toolbar_bounds = λ hidden s. box (pos 30) (pos 8);
}

abbrev chosen : TerminalSelectionEndpoints
chosen = record {
  start = record { column = pos 1; row = pos 6 };
  end = record { column = pos 2; row = pos 6 };
}

-- The point after the first `i` of `count` parts.
abbrev along : ℤ → ℤ → ℤ → fractions.Coordinate
along i count size = sum (whole (pos 0)) (product (quotient (whole i) (whole count)) (whole size))

abbrev fingertip : Touch fractions
fingertip = record {
  identifier = pos 4;
  client_x = along (pos 3) (pos 8) (pos 80);
  client_y = along (pos 2) (pos 3) (pos 24);
}

abbrev selected : Session fractions pane
selected =
    let s = attach fractions pane true in
    record s {
      controller = record s.controller {
        current_selection = some chosen;
        start_handle_point = some (record {
          client_x = along (pos 1) (pos 8) (pos 80);
          client_y = along (pos 2) (pos 3) (pos 24);
        });
        end_handle_point = some (point_of_touch fractions pane fingertip);
      };
    }

drags_end : dragged_edge fractions pane fingertip Edge.start selected ≡ Edge.end
unfolding nearest_selection_edge le_fraction sum product quotient
drags_end = refl

at_end :
    terminal_handle_point fractions
      (handle_at fractions pane Edge.end chosen (box (pos 80) (pos 24)) true)
    ≡ some (point_of_touch fractions pane fingertip)
unfolding terminal_handle_point le_fraction ◌-ℤ◌ ◌+ℤ◌
at_end = refl

grab-selects_example :
    handle_touch_move fractions pane
      (fingertip ∷ [])
      (handle_touch_start fractions pane (fingertip ∷ []) (handle Edge.start) 7 selected)
    ≡ (select_between fractions pane
        (record { column = pos 1; row = pos 6 })
        (grasped fractions (handle_at fractions pane Edge.end chosen (box (pos 80) (pos 24)) true))
        (consume fractions pane
          (handle_touch_start fractions pane (fingertip ∷ []) (handle Edge.start) 7 selected))).0
grab-selects_example =
    grab-selects fractions pane fractions-IsExact fingertip Edge.start Edge.end chosen
      (box (pos 80) (pos 24)) 7 selected refl drags_end refl at_end (omega arith)
