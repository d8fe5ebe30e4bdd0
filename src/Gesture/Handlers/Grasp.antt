-- ===== src/Gesture/Handlers/Grasp.antt =====
-- A finger that comes down on a handle of the selection and moves (`handleTouchStart`,
-- `handleTouchMove`).
use code_roam.Prelude.{
  ℕ, pos, ◌≤ℤ◌, true, none, some, [], ◌∷◌, ◌≡◌, refl, sym, ap, ap₂, ◌∙◌, if◌then◌else◌, arith,
}
use mathlib.Core.Path.{subst}
use code_roam.Selection.Coordinates.{Coordinates, IsExact}
use code_roam.Selection.Cells.{TerminalCellPosition, TerminalSelectionEndpoints}
use code_roam.Selection.Geometry.{
  Edge, TerminalHandlePointMapping, TerminalHandlePoint, terminal_cell_from_point,
  terminal_handle_point,
}
use code_roam.Selection.Geometry.Under.Handles.{grasped, grasp-cell}
use code_roam.Gesture.{Bounds, Terminal, Session, Touch, handle}
use code_roam.Gesture.Selecting.{consume, select_between, terminal_cell_for_touch}
use code_roam.Gesture.Selecting.Selects.{cancel-terminal}
use code_roam.Gesture.Selecting.Touched.{point_on, touch-cell, cancel-untimed}
use code_roam.Gesture.Handlers.{
  touch_with_identifier, nearest_selection_edge, opposite_end, fixed_endpoint, cell_offset,
  begin_handle_drag, start_touch, move_active, await_press, moved, drag, drag_to,
  handle_touch_start, handle_touch_move,
}

-- The end of the selection that a handle stands at.
abbrev end_at : Edge → TerminalSelectionEndpoints → TerminalCellPosition
end_at Edge.start e = e.start
end_at Edge.end e = e.end

module _ (k : Coordinates) (t : Terminal k) where
  -- The handle at an end of the selection, on the screen of a terminal.
  abbrev pub handle_at :
      Edge → TerminalSelectionEndpoints → Bounds k → t.State → TerminalHandlePointMapping k
  handle_at edge e bounds state = record {
    position = end_at edge e;
    edge = edge;
    screen_left = bounds.left;
    screen_top = bounds.top;
    screen_width = bounds.width;
    screen_height = bounds.height;
    columns = t.cols state;
    rows = t.rows state;
    viewport_y = t.viewport_y state;
  }

  abbrev pub point_of_touch : Touch k → TerminalHandlePoint k
  point_of_touch touch = record { client_x = touch.client_x; client_y = touch.client_y }

  -- The finger that came down on a handle drags the end `edge`.
  record Grabs (touch : Touch k) (edge : Edge) (e : TerminalSelectionEndpoints) (s s' : Session k t)
      : Type 0 where
    pub active : s'.controller.active_touch_identifier ≡ some touch.identifier
    pub anchor : s'.controller.selection_anchor ≡ some (opposite_end edge e)
    pub no_word : s'.controller.long_press_selection ≡ none
    pub selecting : s'.controller.is_touch_selecting ≡ true
    pub same : s'.terminal ≡ s.terminal
    pub offset :
        s'.controller.touch_cell_y_offset ≡ cell_offset k t (t.screen_bounds s.terminal) s.terminal

  abbrev pub dragged_edge : Touch k → Edge → Session k t → Edge
  dragged_edge touch target s =
      nearest_selection_edge k touch s.controller.start_handle_point s.controller.end_handle_point
        target

  begin_handle_drag-Grabs :
      (touch : Touch k) (target : Edge) (e : TerminalSelectionEndpoints) (s : Session k t)
      → Grabs touch (dragged_edge touch target s) e s (begin_handle_drag k t touch target e s)
  unfolding begin_handle_drag
  begin_handle_drag-Grabs touch target e s =
      let quiet = consume k t s in
      let points = cancel-untimed k t quiet in
      let same = cancel-terminal k t quiet in
      record {
        active = refl;
        anchor =
            ap
              (λ c. some (
                opposite_end
                  (nearest_selection_edge k touch c.start_handle_point c.end_handle_point target)
                  e))
              points;
        no_word = refl;
        selecting = refl;
        same = same;
        offset = ap (λ state. cell_offset k t (t.screen_bounds state) state) same;
      }

  start-Grabs :
      (touch : Touch k) (target : Edge) (e : TerminalSelectionEndpoints) (timer : ℕ)
      (s : Session k t)
      → s.controller.current_selection ≡ some e
      → Grabs touch
          (dragged_edge touch target s)
          e
          s
          (handle_touch_start k t (touch ∷ []) (handle target) timer s)
  unfolding handle_touch_start start_touch
  start-Grabs touch target e timer s h =
      subst
        (λ o.
          Grabs touch (dragged_edge touch target s) e s
            (start_touch k t (handle target) o touch timer s))
        (sym h) (begin_handle_drag-Grabs touch target e s)

  own_touch : (touch : Touch k) → touch_with_identifier k (touch ∷ []) touch.identifier ≡ some touch
  unfolding touch_with_identifier
  own_touch touch = ground arith

  -- The first move of such a finger selects between the other end and the cell under the finger.
  move-grabbed :
      (touch : Touch k) (edge : Edge) (e : TerminalSelectionEndpoints) (s s' : Session k t)
      (cell : TerminalCellPosition)
      → Grabs touch edge e s s'
      → terminal_cell_for_touch k t touch (consume k t s') ≡ some cell
      → handle_touch_move k t (touch ∷ []) s'
        ≡ (select_between k t (opposite_end edge e) cell (consume k t s')).0
  unfolding handle_touch_move move_active moved drag drag_to fixed_endpoint
  move-grabbed touch edge e s s' cell g here =
      ap (λ a. move_active k t a (touch ∷ []) s') g.active
      ∙ ap (λ o. moved k t o s') (own_touch touch)
      ∙ ap (λ b. if b then drag k t touch s' else await_press k t touch s') g.selecting
      ∙ ap (λ o. drag_to k t o s'.controller.selection_anchor (consume k t s')) here
      ∙ ap (λ o. drag_to k t (some cell) o (consume k t s')) g.anchor
      ∙ ap
          (λ w.
            (select_between k t (fixed_endpoint w (opposite_end edge e) cell) cell
              (consume k t s')).0)
          g.no_word

  grabbed-cell :
      IsExact k
      → (touch : Touch k) (edge : Edge) (e : TerminalSelectionEndpoints) (s s' : Session k t)
        (bounds : Bounds k)
      → Grabs touch edge e s s'
      → t.screen_bounds s.terminal ≡ some bounds
      → terminal_handle_point k (handle_at edge e bounds s.terminal) ≡ some (point_of_touch touch)
      → pos 0 ≤ℤ t.viewport_y s.terminal
      → terminal_cell_for_touch k t touch (consume k t s')
        ≡ some (grasped k (handle_at edge e bounds s.terminal))
  unfolding cell_offset
  grabbed-cell exact touch edge e s s' bounds g screen at h =
      let offset = g.offset ∙ ap (λ o. cell_offset k t o s.terminal) screen in
      touch-cell k t touch (consume k t s') bounds (ap t.screen_bounds g.same ∙ screen)
      ∙ ap₂
          (λ state o.
            terminal_cell_from_point k
              (point_on k t bounds touch.client_x (k.plus touch.client_y o) state))
          g.same offset
      ∙ grasp-cell k exact (handle_at edge e bounds s.terminal) (point_of_touch touch) at h

  -- With exact arithmetic, a finger that comes down exactly at the handle of the end it drags, and
  -- then moves without leaving its place, selects between the other end and the cell of the handle:
  -- the end itself for the start handle; for the end handle the next cell of the row, if the row
  -- has one.
  pub grab-selects :
      IsExact k
      → (touch : Touch k) (target edge : Edge) (e : TerminalSelectionEndpoints) (bounds : Bounds k)
        (timer : ℕ) (s : Session k t)
      → s.controller.current_selection ≡ some e
      → dragged_edge touch target s ≡ edge
      → t.screen_bounds s.terminal ≡ some bounds
      → terminal_handle_point k (handle_at edge e bounds s.terminal) ≡ some (point_of_touch touch)
      → pos 0 ≤ℤ t.viewport_y s.terminal
      → handle_touch_move k t
          (touch ∷ [])
          (handle_touch_start k t (touch ∷ []) (handle target) timer s)
        ≡ (select_between k t
            (opposite_end edge e)
            (grasped k (handle_at edge e bounds s.terminal))
            (consume k t (handle_touch_start k t (touch ∷ []) (handle target) timer s))).0
  grab-selects exact touch target edge e bounds timer s selected drags screen at h =
      let s' = handle_touch_start k t (touch ∷ []) (handle target) timer s in
      let g =
        subst (λ d. Grabs touch d e s s') drags (start-Grabs touch target e timer s selected) in
      move-grabbed touch edge e s s' (grasped k (handle_at edge e bounds s.terminal)) g
        (grabbed-cell exact touch edge e s s' bounds g screen at h)
