-- ===== src/Gesture/Handlers/Preserved/Touches.antt =====
-- A closed predicate is kept by the handlers of touches.
use code_roam.Prelude.{ℕ, ℤ, Bool, true, false, List, [], ◌∷◌, Option, none, some, if◌then◌else◌}
use code_roam.Selection.Coordinates.{Coordinates}
use code_roam.Selection.Cells.{TerminalCellPosition, TerminalSelectionEndpoints}
use code_roam.Gesture.{
  Terminal, Session, Touch, Target, handle, in_toolbar, elsewhere, prevent_default,
  stop_propagation,
}
use code_roam.Gesture.Selecting.{
  consume, cancel_long_press_timer, reset_gesture, terminal_cell_for_touch, clear_selection,
  dismiss_selection,
}
use code_roam.Gesture.Selecting.Keeps.{
  Held, held, held-clear_selection, held-dismiss_selection, held-select_between, held-cancel,
  held-reset_gesture,
}
use code_roam.Gesture.Handlers.{
  begin_handle_drag, hold_press, begin_press, press_at, press, start_touch, handle_touch_start,
  await_press, drag_to, drag, moved, move_active, handle_touch_move, end_active, handle_touch_end,
  arm_timer, end_found, touch_with_identifier, fixed_endpoint, opposite_end,
}
use code_roam.Gesture.Handlers.Preserved.{prevents, stops, IsClosed}

module _ (k : Coordinates) (t : Terminal k) (P : Held → Type 0) (closed : IsClosed P) where
  abbrev pub Kept : Session k t → Type 0
  Kept s = P (held k t s)

  pub consume-Kept : (s : Session k t) → Kept s → Kept (consume k t s)
  consume-Kept s a =
      closed.logged _ stop_propagation stops (closed.logged (held k t s) prevent_default prevents a)

  pub cancel-Kept : (s : Session k t) → Kept s → Kept (cancel_long_press_timer k t s)
  cancel-Kept s a = rw (held-cancel k t s) (closed.without_timer (held k t s) a)

  pub reset-Kept : (s : Session k t) → Kept s → Kept (reset_gesture k t s)
  reset-Kept s a = rw (held-reset_gesture k t s) (closed.reset (held k t s) a)

  pub clear-Kept : (s : Session k t) → Kept s → Kept (clear_selection k t s)
  clear-Kept s a = rw (held-clear_selection k t s) a

  pub dismiss-Kept : (s : Session k t) → Kept s → Kept (dismiss_selection k t s)
  dismiss-Kept s a = rw (held-dismiss_selection k t s) a

  pub if-Kept : (b : Bool) (s s' : Session k t) → Kept s → Kept s' → Kept (if b then s else s')
  if-Kept true s s' a a' = a
  if-Kept false s s' a a' = a'

  press_at-Kept :
      (cell : Option TerminalCellPosition) (touch : Touch k) (timer : ℕ) (s : Session k t)
      → Kept s
      → Kept (press_at k t cell touch timer s)
  unfolding press_at begin_press arm_timer
  press_at-Kept none touch timer s a = reset-Kept s a
  press_at-Kept (some cell) touch timer s a =
      closed.armed (held k t (cancel_long_press_timer k t (hold_press k t touch cell s))) timer (
        cancel-Kept (hold_press k t touch cell s)
          (closed.pressed (held k t s) touch.identifier cell a))

  press-Kept :
      (touch : Touch k) (timer : ℕ) (s : Session k t) → Kept s → Kept (press k t touch timer s)
  unfolding press
  press-Kept touch timer s a =
      press_at-Kept (terminal_cell_for_touch k t touch (clear_selection k t s)) touch timer _
        (clear-Kept s a)

  start_touch-Kept :
      (target : Target) (e : Option TerminalSelectionEndpoints) (touch : Touch k) (timer : ℕ)
      (s : Session k t)
      → Kept s
      → Kept (start_touch k t target e touch timer s)
  unfolding start_touch begin_handle_drag
  start_touch-Kept (handle edge) (some e) touch timer s a =
      closed.grabbed (held k t (cancel_long_press_timer k t (consume k t s))) touch.identifier
        (opposite_end _ e) (cancel-Kept (consume k t s) (consume-Kept s a))
  start_touch-Kept (handle edge) none touch timer s a = press-Kept touch timer s a
  start_touch-Kept in_toolbar e touch timer s a = reset-Kept s a
  start_touch-Kept elsewhere e touch timer s a = press-Kept touch timer s a

  pub touch_start-Kept :
      (touches : List (Touch k)) (target : Target) (timer : ℕ) (s : Session k t)
      → Kept s
      → Kept (handle_touch_start k t touches target timer s)
  unfolding handle_touch_start
  touch_start-Kept [] target timer s a = reset-Kept s a
  touch_start-Kept (touch ∷ []) target timer s a =
      start_touch-Kept target s.controller.current_selection touch timer s a
  touch_start-Kept (touch ∷ second ∷ rest) target timer s a = reset-Kept s a

  drag_to-Kept :
      (current anchor : Option TerminalCellPosition) (s : Session k t)
      → Kept s
      → Kept (drag_to k t current anchor s)
  unfolding drag_to
  drag_to-Kept none anchor s a = a
  drag_to-Kept (some current) none s a = a
  drag_to-Kept (some current) (some anchor) s a =
      rw
        (held-select_between k t (fixed_endpoint s.controller.long_press_selection anchor current)
          current s)
        a

  moved-Kept : (touch : Option (Touch k)) (s : Session k t) → Kept s → Kept (moved k t touch s)
  unfolding moved await_press drag
  moved-Kept none s a = a
  moved-Kept (some touch) s a =
      if-Kept s.controller.is_touch_selecting _ _
        (drag_to-Kept _ _ (consume k t s) (consume-Kept s a)) (if-Kept _ _ s (cancel-Kept s a) a)

  move_active-Kept :
      (active : Option ℤ) (touches : List (Touch k)) (s : Session k t)
      → Kept s
      → Kept (move_active k t active touches s)
  unfolding move_active
  move_active-Kept none touches s a = a
  move_active-Kept (some id) touches s a = moved-Kept (touch_with_identifier k touches id) s a

  end_found-Kept :
      (touch : Option (Touch k)) (s : Session k t) → Kept s → Kept (end_found k t touch s)
  unfolding end_found
  end_found-Kept none s a = a
  end_found-Kept (some touch) s a =
      reset-Kept _ (if-Kept s.controller.is_touch_selecting _ s (consume-Kept s a) a)

  end_active-Kept :
      (active : Option ℤ) (changed : List (Touch k)) (s : Session k t)
      → Kept s
      → Kept (end_active k t active changed s)
  unfolding end_active
  end_active-Kept none changed s a = a
  end_active-Kept (some id) changed s a = end_found-Kept (touch_with_identifier k changed id) s a

  pub touch_move-Kept :
      (touches : List (Touch k)) (s : Session k t) → Kept s → Kept (handle_touch_move k t touches s)
  unfolding handle_touch_move
  touch_move-Kept touches s a = move_active-Kept s.controller.active_touch_identifier touches s a

  pub touch_end-Kept :
      (changed : List (Touch k)) (s : Session k t) → Kept s → Kept (handle_touch_end k t changed s)
  unfolding handle_touch_end
  touch_end-Kept changed s a = end_active-Kept s.controller.active_touch_identifier changed s a
