-- ===== src/Gesture/Handlers/Phases/Touches.antt =====
-- The handlers of touches as steps of the abstract machine.
use code_roam.Prelude.{
  ℕ, ℤ, Bool, true, false, List, [], ◌∷◌, Option, none, some, sym, ap, is_none, if◌then◌else◌,
}
use mathlib.Core.Path.{subst}
use code_roam.Selection.Coordinates.{Coordinates}
use code_roam.Selection.Cells.{TerminalCellPosition, TerminalSelectionEndpoints}
use code_roam.Gesture.{Terminal, Session, Touch, Target, handle, in_toolbar, elsewhere}
use code_roam.Gesture.Selecting.{
  consume, cancel_long_press_timer, reset_gesture, terminal_cell_for_touch, clear_selection,
}
use code_roam.Gesture.Selecting.Keeps.{
  Held, held, held-select_between, held-cancel, held-reset_gesture, reset, without_timer,
}
use code_roam.Gesture.Handlers.{
  begin_handle_drag, hold_press, begin_press, press_at, press, start_touch, handle_touch_start,
  await_press, drag_to, drag, moved, move_active, handle_touch_move, end_active, handle_touch_end,
  arm_timer, end_found, touch_with_identifier, fixed_endpoint,
}
use code_roam.Gesture.Handlers.Phases.{
  phase_with, phase_of, Kind, starts, moves, ends, disposes, rests, PhaseStep, refused, pressed,
  grabbed, moved_on, gave_up, other_touch, lifted, disposed, rested, phase,
}

-- Without its timer a gesture that pressed has resigned, and any other is in the same phase.
cancel_move : (a s n : Bool) → PhaseStep moves (phase_with a s n) (phase_with a s true)
cancel_move true s n = moved_on
cancel_move false true n = moved_on
cancel_move false false true = moved_on
cancel_move false false false = gave_up

-- A step between what is held of two sessions.
unfoldable pub HeldStep : Kind → Held → Held → Type 0
HeldStep l h h' = PhaseStep l (phase_of h.gesture) (phase_of h'.gesture)

keeps-moves : (h : Held) → HeldStep moves h h
unfolding HeldStep
keeps-moves h = moved_on

keeps-ends : (h : Held) → HeldStep ends h h
unfolding HeldStep
keeps-ends h = other_touch

pub keeps-rests : (h : Held) → HeldStep rests h h
unfolding HeldStep
keeps-rests h = rested

reset-starts : (h h' : Held) → HeldStep starts h (reset h')
unfolding HeldStep
reset-starts h h' = refused

reset-ends : (h h' : Held) → HeldStep ends h (reset h')
unfolding HeldStep
reset-ends h h' = lifted

pub reset-disposes : (h : Held) → HeldStep disposes h (reset h)
unfolding HeldStep
reset-disposes h = disposed

without_timer-moves : (h : Held) → HeldStep moves h (without_timer h)
unfolding HeldStep
without_timer-moves h =
    cancel_move (is_none h.gesture.active) h.gesture.selecting (is_none h.gesture.timer)

module _ (k : Coordinates) (t : Terminal k) where
  abbrev pub Moves : Kind → Session k t → Session k t → Type 0
  Moves l s s' = HeldStep l (held k t s) (held k t s')

  reset_gesture-starts : (s s' : Session k t) → Moves starts s (reset_gesture k t s')
  reset_gesture-starts s s' =
      rw (held-reset_gesture k t s') (reset-starts (held k t s) (held k t s'))

  begin_press-starts :
      (touch : Touch k) (timer : ℕ) (cell : TerminalCellPosition) (s s' : Session k t)
      → Moves starts s (begin_press k t touch timer cell s')
  unfolding begin_press arm_timer HeldStep
  begin_press-starts touch timer cell s s' =
      subst (PhaseStep starts (phase k t s))
        (sym (
          ap (λ h. phase_of (record h.gesture { timer = some timer }))
            (held-cancel k t (hold_press k t touch cell s'))))
        pressed

  press_at-starts :
      (cell : Option TerminalCellPosition) (touch : Touch k) (timer : ℕ) (s s' : Session k t)
      → Moves starts s (press_at k t cell touch timer s')
  unfolding press_at
  press_at-starts none touch timer s s' = reset_gesture-starts s s'
  press_at-starts (some cell) touch timer s s' = begin_press-starts touch timer cell s s'

  start_touch-starts :
      (target : Target) (e : Option TerminalSelectionEndpoints) (touch : Touch k) (timer : ℕ)
      (s : Session k t)
      → Moves starts s (start_touch k t target e touch timer s)
  unfolding start_touch press begin_handle_drag HeldStep
  start_touch-starts (handle edge) (some e) touch timer s = grabbed
  start_touch-starts (handle edge) none touch timer s =
      press_at-starts (terminal_cell_for_touch k t touch (clear_selection k t s)) touch timer s
        (clear_selection k t s)
  start_touch-starts in_toolbar e touch timer s = reset_gesture-starts s s
  start_touch-starts elsewhere e touch timer s =
      press_at-starts (terminal_cell_for_touch k t touch (clear_selection k t s)) touch timer s
        (clear_selection k t s)

  pub touch_start-starts :
      (touches : List (Touch k)) (target : Target) (timer : ℕ) (s : Session k t)
      → Moves starts s (handle_touch_start k t touches target timer s)
  unfolding handle_touch_start
  touch_start-starts [] target timer s = reset_gesture-starts s s
  touch_start-starts (touch ∷ []) target timer s =
      start_touch-starts target s.controller.current_selection touch timer s
  touch_start-starts (touch ∷ second ∷ rest) target timer s = reset_gesture-starts s s

  drag_to-moves :
      (current anchor : Option TerminalCellPosition) (s : Session k t)
      → Moves moves s (drag_to k t current anchor s)
  unfolding drag_to
  drag_to-moves none anchor s = keeps-moves (held k t s)
  drag_to-moves (some current) none s = keeps-moves (held k t s)
  drag_to-moves (some current) (some anchor) s =
      rw
        (held-select_between k t (fixed_endpoint s.controller.long_press_selection anchor current)
          current s)
        (keeps-moves (held k t s))

  cancel-moves : (s : Session k t) → Moves moves s (cancel_long_press_timer k t s)
  cancel-moves s = rw (held-cancel k t s) (without_timer-moves (held k t s))

  if-moves :
      (b : Bool) (s s' s'' : Session k t)
      → Moves moves s s'
      → Moves moves s s''
      → Moves moves s (if b then s' else s'')
  if-moves true s s' s'' m m' = m
  if-moves false s s' s'' m m' = m'

  dragged-moves : (touch : Touch k) (s : Session k t) → Moves moves s (drag k t touch s)
  unfolding drag HeldStep
  dragged-moves touch s =
      drag_to-moves (terminal_cell_for_touch k t touch (consume k t s))
        s.controller.selection_anchor (consume k t s)

  moved-moves : (touch : Option (Touch k)) (s : Session k t) → Moves moves s (moved k t touch s)
  unfolding moved await_press
  moved-moves none s = keeps-moves (held k t s)
  moved-moves (some touch) s =
      if-moves s.controller.is_touch_selecting s _ _ (dragged-moves touch s)
        (if-moves _ s _ _ (cancel-moves s) (keeps-moves (held k t s)))

  move_active-moves :
      (active : Option ℤ) (touches : List (Touch k)) (s : Session k t)
      → Moves moves s (move_active k t active touches s)
  unfolding move_active
  move_active-moves none touches s = keeps-moves (held k t s)
  move_active-moves (some id) touches s = moved-moves (touch_with_identifier k touches id) s

  end_found-ends :
      (touch : Option (Touch k)) (s : Session k t) → Moves ends s (end_found k t touch s)
  unfolding end_found
  end_found-ends none s = keeps-ends (held k t s)
  end_found-ends (some touch) s =
      rw (held-reset_gesture k t (if s.controller.is_touch_selecting then consume k t s else s)) (
        reset-ends (held k t s)
          (held k t (if s.controller.is_touch_selecting then consume k t s else s)))

  end_active-ends :
      (active : Option ℤ) (changed : List (Touch k)) (s : Session k t)
      → Moves ends s (end_active k t active changed s)
  unfolding end_active
  end_active-ends none changed s = keeps-ends (held k t s)
  end_active-ends (some id) changed s = end_found-ends (touch_with_identifier k changed id) s

  pub touch_move-moves :
      (touches : List (Touch k)) (s : Session k t) → Moves moves s (handle_touch_move k t touches s)
  unfolding handle_touch_move
  touch_move-moves touches s = move_active-moves s.controller.active_touch_identifier touches s

  pub touch_end-ends :
      (changed : List (Touch k)) (s : Session k t) → Moves ends s (handle_touch_end k t changed s)
  unfolding handle_touch_end
  touch_end-ends changed s = end_active-ends s.controller.active_touch_identifier changed s
