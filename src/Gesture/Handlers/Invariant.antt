-- ===== src/Gesture/Handlers/Invariant.antt =====
-- The phases of a gesture, and the one timer that it may hold, through every event.
use code_roam.Prelude.{
  ℕ, ℤ, Bool, true, false, ◌==◌, List, ◌∷◌, Option, none, some, ◌≡◌, refl, ap, ◌∙◌, arith, is_none,
  any, if◌then◌else◌, sym,
}
use code_roam.Selection.Coordinates.{Coordinates}
use code_roam.Selection.Cells.{TerminalCellPosition}
use code_roam.Gesture.{
  Terminal, Session, Effect, Touch, attach, timeout_ran, on_copy, on_paste, prevent_default,
}
use code_roam.Js.Strings.{Text}
use code_roam.Gesture.Timers.{pending, remove, armed, remove-armed, armed-any}
use code_roam.Gesture.Selecting.{
  consume, select_word_at, terminal_cell_for_touch, dismiss_selection, effect,
}
use code_roam.Gesture.Selecting.Keeps.{
  held-update_controls, held-dismiss_selection, held-select_between, held-select_word_at,
}
use code_roam.Gesture.Handlers.{
  long_press_at, on_long_press, await_press, drag_to, drag, moved, move_active, handle_touch_move,
  end_active, handle_touch_end, handle_context_menu, handle_copy, handle_paste, handle_close,
  dispose, end_found, copied,
}
use code_roam.Gesture.Handlers.Events.{
  Event, touch_start, touch_move, touch_end, context_menu, copy, paste, close, detach,
  terminal_listener, terminal_output, handle_event, Step, happens, fires, Reachable, attached, step,
}
use code_roam.Gesture.Handlers.Orderly.{
  Orderly, reset_gesture-Orderly, cancel-Orderly, consume-Orderly, touch_start-Orderly,
}

module _ (k : Coordinates) (t : Terminal k) where
  drag_to-Orderly :
      (current anchor : Option TerminalCellPosition) (s : Session k t)
      → Orderly k t s
      → Orderly k t (drag_to k t current anchor s)
  unfolding drag_to
  drag_to-Orderly none anchor s o = o
  drag_to-Orderly (some current) none s o = o
  drag_to-Orderly (some current) (some anchor) s o = rw (held-select_between k t _ current s) o

  if-Orderly :
      (b : Bool) (s s' : Session k t)
      → Orderly k t s
      → Orderly k t s'
      → Orderly k t (if b then s else s')
  if-Orderly true s s' o o' = o
  if-Orderly false s s' o o' = o'

  moved-Orderly :
      (touch : Option (Touch k)) (s : Session k t) → Orderly k t s → Orderly k t (moved k t touch s)
  unfolding moved await_press drag
  moved-Orderly none s o = o
  moved-Orderly (some touch) s o =
      if-Orderly s.controller.is_touch_selecting _ _
        (drag_to-Orderly (terminal_cell_for_touch k t touch (consume k t s))
          s.controller.selection_anchor (consume k t s) (consume-Orderly k t s o))
        (if-Orderly _ _ _ (cancel-Orderly k t s o) o)

  touch_move-Orderly :
      (active : Option ℤ) (touches : List (Touch k)) (s : Session k t)
      → Orderly k t s
      → Orderly k t (move_active k t active touches s)
  unfolding move_active
  touch_move-Orderly none touches s o = o
  touch_move-Orderly (some id) touches s o = moved-Orderly _ s o

  end_found-Orderly :
      (touch : Option (Touch k)) (s : Session k t)
      → Orderly k t s
      → Orderly k t (end_found k t touch s)
  unfolding end_found
  end_found-Orderly none s o = o
  end_found-Orderly (some touch) s o =
      reset_gesture-Orderly k t _
        (if-Orderly s.controller.is_touch_selecting _ _ (consume-Orderly k t s o) o)

  end_active-Orderly :
      (active : Option ℤ) (changed : List (Touch k)) (s : Session k t)
      → Orderly k t s
      → Orderly k t (end_active k t active changed s)
  unfolding end_active
  end_active-Orderly none changed s o = o
  end_active-Orderly (some id) changed s o = end_found-Orderly _ s o

  dismiss-Orderly : (s : Session k t) → Orderly k t s → Orderly k t (dismiss_selection k t s)
  dismiss-Orderly s o = rw (held-dismiss_selection k t s) o

  -- An effect that sets, clears and runs no timer.
  effect-Orderly :
      (e : Effect) (s : Session k t)
      → ((log : List Effect) → pending (e ∷ log) ≡ pending log)
      → Orderly k t s
      → Orderly k t (effect k t e s)
  effect-Orderly e s quiet o = record {
    idle_anchor = o.idle_anchor;
    idle_selecting = o.idle_selecting;
    idle_timer = o.idle_timer;
    anchored = o.anchored;
    pressing = o.pressing;
    word_selecting = o.word_selecting;
    one_timer = quiet s.effects ∙ o.one_timer;
  }

  copied-Orderly :
      (text : Option Text) (s : Session k t) → Orderly k t s → Orderly k t (copied k t text s)
  unfolding copied
  copied-Orderly none s o = consume-Orderly k t s o
  copied-Orderly (some text) s o =
      dismiss-Orderly (effect k t (on_copy text) (consume k t s))
        (effect-Orderly (on_copy text) (consume k t s) (λ log. refl) (consume-Orderly k t s o))

  -- Every event keeps a session orderly.
  pub event-Orderly :
      (e : Event k t) (s : Session k t) → Orderly k t s → Orderly k t (handle_event k t e s)
  unfolding handle_event handle_touch_move handle_touch_end handle_context_menu handle_copy
      handle_paste handle_close dispose
  event-Orderly (touch_start touches target timer) s o =
      touch_start-Orderly k t touches target timer s o
  event-Orderly (touch_move touches) s o =
      touch_move-Orderly s.controller.active_touch_identifier touches s o
  event-Orderly (touch_end changed) s o =
      end_active-Orderly s.controller.active_touch_identifier changed s o
  event-Orderly context_menu s o =
      if-Orderly (t.has_selection s.terminal) _ _ (effect-Orderly prevent_default s (λ log. refl) o)
        o
  event-Orderly copy s o = copied-Orderly _ s o
  event-Orderly paste s o =
      let s' = dismiss_selection k t (consume k t s) in
      effect-Orderly on_paste (record s' { terminal = t.focus s'.terminal }) (λ log. refl)
        (dismiss-Orderly (consume k t s) (consume-Orderly k t s o))
  event-Orderly close s o = dismiss-Orderly (consume k t s) (consume-Orderly k t s o)
  event-Orderly detach s o = reset_gesture-Orderly k t s o
  event-Orderly (terminal_listener state) s o =
      rw (held-update_controls k t (record s { terminal = state })) o
  event-Orderly (terminal_output state) s o = o

  long_press_at-Orderly :
      (active : Option ℤ) (anchor : Option TerminalCellPosition) (s : Session k t)
      → active ≡ s.controller.active_touch_identifier
      → s.controller.long_press_timer ≡ none
      → Orderly k t s
      → Orderly k t (long_press_at k t active anchor s)
  unfolding long_press_at
  long_press_at-Orderly none anchor s same idle o = o
  long_press_at-Orderly (some id) none s same idle o = o
  long_press_at-Orderly (some id) (some anchor) s same idle o =
      let kept = held-select_word_at k t anchor s in
      let active : (select_word_at k t anchor s).0.controller.active_touch_identifier ≡ some id =
        ap (λ h. h.gesture.active) kept ∙ sym same in
      let timer : (select_word_at k t anchor s).0.controller.long_press_timer ≡ none =
        ap (λ h. h.gesture.timer) kept ∙ idle in
      record {
        idle_anchor = λ e. cc;
        idle_selecting = λ e. cc;
        idle_timer = λ e. timer;
        anchored =
            λ e. ap (λ h. is_none h.gesture.anchor) kept ∙ o.anchored (ap is_none (sym same));
        pressing = λ e. cc;
        word_selecting = λ e. ground arith;
        one_timer = ap (λ h. pending h.effects) kept ∙ o.one_timer ∙ ap armed (idle ∙ sym timer);
      }

  pub long_press-Orderly :
      (timer : ℕ) (s : Session k t)
      → any (λ x. x == timer) (pending s.effects) ≡ true
      → Orderly k t s
      → Orderly k t (on_long_press k t timer s)
  unfolding on_long_press
  long_press-Orderly timer s due o =
      let ran : s.controller.long_press_timer ≡ some timer =
        armed-any timer s.controller.long_press_timer
          (ap (any (λ x. x == timer)) (sym o.one_timer) ∙ due) in
      let s' : Session k t = record s {
        controller = record s.controller { long_press_timer = none };
        effects = timeout_ran timer ∷ s.effects;
      } in
      long_press_at-Orderly s.controller.active_touch_identifier s.controller.selection_anchor s'
        refl refl
        (record {
          idle_anchor = o.idle_anchor;
          idle_selecting = o.idle_selecting;
          idle_timer = λ e. refl;
          anchored = o.anchored;
          pressing = λ e. cc;
          word_selecting = o.word_selecting;
          one_timer = ap (remove timer) (o.one_timer ∙ ap armed ran) ∙ remove-armed timer;
        })

  attach-Orderly : (state : t.State) → Orderly k t (attach k t state)
  attach-Orderly state = record {
    idle_anchor = λ e. refl;
    idle_selecting = λ e. refl;
    idle_timer = λ e. refl;
    anchored = λ e. cc;
    pressing = λ e. refl;
    word_selecting = λ e. cc;
    one_timer = refl;
  }

  Step-Orderly : {s s' : Session k t} → Step k t s s' → Orderly k t s → Orderly k t s'
  Step-Orderly {s} (happens e) o = event-Orderly e s o
  Step-Orderly {s} (fires timer h) o = long_press-Orderly timer s h o

  -- After any events and timers since the controller was attached, its gesture is in one of its
  -- phases: without a touch it is empty; with one it has an anchor; a timer is set only before
  -- the selection begins; and the browser holds the timer of the gesture and no other.
  pub Reachable-Orderly :
      (start : t.State) (s : Session k t) → Reachable k t start s → Orderly k t s
  Reachable-Orderly start s attached = attach-Orderly start
  Reachable-Orderly start s (step {s = before} r st) =
      Step-Orderly st (Reachable-Orderly start before r)
