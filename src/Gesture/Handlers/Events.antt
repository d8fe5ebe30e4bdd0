-- ===== src/Gesture/Handlers/Events.antt =====
-- The events that reach the controller once its listeners are attached, in any order, and the
-- timers that the browser holds for it.
use code_roam.Prelude.{ℕ, true, ◌==◌, List, ◌≡◌, any}
use code_roam.Selection.Coordinates.{Coordinates}
use code_roam.Gesture.{Terminal, Session, Touch, Target, attach}
use code_roam.Gesture.Timers.{pending}
use code_roam.Gesture.Selecting.{update_controls}
use code_roam.Gesture.Handlers.{
  handle_touch_start, handle_touch_move, handle_touch_end, handle_context_menu, handle_copy,
  handle_paste, handle_close, on_long_press, dispose,
}

module _ (k : Coordinates) (t : Terminal k) where
  -- `terminal_listener` is a selection change, a scroll or a resize of the terminal, which may
  -- have changed; `terminal_output` is a change that calls no listener. `detach` is `dispose()`.
  pub data Event : Type 0 where
    touch_start : List (Touch k) → Target → ℕ → Event
    touch_move touch_end : List (Touch k) → Event
    context_menu copy paste close detach : Event
    terminal_listener terminal_output : t.State → Event

  unfoldable pub handle_event : Event → Session k t → Session k t
  handle_event (touch_start touches target timer) s = handle_touch_start k t touches target timer s
  handle_event (touch_move touches) s = handle_touch_move k t touches s
  handle_event (touch_end changed) s = handle_touch_end k t changed s
  handle_event context_menu s = handle_context_menu k t s
  handle_event copy s = handle_copy k t s
  handle_event paste s = handle_paste k t s
  handle_event close s = handle_close k t s
  handle_event detach s = dispose k t s
  handle_event (terminal_listener state) s = update_controls k t (record s { terminal = state })
  handle_event (terminal_output state) s = record s { terminal = state }

  -- A step is an event, or a pending timer that runs.
  pub data Step (s : Session k t) : Session k t → Type 0 where
    happens : (e : Event) → Step s (handle_event e s)
    fires :
        (timer : ℕ)
        → any (λ x. x == timer) (pending s.effects) ≡ true
        → Step s (on_long_press k t timer s)

  pub data Reachable (start : t.State) : Session k t → Type 0 where
    attached : Reachable start (attach k t start)
    step : {s s' : Session k t} → Reachable start s → Step s s' → Reachable start s'
