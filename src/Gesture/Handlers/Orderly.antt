-- ===== src/Gesture/Handlers/Orderly.antt =====
-- The phases of a gesture, and how `handleTouchStart` keeps them.
use code_roam.Prelude.{
  ℕ, pos, true, false, List, [], ◌∷◌, Option, none, some, ◌≡◌, refl, ap, ◌∙◌, is_none,
}
use code_roam.Selection.Coordinates.{Coordinates}
use code_roam.Selection.Cells.{TerminalCellPosition, TerminalSelectionEndpoints}
use code_roam.Selection.Geometry.{Edge}
use code_roam.Gesture.{
  Terminal, Session, Effect, Touch, Target, handle, in_toolbar, elsewhere, clear_timeout,
}
use code_roam.Gesture.Timers.{pending, armed, remove-armed}
use code_roam.Gesture.Selecting.{
  consume, cancel_long_press_timer, reset_gesture, terminal_cell_for_touch, clear_selection,
}
use code_roam.Gesture.Selecting.Keeps.{
  Held, held, held-clear_selection, held-cancel, held-reset_gesture, without_timer, reset,
}
use code_roam.Gesture.Handlers.{
  begin_handle_drag, begin_press, press_at, press, start_touch, handle_touch_start, arm_timer,
}

-- Between events: a gesture without a touch is empty; one with a touch has its anchor; the timer
-- runs only before the selection, a long-press word is there only while selecting; and the
-- browser holds the timer of the gesture and no other.
pub record IsOrderly (h : Held) : Type 0 where
  pub idle_anchor : h.gesture.active ≡ none → h.gesture.anchor ≡ none
  pub idle_selecting : h.gesture.active ≡ none → h.gesture.selecting ≡ false
  pub idle_timer : h.gesture.active ≡ none → h.gesture.timer ≡ none
  pub anchored : is_none h.gesture.active ≡ false → is_none h.gesture.anchor ≡ false
  pub pressing : is_none h.gesture.timer ≡ false → h.gesture.selecting ≡ false
  pub word_selecting : is_none h.gesture.word ≡ false → h.gesture.selecting ≡ true
  pub one_timer : pending h.effects ≡ armed h.gesture.timer

without_timer-pending :
    (o : Option ℕ) (effects : List Effect)
    → pending effects ≡ armed o
    → pending (elim o [ none ↦ effects | some timer ↦ clear_timeout timer ∷ effects ]) ≡ []
without_timer-pending none effects e = e
without_timer-pending (some timer) effects e = rw e (remove-armed timer)

reset-IsOrderly : (h : Held) → IsOrderly h → IsOrderly (reset h)
reset-IsOrderly h o = record {
  idle_anchor = λ e. refl;
  idle_selecting = λ e. refl;
  idle_timer = λ e. refl;
  anchored = λ e. cc;
  pressing = λ e. refl;
  word_selecting = λ e. cc;
  one_timer = without_timer-pending h.gesture.timer h.effects o.one_timer;
}

without_timer-IsOrderly : (h : Held) → IsOrderly h → IsOrderly (without_timer h)
without_timer-IsOrderly h o = record {
  idle_anchor = o.idle_anchor;
  idle_selecting = o.idle_selecting;
  idle_timer = λ e. refl;
  anchored = o.anchored;
  pressing = λ e. cc;
  word_selecting = o.word_selecting;
  one_timer = without_timer-pending h.gesture.timer h.effects o.one_timer;
}

module _ (k : Coordinates) (t : Terminal k) where
  abbrev pub Orderly : Session k t → Type 0
  Orderly s = IsOrderly (held k t s)

  pub reset_gesture-Orderly : (s : Session k t) → Orderly s → Orderly (reset_gesture k t s)
  reset_gesture-Orderly s o = rw (held-reset_gesture k t s) (reset-IsOrderly (held k t s) o)

  pub cancel-Orderly : (s : Session k t) → Orderly s → Orderly (cancel_long_press_timer k t s)
  cancel-Orderly s o = rw (held-cancel k t s) (without_timer-IsOrderly (held k t s) o)

  pub consume-Orderly : (s : Session k t) → Orderly s → Orderly (consume k t s)
  consume-Orderly s o = record {
    idle_anchor = o.idle_anchor;
    idle_selecting = o.idle_selecting;
    idle_timer = o.idle_timer;
    anchored = o.anchored;
    pressing = o.pressing;
    word_selecting = o.word_selecting;
    one_timer = o.one_timer;
  }

  -- After a cancelled long press there is no timer, in the variable and in the browser.
  cancelled :
      (s : Session k t)
      → pending s.effects ≡ armed s.controller.long_press_timer
      → ((cancel_long_press_timer k t s).controller.long_press_timer ≡ none)
        × (pending (cancel_long_press_timer k t s).effects ≡ [])
  cancelled s o = (
    ap (λ h. h.gesture.timer) (held-cancel k t s),
    ap (λ h. pending h.effects) (held-cancel k t s)
        ∙ without_timer-pending s.controller.long_press_timer s.effects o,
  )

  begin_handle_drag-Orderly :
      (touch : Touch k) (edge : Edge) (e : TerminalSelectionEndpoints) (s : Session k t)
      → Orderly s
      → Orderly (begin_handle_drag k t touch edge e s)
  unfolding begin_handle_drag
  begin_handle_drag-Orderly touch edge e s o =
      let (no_timer, nothing) = cancelled (consume k t s) o.one_timer in
      record {
        idle_anchor = λ e. cc;
        idle_selecting = λ e. cc;
        idle_timer = λ e. cc;
        anchored = λ e. refl;
        pressing = λ e. cc no_timer;
        word_selecting = λ e. cc;
        one_timer = rw no_timer nothing;
      }

  begin_press-Orderly :
      (touch : Touch k) (timer : ℕ) (cell : TerminalCellPosition) (s : Session k t)
      → pending s.effects ≡ armed s.controller.long_press_timer
      → Orderly (begin_press k t touch timer cell s)
  unfolding begin_press arm_timer
  begin_press-Orderly touch timer cell s o =
      let pressed : Session k t = record s {
        controller = record s.controller {
          active_touch_identifier = some touch.identifier;
          start_client_x = touch.client_x;
          start_client_y = touch.client_y;
          touch_cell_y_offset = k.of_int (pos 0);
          selection_anchor = some cell;
          long_press_selection = none;
          is_touch_selecting = false;
        };
      } in
      let kept = held-cancel k t pressed in
      let active = ap (λ h. h.gesture.active) kept in
      let anchor = ap (λ h. h.gesture.anchor) kept in
      let word = ap (λ h. h.gesture.word) kept in
      let selecting = ap (λ h. h.gesture.selecting) kept in
      record {
        idle_anchor = λ e. cc;
        idle_selecting = λ e. selecting;
        idle_timer = λ e. cc;
        anchored = λ e. rw anchor;
        pressing = λ e. selecting;
        word_selecting = λ e. cc;
        one_timer = ap (λ rest. timer ∷ rest) (cancelled pressed o).1;
      }

  press_at-Orderly :
      (cell : Option TerminalCellPosition) (touch : Touch k) (timer : ℕ) (s : Session k t)
      → Orderly s
      → Orderly (press_at k t cell touch timer s)
  unfolding press_at
  press_at-Orderly none touch timer s o = reset_gesture-Orderly s o
  press_at-Orderly (some cell) touch timer s o = begin_press-Orderly touch timer cell s o.one_timer

  press-Orderly :
      (touch : Touch k) (timer : ℕ) (s : Session k t)
      → Orderly s
      → Orderly (press k t touch timer s)
  unfolding press
  press-Orderly touch timer s o =
      press_at-Orderly (terminal_cell_for_touch k t touch (clear_selection k t s)) touch timer _
        (rw (held-clear_selection k t s) o)

  start_touch-Orderly :
      (target : Target) (e : Option TerminalSelectionEndpoints) (touch : Touch k) (timer : ℕ)
      (s : Session k t)
      → Orderly s
      → Orderly (start_touch k t target e touch timer s)
  unfolding start_touch
  start_touch-Orderly (handle edge) (some e) touch timer s o =
      begin_handle_drag-Orderly touch edge e s o
  start_touch-Orderly (handle edge) none touch timer s o = press-Orderly touch timer s o
  start_touch-Orderly in_toolbar e touch timer s o = reset_gesture-Orderly s o
  start_touch-Orderly elsewhere e touch timer s o = press-Orderly touch timer s o

  pub touch_start-Orderly :
      (touches : List (Touch k)) (target : Target) (timer : ℕ) (s : Session k t)
      → Orderly s
      → Orderly (handle_touch_start k t touches target timer s)
  unfolding handle_touch_start
  touch_start-Orderly [] target timer s o = reset_gesture-Orderly s o
  touch_start-Orderly (touch ∷ []) target timer s o =
      start_touch-Orderly target s.controller.current_selection touch timer s o
  touch_start-Orderly (touch ∷ second ∷ rest) target timer s o = reset_gesture-Orderly s o
