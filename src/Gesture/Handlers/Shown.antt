-- ===== src/Gesture/Handlers/Shown.antt =====
-- The controls agree with the terminal after every step, when the terminal tells its listeners.
use code_roam.Prelude.{
  ℕ, ℤ, false, not, List, [], ◌∷◌, Option, none, some, is_none, ◌≡◌, refl, sym, ap, if◌then◌else◌,
}
use code_roam.Js.{string}
use code_roam.Js.Strings.{Text}
use code_roam.Selection.Clipboard.{bounded_terminal_clipboard_text}
use code_roam.Selection.Coordinates.{Coordinates}
use code_roam.Selection.Cells.{TerminalCellPosition, TerminalSelectionEndpoints}
use code_roam.Gesture.{
  Terminal, Session, Touch, Target, handle, in_toolbar, elsewhere, attach, on_copy, prevent_default,
  timeout_ran,
}
use code_roam.Gesture.Controls.Consistent.{IsConsistent}
use code_roam.Gesture.Selecting.Shown.{
  Shown, TellsSelection, calm-Shown, update-Shown, dismiss-Shown, consume-Shown, cancel-seen,
  cancel-Shown, reset-Shown, if-Shown, select_between-Shown, select_word_at-Shown, clear-Shown,
  focus-Shown, replaced-Shown,
}
use code_roam.Gesture.Selecting.{
  consume, effect, clear_selection, dismiss_selection, cancel_long_press_timer, select_word_at,
  terminal_cell_for_touch,
}
use code_roam.Gesture.Handlers.{
  begin_handle_drag, hold_press, begin_press, arm_timer, press_at, press, start_touch,
  handle_touch_start, long_press_at, on_long_press, await_press, drag_to, drag, moved, move_active,
  handle_touch_move, end_found, end_active, handle_touch_end, handle_context_menu, copied,
  handle_copy, handle_paste, handle_close, dispose, touch_with_identifier, fixed_endpoint,
}
use code_roam.Gesture.Handlers.Events.{
  touch_start, touch_move, touch_end, context_menu, copy, paste, close, detach, terminal_listener,
  terminal_output, handle_event, Step, happens, fires,
}

module _ (k : Coordinates) (t : Terminal k) where
  -- A change that calls no listener makes or removes no selection.
  abbrev pub IsTold : {s s' : Session k t} → Step k t s s' → Type 0
  IsTold {s} (happens (terminal_output state)) = t.has_selection state ≡ t.has_selection s.terminal
  IsTold _ = Unit {0}

  -- The sessions from a terminal without a selection.
  pub data Told : Session k t → Type 0 where
    fresh : (start : t.State) → t.has_selection start ≡ false → Told (attach k t start)
    told : {s s' : Session k t} → Told s → (st : Step k t s s') → IsTold st → Told s'

  press_at-Shown :
      (cell : Option TerminalCellPosition) (touch : Touch k) (timer : ℕ) (s : Session k t)
      → Shown k t s
      → Shown k t (press_at k t cell touch timer s)
  unfolding press_at begin_press arm_timer
  press_at-Shown none touch timer s a = reset-Shown k t s a
  press_at-Shown (some cell) touch timer s a =
      let before : Session k t = hold_press k t touch cell s in
      calm-Shown k t before (arm_timer k t timer (cancel_long_press_timer k t before))
        (cancel-seen k t before) (calm-Shown k t s before refl a)

  copied-Shown :
      (text : Option Text) (s : Session k t) → Shown k t s → Shown k t (copied k t text s)
  unfolding copied
  copied-Shown none s a = consume-Shown k t s a
  copied-Shown (some text) s a = dismiss-Shown k t (effect k t (on_copy text) (consume k t s))

  end_found-Shown :
      (touch : Option (Touch k)) (s : Session k t) → Shown k t s → Shown k t (end_found k t touch s)
  unfolding end_found
  end_found-Shown none s a = a
  end_found-Shown (some touch) s a =
      reset-Shown k t (if s.controller.is_touch_selecting then consume k t s else s)
        (if-Shown k t s.controller.is_touch_selecting _ s (consume-Shown k t s a) a)

  end_active-Shown :
      (active : Option ℤ) (changed : List (Touch k)) (s : Session k t)
      → Shown k t s
      → Shown k t (end_active k t active changed s)
  unfolding end_active
  end_active-Shown none changed s a = a
  end_active-Shown (some id) changed s a = end_found-Shown (touch_with_identifier k changed id) s a

  drag_to-Shown :
      (current anchor : Option TerminalCellPosition) (s : Session k t)
      → Shown k t s
      → Shown k t (drag_to k t current anchor s)
  unfolding drag_to
  drag_to-Shown none anchor s a = a
  drag_to-Shown (some current) none s a = a
  drag_to-Shown (some current) (some anchor) s a =
      select_between-Shown k t (fixed_endpoint s.controller.long_press_selection anchor current)
        current s a

  moved-Shown :
      (touch : Option (Touch k)) (s : Session k t) → Shown k t s → Shown k t (moved k t touch s)
  unfolding moved await_press drag
  moved-Shown none s a = a
  moved-Shown (some touch) s a =
      if-Shown k t s.controller.is_touch_selecting _ _
        (drag_to-Shown (terminal_cell_for_touch k t touch (consume k t s))
          s.controller.selection_anchor (consume k t s) (consume-Shown k t s a))
        (if-Shown k t _ _ s (cancel-Shown k t s a) a)

  move_active-Shown :
      (active : Option ℤ) (touches : List (Touch k)) (s : Session k t)
      → Shown k t s
      → Shown k t (move_active k t active touches s)
  unfolding move_active
  move_active-Shown none touches s a = a
  move_active-Shown (some id) touches s a = moved-Shown (touch_with_identifier k touches id) s a

  long_press_at-Shown :
      (active : Option ℤ) (anchor : Option TerminalCellPosition) (s : Session k t)
      → Shown k t s
      → Shown k t (long_press_at k t active anchor s)
  unfolding long_press_at
  long_press_at-Shown none anchor s a = a
  long_press_at-Shown (some id) none s a = a
  long_press_at-Shown (some id) (some anchor) s a =
      let found = select_word_at k t anchor s in
      calm-Shown k t found.0
        (record found.0 {
          controller = record found.0.controller {
            long_press_selection = found.1;
            is_touch_selecting = not (is_none found.1);
          };
        })
        refl (select_word_at-Shown k t anchor s a)

  module _ (law : TellsSelection k t) where
    press-Shown :
        (touch : Touch k) (timer : ℕ) (s : Session k t)
        → Shown k t s
        → Shown k t (press k t touch timer s)
    unfolding press
    press-Shown touch timer s a =
        press_at-Shown (terminal_cell_for_touch k t touch (clear_selection k t s)) touch timer
          (clear_selection k t s) (clear-Shown k t law s a)

    start_touch-Shown :
        (target : Target) (e : Option TerminalSelectionEndpoints) (touch : Touch k) (timer : ℕ)
        (s : Session k t)
        → Shown k t s
        → Shown k t (start_touch k t target e touch timer s)
    unfolding start_touch begin_handle_drag
    start_touch-Shown (handle edge) (some e) touch timer s a =
        let s' = cancel_long_press_timer k t (consume k t s) in
        calm-Shown k t s' (begin_handle_drag k t touch edge e s) refl
          (cancel-Shown k t (consume k t s) (consume-Shown k t s a))
    start_touch-Shown (handle edge) none touch timer s a = press-Shown touch timer s a
    start_touch-Shown in_toolbar e touch timer s a = reset-Shown k t s a
    start_touch-Shown elsewhere e touch timer s a = press-Shown touch timer s a

    touch_start-Shown :
        (touches : List (Touch k)) (target : Target) (timer : ℕ) (s : Session k t)
        → Shown k t s
        → Shown k t (handle_touch_start k t touches target timer s)
    unfolding handle_touch_start
    touch_start-Shown [] target timer s a = reset-Shown k t s a
    touch_start-Shown (touch ∷ []) target timer s a =
        start_touch-Shown target s.controller.current_selection touch timer s a
    touch_start-Shown (touch ∷ second ∷ rest) target timer s a = reset-Shown k t s a

    paste-Shown : (s : Session k t) → Shown k t (handle_paste k t s)
    unfolding handle_paste
    paste-Shown s =
        let s' = dismiss_selection k t (consume k t s) in
        calm-Shown k t (record s' { terminal = t.focus s'.terminal }) (handle_paste k t s) refl
          (focus-Shown k t law s' (dismiss-Shown k t (consume k t s)))

    context_menu-Shown : (s : Session k t) → Shown k t s → Shown k t (handle_context_menu k t s)
    unfolding handle_context_menu
    context_menu-Shown s a =
        if-Shown k t (t.has_selection s.terminal) (effect k t prevent_default s) s
          (calm-Shown k t s (effect k t prevent_default s) refl a) a

    Step-Shown : (s s' : Session k t) (st : Step k t s s') → IsTold st → Shown k t s → Shown k t s'
    unfolding handle_event handle_touch_move handle_touch_end handle_copy handle_close dispose
        on_long_press
    Step-Shown s _ (happens (touch_start touches target timer)) heard a =
        touch_start-Shown touches target timer s a
    Step-Shown s _ (happens (touch_move touches)) heard a =
        move_active-Shown s.controller.active_touch_identifier touches s a
    Step-Shown s _ (happens (touch_end changed)) heard a =
        end_active-Shown s.controller.active_touch_identifier changed s a
    Step-Shown s _ (happens context_menu) heard a = context_menu-Shown s a
    Step-Shown s _ (happens copy) heard a =
        copied-Shown (bounded_terminal_clipboard_text (string (t.get_selection s.terminal))) s a
    Step-Shown s _ (happens paste) heard a = paste-Shown s
    Step-Shown s _ (happens close) heard a = dismiss-Shown k t (consume k t s)
    Step-Shown s _ (happens detach) heard a = reset-Shown k t s a
    Step-Shown s _ (happens (terminal_listener state)) heard a =
        update-Shown k t (record s { terminal = state })
    Step-Shown s _ (happens (terminal_output state)) heard a = replaced-Shown k t s state heard a
    Step-Shown s _ (fires timer due) heard a =
        let s' : Session k t = record s {
          controller = record s.controller { long_press_timer = none };
          effects = timeout_ran timer ∷ s.effects;
        } in
        long_press_at-Shown s.controller.active_touch_identifier s.controller.selection_anchor s'
          (calm-Shown k t s s' refl a)

    -- From a terminal without a selection on, and as long as changes of the selection are told to
    -- the listeners, the controls agree with the terminal after every step: the toolbar is shown
    -- exactly while there is a selection, a handle exactly while it has a point, and the
    -- controller has neither points nor a selection of its own without one.
    pub Told-IsConsistent : (s : Session k t) → Told s → IsConsistent k t s.terminal s.controller
    Told-IsConsistent _ (fresh start none_yet) = record {
      toolbar_shown = sym (ap not none_yet);
      start_shown = refl;
      end_shown = refl;
      deselected = λ e. refl;
      no_start = λ e. refl;
      no_end = λ e. refl;
    }
    Told-IsConsistent s' (told {s = s} before st is_told) =
        Step-Shown s s' st is_told (Told-IsConsistent s before)
