-- ===== src/Gesture/Selecting/Keeps.antt =====
-- What uses the terminal leaves the gesture and the log of effects alone, and a gesture is reset
-- with its timer.
use code_roam.Prelude.{
  ℕ, Bool, true, false, List, ◌∷◌, Option, none, some, ◌≡◌, refl, arith, ◌∙◌, ap,
}
use code_roam.Selection.Coordinates.{Coordinates}
use code_roam.Selection.Cells.{
  TerminalCellPosition, TerminalSelectionRange, TerminalSelectionEndpoints,
  ordered_terminal_selection_endpoints, terminal_selection_between,
}
use code_roam.Js.Strings.{Text}
use code_roam.Selection.Word.{WordSelection}
use code_roam.Gesture.{Terminal, Session, Gesture, gesture_of, Effect, clear_timeout}
use code_roam.Gesture.Controls.Consistent.{gesture-update}
use code_roam.Gesture.Selecting.{
  select_found, update_controls, after_call, clear_selection, dismiss_selection, cancel_timer,
  cancel_long_press_timer, reset_gesture, select_range, select_between, select_word_in,
  select_word_at,
}

-- The gesture and the log.
pub record Held : Type 0 where
  pub gesture : Gesture
  pub effects : List Effect

abbrev pub held : (k : Coordinates) (t : Terminal k) → Session k t → Held
held k t s = record { gesture = gesture_of k s.controller; effects = s.effects }

-- The gesture without its timer, and the log with the timer cleared.
abbrev pub without_timer : Held → Held
without_timer h = record {
  gesture = record h.gesture { timer = none };
  effects = elim h.gesture.timer [
    | none ↦ h.effects
    | some timer ↦ clear_timeout timer ∷ h.effects
  ];
}

abbrev pub reset : Held → Held
reset h = record {
  gesture = record { timer = none; active = none; anchor = none; word = none; selecting = false };
  effects = (without_timer h).effects;
}

module _ (k : Coordinates) (t : Terminal k) where
  pub held-update_controls : (s : Session k t) → held k t (update_controls k t s) ≡ held k t s
  unfolding update_controls
  held-update_controls s =
      ap (λ g. record { gesture = g; effects = s.effects })
        (gesture-update k t s.terminal s.controller)

  held-after_call :
      (state : t.State) (notified : Bool) (s : Session k t)
      → held k t (after_call k t (state, notified) s) ≡ held k t s
  unfolding after_call
  held-after_call state true s = held-update_controls (record s { terminal = state })
  held-after_call state false s = refl

  pub held-clear_selection : (s : Session k t) → held k t (clear_selection k t s) ≡ held k t s
  unfolding clear_selection
  held-clear_selection s =
      held-after_call (t.clear_selection s.terminal).0 (t.clear_selection s.terminal).1 s

  pub held-dismiss_selection : (s : Session k t) → held k t (dismiss_selection k t s) ≡ held k t s
  unfolding dismiss_selection
  held-dismiss_selection s = held-update_controls _ ∙ held-clear_selection _

  held-select_range :
      (o : Option TerminalSelectionRange) (e : TerminalSelectionEndpoints) (s : Session k t)
      → held k t (select_range k t o e s).0 ≡ held k t s
  unfolding select_range
  held-select_range none e s = refl
  held-select_range (some r) e s =
      let chosen : Session k t = record s {
        controller = record s.controller { current_selection = some e };
      } in
      held-update_controls _
      ∙ held-after_call (t.select r.column r.row r.length s.terminal).0
          (t.select r.column r.row r.length s.terminal).1 chosen

  pub held-select_between :
      (a b : TerminalCellPosition) (s : Session k t)
      → held k t (select_between k t a b s).0 ≡ held k t s
  unfolding select_between
  held-select_between a b s =
      held-select_range (terminal_selection_between a b (t.cols s.terminal))
        (ordered_terminal_selection_endpoints a b) s

  held-select_found :
      (o : Option WordSelection) (p : TerminalCellPosition) (s : Session k t)
      → held k t (select_found k t o p s).0 ≡ held k t s
  unfolding select_found
  held-select_found none p s = refl
  held-select_found (some w) p s = held-select_between _ _ s

  held-select_word_in :
      (o : Option (ℕ → Option Text)) (p : TerminalCellPosition) (s : Session k t)
      → held k t (select_word_in k t o p s).0 ≡ held k t s
  unfolding select_word_in
  held-select_word_in none p s = refl
  held-select_word_in (some line) p s = held-select_found _ p s

  pub held-select_word_at :
      (p : TerminalCellPosition) (s : Session k t)
      → held k t (select_word_at k t p s).0 ≡ held k t s
  unfolding select_word_at
  held-select_word_at p s = held-select_word_in (t.line s.terminal p.row) p s

  cancel_timer_lem :
      (o : Option ℕ) (s : Session k t)
      → o ≡ s.controller.long_press_timer
      → held k t (cancel_timer k t o s) ≡ without_timer (held k t s)
  unfolding cancel_timer
  cancel_timer_lem none s e = ground arith
  cancel_timer_lem (some timer) s e = ground arith

  pub held-cancel :
      (s : Session k t) → held k t (cancel_long_press_timer k t s) ≡ without_timer (held k t s)
  unfolding cancel_long_press_timer
  held-cancel s = cancel_timer_lem s.controller.long_press_timer s refl

  pub held-reset_gesture : (s : Session k t) → held k t (reset_gesture k t s) ≡ reset (held k t s)
  unfolding reset_gesture
  held-reset_gesture s = ap reset' (held-cancel s)
    where
      reset' : Held → Held
      reset' h = record {
        gesture = record {
          timer = h.gesture.timer;
          active = none;
          anchor = none;
          word = none;
          selecting = false;
        };
        effects = h.effects;
      }
