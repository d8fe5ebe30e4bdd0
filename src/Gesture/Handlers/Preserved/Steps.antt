-- ===== src/Gesture/Handlers/Preserved/Steps.antt =====
-- A closed predicate is kept by every step of the controller.
use code_roam.Prelude.{ℤ, ◌∷◌, Option, none, some, ◌≡◌, refl, sym, ap, ◌∙◌, arith}
use mathlib.Core.Path.{subst}
use code_roam.Js.{Value, string}
use code_roam.Js.Strings.{Text}
use code_roam.Selection.Coordinates.{Coordinates}
use code_roam.Selection.Cells.{TerminalCellPosition}
use code_roam.Selection.Clipboard.{bounded_terminal_clipboard_text}
use code_roam.Gesture.{Terminal, Session, prevent_default, attach, on_paste, timeout_ran, on_copy}
use code_roam.Gesture.Selecting.{consume, effect, select_word_at, dismiss_selection}
use code_roam.Gesture.Selecting.Keeps.{Held, held, held-update_controls, held-select_word_at}
use code_roam.Gesture.Handlers.{
  long_press_at, on_long_press, handle_context_menu, handle_copy, handle_paste, handle_close,
  dispose, copied,
}
use code_roam.Gesture.Selecting.Words.{Holds, select_word_at-Holds}
use code_roam.Gesture.Handlers.Events.{
  Event, touch_start, touch_move, touch_end, context_menu, copy, paste, close, detach,
  terminal_listener, terminal_output, handle_event, Step, happens, fires, Reachable, attached, step,
}
use code_roam.Gesture.Handlers.Preserved.{IsCopyable, prevents, pastes, IsClosed}
use code_roam.Gesture.Handlers.Preserved.Touches.{
  Kept, consume-Kept, reset-Kept, dismiss-Kept, if-Kept, touch_start-Kept, touch_move-Kept,
  touch_end-Kept,
}

bounded-IsCopyable :
    (v : Value) (text : Text) → bounded_terminal_clipboard_text v ≡ some text → IsCopyable text
unfolding bounded_terminal_clipboard_text
bounded-IsCopyable (string s) text h = ground arith
bounded-IsCopyable _ text h = cc

cell_eq : {a b : TerminalCellPosition} → some a ≡ some b → a ≡ b
cell_eq h = cc

module _ (k : Coordinates) (t : Terminal k) (P : Held → Type 0) (closed : IsClosed P) where
  copied-Kept :
      (v : Value) (o : Option Text) (s : Session k t)
      → bounded_terminal_clipboard_text v ≡ o
      → Kept k t P closed s
      → Kept k t P closed (copied k t o s)
  unfolding copied
  copied-Kept v none s same a = consume-Kept k t P closed s a
  copied-Kept v (some text) s same a =
      dismiss-Kept k t P closed (effect k t (on_copy text) (consume k t s)) (
        closed.copied (held k t (consume k t s)) text (bounded-IsCopyable v text same)
          (consume-Kept k t P closed s a))

  paste-Kept : (s : Session k t) → Kept k t P closed s → Kept k t P closed (handle_paste k t s)
  unfolding handle_paste
  paste-Kept s a =
      closed.logged (held k t (dismiss_selection k t (consume k t s))) on_paste pastes
        (dismiss-Kept k t P closed (consume k t s) (consume-Kept k t P closed s a))

  context_menu-Kept :
      (s : Session k t) → Kept k t P closed s → Kept k t P closed (handle_context_menu k t s)
  unfolding handle_context_menu
  context_menu-Kept s a =
      if-Kept k t P closed (t.has_selection s.terminal) _ s
        (closed.logged (held k t s) prevent_default prevents a) a

  event-Kept :
      (e : Event k t) (s : Session k t)
      → Kept k t P closed s
      → Kept k t P closed (handle_event k t e s)
  unfolding handle_event handle_copy handle_close dispose
  event-Kept (touch_start touches target timer) s a =
      touch_start-Kept k t P closed touches target timer s a
  event-Kept (touch_move touches) s a = touch_move-Kept k t P closed touches s a
  event-Kept (touch_end changed) s a = touch_end-Kept k t P closed changed s a
  event-Kept context_menu s a = context_menu-Kept s a
  event-Kept copy s a = copied-Kept (string (t.get_selection s.terminal)) _ s refl a
  event-Kept paste s a = paste-Kept s a
  event-Kept close s a = dismiss-Kept k t P closed (consume k t s) (consume-Kept k t P closed s a)
  event-Kept detach s a = reset-Kept k t P closed s a
  event-Kept (terminal_listener state) s a =
      rw (held-update_controls k t (record s { terminal = state })) a
  event-Kept (terminal_output state) s a = a

  long_press_at-Kept :
      (active : Option ℤ) (anchor : Option TerminalCellPosition) (s : Session k t)
      → anchor ≡ s.controller.selection_anchor
      → Kept k t P closed s
      → Kept k t P closed (long_press_at k t active anchor s)
  unfolding long_press_at
  long_press_at-Kept none anchor s same a = a
  long_press_at-Kept (some id) none s same a = a
  long_press_at-Kept (some id) (some anchor) s same a =
      let kept = held-select_word_at k t anchor s in
      let word = (select_word_at k t anchor s).1 in
      closed.chosen (held k t (select_word_at k t anchor s).0) word
        (λ cell at.
          subst (Holds word) (cell_eq (same ∙ sym (ap (λ h. h.gesture.anchor) kept) ∙ at))
            (select_word_at-Holds k t anchor s))
        (rw kept a)

  pub Step-Kept : (s s' : Session k t) → Step k t s s' → Kept k t P closed s → Kept k t P closed s'
  unfolding on_long_press
  Step-Kept s _ (happens e) a = event-Kept e s a
  Step-Kept s _ (fires timer due) a =
      let s' : Session k t = record s {
        controller = record s.controller { long_press_timer = none };
        effects = timeout_ran timer ∷ s.effects;
      } in
      long_press_at-Kept s.controller.active_touch_identifier s.controller.selection_anchor s' refl
        (closed.ran (held k t s) timer a)

  pub Reachable-closed :
      (start : t.State) (s : Session k t)
      → P (held k t (attach k t start))
      → Reachable k t start s
      → P (held k t s)
  Reachable-closed start _ a attached = a
  Reachable-closed start s' a (step {s = s} r st) = Step-Kept s s' st (Reachable-closed start s a r)
