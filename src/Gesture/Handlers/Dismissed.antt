-- ===== src/Gesture/Handlers/Dismissed.antt =====
-- Copy, paste and close of the toolbar dismiss the selection and its controls.
use code_roam.Prelude.{true, false, not, Option, none, some, is_none, ◌≡◌, ap, ◌∙◌}
use code_roam.Js.{string}
use code_roam.Js.Strings.{Text}
use code_roam.Selection.Clipboard.{bounded_terminal_clipboard_text}
use code_roam.Selection.Coordinates.{Coordinates}
use code_roam.Gesture.{Terminal, Session, on_copy}
use code_roam.Gesture.Controls.Consistent.{IsConsistent}
use code_roam.Gesture.Selecting.{consume, effect, dismiss_selection}
use code_roam.Gesture.Selecting.Shown.{dismiss-Shown}
use code_roam.Gesture.Selecting.Selects.{dismiss-terminal}
use code_roam.Gesture.Handlers.{copied, handle_copy, handle_paste, handle_close}
use code_roam.Gesture.Handlers.Events.{Event, copy, paste, close, handle_event}

module _ (k : Coordinates) (t : Terminal k) where
  -- What xterm documents of `clearSelection` and `focus`.
  pub record ClearsSelection : Type 0 where
    pub gone : (s : t.State) → t.has_selection (t.clear_selection s).0 ≡ false
    pub focused : (s : t.State) → t.has_selection (t.focus s) ≡ t.has_selection s

  -- The clicks that dismiss the selection; a copy does when the clipboard takes the text.
  pub data Dismisses (s : Session k t) : Event k t → Type 0 where
    by_copy :
        (text : Text)
        → bounded_terminal_clipboard_text (string (t.get_selection s.terminal)) ≡ some text
        → Dismisses s copy
    by_paste : Dismisses s paste
    by_close : Dismisses s close

  -- Nothing is selected, and nothing of the controls is shown.
  pub record IsDismissed (s : Session k t) : Type 0 where
    pub no_selection : t.has_selection s.terminal ≡ false
    pub no_endpoints : s.controller.current_selection ≡ none
    pub no_toolbar : s.controller.toolbar.hidden ≡ true
    pub no_start : s.controller.start_handle.hidden ≡ true
    pub no_end : s.controller.end_handle.hidden ≡ true

  module _ (law : ClearsSelection) where
    dismiss-IsDismissed : (s : Session k t) → IsDismissed (dismiss_selection k t s)
    dismiss-IsDismissed s =
        let shown : IsConsistent k t (dismiss_selection k t s).terminal
            (dismiss_selection k t s).controller =
          dismiss-Shown k t s in
        let gone : t.has_selection (dismiss_selection k t s).terminal ≡ false =
          ap t.has_selection (dismiss-terminal k t s) ∙ law.gone s.terminal in
        let none_left = shown.deselected gone in
        record {
          no_selection = gone;
          no_endpoints = none_left;
          no_toolbar = shown.toolbar_shown ∙ ap not gone;
          no_start = shown.start_shown ∙ ap is_none (shown.no_start none_left);
          no_end = shown.end_shown ∙ ap is_none (shown.no_end none_left);
        }

    copied-IsDismissed :
        (o : Option Text) (text : Text) (s : Session k t)
        → o ≡ some text
        → IsDismissed (copied k t o s)
    unfolding copied
    copied-IsDismissed none text s h = cc
    copied-IsDismissed (some copy_text) text s h =
        dismiss-IsDismissed (effect k t (on_copy copy_text) (consume k t s))

    paste-IsDismissed : (s : Session k t) → IsDismissed (handle_paste k t s)
    unfolding handle_paste
    paste-IsDismissed s =
        let d = dismiss-IsDismissed (consume k t s) in
        record {
          no_selection =
              law.focused (dismiss_selection k t (consume k t s)).terminal ∙ d.no_selection;
          no_endpoints = d.no_endpoints;
          no_toolbar = d.no_toolbar;
          no_start = d.no_start;
          no_end = d.no_end;
        }

    -- After a copy of a text that the clipboard takes, a paste or a close, the terminal has no
    -- selection and the toolbar and both handles are hidden.
    pub Dismisses-IsDismissed :
        (e : Event k t) (s : Session k t) → Dismisses s e → IsDismissed (handle_event k t e s)
    unfolding handle_event handle_copy handle_close
    Dismisses-IsDismissed _ s (by_copy text taken) =
        copied-IsDismissed (bounded_terminal_clipboard_text (string (t.get_selection s.terminal)))
          text s taken
    Dismisses-IsDismissed _ s by_paste = paste-IsDismissed s
    Dismisses-IsDismissed _ s by_close = dismiss-IsDismissed (consume k t s)
