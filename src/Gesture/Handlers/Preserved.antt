-- ===== src/Gesture/Handlers/Preserved.antt =====
-- What every step preserves of the gesture and the log: a predicate that is closed under the few
-- things that handlers do with them.
pub mod Touches
pub mod Steps
use code_roam.Prelude.{
  ℕ, ℤ, pos, ◌<◌, ◌≤◌, Bool, true, false, ◌==◌, List, [], ◌∷◌, Option, none, some, ◌≡◌, refl, sym,
  ap, ◌∙◌, arith, is_none, if◌then◌else◌, Option-cases, inl, inr, length, not,
}
use mathlib.Core.Path.{subst}
use code_roam.Js.{Value, string}
use code_roam.Js.Strings.{Text}
use code_roam.Selection.Coordinates.{Coordinates}
use code_roam.Selection.Cells.{TerminalCellPosition, TerminalSelectionEndpoints}
use code_roam.Selection.Clipboard.{bounded_terminal_clipboard_text}
use code_roam.Gesture.{
  Terminal, Session, Touch, Target, handle, in_toolbar, elsewhere, Effect, prevent_default,
  stop_propagation, attach, on_paste, set_timeout, clear_timeout, timeout_ran, on_copy,
}
use code_roam.Gesture.Selecting.{
  consume, effect, cancel_long_press_timer, reset_gesture, select_word_at, terminal_cell_for_touch,
  clear_selection, dismiss_selection,
}
use code_roam.Gesture.Selecting.Keeps.{
  Held, held, held-update_controls, held-clear_selection, held-dismiss_selection,
  held-select_between, held-select_word_at, held-cancel, held-reset_gesture, reset, without_timer,
}
use code_roam.Gesture.Handlers.{
  begin_handle_drag, hold_press, begin_press, press_at, press, start_touch, handle_touch_start,
  long_press_at, on_long_press, await_press, drag_to, drag, moved, move_active, handle_touch_move,
  end_active, handle_touch_end, handle_context_menu, handle_copy, handle_paste, handle_close,
  dispose, arm_timer, end_found, copied, touch_with_identifier, fixed_endpoint, opposite_end,
}
use code_roam.Gesture.Selecting.Words.{Holds, select_word_at-Holds}
use code_roam.Gesture.Handlers.Events.{
  Event, touch_start, touch_move, touch_end, context_menu, copy, paste, close, detach,
  terminal_listener, terminal_output, handle_event, Step, happens, fires, Reachable, attached, step,
}

-- A text that the clipboard takes.
abbrev pub IsCopyable : Text → Type 0
IsCopyable text = (0 < length text) × (length text ≤ 262_144)

-- The effects that say nothing of a timer or of a copied text.
pub data Quiet : Effect → Type 0 where
  prevents : Quiet prevent_default
  stops : Quiet stop_propagation
  pastes : Quiet on_paste

abbrev log : Effect → Held → Held
log e h = record h { effects = e ∷ h.effects }

-- A word, if there is one, that holds the pressed cell, if there is one.
abbrev pub HoldsAnchor : Option TerminalSelectionEndpoints → Option TerminalCellPosition → Type 0
HoldsAnchor word anchor = (cell : TerminalCellPosition) → anchor ≡ some cell → Holds word cell

pub record IsClosed (P : Held → Type 0) : Type 0 where
  pub without_timer : (h : Held) → P h → P (without_timer h)
  pub reset : (h : Held) → P h → P (reset h)
  pub logged : (h : Held) (e : Effect) → Quiet e → P h → P (log e h)
  pub copied : (h : Held) (text : Text) → IsCopyable text → P h → P (log (on_copy text) h)
  pub pressed :
      (h : Held) (id : ℤ) (cell : TerminalCellPosition)
      → P h
      → P (record h {
        gesture = record {
          timer = h.gesture.timer;
          active = some id;
          anchor = some cell;
          word = none;
          selecting = false;
        };
      })
  pub armed :
      (h : Held) (timer : ℕ)
      → P h
      → P (log (set_timeout timer) (record h { gesture = record h.gesture { timer = some timer } }))
  pub grabbed :
      (h : Held) (id : ℤ) (cell : TerminalCellPosition)
      → P h
      → P (record h {
        gesture = record {
          timer = h.gesture.timer;
          active = some id;
          anchor = some cell;
          word = none;
          selecting = true;
        };
      })
  pub ran :
      (h : Held) (timer : ℕ)
      → P h
      → P (log (timeout_ran timer) (record h { gesture = record h.gesture { timer = none } }))
  pub chosen :
      (h : Held) (word : Option TerminalSelectionEndpoints)
      → HoldsAnchor word h.gesture.anchor
      → P h
      → P (record h { gesture = record h.gesture { word = word; selecting = not (is_none word) } })
