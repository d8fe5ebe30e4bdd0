-- ===== src/Terminal/Whole.antt =====
-- The whole terminal page: the controller of the selection and the page share the terminal, and the
-- page reports what the controller's buttons ask for (webview/terminal/src/main.ts).
pub mod Extends
pub mod Reports
pub mod Relays
pub mod Ids
pub mod PasteBack
mod Tests
use code_roam.Prelude.{ℕ, ◌-◌, ℤ, Bool, true, List, [], ◌∷◌, length, take, if◌then◌else◌}
use code_roam.Bridge.{Shown}
use code_roam.Js.{Value}
use code_roam.Js.Strings.{Text}
use code_roam.Selection.Coordinates.{Coordinates}
use code_roam.Gesture.{
  Terminal, Session, Effect, prevent_default, stop_propagation, set_timeout, clear_timeout,
  timeout_ran, attach,
}
use code_roam.Gesture.Handlers.Events.{
  Event, terminal_listener, terminal_output, handle_event, Step,
}
use code_roam.Terminal.{
  Notice, Commands, Page, PageEvent, on_copy, on_paste, ready, arrives, tells, focuses,
  on_page_event,
}

-- xterm's calls, on the terminal that the controller reads too.
pub record Calls (S : Type 0) : Type 0 where
  pub write : Text → S → S × List Notice
  pub focus : S → S × List Notice
  pub clear : S → S × List Notice
  pub paste : Text → S → S × List Notice
  pub resize : ℤ → ℤ → S → S × List Notice

abbrev pub commands : (S : Type 0) → Calls S → Commands
commands S calls = record {
  State = S;
  write = calls.write;
  focus = calls.focus;
  clear = calls.clear;
  paste = calls.paste;
  resize = calls.resize;
}

-- The effects of a log that were not in it when it had `n`.
unfoldable pub since : ℕ → List Effect → List Effect
since n es = take (length es - n) es

module _ (k : Coordinates) (t : Terminal k) (calls : Calls t.State) (shown : Value → Shown)
    (stream_id : Text) where
  abbrev pub P : Type 0
  P = Page (commands t.State calls)

  pub record Whole : Type 0 where
    pub session : Session k t
    pub page : P

  -- The options `onCopy` and `onPaste` of the controller.
  unfoldable pub react : Effect → P → P
  react (Effect.on_copy selection) p = on_copy (commands t.State calls) shown stream_id selection p
  react Effect.on_paste p = on_paste (commands t.State calls) shown stream_id p
  react prevent_default p = p
  react stop_propagation p = p
  react (set_timeout timer) p = p
  react (clear_timeout timer) p = p
  react (timeout_ran timer) p = p

  -- A log has its latest effect first.
  unfoldable pub react_all : List Effect → P → P
  unfolding react
  react_all [] p = p
  react_all (e ∷ es) p = react e (react_all es p)

  -- After a handler of the controller.
  unfoldable pub after_controls : Whole → Session k t → Whole
  unfolding since react_all
  after_controls w s = record {
    session = s;
    page =
        react_all (since (length w.session.effects) s.effects)
          (record w.page { terminal = s.terminal });
  }

  -- What comes from outside the controls. A change of the focus that a handler brings about is one
  -- before it.
  pub data Outside : Type 0 where
    starts : Outside
    value_arrives : Value → Outside
    terminal_tells : t.State → List Notice → Outside
    focus_changes : Bool → Outside

  unfoldable pub page_event : Outside → PageEvent (commands t.State calls) shown stream_id
  page_event starts = ready
  page_event (value_arrives raw_message) = arrives raw_message
  page_event (terminal_tells state notices) = tells state notices
  page_event (focus_changes focused) = focuses focused

  -- The terminal after it may call the controller's listeners.
  unfoldable pub observed : Bool → t.State → Event k t
  observed listened state = if listened then terminal_listener state else terminal_output state

  unfoldable pub after_page : Whole → Outside → Bool → Whole
  unfolding page_event observed
  after_page w o listened =
      let p = on_page_event (commands t.State calls) shown stream_id (page_event o) w.page in
      record { session = handle_event k t (observed listened p.terminal) w.session; page = p }

  pub data WholeStep (w : Whole) : Whole → Type 0 where
    acts : {s : Session k t} → Step k t w.session s → WholeStep w (after_controls w s)
    hears : (o : Outside) (listened : Bool) → WholeStep w (after_page w o listened)

  -- The page that starts, connected to Flutter.
  abbrev pub begun : t.State → Whole
  begun start = record {
    session = attach k t start;
    page = record {
      port = record { connected = true; posted = [] };
      terminal = start;
      sequence = 0;
    };
  }

  pub data Lived (start : t.State) : Whole → Type 0 where
    begins : Lived start (begun start)
    lives : {w w' : Whole} → Lived start w → WholeStep w w' → Lived start w'
