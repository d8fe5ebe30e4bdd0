-- ===== src/Terminal/Whole/Relays.antt =====
-- What the page reports to Flutter of the selection's buttons.
use code_roam.Prelude.{
  ◌+◌, true, false, Bool, List, [], ◌∷◌, ◌++◌, length, none, some, ◌≡◌, refl, sym, ap, ◌∙◌,
}
use mathlib.Core.List.{append-nil}
use code_roam.Js.{Value, string, Fields, end, field, get}
use code_roam.Js.Strings.{Text, codes, text_eq}
use code_roam.Selection.Coordinates.{Coordinates}
use code_roam.Bridge.{Shown, message_of}
use code_roam.Gesture.{
  Terminal, Session, Effect, prevent_default, stop_propagation, set_timeout, clear_timeout,
  timeout_ran,
}
use code_roam.Gesture.Selecting.{update_controls}
use code_roam.Gesture.Handlers.Events.{handle_event, Step, happens, Reachable, attached, step}
use code_roam.Terminal.{
  Commands, Page, Notice, input_data, resized, event_id, on_copy, on_paste,
  send_terminal_stream_event, with_stream_id, hear, hear_all, perform, refuse, answer, receive,
  become_ready, handle_focus_changed, run_command, Request, asks, refused, request_of_value,
  on_page_event,
}
use code_roam.Terminal.Whole.{
  Calls, commands, since, Whole, react, react_all, after_controls, Outside, starts, value_arrives,
  terminal_tells, focus_changes, page_event, observed, after_page, acts, hears, Lived, begins,
  lives,
}
use code_roam.Terminal.Whole.Extends.{Step-since}
use code_roam.Terminal.Whole.Reports.{
  reports, reports_of_effect, reported, reports_of_message, copied_text, reports-append, Adds,
  send-Adds, Adds-none, Adds-both,
}

module _ (x : Commands) (shown : Value → Shown) (stream_id : Text) where
  event-Adds :
      (type : Text) (payload : Fields) (p : Page x)
      → p.port.connected ≡ true
      → Adds
          (reports_of_message (
            message_of type
              (with_stream_id stream_id payload)
              (some (event_id stream_id (p.sequence + 1)))))
          p.port
          (send_terminal_stream_event x shown stream_id type payload p).port
  unfolding send_terminal_stream_event
  event-Adds type payload p h =
      send-Adds type (with_stream_id stream_id payload) (some (event_id stream_id (p.sequence + 1)))
        p.port h

  hear-Adds :
      (notice : Notice) (p : Page x)
      → p.port.connected ≡ true
      → Adds [] p.port (hear x shown stream_id notice p).port
  unfolding hear reports_of_message message_of text_eq
  hear-Adds (input_data text) p h =
      event-Adds (codes "terminal.input") (field (codes "data") (string text) end) p h
  hear-Adds (resized columns rows) p h = send-Adds _ _ none p.port h

  hear_all-Adds :
      (notices : List Notice) (p : Page x)
      → p.port.connected ≡ true
      → Adds [] p.port (hear_all x shown stream_id notices p).port
  unfolding hear_all
  hear_all-Adds [] p h = Adds-none p.port h
  hear_all-Adds (notice ∷ notices) p h =
      let heard = hear-Adds notice p h in
      Adds-both heard (hear_all-Adds notices (hear x shown stream_id notice p) heard.connected)

  answer-Adds :
      (r : Request) (p : Page x)
      → p.port.connected ≡ true
      → Adds [] p.port (answer x shown stream_id r p).port
  unfolding answer perform refuse reports_of_message message_of text_eq
  answer-Adds (asks c) p h =
      let after = run_command x shown stream_id c p.terminal in
      hear_all-Adds after.1 (record p { terminal = after.0 }) h
  answer-Adds (refused why) p h = send-Adds _ _ none p.port h

module _ (k : Coordinates) (t : Terminal k) (calls : Calls t.State) (shown : Value → Shown)
    (stream_id : Text) where
  abbrev x : Commands
  x = commands t.State calls

  outside-Adds :
      (o : Outside k t calls shown stream_id) (p : Page x)
      → p.port.connected ≡ true
      → Adds [] p.port
          (on_page_event x shown stream_id (page_event k t calls shown stream_id o) p).port
  unfolding on_page_event page_event receive handle_focus_changed become_ready reports_of_message
      message_of text_eq
  outside-Adds starts p h = send-Adds _ _ none p.port h
  outside-Adds (value_arrives raw_message) p h =
      answer-Adds x shown stream_id (request_of_value raw_message) p h
  outside-Adds (terminal_tells state notices) p h =
      hear_all-Adds x shown stream_id notices (record p { terminal = state }) h
  outside-Adds (focus_changes focused) p h = send-Adds _ _ none p.port h

  react-Adds :
      (e : Effect) (p : Page x)
      → p.port.connected ≡ true
      → Adds (reports_of_effect e) p.port (react k t calls shown stream_id e p).port
  unfolding react reports_of_effect on_copy on_paste reports_of_message message_of text_eq get
      with_stream_id copied_text
  react-Adds (Effect.on_copy selection) p h =
      event-Adds x shown stream_id (codes "terminal.copySelection")
        (field (codes "text") (string selection) end) p h
  react-Adds Effect.on_paste p h =
      event-Adds x shown stream_id (codes "terminal.pasteRequest") end p h
  react-Adds prevent_default p h = Adds-none p.port h
  react-Adds stop_propagation p h = Adds-none p.port h
  react-Adds (set_timeout timer) p h = Adds-none p.port h
  react-Adds (clear_timeout timer) p h = Adds-none p.port h
  react-Adds (timeout_ran timer) p h = Adds-none p.port h

  react_all-Adds :
      (es : List Effect) (p : Page x)
      → p.port.connected ≡ true
      → Adds (reports es) p.port (react_all k t calls shown stream_id es p).port
  unfolding react_all reports
  react_all-Adds [] p h = Adds-none p.port h
  react_all-Adds (e ∷ es) p h =
      let before = react_all-Adds es p h in
      Adds-both before (react-Adds e (react_all k t calls shown stream_id es p) before.connected)

  react-terminal :
      (e : Effect) (p : Page x) → (react k t calls shown stream_id e p).terminal ≡ p.terminal
  unfolding react on_copy on_paste send_terminal_stream_event
  react-terminal (Effect.on_copy selection) p = refl
  react-terminal Effect.on_paste p = refl
  react-terminal prevent_default p = refl
  react-terminal stop_propagation p = refl
  react-terminal (set_timeout timer) p = refl
  react-terminal (clear_timeout timer) p = refl
  react-terminal (timeout_ran timer) p = refl

  react_all-terminal :
      (es : List Effect) (p : Page x)
      → (react_all k t calls shown stream_id es p).terminal ≡ p.terminal
  unfolding react_all
  react_all-terminal [] p = refl
  react_all-terminal (e ∷ es) p =
      react-terminal e (react_all k t calls shown stream_id es p) ∙ react_all-terminal es p

  -- The page is connected and has the controller's terminal, and its messages say of the buttons
  -- what the controller's log says: the same copies and requests to paste, in the same order.
  pub record IsRelayed (w : Whole k t calls shown stream_id) : Type 0 where
    pub connected : w.page.port.connected ≡ true
    pub one_terminal : w.page.terminal ≡ w.session.terminal
    pub relayed : reported w.page.port.posted ≡ reports w.session.effects

  acts-IsRelayed :
      (w : Whole k t calls shown stream_id) (s : Session k t)
      → Step k t w.session s
      → IsRelayed w
      → IsRelayed (after_controls k t calls shown stream_id w s)
  unfolding after_controls
  acts-IsRelayed w s st r =
      let new = since (length w.session.effects) s.effects in
      let moved : Page x = record w.page { terminal = s.terminal } in
      let added = react_all-Adds new moved r.connected in
      record {
        connected = added.connected;
        one_terminal = react_all-terminal new moved;
        relayed =
            added.posted
            ∙ ap (λ rs. rs ++ reports new) r.relayed
            ∙ sym (reports-append new w.session.effects)
            ∙ ap reports (sym (Step-since k t w.session s st));
      }

  observed-lem :
      (listened : Bool) (state : t.State) (s : Session k t)
      → ((handle_event k t (observed k t calls shown stream_id listened state) s).effects
          ≡ s.effects)
        × ((handle_event k t (observed k t calls shown stream_id listened state) s).terminal
            ≡ state)
  unfolding handle_event observed update_controls
  observed-lem true state s = (refl, refl)
  observed-lem false state s = (refl, refl)

  hears-IsRelayed :
      (w : Whole k t calls shown stream_id) (o : Outside k t calls shown stream_id)
      (listened : Bool)
      → IsRelayed w
      → IsRelayed (after_page k t calls shown stream_id w o listened)
  unfolding after_page
  hears-IsRelayed w o listened r =
      let p = on_page_event x shown stream_id (page_event k t calls shown stream_id o) w.page in
      let added = outside-Adds o w.page r.connected in
      let (same, now) = observed-lem listened p.terminal w.session in
      record {
        connected = added.connected;
        one_terminal = sym now;
        relayed = added.posted ∙ append-nil _ ∙ r.relayed ∙ ap reports (sym same);
      }

  -- Through every sequence of touches, clicks, timers that run, values from Flutter and changes of
  -- the terminal, the page shares the controller's terminal, and the messages that it posts say of
  -- the buttons exactly what the controller did: the same copies and requests to paste, in the same
  -- order, and no others.
  pub Lived-IsRelayed :
      (start : t.State) (w : Whole k t calls shown stream_id)
      → Lived k t calls shown stream_id start w
      → IsRelayed w
  unfolding reported reports
  Lived-IsRelayed start _ begins = record { connected = refl; one_terminal = refl; relayed = refl }
  Lived-IsRelayed start _ (lives {w = w} l (acts {s = s} st)) =
      acts-IsRelayed w s st (Lived-IsRelayed start w l)
  Lived-IsRelayed start _ (lives {w = w} l (hears o listened)) =
      hears-IsRelayed w o listened (Lived-IsRelayed start w l)

  -- The controller's session is one that the controller reaches alone.
  pub Lived-Reachable :
      (start : t.State) (w : Whole k t calls shown stream_id)
      → Lived k t calls shown stream_id start w
      → Reachable k t start w.session
  unfolding after_controls after_page
  Lived-Reachable start _ begins = attached
  Lived-Reachable start _ (lives {w = w} l (acts st)) = step (Lived-Reachable start w l) st
  Lived-Reachable start _ (lives {w = w} l (hears o listened)) =
      step (Lived-Reachable start w l) (happens _)
