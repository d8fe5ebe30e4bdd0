-- ===== src/Terminal/Numbered.antt =====
-- The ids of everything that the terminal's page posts, through every sequence of events.
use code_roam.Prelude.{
  ℕ, zero, suc, ◌+◌, true, List, [], ◌∷◌, ◌++◌, Option, none, some, ◌≡◌, refl, sym, ap, arith, ◌∙◌,
}
use mathlib.Core.List.{append-nil}
use code_roam.Js.{Value, string, Fields, end, field}
use code_roam.Js.Strings.{Text, codes}
use code_roam.Bridge.{Shown, Port, send, message_of, optional_id}
use code_roam.Terminal.{
  Commands, Page, Notice, input_data, resized, event_id, hear, hear_all, send_terminal_stream_event,
  with_stream_id, on_copy, on_paste, handle_focus_changed, become_ready, perform, refuse, Request,
  asks, refused, answer, receive, request_of_value, run_command, PageEvent, ready, pastes, arrives,
  tells, copies, focuses, on_page_event, on_page_events,
}
use code_roam.Terminal.Stream.{ids, ids-append, id_list, optional-event_id}

module _ (x : Commands) (shown : Value → Shown) (stream_id : Text) where
  -- The ids of the stream events 1 to n, in order.
  abbrev pub numbered : ℕ → List Text
  numbered zero = []
  numbered (suc n) = numbered n ++ (event_id stream_id (suc n) ∷ [])

  -- A page that is connected, and has posted these ids and no others.
  pub record IsNumbered (p : Page x) : Type 0 where
    pub connected : p.port.connected ≡ true
    pub posted : ids p.port.posted ≡ numbered p.sequence

  numbered_next : (n : ℕ) → numbered (n + 1) ≡ numbered n ++ (event_id stream_id (n + 1) ∷ [])
  numbered_next n =
      let one_more : n + 1 ≡ suc n = omega arith in
      ap numbered one_more ∙ ap (λ m. numbered n ++ (event_id stream_id m ∷ [])) (sym one_more)

  send-ids :
      (type : Text) (payload : Fields) (id : Option Text) (port : Port)
      → port.connected ≡ true
      → ids (send type payload id port).posted ≡ ids port.posted ++ id_list (optional_id id)
  unfolding send message_of
  send-ids type payload id port h =
      rw h (ids-append port.posted _ ∙ ap (λ t. ids port.posted ++ t) (append-nil _))

  send-connected :
      (type : Text) (payload : Fields) (id : Option Text) (port : Port)
      → port.connected ≡ true
      → (send type payload id port).connected ≡ true
  unfolding send
  send-connected type payload id port h = rw h refl

  post-IsNumbered :
      (type : Text) (payload : Fields) (p : Page x)
      → IsNumbered p
      → IsNumbered (record p { port = send type payload none p.port })
  unfolding optional_id
  post-IsNumbered type payload p n = record {
    connected = send-connected type payload none p.port n.connected;
    posted = send-ids type payload none p.port n.connected ∙ append-nil _ ∙ n.posted;
  }

  stream_event-IsNumbered :
      (type : Text) (payload : Fields) (p : Page x)
      → IsNumbered p
      → IsNumbered (send_terminal_stream_event x shown stream_id type payload p)
  unfolding send_terminal_stream_event
  stream_event-IsNumbered type payload p n =
      let id = some (event_id stream_id (p.sequence + 1)) in
      record {
        connected = send-connected type (with_stream_id stream_id payload) id p.port n.connected;
        posted =
            send-ids type (with_stream_id stream_id payload) id p.port n.connected
            ∙ ap (λ o. ids p.port.posted ++ id_list o)
                (optional-event_id stream_id (p.sequence + 1))
            ∙ ap (λ t. t ++ (event_id stream_id (p.sequence + 1) ∷ [])) n.posted
            ∙ sym (numbered_next p.sequence);
      }

  hear-IsNumbered :
      (notice : Notice) (p : Page x) → IsNumbered p → IsNumbered (hear x shown stream_id notice p)
  unfolding hear
  hear-IsNumbered (input_data text) p n =
      stream_event-IsNumbered (codes "terminal.input") (field (codes "data") (string text) end) p n
  hear-IsNumbered (resized columns rows) p n = post-IsNumbered _ _ p n

  hear_all-IsNumbered :
      (notices : List Notice) (p : Page x)
      → IsNumbered p
      → IsNumbered (hear_all x shown stream_id notices p)
  unfolding hear_all
  hear_all-IsNumbered [] p n = n
  hear_all-IsNumbered (notice ∷ notices) p n =
      hear_all-IsNumbered notices (hear x shown stream_id notice p) (hear-IsNumbered notice p n)

  pub moved-IsNumbered :
      (p : Page x) (state : x.State) → IsNumbered p → IsNumbered (record p { terminal = state })
  moved-IsNumbered p state n = record { connected = n.connected; posted = n.posted }

  answer-IsNumbered :
      (r : Request) (p : Page x) → IsNumbered p → IsNumbered (answer x shown stream_id r p)
  unfolding answer perform refuse
  answer-IsNumbered (asks c) p n =
      let after = run_command x shown stream_id c p.terminal in
      hear_all-IsNumbered after.1 (record p { terminal = after.0 }) (moved-IsNumbered p after.0 n)
  answer-IsNumbered (refused why) p n = post-IsNumbered _ _ p n

  pub event-IsNumbered :
      (e : PageEvent x shown stream_id) (p : Page x)
      → IsNumbered p
      → IsNumbered (on_page_event x shown stream_id e p)
  unfolding on_page_event receive on_copy on_paste handle_focus_changed become_ready
  event-IsNumbered ready p n = post-IsNumbered _ _ p n
  event-IsNumbered pastes p n = stream_event-IsNumbered (codes "terminal.pasteRequest") end p n
  event-IsNumbered (arrives raw_message) p n = answer-IsNumbered (request_of_value raw_message) p n
  event-IsNumbered (tells state notices) p n =
      hear_all-IsNumbered notices (record p { terminal = state }) (moved-IsNumbered p state n)
  event-IsNumbered (copies selection) p n =
      stream_event-IsNumbered (codes "terminal.copySelection")
        (field (codes "text") (string selection) end) p n
  event-IsNumbered (focuses focused) p n = post-IsNumbered _ _ p n

  -- When a connected page has posted the ids of its stream events, from the first to the last, each
  -- once and in order, and no other id, the same holds after whatever happens to it, in whatever
  -- order.
  pub on_page_events-IsNumbered :
      (es : List (PageEvent x shown stream_id)) (p : Page x)
      → IsNumbered p
      → IsNumbered (on_page_events x shown stream_id es p)
  unfolding on_page_events
  on_page_events-IsNumbered [] p n = n
  on_page_events-IsNumbered (e ∷ es) p n =
      on_page_events-IsNumbered es (on_page_event x shown stream_id e p) (event-IsNumbered e p n)
