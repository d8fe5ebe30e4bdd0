-- ===== src/Terminal.antt =====
-- webview/terminal/src/main.ts: the terminal's side of the bridge.
pub mod StreamId
pub mod Receive
pub mod PasteBack
pub mod Stream
pub mod Numbered
pub mod Performed
pub mod Whole
pub mod Lifecycle
mod Tests
use code_roam.Prelude.{
  ℕ, suc, ◌+◌, ℤ, pos, leb_ℤ, Bool, true, false, ◌&&◌, List, [], ◌∷◌, ◌++◌, Option, none, some,
  if◌then◌else◌, ◌>>=◌,
}
use code_roam.Js.{
  Value, string, number, integer, boolean, Fields, end, field, get, as_string, as_integer,
}
use code_roam.Js.Strings.{Text, codes, text_eq}
use code_roam.Js.Numerals.{number_text}
use code_roam.Selection.Clipboard.{bounded_terminal_clipboard_text}
use code_roam.Bridge.{
  Shown, BridgeMessage, DecodeError, Result, ok, throw, decode_bridge_message, error_text, Port,
  send,
}

-- What the terminal tells its listeners during a call, in order.
pub data Notice : Type 0 where
  input_data : Text → Notice
  resized : ℤ → ℤ → Notice

-- xterm's terminal, which this code only calls: each call gives the terminal after it and what
-- its listeners are told on the way.
pub record Commands : Type 1 where
  pub State : Type 0
  pub write : Text → State → State × List Notice
  pub focus : State → State × List Notice
  pub clear : State → State × List Notice
  pub paste : Text → State → State × List Notice
  pub resize : ℤ → ℤ → State → State × List Notice

-- The page: the channel to Flutter, the terminal, and the number of the last stream event.
pub record Page (x : Commands) : Type 0 where
  pub port : Port
  pub terminal : x.State
  pub sequence : ℕ

-- `{ ...payload, streamId }`; no payload here has that property yet.
with_stream_id : Text → Fields → Fields
with_stream_id stream_id end = field (codes "streamId") (string stream_id) end
with_stream_id stream_id (field key v rest) = field key v (with_stream_id stream_id rest)

-- `${terminalInputStreamId}:${terminalStreamEventSequence}`
pub event_id : Text → ℕ → Text
event_id stream_id n = stream_id ++ (codes ":" ++ number_text 10 n)

unfoldable pub is_terminal_dimension : Value → ℤ → Option ℤ
is_terminal_dimension value minimum = do
  n ← as_integer value
  if leb_ℤ minimum n && leb_ℤ n (pos 1000) then some n else none

-- What a message asks of the terminal.
pub data Command : Type 0 where
  write_text paste_text : Text → Command
  focus_terminal clear_terminal : Command
  resize_to : ℤ → ℤ → Command

-- Why a message is refused.
pub data Refused : Type 0 where
  write_needs_data paste_needs_data resize_needs_size : Refused
  unknown_type : Text → Refused
  not_decoded : DecodeError → Refused

pub data Request : Type 0 where
  asks : Command → Request
  refused : Refused → Request

-- The `case` of a message type, up to the call of the terminal.
asked : Option Command → Refused → Request
asked none why = refused why
asked (some c) why = asks c

write_request : Fields → Option Command
write_request payload = do
  data_text ← as_string (get (codes "data") payload)
  some (write_text data_text)

paste_request : Fields → Option Command
paste_request payload = do
  data_text ← bounded_terminal_clipboard_text (get (codes "data") payload)
  some (paste_text data_text)

resize_request : Fields → Option Command
resize_request payload = do
  columns ← is_terminal_dimension (get (codes "columns") payload) (pos 2)
  rows ← is_terminal_dimension (get (codes "rows") payload) (pos 1)
  some (resize_to columns rows)

-- The `switch` over `message.type`.
pub request_of_message : BridgeMessage → Request
unfolding asked write_request paste_request resize_request
request_of_message m =
    if text_eq m.type (codes "terminal.write")
    then asked (write_request m.payload) write_needs_data
    else if text_eq m.type (codes "terminal.focus")
    then asks focus_terminal
    else if text_eq m.type (codes "terminal.clear")
    then asks clear_terminal
    else if text_eq m.type (codes "terminal.paste")
    then asked (paste_request m.payload) paste_needs_data
    else if text_eq m.type (codes "terminal.resize")
    then asked (resize_request m.payload) resize_needs_size
    else refused (unknown_type m.type)

pub request_of_value : Value → Request
request_of_value raw_message = elim (decode_bridge_message raw_message) [
  | throw e ↦ refused (not_decoded e)
  | ok m ↦ request_of_message m
]

module _ (x : Commands) (shown : Value → Shown) (stream_id : Text) where
  abbrev P : Type 0
  P = Page x

  abbrev post : Text → Fields → P → P
  post type payload p = record p { port = send type payload none p.port }

  -- `sendTerminalStreamEvent(type, payload)`
  unfoldable pub send_terminal_stream_event : Text → Fields → P → P
  unfolding with_stream_id event_id
  send_terminal_stream_event type payload p =
      let sequence = p.sequence + 1 in
      record p {
        sequence = sequence;
        port =
            send type (with_stream_id stream_id payload) (some (event_id stream_id sequence))
              p.port;
      }

  -- The listeners `terminal.onData` and `terminal.onResize`.
  pub hear : Notice → P → P
  unfolding send_terminal_stream_event
  hear (input_data text) p =
      send_terminal_stream_event (codes "terminal.input") (field (codes "data") (string text) end) p
  hear (resized columns rows) p =
      post (codes "terminal.resized")
        (field (codes "columns") (number (integer columns))
          (field (codes "rows") (number (integer rows)) end))
        p

  pub hear_all : List Notice → P → P
  unfolding hear
  hear_all [] p = p
  hear_all (n ∷ notices) p = hear_all notices (hear n p)

  -- The handlers of a copy and a paste from the selection's toolbar, and of the focus.
  unfoldable pub on_copy : Text → P → P
  on_copy selection p =
      send_terminal_stream_event (codes "terminal.copySelection")
        (field (codes "text") (string selection) end) p

  unfoldable pub on_paste : P → P
  on_paste p = send_terminal_stream_event (codes "terminal.pasteRequest") end p

  unfoldable pub handle_focus_changed : Bool → P → P
  handle_focus_changed focused p =
      post (codes "terminal.focusChanged") (field (codes "focused") (boolean focused) end) p

  run_command : Command → x.State → x.State × List Notice
  run_command (write_text text) s = x.write text s
  run_command (paste_text text) s = x.paste text s
  run_command focus_terminal s = x.focus s
  run_command clear_terminal s = x.clear s
  run_command (resize_to columns rows) s = x.resize columns rows s

  pub perform : Command → P → P
  unfolding run_command hear_all
  perform c p =
      let (s, notices) = run_command c p.terminal in hear_all notices (record p { terminal = s })

  pub refusal_text : Refused → Text
  refusal_text write_needs_data = codes "terminal.write requires string data."
  refusal_text paste_needs_data = codes "terminal.paste requires bounded, non-empty string data."
  refusal_text resize_needs_size =
      codes "terminal.resize requires bounded integer columns and rows."
  refusal_text (unknown_type type) = codes "Unknown Flutter message type: " ++ type
  refusal_text (not_decoded e) = error_text shown e

  -- `send("terminal.error", { message })`
  pub refuse : Refused → P → P
  unfolding refusal_text
  refuse why p =
      post (codes "terminal.error") (field (codes "message") (string (refusal_text why)) end) p

  answer : Request → P → P
  unfolding perform refuse
  answer (asks c) p = perform c p
  answer (refused why) p = refuse why p

  -- `window.CodeRoamTerminalReceive(rawMessage)`
  pub receive : Value → P → P
  unfolding answer request_of_value
  receive raw_message p = answer (request_of_value raw_message) p

  -- `send("terminal.ready", { streamId: terminalInputStreamId })`, at the end of the script
  unfoldable pub become_ready : P → P
  become_ready p = post (codes "terminal.ready") (field (codes "streamId") (string stream_id) end) p

  -- What happens to the page: a value arrives from Flutter, the terminal tells its listeners
  -- something, the selection's controls report a copy or a paste, or the focus changes.
  pub data PageEvent : Type 0 where
    ready pastes : PageEvent
    arrives : Value → PageEvent
    tells : x.State → List Notice → PageEvent
    copies : Text → PageEvent
    focuses : Bool → PageEvent

  unfoldable pub on_page_event : PageEvent → P → P
  unfolding receive hear_all on_copy on_paste handle_focus_changed become_ready
  on_page_event ready p = become_ready p
  on_page_event pastes p = on_paste p
  on_page_event (arrives raw_message) p = receive raw_message p
  on_page_event (tells state notices) p = hear_all notices (record p { terminal = state })
  on_page_event (copies selection) p = on_copy selection p
  on_page_event (focuses focused) p = handle_focus_changed focused p

  unfoldable pub on_page_events : List PageEvent → P → P
  unfolding on_page_event
  on_page_events [] p = p
  on_page_events (e ∷ es) p = on_page_events es (on_page_event e p)
