-- ===== src/Terminal/Tests.antt =====
-- Runs of the terminal's page, and its theorems at concrete inputs.
use code_roam.Prelude.{ℕ, pos, ◌≡◌, refl, ◌↔◌, true, List, [], ◌∷◌, ◌++◌, none, length, arith}
use code_roam.Js.{Value, number, integer, end, field}
use code_roam.Js.Strings.{Text, codes}
use code_roam.Bridge.{Shown, shows}
use code_roam.Bridge.Decoding.{flutter_message}
use code_roam.Terminal.{
  input_data, resized, Commands, Page, resize_to, request_of_value, asks, PageEvent, ready, tells,
  arrives, copies, pastes, on_page_events,
}
use code_roam.Terminal.Numbered.{IsNumbered, on_page_events-IsNumbered}
use code_roam.Terminal.Receive.{AsksFor, request_iff}
use code_roam.Terminal.StreamId.{create_terminal_input_stream_id, stream_id_lem}

-- A terminal that keeps what was written; it tells its listeners what was pasted, and its size.
abbrev screen : Commands
screen = record {
  State = List Text;
  write = λ text s. (s ++ (text ∷ []), []);
  focus = λ s. (s, []);
  clear = λ s. ([], []);
  paste = λ text s. (s, input_data text ∷ []);
  resize = λ columns rows s. (s, resized columns rows ∷ []);
}

abbrev show_value : Value → Shown
show_value v = shows (codes "?")

abbrev stream : Text
stream = codes "s1"

abbrev blank_page : Page screen
blank_page = record {
  port = record { connected = true; posted = [] };
  terminal = codes "ready" ∷ [];
  sequence = 4;
}

abbrev resize_value : Value
resize_value =
    flutter_message (codes "terminal.resize")
      (field (codes "columns") (number (integer (pos 80)))
        (field (codes "rows") (number (integer (pos 24))) end))
      none

request_iff_example :
    (request_of_value resize_value ≡ asks (resize_to (pos 80) (pos 24)))
    ↔ AsksFor resize_value (resize_to (pos 80) (pos 24))
request_iff_example = request_iff resize_value (resize_to (pos 80) (pos 24))

abbrev first_words : List ℕ
first_words = 1 ∷ 2 ∷ 3 ∷ 0xffffffff ∷ []

abbrev other_words : List ℕ
other_words = 1 ∷ 2 ∷ 3 ∷ 4 ∷ []

stream_id_lem_example :
    (length (create_terminal_input_stream_id none first_words) ≡ 32)
    × (create_terminal_input_stream_id none first_words
          ≡ create_terminal_input_stream_id none other_words
        → first_words ≡ other_words)
stream_id_lem_example =
    stream_id_lem 1 2 3 0xffffffff other_words
      (omega arith, (omega arith, (omega arith, (omega arith, tt))))
      (omega arith, (omega arith, (omega arith, (omega arith, tt)))) refl

abbrev fresh_page : Page screen
fresh_page = record { port = record { connected = true; posted = [] }; terminal = []; sequence = 0 }

abbrev day : List (PageEvent screen show_value stream)
day =
    ready
    ∷ tells [] (input_data (codes "ls") ∷ resized (pos 80) (pos 24) ∷ [])
    ∷ arrives resize_value
    ∷ copies (codes "a.txt")
    ∷ pastes
    ∷ []

on_page_events-IsNumbered_example :
    IsNumbered screen show_value stream (on_page_events screen show_value stream day fresh_page)
on_page_events-IsNumbered_example =
    on_page_events-IsNumbered screen show_value stream day fresh_page
      (record { connected = refl; posted = refl })
