-- ===== src/Editor/Page/Tests.antt =====
-- Runs of the editor's page, and its theorems at concrete inputs.
mod Account
use code_roam.Prelude.{
  ℕ, pos, ◌≤ℤ◌, ◌+◌, ◌≡◌, refl, Bool, true, false, not, ◌&&◌, [], ◌∷◌, none, length, if◌then◌else◌,
}
use code_roam.Js.{Value, Fields, string, end, field, get}
use code_roam.Js.Strings.{Text, codes, text_eq, is_space}
use code_roam.Bridge.{Shown, shows, Port, ok, message_of, optional_id, decode_bridge_message}
use code_roam.Bridge.Decoding.{flutter_message, decode-flutter_message}
use code_roam.Editor.Page.Receive.{AsksEditor, IsRejected, editor_receive_cases}
use code_roam.Editor.Page.Length.{normalised, crlf_count, CountsLines, document_set_length}
use code_roam.Prelude.{◌⊎◌, some}
use code_roam.Editor.Page.ReadBack.{receive-receive}
use code_roam.Editor.Page.{get_state}
use code_roam.Js.{number, integer}
use code_roam.Bridge.{send}
use code_roam.Editor.Page.Performed.{IsRun}
use code_roam.Editor.Page.{EditorCommand}
use code_roam.Editor.Page.{
  Update, View, EditorPage, is_replacement, on_update, set_document, wants, editor_request_of_value,
  editor_receive, safe_position,
}
use code_roam.Editor.Page.Echo.{changes_sent, receive-no_echo}

-- An update that replaces a document of `old` units by one of `new`.
abbrev replaced : Bool → ℕ → ℕ → Update
replaced annotated old new = record {
  doc_changed = true;
  annotations = annotated ∷ [];
  changes = record { from_a = pos 0; to_a = pos old; inserted_length = pos new } ∷ [];
  document_length = new;
  selection_set = true;
  anchor = pos 0;
  head = pos 0;
  focus_changed = false;
  has_focus = false;
}

-- A view that holds its text, with one LF for each line break, and tells one update for a
-- replacement.
abbrev notepad : View
notepad = record {
  State = Text;
  document = λ s. s;
  document_length = λ s. length s;
  anchor = λ s. pos 0;
  head = λ s. pos 0;
  has_focus = λ s. false;
  replace_annotated =
      λ from to t s. (normalised t, replaced true (length s) (length (normalised t)) ∷ []);
  select = λ anchor head s. (s, []);
  focus = λ s. (s, []);
  undo = λ s. (s, []);
  redo = λ s. (s, []);
  open_search_panel = λ s. (s, []);
}

abbrev port : Port
port = record { connected = true; posted = [] }

abbrev page : EditorPage notepad
page = record { port = port; editor = codes "old" }

abbrev show_value : Value → Shown
show_value v = shows (codes "?")

abbrev document_fields : Fields
document_fields =
    field (codes "content") (string (codes "let x"))
      (field (codes "language") (string (codes "typescript")) end)

abbrev document_value : Value
document_value = flutter_message (codes "editor.setDocument") document_fields none

decoded :
    decode_bridge_message document_value
    ≡ ok (message_of (codes "editor.setDocument") document_fields none)
unfolding is_space message_of optional_id
decoded = decode-flutter_message (codes "editor.setDocument") document_fields none refl

asks_document : editor_request_of_value document_value ≡ wants (set_document (codes "let x"))
unfolding editor_request_of_value message_of text_eq get
asks_document = rw (decoded, editor_request_of_value) refl

receive-no_echo_example :
    changes_sent (editor_receive notepad show_value document_value page).port.posted
    ≡ changes_sent page.port.posted
receive-no_echo_example =
    receive-no_echo notepad show_value (λ from to t s. (refl, tt)) document_value (codes "let x")
      page asks_document

editor_receive_cases_example :
    ((c : EditorCommand) × AsksEditor document_value c
      × IsRun notepad show_value c page (editor_receive notepad show_value document_value page))
    ⊎ (((c : EditorCommand) → ¬ AsksEditor document_value c)
        × IsRejected notepad show_value page
            (editor_receive notepad show_value document_value page))
editor_receive_cases_example = editor_receive_cases notepad show_value document_value page

notepad-CountsLines : CountsLines notepad
notepad-CountsLines = record { replaced_length = λ t s. refl }

abbrev windows_text : Text
windows_text = b'a' ∷ 13 ∷ 10 ∷ b'b' ∷ []

abbrev windows_fields : Fields
windows_fields =
    field (codes "content") (string windows_text)
      (field (codes "language") (string (codes "text")) end)

abbrev windows_value : Value
windows_value = flutter_message (codes "editor.setDocument") windows_fields none

windows_decoded :
    decode_bridge_message windows_value
    ≡ ok (message_of (codes "editor.setDocument") windows_fields none)
unfolding is_space message_of optional_id
windows_decoded = decode-flutter_message (codes "editor.setDocument") windows_fields none refl

asks_windows : editor_request_of_value windows_value ≡ wants (set_document windows_text)
unfolding editor_request_of_value message_of text_eq get
asks_windows = rw (windows_decoded, editor_request_of_value) refl

document_set_length_example :
    let p' = editor_receive notepad show_value windows_value page in
    (reported : ℕ) × (before : Port) × (p'.port
      ≡ send
          (codes "editor.documentSet")
          (field (codes "documentLength") (number (integer (pos reported))) end)
          none
          before)
    × (reported ≡ notepad.document_length p'.editor + crlf_count windows_text)
document_set_length_example =
    document_set_length notepad show_value notepad-CountsLines windows_value windows_text page
      asks_windows

abbrev query_value : Value
query_value = flutter_message (codes "editor.getState") end (some (codes "7"))

query_decoded :
    decode_bridge_message query_value
    ≡ ok (message_of (codes "editor.getState") end (some (codes "7")))
unfolding is_space message_of optional_id
query_decoded = decode-flutter_message (codes "editor.getState") end (some (codes "7")) refl

asks_query : editor_request_of_value query_value ≡ wants (get_state (some (codes "7")))
unfolding editor_request_of_value message_of text_eq optional_id
asks_query = rw (query_decoded, editor_request_of_value) refl

receive-receive_example :
    let p' = editor_receive notepad show_value windows_value page in
    (rest : Fields) × (editor_receive notepad show_value query_value p' ≡ record p' {
      port =
          send
            (codes "editor.state")
            (field (codes "content") (string (normalised windows_text)) rest)
            (some (codes "7"))
            p'.port;
    })
receive-receive_example =
    receive-receive notepad show_value (record { replaced_document = λ t s. refl }) windows_value
      query_value windows_text (some (codes "7")) page asks_windows asks_query
