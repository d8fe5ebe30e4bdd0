-- ===== src/Editor/Page/Receive.antt =====
-- What a message from Flutter does to the editor, for every value that can arrive.
use code_roam.Prelude.{ℤ, Option, none, some, ◌≡◌, refl, ◌⊎◌, inl, inr, >>=-eq-some, if-cases}
use code_roam.Js.{
  Value, string, number, integer, Fields, end, field, get, as_string, as_integer, as_string_lem,
  as_integer_lem,
}
use code_roam.Js.Strings.{Text, codes, text_eq, text_eq→eq}
use code_roam.Bridge.{Shown, BridgeMessage, Result, ok, throw, decode_bridge_message, send}
use code_roam.Bridge.Decoding.{IsMessage, decode_iff}
use code_roam.Editor.Page.Performed.{IsRun, run-IsRun}
use code_roam.Editor.Page.{
  View, EditorPage, EditorCommand, set_document, focus_editor, undo_edit, redo_edit, open_search,
  get_state, set_selection, EditorRefused, undecoded, EditorRequest, wants, rejected, wanted,
  document_request, selection_request, editor_request, editor_request_of_value, rejection_text,
  reply, editor_receive,
}

-- A document needs its language too, which the command does not keep.
pub record SetsDocument (f : Fields) (c : EditorCommand) : Type 0 where
  pub content : Text
  pub language : Text
  pub has_content : get (codes "content") f ≡ string content
  pub has_language : get (codes "language") f ≡ string language
  pub command : c ≡ set_document content

pub record SetsSelection (f : Fields) (c : EditorCommand) : Type 0 where
  pub anchor : ℤ
  pub head : ℤ
  pub has_anchor : get (codes "anchor") f ≡ number (integer anchor)
  pub has_head : get (codes "head") f ≡ number (integer head)
  pub command : c ≡ set_selection anchor head

-- The messages that ask for a command.
pub data AcceptsEdit (m : BridgeMessage) (c : EditorCommand) : Type 0 where
  a_document : m.type ≡ codes "editor.setDocument" → SetsDocument m.payload c → AcceptsEdit m c
  a_focus : m.type ≡ codes "editor.focus" → c ≡ focus_editor → AcceptsEdit m c
  an_undo : m.type ≡ codes "editor.undo" → c ≡ undo_edit → AcceptsEdit m c
  a_redo : m.type ≡ codes "editor.redo" → c ≡ redo_edit → AcceptsEdit m c
  a_search : m.type ≡ codes "editor.openSearch" → c ≡ open_search → AcceptsEdit m c
  a_query : m.type ≡ codes "editor.getState" → c ≡ get_state m.id → AcceptsEdit m c
  a_selection : m.type ≡ codes "editor.setSelection" → SetsSelection m.payload c → AcceptsEdit m c

some_eq : {a b : EditorCommand} → some a ≡ some b → b ≡ a
some_eq h = cc

wants_eq : {a b : EditorCommand} → wants a ≡ wants b → b ≡ a
wants_eq h = cc

wanted_sound :
    (o : Option EditorCommand) (why : EditorRefused) {c : EditorCommand}
    → wanted o why ≡ wants c
    → o ≡ some c
unfolding wanted
wanted_sound none why h = cc
wanted_sound (some d) why h = cc

document_sound : (f : Fields) (c : EditorCommand) → document_request f ≡ some c → SetsDocument f c
unfolding document_request
document_sound f c h =
    let (content, found, rest) = >>=-eq-some (as_string (get (codes "content") f)) _ h in
    let (language, spoken, same) = >>=-eq-some (as_string (get (codes "language") f)) _ rest in
    record {
      content = content;
      language = language;
      has_content = as_string_lem _ found;
      has_language = as_string_lem _ spoken;
      command = some_eq same;
    }

selection_sound :
    (f : Fields) (c : EditorCommand) → selection_request f ≡ some c → SetsSelection f c
unfolding selection_request
selection_sound f c h =
    let (anchor, found, rest) = >>=-eq-some (as_integer (get (codes "anchor") f)) _ h in
    let (head, found', same) = >>=-eq-some (as_integer (get (codes "head") f)) _ rest in
    record {
      anchor = anchor;
      head = head;
      has_anchor = as_integer_lem _ found;
      has_head = as_integer_lem _ found';
      command = some_eq same;
    }

edit_sound : (m : BridgeMessage) (c : EditorCommand) → editor_request m ≡ wants c → AcceptsEdit m c
unfolding editor_request
edit_sound m c h = elim (if-cases (text_eq m.type (codes "editor.setDocument")) _ _ h) [
  | inl (w, r) ↦ a_document (text_eq→eq _ _ w) (document_sound _ c (wanted_sound _ _ r))
  | inr (_, h) ↦ elim (if-cases (text_eq m.type (codes "editor.focus")) _ _ h) [
    | inl (w, r) ↦ a_focus (text_eq→eq _ _ w) (wants_eq r)
    | inr (_, h) ↦ elim (if-cases (text_eq m.type (codes "editor.undo")) _ _ h) [
      | inl (w, r) ↦ an_undo (text_eq→eq _ _ w) (wants_eq r)
      | inr (_, h) ↦ elim (if-cases (text_eq m.type (codes "editor.redo")) _ _ h) [
        | inl (w, r) ↦ a_redo (text_eq→eq _ _ w) (wants_eq r)
        | inr (_, h) ↦ elim (if-cases (text_eq m.type (codes "editor.openSearch")) _ _ h) [
          | inl (w, r) ↦ a_search (text_eq→eq _ _ w) (wants_eq r)
          | inr (_, h) ↦ elim (if-cases (text_eq m.type (codes "editor.getState")) _ _ h) [
            | inl (w, r) ↦ a_query (text_eq→eq _ _ w) (wants_eq r)
            | inr (_, h) ↦ elim (if-cases (text_eq m.type (codes "editor.setSelection")) _ _ h) [
              | inl (w, r) ↦
                  a_selection (text_eq→eq _ _ w) (selection_sound _ c (wanted_sound _ _ r))
              | inr (_, h) ↦ cc
            ]
          ]
        ]
      ]
    ]
  ]
]

edit_complete :
    (m : BridgeMessage) (c : EditorCommand) → AcceptsEdit m c → editor_request m ≡ wants c
unfolding editor_request wanted document_request selection_request text_eq
edit_complete m c (a_document t d) = rw (t, d.has_content, d.has_language, d.command) refl
edit_complete m c (a_focus t h) = rw (t, h) refl
edit_complete m c (an_undo t h) = rw (t, h) refl
edit_complete m c (a_redo t h) = rw (t, h) refl
edit_complete m c (a_search t h) = rw (t, h) refl
edit_complete m c (a_query t h) = rw (t, h) refl
edit_complete m c (a_selection t s) = rw (t, s.has_anchor, s.has_head, s.command) refl

-- A value that asks for a command: it decodes to a message that the editor accepts.
pub record AsksEditor (raw : Value) (c : EditorCommand) : Type 0 where
  pub message : BridgeMessage
  pub decoded : IsMessage raw message
  pub accepted : AcceptsEdit message c

decoding_cases :
    (r : Result BridgeMessage) {c : EditorCommand}
    → elim r [ throw e ↦ rejected (undecoded e) | ok m ↦ editor_request m ] ≡ wants c
    → (m : BridgeMessage) × (r ≡ ok m) × (editor_request m ≡ wants c)
decoding_cases (throw e) h = cc
decoding_cases (ok m) h = (m, refl, h)

edit_asks_sound :
    (raw : Value) (c : EditorCommand) → editor_request_of_value raw ≡ wants c → AsksEditor raw c
unfolding editor_request_of_value
edit_asks_sound raw c h =
    let (m, same, asked) = decoding_cases (decode_bridge_message raw) h in
    record { message = m; decoded = (decode_iff raw m).0 same; accepted = edit_sound m c asked }

edit_asks_complete :
    (raw : Value) (c : EditorCommand) → AsksEditor raw c → editor_request_of_value raw ≡ wants c
unfolding editor_request_of_value
edit_asks_complete raw c a =
    rw ((decode_iff raw a.message).1 a.decoded, editor_request_of_value)
      (edit_complete a.message c a.accepted)

request_split :
    (r : EditorRequest)
    → ((c : EditorCommand) × (r ≡ wants c)) ⊎ ((why : EditorRefused) × (r ≡ rejected why))
request_split (wants c) = inl (c, refl)
request_split (rejected why) = inr (why, refl)

no_edit :
    {raw : Value} (why : EditorRefused)
    → editor_request_of_value raw ≡ rejected why
    → (c : EditorCommand) → ¬ AsksEditor raw c
no_edit {raw} why h c a =
    let asked : editor_request_of_value raw ≡ wants c = edit_asks_complete raw c a in cc

module _ (v : View) (shown : Value → Shown) where
  -- One `editor.error` is sent, and nothing else changes.
  abbrev pub IsRejected : EditorPage v → EditorPage v → Type 0
  IsRejected p p' =
      (text : Text) × (p' ≡ record p {
        port = send (codes "editor.error") (field (codes "message") (string text) end) none p.port;
      })

  -- Every value that Flutter sends is either a command of the editor or no command at all. A command
  -- is a message of the protocol of one of the seven types; `editor.setDocument` has a string as its
  -- content and one as its language, and `editor.setSelection` integers as its anchor and head. For
  -- a command the view is called: to replace its whole document by the content, to be focused, to
  -- undo, to redo, to open the search, or to select between the places of the document that are
  -- nearest to anchor and head; the listener is told the updates of the call, and then the length
  -- of the content, or the state that was asked for, is sent, and nothing else. Without a command
  -- the editor stays as it is and one `editor.error` is sent.
  pub editor_receive_cases :
      (raw : Value) (p : EditorPage v)
      → ((c : EditorCommand) × AsksEditor raw c × IsRun v shown c p (editor_receive v shown raw p))
        ⊎ (((c : EditorCommand) → ¬ AsksEditor raw c) × IsRejected p (editor_receive v shown raw p))
  unfolding editor_receive reply
  editor_receive_cases raw p = elim (request_split (editor_request_of_value raw)) [
    | inl (c, asked) ↦ inl (c, edit_asks_sound raw c asked, rw asked (run-IsRun v shown c p))
    | inr (why, denied) ↦ inr (no_edit why denied, (rejection_text v shown why, rw denied refl))
  ]
