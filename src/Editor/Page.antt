-- ===== src/Editor/Page.antt =====
-- webview/editor/src/main.ts: the editor's side of the bridge.
pub mod Echo
pub mod Performed
pub mod Receive
pub mod Length
pub mod Account
pub mod ReadBack
mod Tests
use code_roam.Prelude.{
  ℕ, ℤ, pos, ◌+ℤ◌, ◌-ℤ◌, leb_ℤ, Bool, true, false, not, ◌&&◌, List, [], ◌∷◌, ◌++◌, Option, none,
  some, if◌then◌else◌, ◌>>=◌, length, any,
}
use code_roam.Js.{
  Value, string, number, integer, boolean, object, Fields, end, field, get, as_string, as_integer,
}
use code_roam.Js.Strings.{Text, codes, text_eq}
use code_roam.Selection.Coordinates.{min, max}
use code_roam.Bridge.{
  Shown, BridgeMessage, DecodeError, Result, ok, throw, decode_bridge_message, error_text, Port,
  send,
}

-- A change of an update, as `iterChanges` gives it: the range that it replaces in the document
-- before, and the length of what it inserts.
pub record Change : Type 0 where
  pub from_a : ℤ
  pub to_a : ℤ
  pub inserted_length : ℤ

-- What the update listener reads of CodeMirror's update; `annotations` says for each of its
-- transactions whether `flutterDocumentReplacement` is true.
pub record Update : Type 0 where
  pub doc_changed : Bool
  pub annotations : List Bool
  pub changes : List Change
  pub document_length : ℕ
  pub selection_set : Bool
  pub anchor : ℤ
  pub head : ℤ
  pub focus_changed : Bool
  pub has_focus : Bool

-- CodeMirror's view, which this code only calls: a call gives the view after it and the updates
-- that it tells the listener. `replace_annotated` dispatches one change with the annotation.
pub record View : Type 1 where
  pub State : Type 0
  pub document : State → Text
  pub document_length : State → ℕ
  pub anchor : State → ℤ
  pub head : State → ℤ
  pub has_focus : State → Bool
  pub replace_annotated : ℕ → ℕ → Text → State → State × List Update
  pub select : ℤ → ℤ → State → State × List Update
  pub focus : State → State × List Update
  pub undo : State → State × List Update
  pub redo : State → State × List Update
  pub open_search_panel : State → State × List Update

pub record EditorPage (v : View) : Type 0 where
  pub port : Port
  pub editor : v.State

abbrev number_field : Text → ℤ → Fields → Fields
number_field key n rest = field key (number (integer n)) rest

-- `deletedLength` and `insertedLength` after the changes.
deleted_length : List Change → ℤ
deleted_length [] = pos 0
deleted_length (c ∷ changes) = c.to_a -ℤ c.from_a +ℤ deleted_length changes

inserted_length : List Change → ℤ
inserted_length [] = pos 0
inserted_length (c ∷ changes) = c.inserted_length +ℤ inserted_length changes

abbrev pub is_replacement : Update → Bool
is_replacement u = any (λ annotation. annotation) u.annotations

report_change : Update → Port → Port
unfolding deleted_length inserted_length
report_change u port =
    if u.doc_changed && not (is_replacement u)
    then send (codes "editor.documentChanged")
        (number_field (codes "documentLength") (pos u.document_length) (
          number_field (codes "insertedLength") (inserted_length u.changes)
            (number_field (codes "deletedLength") (deleted_length u.changes) end)))
        none port
    else port

report_selection : Update → Port → Port
report_selection u port =
    if u.selection_set
    then send (codes "editor.selectionChanged")
        (number_field (codes "anchor") u.anchor (number_field (codes "head") u.head end)) none port
    else port

report_focus : Update → Port → Port
report_focus u port =
    if u.focus_changed
    then send (codes "editor.focusChanged") (field (codes "focused") (boolean u.has_focus) end) none
        port
    else port

-- The update listener.
unfoldable pub on_update : Update → Port → Port
unfolding report_change report_selection report_focus
on_update u port = report_focus u (report_selection u (report_change u port))

pub on_updates : List Update → Port → Port
unfolding on_update
on_updates [] port = port
on_updates (u ∷ updates) port = on_updates updates (on_update u port)

-- What a message asks of the editor, and why one is refused.
pub data EditorCommand : Type 0 where
  set_document : Text → EditorCommand
  focus_editor undo_edit redo_edit open_search : EditorCommand
  get_state : Option Text → EditorCommand
  set_selection : ℤ → ℤ → EditorCommand

pub data EditorRefused : Type 0 where
  needs_content_and_language needs_anchor_and_head : EditorRefused
  unknown_message : Text → EditorRefused
  undecoded : DecodeError → EditorRefused

pub data EditorRequest : Type 0 where
  wants : EditorCommand → EditorRequest
  rejected : EditorRefused → EditorRequest

wanted : Option EditorCommand → EditorRefused → EditorRequest
wanted none why = rejected why
wanted (some c) why = wants c

document_request : Fields → Option EditorCommand
document_request payload = do
  content ← as_string (get (codes "content") payload)
  language ← as_string (get (codes "language") payload)
  some (set_document content)

selection_request : Fields → Option EditorCommand
selection_request payload = do
  anchor ← as_integer (get (codes "anchor") payload)
  head ← as_integer (get (codes "head") payload)
  some (set_selection anchor head)

-- The `switch` over `message.type`.
pub editor_request : BridgeMessage → EditorRequest
unfolding wanted document_request selection_request
editor_request m =
    if text_eq m.type (codes "editor.setDocument")
    then wanted (document_request m.payload) needs_content_and_language
    else if text_eq m.type (codes "editor.focus")
    then wants focus_editor
    else if text_eq m.type (codes "editor.undo")
    then wants undo_edit
    else if text_eq m.type (codes "editor.redo")
    then wants redo_edit
    else if text_eq m.type (codes "editor.openSearch")
    then wants open_search
    else if text_eq m.type (codes "editor.getState")
    then wants (get_state m.id)
    else if text_eq m.type (codes "editor.setSelection")
    then wanted (selection_request m.payload) needs_anchor_and_head
    else rejected (unknown_message m.type)

pub editor_request_of_value : Value → EditorRequest
unfolding editor_request
editor_request_of_value raw_message = elim (decode_bridge_message raw_message) [
  | throw e ↦ rejected (undecoded e)
  | ok m ↦ editor_request m
]

-- `Math.max(0, Math.min(position, documentLength))`
pub safe_position : ℕ → ℤ → ℤ
safe_position document_length position =
    max leb_ℤ (pos 0) (min leb_ℤ position (pos document_length))

module _ (v : View) (shown : Value → Shown) where
  abbrev post_message : Text → Fields → Option Text → EditorPage v → EditorPage v
  post_message type payload id p = record p { port = send type payload id p.port }

  -- A call of the editor, with what its listener sends.
  after_updates : v.State × List Update → EditorPage v → EditorPage v
  unfolding on_updates
  after_updates (s, updates) p = record { port = on_updates updates p.port; editor = s }

  send_state : Option Text → EditorPage v → EditorPage v
  send_state id p =
      post_message (codes "editor.state")
        (field (codes "content") (string (v.document p.editor)) (
          field (codes "selection")
            (object (
              number_field (codes "anchor") (v.anchor p.editor)
                (number_field (codes "head") (v.head p.editor) end)))
            (field (codes "focused") (boolean (v.has_focus p.editor)) end)))
        id p

  pub run : EditorCommand → EditorPage v → EditorPage v
  unfolding after_updates send_state safe_position
  run (set_document content) p =
      post_message (codes "editor.documentSet")
        (number_field (codes "documentLength") (pos (length content)) end) none
        (after_updates (v.replace_annotated 0 (v.document_length p.editor) content p.editor) p)
  run focus_editor p = after_updates (v.focus p.editor) p
  run undo_edit p = after_updates (v.undo p.editor) p
  run redo_edit p = after_updates (v.redo p.editor) p
  run open_search p = after_updates (v.open_search_panel p.editor) p
  run (get_state id) p = send_state id p
  run (set_selection anchor head) p =
      let n = v.document_length p.editor in
      after_updates (v.select (safe_position n anchor) (safe_position n head) p.editor) p

  rejection_text : EditorRefused → Text
  rejection_text needs_content_and_language =
      codes "editor.setDocument requires string content and language."
  rejection_text needs_anchor_and_head =
      codes "editor.setSelection requires integer anchor and head."
  rejection_text (unknown_message type) = codes "Unknown Flutter message type: " ++ type
  rejection_text (undecoded e) = error_text shown e

  reply : EditorRequest → EditorPage v → EditorPage v
  unfolding run rejection_text
  reply (wants c) p = run c p
  reply (rejected why) p =
      post_message (codes "editor.error")
        (field (codes "message") (string (rejection_text why)) end) none p

  -- `window.CodeRoamEditorReceive(rawMessage)`
  pub editor_receive : Value → EditorPage v → EditorPage v
  unfolding reply editor_request_of_value
  editor_receive raw_message p = reply (editor_request_of_value raw_message) p

  -- `send("editor.ready")`, at the end of the script
  pub editor_ready : EditorPage v → EditorPage v
  editor_ready p = post_message (codes "editor.ready") end none p
