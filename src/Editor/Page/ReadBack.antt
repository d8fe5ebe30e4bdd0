-- ===== src/Editor/Page/ReadBack.antt =====
-- A document that is set and read back.
use code_roam.Prelude.{Option, ◌≡◌, refl, ap, ◌∙◌}
use code_roam.Js.{Value, string, object, number, integer, boolean, Fields, end, field}
use code_roam.Js.Strings.{Text, codes}
use code_roam.Bridge.{Shown, send}
use code_roam.Editor.Page.{
  View, EditorPage, set_document, get_state, wants, editor_request_of_value, run, reply, send_state,
  editor_receive, after_updates,
}
use code_roam.Editor.Page.Length.{normalised}

-- What CodeMirror documents of the text of a document: its lines, joined by LF.
pub record KeepsLines (v : View) : Type 0 where
  pub replaced_document :
      (t : Text) (s : v.State)
      → v.document (v.replace_annotated 0 (v.document_length s) t s).0 ≡ normalised t

module _ (v : View) (shown : Value → Shown) (law : KeepsLines v) where
  abbrev rest_of : v.State → Fields
  rest_of s =
      field (codes "selection")
        (object (
          field (codes "anchor") (number (integer (v.anchor s)))
            (field (codes "head") (number (integer (v.head s))) end)))
        (field (codes "focused") (boolean (v.has_focus s)) end)

  abbrev answered : Option Text → Text → EditorPage v → EditorPage v
  answered id content p = record p {
    port =
        send (codes "editor.state") (field (codes "content") (string content) (rest_of p.editor)) id
          p.port;
  }

  receive-answered :
      (query : Value) (id : Option Text) (p : EditorPage v)
      → editor_request_of_value query ≡ wants (get_state id)
      → editor_receive v shown query p ≡ answered id (v.document p.editor) p
  unfolding editor_receive reply run send_state
  receive-answered query id p asked = rw asked refl

  document-receive :
      (raw : Value) (content : Text) (p : EditorPage v)
      → editor_request_of_value raw ≡ wants (set_document content)
      → v.document (editor_receive v shown raw p).editor ≡ normalised content
  unfolding editor_receive reply run after_updates
  document-receive raw content p asked = rw asked (law.replaced_document content p.editor)

  -- After a document is received, a request for the editor's state is answered under its own id
  -- with the content that was received, its line breaks as LF, and changes nothing else.
  pub receive-receive :
      (raw query : Value) (content : Text) (id : Option Text) (p : EditorPage v)
      → editor_request_of_value raw ≡ wants (set_document content)
      → editor_request_of_value query ≡ wants (get_state id)
      → let p' = editor_receive v shown raw p in
        (rest : Fields) × (editor_receive v shown query p' ≡ record p' {
          port =
              send
                (codes "editor.state")
                (field (codes "content") (string (normalised content)) rest)
                id
                p'.port;
        })
  receive-receive raw query content id p asked asked' =
      let p' = editor_receive v shown raw p in
      (
        rest_of p'.editor,
        receive-answered query id p' asked'
            ∙ ap (λ text. answered id text p') (document-receive raw content p asked),
      )
