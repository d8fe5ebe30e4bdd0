-- ===== src/Editor/Page/Length.antt =====
-- The length that `editor.documentSet` reports, beside the length of the editor's document.
use code_roam.Prelude.{
  ℕ, ◌+◌, pos, ◌==◌, ◌≡◌, refl, Bool, ◌&&◌, none, [], ◌∷◌, length, arith, if◌then◌else◌,
}
use code_roam.Js.{Value, number, integer, end, field}
use code_roam.Js.Strings.{Text, codes}
use code_roam.Bridge.{Shown, Port, send}
use code_roam.Editor.Page.{
  View, EditorPage, set_document, wants, editor_request_of_value, on_updates, run, reply,
  editor_receive, after_updates,
}

abbrev pub is_crlf : ℕ → ℕ → Bool
is_crlf c d = c == 13 && d == 10

-- A text with each of its line breaks, CR LF, CR or LF, as one LF.
abbrev pub normalised : Text → Text
normalised [] = []
normalised (c ∷ []) = (if c == 13 then 10 else c) ∷ []
normalised (c ∷ d ∷ t) =
    let rest = normalised (d ∷ t) in
    if is_crlf c d then rest else (if c == 13 then 10 else c) ∷ rest

-- How many pairs CR LF a text has.
abbrev pub crlf_count : Text → ℕ
crlf_count [] = 0
crlf_count (c ∷ []) = 0
crlf_count (c ∷ d ∷ t) = (if is_crlf c d then 1 else 0) + crlf_count (d ∷ t)

pub length-normalised : (t : Text) → length (normalised t) + crlf_count t ≡ length t
length-normalised [] = omega arith
length-normalised (c ∷ []) = omega arith
length-normalised (c ∷ d ∷ t) = ground (arith, length-normalised (d ∷ t))

-- What CodeMirror documents of an inserted text: it is split into lines at CR LF, CR and LF, and
-- a break between lines counts as one in the length of the document.
pub record CountsLines (v : View) : Type 0 where
  pub replaced_length :
      (t : Text) (s : v.State)
      → v.document_length (v.replace_annotated 0 (v.document_length s) t s).0
        ≡ length (normalised t)

module _ (v : View) (shown : Value → Shown) (law : CountsLines v) where
  -- After a document is received, `editor.documentSet` reports the length of the content that
  -- Flutter sent, which is that of the editor's document and one more for each pair CR LF.
  pub document_set_length :
      (raw : Value) (content : Text) (p : EditorPage v)
      → editor_request_of_value raw ≡ wants (set_document content)
      → let p' = editor_receive v shown raw p in
        (reported : ℕ) × (before : Port) × (p'.port
          ≡ send
              (codes "editor.documentSet")
              (field (codes "documentLength") (number (integer (pos reported))) end)
              none
              before)
        × (reported ≡ v.document_length p'.editor + crlf_count content)
  unfolding editor_receive reply run after_updates
  document_set_length raw content p asked = (
    length content,
    on_updates (v.replace_annotated 0 (v.document_length p.editor) content p.editor).1 p.port,
    rw asked refl,
    rw asked (omega (arith, law.replaced_length content p.editor, length-normalised content)),
  )
