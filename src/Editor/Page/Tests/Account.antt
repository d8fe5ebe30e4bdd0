-- ===== src/Editor/Page/Tests/Account.antt =====
-- A move of the cursor, and an edit of two places of a document.
use code_roam.Prelude.{pos, ◌+ℤ◌, ◌≡◌, refl, sym, ◌∙◌, true, false, [], ◌∷◌, ◌++◌, length}
use code_roam.Js.Strings.{Text, codes}
use code_roam.Editor.Page.{
  Change, Update, EditorPage, on_updates, set_document, wants, editor_receive,
}
use code_roam.Editor.Page.Length.{crlf_count}
use code_roam.Editor.Page.ReadBack.{KeepsLines}
use code_roam.Editor.Page.Tests.{notepad, show_value, document_value, asks_document}
use code_roam.Editor.Page.Account.Kept.{
  TellsEdits, IsPlain, begins, receives, types, Lived-IsAccount,
}
use code_roam.Editor.Page.Account.{Rewrites, kept, put, IsAccount, Edits, finished, looks, edits}

-- `b` becomes `xyz`, and `de` is inserted after the blank.
abbrev document : Text
document = codes "a" ++ (codes "b" ++ (codes " " ++ ([] ++ codes "c")))

abbrev document' : Text
document' = codes "a" ++ (codes "xyz" ++ (codes " " ++ (codes "de" ++ codes "c")))

abbrev first : Change
first = record { from_a = pos 1; to_a = pos 2; inserted_length = pos 3 }

abbrev second : Change
second = record { from_a = pos 3; to_a = pos 3; inserted_length = pos 2 }

abbrev cursor : Update
cursor = record {
  doc_changed = false;
  annotations = [];
  changes = [];
  document_length = 4;
  selection_set = true;
  anchor = pos 2;
  head = pos 2;
  focus_changed = true;
  has_focus = true;
}

abbrev typed : Update
typed = record {
  doc_changed = true;
  annotations = false ∷ [];
  changes = first ∷ second ∷ [];
  document_length = 8;
  selection_set = true;
  anchor = pos 7;
  head = pos 7;
  focus_changed = false;
  has_focus = true;
}

typed-Rewrites : Rewrites document (pos 0) (first ∷ second ∷ []) document'
unfolding ◌+ℤ◌
typed-Rewrites =
    put (pos 0) first (second ∷ []) (codes "a") (codes "b") (codes "xyz")
      (codes " " ++ ([] ++ codes "c")) (codes " " ++ (codes "de" ++ codes "c")) refl refl refl
      (put (pos 2) second [] (codes " ") [] (codes "de") (codes "c") (codes "c") refl refl refl
        (kept (pos 3) (codes "c")))

typed-Edits : Edits document (cursor ∷ typed ∷ []) document'
typed-Edits = looks cursor refl (edits typed refl refl typed-Rewrites refl (finished document'))

notepad-TellsEdits : TellsEdits notepad
notepad-TellsEdits = record {
  replaces = λ from to t s. (refl, tt);
  selects = λ anchor head s. finished s;
  focuses = λ s. finished s;
  undoes = λ s. finished s;
  redoes = λ s. finished s;
  searches = λ s. finished s;
}

notepad-KeepsLines : KeepsLines notepad
notepad-KeepsLines = record { replaced_document = λ t s. refl }

same_content :
    (a b : Text) → wants (set_document a) ≡ wants (set_document b) → crlf_count a ≡ crlf_count b
same_content a b h = cc

plain : IsPlain document_value
plain content h = same_content content (codes "let x") (sym h ∙ asks_document)

abbrev typed_page : EditorPage notepad
typed_page = record {
  port = on_updates (cursor ∷ typed ∷ []) (record { connected = true; posted = [] });
  editor = document';
}

abbrev last_page : EditorPage notepad
last_page = editor_receive notepad show_value document_value typed_page

Lived-IsAccount_example : IsAccount (pos 4) (pos (length last_page.editor)) last_page.port
Lived-IsAccount_example =
    Lived-IsAccount notepad show_value notepad-KeepsLines notepad-TellsEdits document last_page
      (receives document_value plain (types document' (cursor ∷ typed ∷ []) typed-Edits begins))
