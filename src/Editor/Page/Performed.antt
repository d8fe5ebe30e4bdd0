-- ===== src/Editor/Page/Performed.antt =====
-- What each command asks of CodeMirror's view, and what is answered.
use code_roam.Prelude.{ℕ, ℤ, pos, ◌≤ℤ◌, ◌<ℤ◌, ◌≡◌, refl, ◌⊎◌, List, [], ◌∷◌, none, length, arith}
use code_roam.Js.{string, number, integer, boolean, object, Value, end, field}
use code_roam.Js.Strings.{codes}
use code_roam.Bridge.{Shown, BridgeMessage, message_of, optional_id}
use code_roam.Bridge.Posting.{Posts, send-Posts, Posts-none}
use code_roam.Editor.Page.{
  Update, View, EditorPage, EditorCommand, set_document, focus_editor, undo_edit, redo_edit,
  open_search, get_state, set_selection, on_updates, after_updates, send_state, safe_position, run,
}

-- The place of a document of `n` units that is nearest to a position.
abbrev pub Nearest : ℕ → ℤ → ℤ → Type 0
Nearest n position place =
    ((position <ℤ pos 0) × (place ≡ pos 0))
    ⊎ (((pos 0 ≤ℤ position) × (position ≤ℤ pos n) × (place ≡ position))
        ⊎ ((pos n <ℤ position) × (place ≡ pos n)))

-- The call of the view, what it gives and the updates that the listener is told.
abbrev pub CallsView : (v : View) → EditorCommand → v.State → v.State × List Update → Type 0
CallsView v (set_document content) s r = r ≡ v.replace_annotated 0 (v.document_length s) content s
CallsView v focus_editor s r = r ≡ v.focus s
CallsView v undo_edit s r = r ≡ v.undo s
CallsView v redo_edit s r = r ≡ v.redo s
CallsView v open_search s r = r ≡ v.open_search_panel s
CallsView v (get_state id) s r = r ≡ (s, [])
CallsView v (set_selection anchor head) s r =
    (a : ℤ) × (h : ℤ) × Nearest (v.document_length s) anchor a
    × Nearest (v.document_length s) head h
    × (r ≡ v.select a h s)

-- What is answered after the call: the length of the document that was set, or the state of the
-- editor under the id that asked for it.
abbrev pub answers : (v : View) → EditorCommand → v.State → List BridgeMessage
answers v (set_document content) s =
    record {
      version = 1;
      id = none;
      type = codes "editor.documentSet";
      payload = field (codes "documentLength") (number (integer (pos (length content)))) end;
    }
    ∷ []
answers v (get_state id) s =
    record {
      version = 1;
      id = optional_id id;
      type = codes "editor.state";
      payload = field (codes "content") (string (v.document s)) (
          field (codes "selection")
            (object (
              field (codes "anchor") (number (integer (v.anchor s)))
                (field (codes "head") (number (integer (v.head s))) end)))
            (field (codes "focused") (boolean (v.has_focus s)) end));
    }
    ∷ []
answers v _ s = []

safe_position-Nearest : (n : ℕ) (position : ℤ) → Nearest n position (safe_position n position)
unfolding safe_position
safe_position-Nearest n position = ground arith

module _ (v : View) (shown : Value → Shown) where
  -- The view was called for a command, the listener reported the updates, and the command was
  -- answered: nothing else happens.
  pub record IsRun (c : EditorCommand) (p p' : EditorPage v) : Type 0 where
    pub updates : List Update
    pub call : CallsView v c p.editor (p'.editor, updates)
    pub sent : Posts (answers v c p'.editor) (on_updates updates p.port) p'.port

  pub run-IsRun : (c : EditorCommand) (p : EditorPage v) → IsRun c p (run v shown c p)
  unfolding run after_updates send_state message_of optional_id on_updates
  run-IsRun (set_document content) p = record {
    updates = (v.replace_annotated 0 (v.document_length p.editor) content p.editor).1;
    call = refl;
    sent = send-Posts _ _ none _;
  }
  run-IsRun focus_editor p = record {
    updates = (v.focus p.editor).1;
    call = refl;
    sent = Posts-none _;
  }
  run-IsRun undo_edit p = record { updates = (v.undo p.editor).1; call = refl; sent = Posts-none _ }
  run-IsRun redo_edit p = record { updates = (v.redo p.editor).1; call = refl; sent = Posts-none _ }
  run-IsRun open_search p = record {
    updates = (v.open_search_panel p.editor).1;
    call = refl;
    sent = Posts-none _;
  }
  run-IsRun (get_state id) p = record { updates = []; call = refl; sent = send-Posts _ _ id p.port }
  run-IsRun (set_selection anchor head) p =
      let n = v.document_length p.editor in
      record {
        updates = (v.select (safe_position n anchor) (safe_position n head) p.editor).1;
        call = (
          safe_position n anchor,
          safe_position n head,
          safe_position-Nearest n anchor,
          safe_position-Nearest n head,
          refl,
        );
        sent = Posts-none _;
      }
