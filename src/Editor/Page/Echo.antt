-- ===== src/Editor/Page/Echo.antt =====
-- Which updates the editor reports to Flutter as changes of the document: the user's, and not
-- those that Flutter asked for.
use code_roam.Prelude.{
  ℕ, ◌+◌, ℤ, pos, ◌≤ℤ◌, ◌≡◌, refl, ◌∙◌, Bool, true, false, not, ◌&&◌, Option, none, List, [], ◌∷◌,
  ◌++◌, All, if◌then◌else◌, Bool-cases, inl, inr, arith,
}
use code_roam.Js.{Value, Fields}
use code_roam.Js.Strings.{Text, codes, text_eq}
use code_roam.Bridge.{Shown, BridgeMessage, Port, send, message_of}
use code_roam.Editor.Page.{
  Update, View, EditorPage, is_replacement, report_change, report_selection, report_focus,
  on_update, on_updates, after_updates, set_document, wants, editor_request_of_value, run, reply,
  editor_receive, safe_position,
}

abbrev tally : Bool → ℕ
tally b = if b then 1 else 0

-- How many of the messages report a change of the document.
abbrev pub changes_sent : List BridgeMessage → ℕ
changes_sent [] = 0
changes_sent (m ∷ ms) = tally (text_eq m.type (codes "editor.documentChanged")) + changes_sent ms

changes_sent-append :
    (ms ns : List BridgeMessage) → changes_sent (ms ++ ns) ≡ changes_sent ms + changes_sent ns
changes_sent-append [] ns = omega arith
changes_sent-append (m ∷ ms) ns = omega (arith, changes_sent-append ms ns)

changes_sent-send :
    (type : Text) (payload : Fields) (id : Option Text) (port : Port)
    → changes_sent (send type payload id port).posted
      ≡ changes_sent port.posted
        + tally (port.connected && text_eq type (codes "editor.documentChanged"))
unfolding send message_of
changes_sent-send type payload id port = elim (Bool-cases port.connected) [
  | inl c ↦ simp c (changes_sent-append port.posted _ ∙ omega arith)
  | inr c ↦ simp c (omega arith)
]

-- A message of another type reports no change.
changes_sent-other :
    (type : Text) (payload : Fields) (id : Option Text) (port : Port)
    → text_eq type (codes "editor.documentChanged") ≡ false
    → changes_sent (send type payload id port).posted ≡ changes_sent port.posted
changes_sent-other type payload id port other =
    ground (arith, changes_sent-send type payload id port)

changes_sent-report_change :
    (u : Update) (port : Port)
    → changes_sent (report_change u port).posted
      ≡ changes_sent port.posted
        + tally (port.connected && (u.doc_changed && not (is_replacement u)))
unfolding report_change text_eq
changes_sent-report_change u port = elim (Bool-cases (u.doc_changed && not (is_replacement u))) [
  | inl reported ↦ rw reported (changes_sent-send (codes "editor.documentChanged") _ none port)
  | inr silent ↦ rw silent (ground arith)
]

changes_sent-report_selection :
    (u : Update) (port : Port)
    → changes_sent (report_selection u port).posted ≡ changes_sent port.posted
unfolding report_selection text_eq
changes_sent-report_selection u port = elim (Bool-cases u.selection_set) [
  | inl set ↦ rw set (changes_sent-other (codes "editor.selectionChanged") _ none port refl)
  | inr unset ↦ rw unset refl
]

changes_sent-report_focus :
    (u : Update) (port : Port)
    → changes_sent (report_focus u port).posted ≡ changes_sent port.posted
unfolding report_focus text_eq
changes_sent-report_focus u port = elim (Bool-cases u.focus_changed) [
  | inl changed ↦ rw changed (changes_sent-other (codes "editor.focusChanged") _ none port refl)
  | inr unchanged ↦ rw unchanged refl
]

-- An update is reported as one change of the document when the page is connected, the document
-- changed and none of its transactions is Flutter's replacement; else no change is reported.
changes_sent-on_update :
    (u : Update) (port : Port)
    → changes_sent (on_update u port).posted
      ≡ changes_sent port.posted
        + tally (port.connected && (u.doc_changed && not (is_replacement u)))
unfolding on_update
changes_sent-on_update u port =
    changes_sent-report_focus u _
    ∙ changes_sent-report_selection u _
    ∙ changes_sent-report_change u port

-- The updates of an annotated replacement.
abbrev pub AreReplacements : List Update → Type 0
AreReplacements updates = All (λ u. is_replacement u ≡ true) updates

changes_sent-on_updates :
    (updates : List Update) (port : Port)
    → AreReplacements updates
    → changes_sent (on_updates updates port).posted ≡ changes_sent port.posted
unfolding on_updates
changes_sent-on_updates [] port h = refl
changes_sent-on_updates (u ∷ updates) port (h, hs) =
    changes_sent-on_updates updates (on_update u port) hs
    ∙ ground (arith, changes_sent-on_update u port)

module _ (v : View) (shown : Value → Shown) where
  -- Flutter hears no echo: when the view annotates the updates of a replacement, receiving a
  -- document reports no change of it.
  pub receive-no_echo :
      ((from to : ℕ) (t : Text) (s : v.State) → AreReplacements (v.replace_annotated from to t s).1)
      → (raw : Value) (content : Text) (p : EditorPage v)
      → editor_request_of_value raw ≡ wants (set_document content)
      → changes_sent (editor_receive v shown raw p).port.posted ≡ changes_sent p.port.posted
  unfolding editor_receive reply run after_updates text_eq
  receive-no_echo annotates raw content p asked = rw asked (
      changes_sent-other (codes "editor.documentSet") _ none _ refl
      ∙ changes_sent-on_updates _ p.port (annotates _ _ content p.editor))

-- The position to which a selection of Flutter's is dispatched is in the document, and it is the
-- one asked for when that is in the document.
safe_position_lem :
    (n : ℕ) (position : ℤ)
    → (pos 0 ≤ℤ safe_position n position)
      × (safe_position n position ≤ℤ pos n)
      × (pos 0 ≤ℤ position → position ≤ℤ pos n → safe_position n position ≡ position)
unfolding safe_position
safe_position_lem n position = ground arith
