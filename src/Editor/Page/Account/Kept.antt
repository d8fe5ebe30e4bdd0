-- ===== src/Editor/Page/Account/Kept.antt =====
-- The editor's page as a whole: what the user edits and what Flutter sends, in any order.
use code_roam.Prelude.{ℕ, ℤ, pos, ◌≡◌, refl, ap, true, none, List, [], ◌∷◌, length, arith}
use mathlib.Core.Path.{subst}
use code_roam.Js.{Value, number, integer, end, field, get}
use code_roam.Js.Strings.{Text, codes, text_eq}
use code_roam.Bridge.{Shown, Port, send, message_of}
use code_roam.Editor.Page.{
  Update, View, EditorPage, EditorCommand, set_document, focus_editor, undo_edit, redo_edit,
  open_search, get_state, set_selection, EditorRequest, wants, rejected, is_replacement,
  report_change, on_update, on_updates, after_updates, send_state, run, reply,
  editor_request_of_value, editor_receive, editor_ready,
}
use code_roam.Editor.Page.Echo.{AreReplacements}
use code_roam.Editor.Page.Length.{crlf_count, length-normalised}
use code_roam.Editor.Page.ReadBack.{KeepsLines}
use code_roam.Editor.Page.Account.{
  IsAccount, Edits, opened, set, send-other, report_selection-IsAccount, report_focus-IsAccount,
  on_updates-IsAccount,
}

report_change-replaces :
    (u : Update) (port : Port) → is_replacement u ≡ true → report_change u port ≡ port
unfolding report_change
report_change-replaces u port h = ground (arith, h)

replaces-IsAccount :
    (us : List Update) (n k : ℤ) (port : Port)
    → AreReplacements us
    → IsAccount n k port
    → IsAccount n k (on_updates us port)
unfolding on_updates on_update
replaces-IsAccount [] n k port h a = a
replaces-IsAccount (u ∷ us) n k port (h, hs) a = replaces-IsAccount us n k _ hs (
    report_focus-IsAccount n k u _
      (report_selection-IsAccount n k u _ (rw (report_change-replaces u port h) a)))

set-IsAccount :
    (n k : ℤ) (l : ℕ) (port : Port)
    → IsAccount n k port
    → IsAccount n (pos l) (
        send
          (codes "editor.documentSet")
          (field (codes "documentLength") (number (integer (pos l))) end)
          none
          port)
unfolding send message_of text_eq get
set-IsAccount n k l port a = rw a.connected (record {
  connected = refl;
  posted =
      set
        (message_of (codes "editor.documentSet")
          (field (codes "documentLength") (number (integer (pos l))) end) none)
        (pos l) refl refl a.posted;
})

-- What CodeMirror documents of its calls: the updates that the listener is told are the edits of
-- the document, and those of a transaction with an annotation have it.
pub record TellsEdits (v : View) : Type 0 where
  pub replaces :
      (from to : ℕ) (t : Text) (s : v.State) → AreReplacements (v.replace_annotated from to t s).1
  pub selects :
      (anchor head : ℤ) (s : v.State)
      → let (s', us) = v.select anchor head s in Edits (v.document s) us (v.document s')
  pub focuses : (s : v.State) → let (s', us) = v.focus s in Edits (v.document s) us (v.document s')
  pub undoes : (s : v.State) → let (s', us) = v.undo s in Edits (v.document s) us (v.document s')
  pub redoes : (s : v.State) → let (s', us) = v.redo s in Edits (v.document s) us (v.document s')
  pub searches :
      (s : v.State)
      → let (s', us) = v.open_search_panel s in Edits (v.document s) us (v.document s')

-- A value that sets no document with a pair CR LF.
abbrev pub IsPlain : Value → Type 0
IsPlain raw =
    (content : Text)
    → editor_request_of_value raw ≡ wants (set_document content)
    → crlf_count content ≡ 0

module _ (v : View) (shown : Value → Shown) where
  -- The pages that a connected page comes to.
  pub data EditorLived (start : v.State) : EditorPage v → Type 0 where
    begins :
        EditorLived start
          (record { port = record { connected = true; posted = [] }; editor = start })
    readies : {p : EditorPage v} → EditorLived start p → EditorLived start (editor_ready v shown p)
    receives :
        {p : EditorPage v} (raw : Value)
        → IsPlain raw
        → EditorLived start p
        → EditorLived start (editor_receive v shown raw p)
    types :
        {p : EditorPage v} (s : v.State) (us : List Update)
        → Edits (v.document p.editor) us (v.document s)
        → EditorLived start p
        → EditorLived start (record { port = on_updates us p.port; editor = s })

  module _ (lines : KeepsLines v) (tells : TellsEdits v) where
    abbrev Accounted : ℤ → EditorPage v → Type 0
    Accounted n p = IsAccount n (pos (length (v.document p.editor))) p.port

    edited :
        (n : ℤ) (p : EditorPage v) (s : v.State) (us : List Update)
        → Edits (v.document p.editor) us (v.document s)
        → Accounted n p
        → Accounted n (record { port = on_updates us p.port; editor = s })
    edited n p s us e a = on_updates-IsAccount (v.document p.editor) (v.document s) us n p.port e a

    run-Accounted :
        (c : EditorCommand) (n : ℤ) (p : EditorPage v)
        → ((content : Text) → c ≡ set_document content → crlf_count content ≡ 0)
        → Accounted n p
        → Accounted n (run v shown c p)
    unfolding run after_updates send_state text_eq
    run-Accounted (set_document content) n p plain a =
        let size : length content
            ≡ length (
                v.document
                  (v.replace_annotated 0 (v.document_length p.editor) content p.editor).0) =
          omega (
            arith,
            length-normalised content,
            plain content refl,
            ap length (lines.replaced_document content p.editor),
          ) in
        subst (λ l. IsAccount n (pos l) (run v shown (set_document content) p).port) size
          (set-IsAccount n _ (length content) _
            (replaces-IsAccount _ n _ p.port (tells.replaces 0 _ content p.editor) a))
    run-Accounted focus_editor n p plain a = edited n p _ _ (tells.focuses p.editor) a
    run-Accounted undo_edit n p plain a = edited n p _ _ (tells.undoes p.editor) a
    run-Accounted redo_edit n p plain a = edited n p _ _ (tells.redoes p.editor) a
    run-Accounted open_search n p plain a = edited n p _ _ (tells.searches p.editor) a
    run-Accounted (get_state id) n p plain a = send-other n _ _ _ id p.port refl refl a
    run-Accounted (set_selection anchor head) n p plain a =
        edited n p _ _ (tells.selects _ _ p.editor) a

    reply-Accounted :
        (r : EditorRequest) (n : ℤ) (p : EditorPage v)
        → ((content : Text) → r ≡ wants (set_document content) → crlf_count content ≡ 0)
        → Accounted n p
        → Accounted n (reply v shown r p)
    unfolding reply text_eq
    reply-Accounted (wants c) n p plain a =
        run-Accounted c n p (λ content e. plain content (ap wants e)) a
    reply-Accounted (rejected why) n p plain a = send-other n _ _ _ none p.port refl refl a

    -- Through every sequence of the user's edits and values from Flutter, none of which sets a
    -- document with a pair CR LF, the messages of the page account for the document: from its first
    -- length on, the lengths that they say were inserted, deleted and set lead to the length that
    -- each report gives, and in the end to that of the document.
    pub Lived-IsAccount :
        (start : v.State) (p : EditorPage v)
        → EditorLived start p
        → IsAccount (pos (length (v.document start))) (pos (length (v.document p.editor))) p.port
    unfolding editor_receive editor_ready text_eq
    Lived-IsAccount start _ begins = record { connected = refl; posted = opened }
    Lived-IsAccount start _ (readies {p = p} l) =
        send-other _ _ _ _ none p.port refl refl (Lived-IsAccount start p l)
    Lived-IsAccount start _ (receives {p = p} raw plain l) =
        reply-Accounted (editor_request_of_value raw) _ p plain (Lived-IsAccount start p l)
    Lived-IsAccount start _ (types {p = p} s us e l) = edited _ p s us e (Lived-IsAccount start p l)
