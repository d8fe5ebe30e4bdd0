-- ===== src/Editor/Page/Account.antt =====
-- The reports of the user's edits, and the length of the document.
pub mod Kept
use code_roam.Prelude.{
  ℤ, pos, ◌+ℤ◌, ◌-ℤ◌, +ℤ_parts, -ℤ_parts, eq_of_parts, pos_part, neg_part, ◌≡◌, refl, sym, ap, ◌∙◌,
  Bool, true, false, Option, none, List, [], ◌∷◌, ◌++◌, length, length-append, Bool-cases, inl, inr,
  arith,
}
use mathlib.Core.Path.{subst}
use code_roam.Js.{number, integer, Fields, end, get}
use code_roam.Js.Strings.{Text, codes, text_eq}
use code_roam.Bridge.{BridgeMessage, Port, send, message_of}
use code_roam.Editor.Page.{
  Change, Update, is_replacement, deleted_length, inserted_length, report_change, report_selection,
  report_focus, number_field, on_update, on_updates,
}

-- The document before and after changes, from a position on: the parts between them are kept.
pub data Rewrites : Text → ℤ → List Change → Text → Type 0 where
  kept : (at : ℤ) (rest : Text) → Rewrites rest at [] rest
  put :
      (at : ℤ) (c : Change) (changes : List Change) (before gone inserted rest rest' : Text)
      → c.from_a ≡ at +ℤ pos (length before)
      → c.to_a ≡ c.from_a +ℤ pos (length gone)
      → c.inserted_length ≡ pos (length inserted)
      → Rewrites rest c.to_a changes rest'
      → Rewrites (before ++ (gone ++ rest)) at (c ∷ changes) (before ++ (inserted ++ rest'))

Rewrites-length :
    (old new : Text) (at : ℤ) (changes : List Change)
    → Rewrites old at changes new
    → pos (length new) ≡ pos (length old) +ℤ inserted_length changes -ℤ deleted_length changes
unfolding inserted_length deleted_length
Rewrites-length _ new at [] (kept _ _) = eq_of_parts _ _ (
    omega
      (arith, +ℤ_parts (pos (length new)) (pos 0), -ℤ_parts (pos (length new) +ℤ pos 0) (pos 0)))
Rewrites-length _ _ at _ (put _ c changes before gone inserted rest rest' from to ins r) =
    let l = pos (length (before ++ (gone ++ rest))) in
    let ins' = inserted_length changes in
    let del' = deleted_length changes in
    let both = c.inserted_length +ℤ ins' in
    let one = c.to_a -ℤ c.from_a in
    let more = length-append before (inserted ++ rest') in
    let more' = length-append inserted rest' in
    let less = length-append before (gone ++ rest) in
    let less' = length-append gone rest in
    let ih = Rewrites-length rest rest' c.to_a changes r in
    let ih_pos = ap pos_part ih in
    let ih_neg = ap neg_part ih in
    eq_of_parts _ _ (
      omega (
        arith,
        more,
        more',
        less,
        less',
        ih_pos,
        ih_neg,
        ap pos_part to,
        ap neg_part to,
        ap pos_part ins,
        ap neg_part ins,
        +ℤ_parts (pos (length rest)) ins',
        -ℤ_parts (pos (length rest) +ℤ ins') del',
        +ℤ_parts c.from_a (pos (length gone)),
        +ℤ_parts c.inserted_length ins',
        +ℤ_parts one del',
        -ℤ_parts c.to_a c.from_a,
        +ℤ_parts l both,
        -ℤ_parts (l +ℤ both) (one +ℤ del'),
      ))

-- A number that a message has under a key.
abbrev Reads : Text → BridgeMessage → ℤ → Type 0
Reads key m n = get key m.payload ≡ number (integer n)

abbrev is_change : BridgeMessage → Bool
is_change m = text_eq m.type (codes "editor.documentChanged")

abbrev is_set : BridgeMessage → Bool
is_set m = text_eq m.type (codes "editor.documentSet")

-- Who starts at a length, and reads the messages in order, comes to another: each report of a
-- change says by how much it was, and the length that is reached, and each report of a document
-- that was set says its length.
pub data Accounts (n : ℤ) : List BridgeMessage → ℤ → Type 0 where
  opened : Accounts n [] n
  unchanged :
      {ms : List BridgeMessage} {k : ℤ} (m : BridgeMessage)
      → is_change m ≡ false
      → is_set m ≡ false
      → Accounts n ms k
      → Accounts n (ms ++ (m ∷ [])) k
  set :
      {ms : List BridgeMessage} {k : ℤ} (m : BridgeMessage) (l : ℤ)
      → is_set m ≡ true
      → Reads (codes "documentLength") m l
      → Accounts n ms k
      → Accounts n (ms ++ (m ∷ [])) l
  changed :
      {ms : List BridgeMessage} {k : ℤ} (m : BridgeMessage) (inserted deleted : ℤ)
      → is_change m ≡ true
      → Reads (codes "insertedLength") m inserted
      → Reads (codes "deletedLength") m deleted
      → Reads (codes "documentLength") m (k +ℤ inserted -ℤ deleted)
      → Accounts n ms k
      → Accounts n (ms ++ (m ∷ [])) (k +ℤ inserted -ℤ deleted)

-- A channel that is connected, and whose messages account for a length.
pub record IsAccount (n k : ℤ) (port : Port) : Type 0 where
  pub connected : port.connected ≡ true
  pub posted : Accounts n port.posted k

send-other :
    (n k : ℤ) (type : Text) (payload : Fields) (id : Option Text) (port : Port)
    → text_eq type (codes "editor.documentChanged") ≡ false
    → text_eq type (codes "editor.documentSet") ≡ false
    → IsAccount n k port
    → IsAccount n k (send type payload id port)
unfolding send message_of
send-other n k type payload id port other other' a =
    rw a.connected (record { connected = refl; posted = unchanged _ other other' a.posted })

report_selection-IsAccount :
    (n k : ℤ) (u : Update) (port : Port)
    → IsAccount n k port
    → IsAccount n k (report_selection u port)
unfolding report_selection text_eq
report_selection-IsAccount n k u port a = elim (Bool-cases u.selection_set) [
  | inl moved ↦ rw moved (send-other n k (codes "editor.selectionChanged") _ none port refl refl a)
  | inr still ↦ rw still a
]

report_focus-IsAccount :
    (n k : ℤ) (u : Update) (port : Port) → IsAccount n k port → IsAccount n k (report_focus u port)
unfolding report_focus text_eq
report_focus-IsAccount n k u port a = elim (Bool-cases u.focus_changed) [
  | inl moved ↦ rw moved (send-other n k (codes "editor.focusChanged") _ none port refl refl a)
  | inr still ↦ rw still a
]

-- The updates of a user's edits of a document: each that changes it is no replacement of Flutter's,
-- has the changes between the documents before and after, and the length of the one after.
pub data Edits : Text → List Update → Text → Type 0 where
  finished : (d : Text) → Edits d [] d
  looks :
      {d d' : Text} {us : List Update} (u : Update)
      → u.doc_changed ≡ false
      → Edits d us d'
      → Edits d (u ∷ us) d'
  edits :
      {d d' d'' : Text} {us : List Update} (u : Update)
      → u.doc_changed ≡ true
      → is_replacement u ≡ false
      → Rewrites d (pos 0) u.changes d'
      → u.document_length ≡ length d'
      → Edits d' us d''
      → Edits d (u ∷ us) d''

report_change-looks :
    (u : Update) (port : Port) → u.doc_changed ≡ false → report_change u port ≡ port
unfolding report_change
report_change-looks u port h = rw h refl

-- The report of an update.
abbrev change_message : Update → BridgeMessage
change_message u =
    message_of (codes "editor.documentChanged")
      (number_field (codes "documentLength") (pos u.document_length) (
        number_field (codes "insertedLength") (inserted_length u.changes)
          (number_field (codes "deletedLength") (deleted_length u.changes) end)))
      none

report_change-edits :
    (n : ℤ) (d d' : Text) (u : Update) (port : Port)
    → u.doc_changed ≡ true
    → is_replacement u ≡ false
    → Rewrites d (pos 0) u.changes d'
    → u.document_length ≡ length d'
    → IsAccount n (pos (length d)) port
    → IsAccount n (pos (length d')) (report_change u port)
unfolding report_change send message_of text_eq get
report_change-edits n d d' u port changes own r size a =
    let sum = Rewrites-length d d' (pos 0) u.changes r in
    rw changes (
      rw own (
        rw a.connected (record {
          connected = refl;
          posted =
              subst (λ l. Accounts n (port.posted ++ (change_message u ∷ [])) l) (sym sum)
                (changed (change_message u) (inserted_length u.changes) (deleted_length u.changes)
                  refl refl refl (ap (λ l. number (integer l)) (ap pos size ∙ sum)) a.posted);
        })))

-- While a connected page is told of the user's edits only, its reports account for the document:
-- from its first length on, the lengths that each report says were inserted and deleted lead to the
-- length that the report gives, and in the end to that of the document.
on_updates-IsAccount :
    (d d' : Text) (us : List Update) (n : ℤ) (port : Port)
    → Edits d us d'
    → IsAccount n (pos (length d)) port
    → IsAccount n (pos (length d')) (on_updates us port)
unfolding on_updates on_update
on_updates-IsAccount d _ _ n port (finished _) a = a
on_updates-IsAccount d d' _ n port (looks {us = us} u h e) a = on_updates-IsAccount d d' us n _ e (
    report_focus-IsAccount n _ u _
      (report_selection-IsAccount n _ u _ (rw (report_change-looks u port h) a)))
on_updates-IsAccount d d'' _ n port (edits {d' = d'} {us = us} u h own r size e) a =
    on_updates-IsAccount d' d'' us n _ e (
      report_focus-IsAccount n _ u _
        (report_selection-IsAccount n _ u _ (report_change-edits n d d' u port h own r size a)))
