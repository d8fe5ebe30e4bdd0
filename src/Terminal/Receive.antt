-- ===== src/Terminal/Receive.antt =====
-- What a message from Flutter does to the terminal, for every value that can arrive.
use code_roam.Prelude.{
  ℤ, pos, ◌≤ℤ◌, ◌≤◌, ◌<◌, Option, none, some, ◌≡◌, refl, ◌↔◌, inl, inr, arith, length, >>=-eq-some,
  if-cases,
}
use mathlib.Core.Path.{subst}
use code_roam.Js.{
  Value, string, number, integer, Fields, end, field, get, as_string, as_integer, as_string_lem,
  as_integer_lem,
}
use code_roam.Js.Strings.{Text, codes, text_eq, text_eq→eq}
use code_roam.Selection.Clipboard.{bounded_terminal_clipboard_text}
use code_roam.Bridge.{Shown, BridgeMessage, Result, ok, throw, decode_bridge_message, send}
use code_roam.Bridge.Decoding.{IsMessage, decode_iff}
use code_roam.Terminal.Performed.{IsPerformed, perform-IsPerformed}
use code_roam.Terminal.{
  Commands, Page, Command, write_text, paste_text, focus_terminal, clear_terminal, resize_to,
  Refused, not_decoded, asks, refused, asked, write_request, paste_request, resize_request,
  is_terminal_dimension, request_of_message, request_of_value, receive, answer,
}

-- A size that the terminal takes: from `low` to 1000.
abbrev IsSize : ℤ → ℤ → Type 0
IsSize low n = (low ≤ℤ n) × (n ≤ℤ pos 1000)

-- What the payload of a command is, by its properties.
abbrev pub Writes : Fields → Command → Type 0
Writes f (write_text t) = get (codes "data") f ≡ string t
Writes f _ = ⊥

abbrev pub Pastes : Fields → Command → Type 0
Pastes f (paste_text t) = (get (codes "data") f ≡ string t) × (0 < length t) × (length t ≤ 262_144)
Pastes f _ = ⊥

abbrev pub Resizes : Fields → Command → Type 0
Resizes f (resize_to columns rows) =
    (get (codes "columns") f ≡ number (integer columns))
    × (get (codes "rows") f ≡ number (integer rows))
    × IsSize (pos 2) columns
    × IsSize (pos 1) rows
Resizes f _ = ⊥

-- The messages that ask for a command.
pub data Accepts (m : BridgeMessage) (c : Command) : Type 0 where
  a_write : m.type ≡ codes "terminal.write" → Writes m.payload c → Accepts m c
  a_paste : m.type ≡ codes "terminal.paste" → Pastes m.payload c → Accepts m c
  a_resize : m.type ≡ codes "terminal.resize" → Resizes m.payload c → Accepts m c
  a_focus : m.type ≡ codes "terminal.focus" → c ≡ focus_terminal → Accepts m c
  a_clear : m.type ≡ codes "terminal.clear" → c ≡ clear_terminal → Accepts m c

some_eq : {a b : Command} → some a ≡ some b → a ≡ b
some_eq h = cc

bounded_lem :
    (v : Value) {t : Text}
    → bounded_terminal_clipboard_text v ≡ some t
    → (v ≡ string t) × (0 < length t) × (length t ≤ 262_144)
unfolding bounded_terminal_clipboard_text
bounded_lem (string t) h = ground arith
bounded_lem _ h = cc

dimension_lem :
    (v : Value) (low : ℤ) {n : ℤ}
    → is_terminal_dimension v low ≡ some n
    → (v ≡ number (integer n)) × IsSize low n
unfolding is_terminal_dimension
dimension_lem v low h =
    let (n, found, within) = >>=-eq-some (as_integer v) _ h in
    let v_lem = as_integer_lem v found in ground arith

write_sound : (f : Fields) (c : Command) → write_request f ≡ some c → Writes f c
unfolding write_request
write_sound f c h =
    let (t, found, same) = >>=-eq-some (as_string (get (codes "data") f)) _ h in
    subst (Writes f) (some_eq same) (as_string_lem _ found)

paste_sound : (f : Fields) (c : Command) → paste_request f ≡ some c → Pastes f c
unfolding paste_request
paste_sound f c h =
    let (t, found, same) =
      >>=-eq-some (bounded_terminal_clipboard_text (get (codes "data") f)) _ h in
    subst (Pastes f) (some_eq same) (bounded_lem _ found)

resize_sound : (f : Fields) (c : Command) → resize_request f ≡ some c → Resizes f c
unfolding resize_request
resize_sound f c h =
    let (columns, found, rest) =
      >>=-eq-some (is_terminal_dimension (get (codes "columns") f) (pos 2)) _ h in
    let (rows, found', same) =
      >>=-eq-some (is_terminal_dimension (get (codes "rows") f) (pos 1)) _ rest in
    let (is_columns, wide) = dimension_lem _ (pos 2) found in
    let (is_rows, high) = dimension_lem _ (pos 1) found' in
    subst (Resizes f) (some_eq same) (is_columns, is_rows, wide, high)

asked_sound : (o : Option Command) (why : Refused) {c : Command} → asked o why ≡ asks c → o ≡ some c
unfolding asked
asked_sound none why h = cc
asked_sound (some d) why h = cc

asks_eq : {a b : Command} → asks a ≡ asks b → b ≡ a
asks_eq h = cc

request_sound : (m : BridgeMessage) (c : Command) → request_of_message m ≡ asks c → Accepts m c
unfolding request_of_message
request_sound m c h = elim (if-cases (text_eq m.type (codes "terminal.write")) _ _ h) [
  | inl (w, r) ↦ a_write (text_eq→eq _ _ w) (write_sound _ c (asked_sound _ _ r))
  | inr (no_w, h) ↦ elim (if-cases (text_eq m.type (codes "terminal.focus")) _ _ h) [
    | inl (w, r) ↦ a_focus (text_eq→eq _ _ w) (asks_eq r)
    | inr (no_f, h) ↦ elim (if-cases (text_eq m.type (codes "terminal.clear")) _ _ h) [
      | inl (w, r) ↦ a_clear (text_eq→eq _ _ w) (asks_eq r)
      | inr (no_c, h) ↦ elim (if-cases (text_eq m.type (codes "terminal.paste")) _ _ h) [
        | inl (w, r) ↦ a_paste (text_eq→eq _ _ w) (paste_sound _ c (asked_sound _ _ r))
        | inr (no_p, h) ↦ elim (if-cases (text_eq m.type (codes "terminal.resize")) _ _ h) [
          | inl (w, r) ↦ a_resize (text_eq→eq _ _ w) (resize_sound _ c (asked_sound _ _ r))
          | inr (no_r, h) ↦ cc
        ]
      ]
    ]
  ]
]

bounded_complete :
    (t : Text)
    → 0 < length t
    → length t ≤ 262_144
    → bounded_terminal_clipboard_text (string t) ≡ some t
unfolding bounded_terminal_clipboard_text
bounded_complete t p q = ground arith

dimension_complete :
    (low n : ℤ) → IsSize low n → is_terminal_dimension (number (integer n)) low ≡ some n
unfolding is_terminal_dimension
dimension_complete low n h = ground arith

write_complete : (f : Fields) (c : Command) → Writes f c → write_request f ≡ some c
unfolding write_request
write_complete f (write_text t) h = rw h refl
write_complete f (paste_text t) h = absurd h
write_complete f (resize_to a b) h = absurd h
write_complete f focus_terminal h = absurd h
write_complete f clear_terminal h = absurd h

paste_complete : (f : Fields) (c : Command) → Pastes f c → paste_request f ≡ some c
unfolding paste_request
paste_complete f (paste_text t) (h, p, q) = rw (h, bounded_complete t p q) refl
paste_complete f (write_text t) h = absurd h
paste_complete f (resize_to a b) h = absurd h
paste_complete f focus_terminal h = absurd h
paste_complete f clear_terminal h = absurd h

resize_complete : (f : Fields) (c : Command) → Resizes f c → resize_request f ≡ some c
unfolding resize_request
resize_complete f (resize_to a b) (h, h', p, q) =
    rw (h, h', dimension_complete (pos 2) a p, dimension_complete (pos 1) b q) refl
resize_complete f (paste_text t) h = absurd h
resize_complete f (write_text t) h = absurd h
resize_complete f focus_terminal h = absurd h
resize_complete f clear_terminal h = absurd h

request_complete : (m : BridgeMessage) (c : Command) → Accepts m c → request_of_message m ≡ asks c
unfolding request_of_message asked text_eq
request_complete m c (a_write t h) = rw (t, write_complete _ c h) refl
request_complete m c (a_paste t h) = rw (t, paste_complete _ c h) refl
request_complete m c (a_resize t h) = rw (t, resize_complete _ c h) refl
request_complete m c (a_focus t h) = rw (t, h) refl
request_complete m c (a_clear t h) = rw (t, h) refl

-- A value that asks for a command: it decodes to a message that the terminal accepts.
pub record AsksFor (raw : Value) (c : Command) : Type 0 where
  pub message : BridgeMessage
  pub decoded : IsMessage raw message
  pub accepted : Accepts message c

decoding_cases :
    (r : Result BridgeMessage) {c : Command}
    → elim r [ throw e ↦ refused (not_decoded e) | ok m ↦ request_of_message m ] ≡ asks c
    → (m : BridgeMessage) × (r ≡ ok m) × (request_of_message m ≡ asks c)
decoding_cases (throw e) h = cc
decoding_cases (ok m) h = (m, refl, h)

asks_sound : (raw : Value) (c : Command) → request_of_value raw ≡ asks c → AsksFor raw c
unfolding request_of_value
asks_sound raw c h =
    let (m, same, asked_m) = decoding_cases (decode_bridge_message raw) h in
    record {
      message = m;
      decoded = (decode_iff raw m).0 same;
      accepted = request_sound m c asked_m;
    }

asks_complete : (raw : Value) (c : Command) → AsksFor raw c → request_of_value raw ≡ asks c
unfolding request_of_value
asks_complete raw c a =
    rw ((decode_iff raw a.message).1 a.decoded, request_of_value)
      (request_complete a.message c a.accepted)

-- A value asks for a command exactly when it is an object of the protocol's version whose type
-- is one of the five and whose payload suits it: a string of data to write; a string of 1 to
-- 262144 units to paste; integers from 2 and 1 to 1000 for the size.
pub request_iff : (raw : Value) (c : Command) → (request_of_value raw ≡ asks c) ↔ AsksFor raw c
request_iff raw c = (asks_sound raw c, asks_complete raw c)

module _ (x : Commands) (shown : Value → Shown) (stream_id : Text) where
  -- The message was refused: one `terminal.error` is sent, and nothing else changes.
  abbrev pub IsRefused : Page x → Page x → Type 0
  IsRefused p p' =
      (text : Text) × (p' ≡ record p {
        port =
            send (codes "terminal.error") (field (codes "message") (string text) end) none p.port;
      })

  -- A value that asks for a command has it performed.
  pub asked-IsPerformed :
      (raw : Value) (c : Command) (p : Page x)
      → AsksFor raw c
      → IsPerformed x shown stream_id c p (receive x shown stream_id raw p)
  unfolding receive answer
  asked-IsPerformed raw c p a =
      rw (asks_complete raw c a) (perform-IsPerformed x shown stream_id c p)
