-- ===== src/Terminal/Stream.antt =====
-- The stream events of webview/terminal/src/main.ts: what the user types, copies and asks to
-- paste goes to Flutter under ids that never repeat.
use code_roam.Prelude.{
  ℤ, ℕ, suc, ◌+◌, ◌≡◌, refl, sym, ap, ◌∙◌, List, [], ◌∷◌, ◌++◌, length, arith, Option, none, some,
  true,
}
use mathlib.Core.List.{append-nil, append_assoc}
use code_roam.Js.{Value}
use code_roam.Js.Strings.{Text}
use code_roam.Js.Numerals.{number_text, number_text-injective}
use code_roam.Bridge.{Shown, BridgeMessage, send, message_of, optional_id}
use code_roam.Terminal.{
  Commands, Page, Notice, input_data, resized, event_id, hear, hear_all, send_terminal_stream_event,
}
use code_roam.Terminal.StreamId.{append-injective}

-- Two stream events of pages whose stream ids have one length carry the same id only if they are
-- the same event of the same stream.
pub event_id-injective :
    (stream stream' : Text) (m n : ℕ)
    → length stream ≡ length stream'
    → event_id stream m ≡ event_id stream' n
    → (stream ≡ stream') × (m ≡ n)
unfolding event_id
event_id-injective stream stream' m n h e =
    let (same, rest) = append-injective stream stream' h e in
    let digits : number_text 10 m ≡ number_text 10 n = cc in
    (same, number_text-injective 10 (omega arith) (omega arith) m n digits)

-- How many of the notices are data.
abbrev pub inputs : List Notice → ℕ
inputs [] = 0
inputs (input_data text ∷ notices) = suc (inputs notices)
inputs (resized columns rows ∷ notices) = inputs notices

abbrev pub id_list : Option Text → List Text
id_list none = []
id_list (some id) = id ∷ []

-- The ids of messages.
abbrev pub ids : List BridgeMessage → List Text
ids [] = []
ids (m ∷ ms) = id_list m.id ++ ids ms

pub ids-append : (ms ns : List BridgeMessage) → ids (ms ++ ns) ≡ ids ms ++ ids ns
ids-append [] ns = refl
ids-append (m ∷ ms) ns =
    ap (λ t. id_list m.id ++ t) (ids-append ms ns) ∙ sym (append_assoc (id_list m.id) _ _)

pub optional-event_id :
    (stream : Text) (n : ℕ) → optional_id (some (event_id stream n)) ≡ some (event_id stream n)
unfolding event_id optional_id
optional-event_id [] n = refl
optional-event_id (c ∷ stream) n = refl

module _ (x : Commands) (shown : Value → Shown) (stream_id : Text) where
  sequence-hear_all :
      (notices : List Notice) (p : Page x)
      → (hear_all x shown stream_id notices p).sequence ≡ p.sequence + inputs notices
  unfolding hear_all hear send_terminal_stream_event
  sequence-hear_all [] p = omega arith
  sequence-hear_all (input_data text ∷ notices) p =
      omega (arith, sequence-hear_all notices (hear x shown stream_id (input_data text) p))
  sequence-hear_all (resized columns rows ∷ notices) p =
      omega (arith, sequence-hear_all notices (hear x shown stream_id (resized columns rows) p))

  -- The ids of the stream events that notices raise, in order, after `n` events.
  abbrev ids_after : ℕ → List Notice → List Text
  ids_after n [] = []
  ids_after n (input_data text ∷ notices) = event_id stream_id (n + 1) ∷ ids_after (n + 1) notices
  ids_after n (resized columns rows ∷ notices) = ids_after n notices

  posted-input :
      (text : Text) (p : Page x)
      → p.port.connected ≡ true
      → ids (hear x shown stream_id (input_data text) p).port.posted
        ≡ ids p.port.posted ++ (event_id stream_id (p.sequence + 1) ∷ [])
  unfolding hear send_terminal_stream_event send message_of
  posted-input text p h = rw h (
      ids-append p.port.posted _
      ∙ ap (λ i. ids p.port.posted ++ (id_list i ++ []))
          (optional-event_id stream_id (p.sequence + 1)))

  posted-resized :
      (a b : ℤ) (p : Page x)
      → p.port.connected ≡ true
      → ids (hear x shown stream_id (resized a b) p).port.posted ≡ ids p.port.posted
  unfolding hear send message_of optional_id
  posted-resized a b p h = rw h (ids-append p.port.posted _ ∙ append-nil _)

  connected-hear :
      (n : Notice) (p : Page x)
      → p.port.connected ≡ true
      → (hear x shown stream_id n p).port.connected ≡ true
  unfolding hear send_terminal_stream_event send
  connected-hear (input_data text) p h = rw h refl
  connected-hear (resized a b) p h = rw h refl

  next :
      (text : Text) (p : Page x)
      → (hear x shown stream_id (input_data text) p).sequence ≡ p.sequence + 1
  unfolding hear send_terminal_stream_event
  next text p = refl

  -- While the page is connected, the stream events that are sent for what the terminal tells its
  -- listeners carry the ids that follow those before, each once and in order.
  ids-hear_all :
      (notices : List Notice) (p : Page x)
      → p.port.connected ≡ true
      → ids (hear_all x shown stream_id notices p).port.posted
        ≡ ids p.port.posted ++ ids_after p.sequence notices
  unfolding hear_all
  ids-hear_all [] p h = sym (append-nil _)
  ids-hear_all (input_data text ∷ notices) p h =
      ids-hear_all notices (hear x shown stream_id (input_data text) p)
        (connected-hear (input_data text) p h)
      ∙ ap (λ t. t ++ ids_after (hear x shown stream_id (input_data text) p).sequence notices)
          (posted-input text p h)
      ∙ append_assoc (ids p.port.posted) _ _
      ∙ ap (λ n. ids p.port.posted ++ (event_id stream_id (p.sequence + 1) ∷ ids_after n notices))
          (next text p)
  ids-hear_all (resized a b ∷ notices) p h =
      ids-hear_all notices (hear x shown stream_id (resized a b) p)
        (connected-hear (resized a b) p h)
      ∙ ap (λ t. t ++ ids_after p.sequence notices) (posted-resized a b p h)
