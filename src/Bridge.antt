-- ===== src/Bridge.antt =====
-- webview/editor/src/bridge_message.ts, which webview/terminal/src/bridge_message.ts repeats word
-- for word, and the function `send` of the two main.ts: the messages of both directions.
pub mod Decoding
pub mod Refusal
pub mod Posting
mod Tests
use code_roam.Prelude.{ℕ, pos, Bool, Option, none, some, not, if◌then◌else◌, List, [], ◌∷◌, ◌++◌}
use code_roam.Js.{
  Value, undefined, string, number, integer, object, Fields, end, field, get, as_string,
  is_integer_value,
}
use code_roam.Js.Strings.{Text, codes, is_blank}

abbrev pub bridge_protocol_version : ℕ
bridge_protocol_version = 1

pub record BridgeMessage : Type 0 where
  pub version : ℕ
  pub id : Option Text
  pub type : Text
  pub payload : Fields

-- What `decodeBridgeMessage` throws, by the check that fails. The message of `unsupported_version`
-- shows the version found, or is that of the error which its conversion throws.
pub data DecodeError : Type 0 where
  not_an_object type_required id_not_a_string payload_not_an_object : DecodeError
  unsupported_version : Value → DecodeError

pub data Result {ℓ} (A : Type ℓ) : Type ℓ where
  ok : A → Result A
  throw : DecodeError → Result A

infixl 5 ◌>>=◌ ◌>>◌
abbrev pub ◌>>=◌ {ℓ κ} : {A : Type ℓ} {B : Type κ} → Result A → (A → Result B) → Result B
ok a >>= f = f a
throw e >>= f = throw e

abbrev pub ◌>>◌ {ℓ} : {B : Type ℓ} → Result (Unit {0}) → Result B → Result B
m >> k = m >>= λ _. k

abbrev guard : Bool → DecodeError → Result (Unit {0})
guard b e = if b then ok tt else throw e

abbrev required {ℓ} : {A : Type ℓ} → Option A → DecodeError → Result A
required none e = throw e
required (some a) e = ok a

-- `isRecord(value)`, with the properties
pub is_record : Value → Option Fields
is_record (object fields) = some fields
is_record _ = none

-- The type: a string that is not all white space.
pub decode_type : Value → Result Text
decode_type v = do
  t ← required (as_string v) type_required
  guard (not (is_blank t)) type_required
  ok t

-- The id: absent, or a string.
pub decode_id : Value → Result (Option Text)
decode_id undefined = ok none
decode_id (string t) = ok (some t)
decode_id _ = throw id_not_a_string

-- The payload: an absent one is the empty object.
pub decode_payload : Value → Result Fields
unfolding is_record
decode_payload undefined = ok end
decode_payload v = required (is_record v) payload_not_an_object

pub decode_bridge_message : Value → Result BridgeMessage
unfolding is_record
decode_bridge_message raw_message = do
  raw ← required (is_record raw_message) not_an_object
  guard (is_integer_value (pos bridge_protocol_version) (get (codes "version") raw))
      (unsupported_version (get (codes "version") raw))
  type ← decode_type (get (codes "type") raw)
  id ← decode_id (get (codes "id") raw)
  payload ← decode_payload (get (codes "payload") raw)
  ok (record { version = bridge_protocol_version; id = id; type = type; payload = payload })

-- What a template makes of a value: its string, or the message of the error that the conversion
-- throws, as for a symbol.
pub data Shown : Type 0 where
  shows fails : Text → Shown

-- `error.message`, of the error that the check or the template throws.
pub error_text : (Value → Shown) → DecodeError → Text
error_text shown not_an_object = codes "Flutter message must be an object."
error_text shown (unsupported_version v) = elim (shown v) [
  | shows text ↦ codes "Unsupported protocol version: " ++ text
  | fails message ↦ message
]
error_text shown type_required = codes "Flutter message type is required."
error_text shown id_not_a_string = codes "Flutter message id must be a string."
error_text shown payload_not_an_object = codes "Flutter message payload must be an object."

-- `...(id ? { id } : {})`: an empty id is dropped.
unfoldable pub optional_id : Option Text → Option Text
optional_id none = none
optional_id (some []) = none
optional_id (some (c ∷ t)) = some (c ∷ t)

-- The way to Flutter: whether the channel is there, and what was posted, the oldest first.
pub record Port : Type 0 where
  pub connected : Bool
  pub posted : List BridgeMessage

unfoldable pub message_of : Text → Fields → Option Text → BridgeMessage
unfolding optional_id
message_of type payload id = record {
  version = bridge_protocol_version;
  id = optional_id id;
  type = type;
  payload = payload;
}

-- `send(type, payload, id)`; without a channel nothing happens.
unfoldable pub send : Text → Fields → Option Text → Port → Port
send type payload id port =
    if port.connected
    then record port { posted = port.posted ++ message_of type payload id ∷ [] }
    else port
