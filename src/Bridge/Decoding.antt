-- ===== src/Bridge/Decoding.antt =====
-- What `decodeBridgeMessage` accepts, and what it makes of Flutter's messages.
use code_roam.Prelude.{
  ◌≡◌, refl, sym, ◌∙◌, ◌↔◌, ◌⊎◌, inl, inr, true, false, Option, none, some, arith, pos, all,
  eqb_ℤ→eq,
}
use code_roam.Js.{
  Value, undefined, string, number, integer, object, Fields, end, field, get, is_integer_value,
}
use code_roam.Js.Strings.{Text, codes, is_blank, is_space, is_blank_lem, text_eq}
use code_roam.Bridge.{
  BridgeMessage, ok, decode_type, decode_id, decode_payload, decode_bridge_message,
}

-- The id that a property's value stands for.
abbrev pub IdOf : Value → Option Text → Type 0
IdOf v o = ((v ≡ undefined) × (o ≡ none)) ⊎ ((t : Text) × (v ≡ string t) × (o ≡ some t))

abbrev pub PayloadOf : Value → Fields → Type 0
PayloadOf v f = ((v ≡ undefined) × (f ≡ end)) ⊎ (v ≡ object f)

-- A well-formed message, and its parts.
pub record IsMessage (raw : Value) (m : BridgeMessage) : Type 0 where
  pub fields : Fields
  pub is_object : raw ≡ object fields
  pub current : get (codes "version") fields ≡ number (integer (pos 1))
  pub version : m.version ≡ 1
  pub typed : get (codes "type") fields ≡ string m.type
  pub not_blank : all is_space m.type ≡ false
  pub id : IdOf (get (codes "id") fields) m.id
  pub payload : PayloadOf (get (codes "payload") fields) m.payload

pub version_lem : (v : Value) → is_integer_value (pos 1) v ≡ true → v ≡ number (integer (pos 1))
version_lem (number (integer n)) h = ap_number (eqb_ℤ→eq n (pos 1) h)
  where
    ap_number : n ≡ pos 1 → number (integer n) ≡ number (integer (pos 1))
    ap_number e = cc
version_lem _ h = cc

pub decode_type_sound :
    (v : Value) {t : Text} → decode_type v ≡ ok t → (v ≡ string t) × (is_blank t ≡ false)
unfolding decode_type
decode_type_sound (string t) h = ground arith
decode_type_sound _ h = ground arith

pub decode_id_sound : (v : Value) {o : Option Text} → decode_id v ≡ ok o → IdOf v o
unfolding decode_id
decode_id_sound undefined h = inl (refl, cc)
decode_id_sound (string t) h = inr (t, refl, cc)
decode_id_sound _ h = cc

decode_payload_sound : (v : Value) {f : Fields} → decode_payload v ≡ ok f → PayloadOf v f
unfolding decode_payload
decode_payload_sound undefined h = inl (refl, cc)
decode_payload_sound (object f) h = inr (cc)
decode_payload_sound _ h = cc

decode_type_complete : (t : Text) → is_blank t ≡ false → decode_type (string t) ≡ ok t
unfolding decode_type
decode_type_complete t h = ground arith

decode_id_complete : (v : Value) {o : Option Text} → IdOf v o → decode_id v ≡ ok o
unfolding decode_id
decode_id_complete v h = ground arith

decode_payload_complete : (v : Value) {f : Fields} → PayloadOf v f → decode_payload v ≡ ok f
unfolding decode_payload
decode_payload_complete v h = ground arith

module _ (f : Fields) (m : BridgeMessage) where
  -- The checks of `decodeBridgeMessage`, each passed.
  abbrev Passes : Type 0
  Passes =
      (is_integer_value (pos 1) (get (codes "version") f) ≡ true)
      × (m.version ≡ 1)
      × (decode_type (get (codes "type") f) ≡ ok m.type)
      × (decode_id (get (codes "id") f) ≡ ok m.id)
      × (decode_payload (get (codes "payload") f) ≡ ok m.payload)

  passes_of_ok : decode_bridge_message (object f) ≡ ok m → Passes
  unfolding decode_bridge_message
  passes_of_ok h = ground arith

  ok_of_passes : Passes → decode_bridge_message (object f) ≡ ok m
  unfolding decode_bridge_message
  ok_of_passes h = ground arith

  IsMessage-of_passes : Passes → IsMessage (object f) m
  IsMessage-of_passes (v, one, t, i, p) =
      let (typed, filled) = decode_type_sound _ t in
      record {
        fields = f;
        is_object = refl;
        current = version_lem _ v;
        version = one;
        typed = typed;
        not_blank = sym (is_blank_lem m.type) ∙ filled;
        id = decode_id_sound _ i;
        payload = decode_payload_sound _ p;
      }

decode_sound :
    (raw : Value) (m : BridgeMessage) → decode_bridge_message raw ≡ ok m → IsMessage raw m
unfolding decode_bridge_message
decode_sound (object f) m h = IsMessage-of_passes f m (passes_of_ok f m h)
decode_sound _ m h = cc

decode_complete :
    (raw : Value) (m : BridgeMessage) → IsMessage raw m → decode_bridge_message raw ≡ ok m
decode_complete raw m r = rw r.is_object (
    ok_of_passes r.fields m (
      rw r.current refl,
      r.version,
      rw r.typed (decode_type_complete m.type (is_blank_lem m.type ∙ r.not_blank)),
      decode_id_complete _ r.id,
      decode_payload_complete _ r.payload,
    ))

-- A value is decoded to a message exactly when it is an object with version 1, a type that is
-- not all white space, an id that is absent or a string, and a payload that is absent (and then
-- read as empty) or an object; the message then has these parts.
pub decode_iff :
    (raw : Value) (m : BridgeMessage) → (decode_bridge_message raw ≡ ok m) ↔ IsMessage raw m
decode_iff raw m = (decode_sound raw m, decode_complete raw m)

abbrev id_field : Option Text → Fields
id_field none = end
id_field (some t) = field (codes "id") (string t) end

-- A message as Flutter sends it, with an id or without.
abbrev pub flutter_message : Text → Fields → Option Text → Value
flutter_message type payload id = object (
    field (codes "version") (number (integer (pos 1)))
      (field (codes "type") (string type) (field (codes "payload") (object payload) (id_field id))))

pub decode-flutter_message :
    (type : Text) (payload : Fields) (id : Option Text)
    → all is_space type ≡ false
    → decode_bridge_message (flutter_message type payload id)
      ≡ ok (record { version = 1; id = id; type = type; payload = payload })
unfolding decode_bridge_message get text_eq decode_type decode_id decode_payload
decode-flutter_message type payload none h = ground (arith, h, is_blank_lem type)
decode-flutter_message type payload (some t) h = ground (arith, h, is_blank_lem type)
