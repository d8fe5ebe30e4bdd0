-- ===== src/Bridge/Tests.antt =====
-- Runs of the decoder and of `send`, and the theorems at concrete messages.
use code_roam.Prelude.{◌≡◌, refl, ◌↔◌, false, none, [], pos}
use code_roam.Js.{Value, string, number, integer, object, null, end, field, get}
use code_roam.Js.Strings.{codes, is_blank, text_eq}
use code_roam.Bridge.{
  BridgeMessage, ok, throw, decode_bridge_message, decode_type, decode_id, decode_payload,
  unsupported_version, send, not_an_object,
}
use code_roam.Bridge.Decoding.{IsMessage, decode_iff}
use code_roam.Bridge.Refusal.{Refusal, decode-Refusal}

abbrev clear_message : Value
clear_message = object (
    field (codes "version") (number (integer (pos 1)))
      (field (codes "type") (string (codes "terminal.clear")) end))

abbrev old_message : Value
old_message = object (field (codes "version") (number (integer (pos 2))) end)

abbrev clear : BridgeMessage
clear = record { version = 1; id = none; type = codes "terminal.clear"; payload = end }

decode_clear : decode_bridge_message clear_message ≡ ok clear
unfolding decode_bridge_message decode_type decode_id decode_payload get text_eq is_blank
decode_clear = refl

decode_old :
    decode_bridge_message old_message ≡ throw (unsupported_version (number (integer (pos 2))))
unfolding decode_bridge_message get text_eq
decode_old = refl

decode_null : decode_bridge_message null ≡ throw not_an_object
unfolding decode_bridge_message
decode_null = refl

-- Without a channel nothing is posted.
send_disconnected :
    send (codes "editor.ready") end none (record { connected = false; posted = [] })
    ≡ record { connected = false; posted = [] }
unfolding send
send_disconnected = refl

decode_iff_example :
    (decode_bridge_message clear_message ≡ ok clear) ↔ IsMessage clear_message clear
decode_iff_example = decode_iff clear_message clear

decode-Refusal_example : Refusal old_message (unsupported_version (number (integer (pos 2))))
decode-Refusal_example =
    decode-Refusal old_message (unsupported_version (number (integer (pos 2)))) decode_old
