-- ===== src/Terminal/PasteBack.antt =====
-- The clipboard's way from the controller's `onCopy` over Flutter back to `terminal.paste`.
use code_roam.Prelude.{none, refl}
use mathlib.Core.List.{Mem}
use code_roam.Js.{Value, string, get, end, field}
use code_roam.Js.Strings.{Text, codes, text_eq, is_space}
use code_roam.Selection.Coordinates.{Coordinates}
use code_roam.Bridge.{Shown}
use code_roam.Gesture.{Terminal, Session}
use code_roam.Gesture.Handlers.Events.{Reachable}
use code_roam.Gesture.Handlers.Copies.{copies, copied-IsCopyable}
use code_roam.Gesture.Handlers.Preserved.{IsCopyable}
use code_roam.Terminal.Performed.{IsPerformed}
use code_roam.Terminal.{Commands, Page, paste_text, receive}
use code_roam.Terminal.Receive.{AsksFor, a_paste, asked-IsPerformed}
use code_roam.Bridge.Decoding.{decode_iff, flutter_message, decode-flutter_message}

-- The message with which Flutter pastes a text.
abbrev pub paste_value : Text → Value
paste_value text =
    flutter_message (codes "terminal.paste") (field (codes "data") (string text) end) none

paste_value-AsksFor : (text : Text) → IsCopyable text → AsksFor (paste_value text) (paste_text text)
unfolding get text_eq is_space
paste_value-AsksFor text (some_text, bounded) = record {
  message = record {
    version = 1;
    id = none;
    type = codes "terminal.paste";
    payload = field (codes "data") (string text) end;
  };
  decoded = (decode_iff (paste_value text) _).0 (
      decode-flutter_message (codes "terminal.paste") (field (codes "data") (string text) end) none
        refl);
  accepted = a_paste refl (refl, some_text, bounded);
}

module _ (k : Coordinates) (t : Terminal k) where
  module _ (x : Commands) (shown : Value → Shown) (stream_id : Text) where
    -- A text that the controller reported as copied is pasted into the terminal, as it is, when
    -- Flutter sends it back in `terminal.paste`.
    pub copied-IsPerformed :
        (start : t.State) (s : Session k t) (text : Text) (p : Page x)
        → Reachable k t start s
        → Mem text (copies s.effects)
        → IsPerformed x shown stream_id
            (paste_text text)
            p
            (receive x shown stream_id (paste_value text) p)
    copied-IsPerformed start s text p r m =
        asked-IsPerformed x shown stream_id (paste_value text) (paste_text text) p
          (paste_value-AsksFor text (copied-IsCopyable k t start s text r m))
