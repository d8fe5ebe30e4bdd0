-- ===== src/Gesture/Handlers/Copies.antt =====
-- What the controller reports as copied is text that `boundedTerminalClipboardText` let through.
use code_roam.Prelude.{List, [], ◌∷◌, Option, ℕ, none, some, ◌≡◌, refl, length, All, All-Mem}
use mathlib.Core.List.{Mem}
use native.Mathlib.Bridge.{le_prop}
use code_roam.Js.Strings.{Text}
use code_roam.Selection.Coordinates.{Coordinates}
use code_roam.Gesture.{
  Terminal, Session, Effect, prevent_default, stop_propagation, on_paste, set_timeout,
  clear_timeout, timeout_ran, on_copy,
}
use code_roam.Gesture.Selecting.Keeps.{Held}
use code_roam.Gesture.Handlers.Events.{Reachable}
use code_roam.Gesture.Handlers.Preserved.{IsCopyable, Quiet, prevents, stops, pastes, IsClosed}
use code_roam.Gesture.Handlers.Preserved.Steps.{Reachable-closed}

-- The texts that were reported as copied, the latest first.
unfoldable pub copies : List Effect → List Text
copies [] = []
copies (on_copy text ∷ es) = text ∷ copies es
copies (prevent_default ∷ es) = copies es
copies (stop_propagation ∷ es) = copies es
copies (on_paste ∷ es) = copies es
copies (set_timeout timer ∷ es) = copies es
copies (clear_timeout timer ∷ es) = copies es
copies (timeout_ran timer ∷ es) = copies es

abbrev Copyable : Held → Type 0
Copyable h = All IsCopyable (copies h.effects)

IsCopyable-prop : (text : Text) → IsProp (IsCopyable text)
IsCopyable-prop text = hlevel (le_prop {n = 1} {m = length text}, le_prop {n = length text})

cleared-copies :
    (timer : Option ℕ) (es : List Effect)
    → copies (elim timer [ none ↦ es | some n ↦ clear_timeout n ∷ es ]) ≡ copies es
unfolding copies
cleared-copies none es = refl
cleared-copies (some n) es = refl

Quiet-copies : {e : Effect} → Quiet e → (es : List Effect) → copies (e ∷ es) ≡ copies es
unfolding copies
Quiet-copies prevents es = refl
Quiet-copies stops es = refl
Quiet-copies pastes es = refl

Copyable-IsClosed : IsClosed Copyable
unfolding copies
Copyable-IsClosed = record {
  without_timer = λ h a. rw (cleared-copies h.gesture.timer h.effects) a;
  reset = λ h a. rw (cleared-copies h.gesture.timer h.effects) a;
  logged = λ h e q a. rw (Quiet-copies q h.effects) a;
  copied = λ h text c a. (c, a);
  pressed = λ h id cell a. a;
  armed = λ h timer a. a;
  grabbed = λ h id cell a. a;
  ran = λ h timer a. a;
  chosen = λ h word fits a. a;
}

module _ (k : Coordinates) (t : Terminal k) where
  -- In every session that the controller reaches, a text that it reported as copied is not empty
  -- and has at most 262144 code units.
  pub copied-IsCopyable :
      (start : t.State) (s : Session k t) (text : Text)
      → Reachable k t start s
      → Mem text (copies s.effects)
      → IsCopyable text
  unfolding copies
  copied-IsCopyable start s text r m =
      All-Mem IsCopyable (copies s.effects) IsCopyable-prop
        (Reachable-closed k t Copyable Copyable-IsClosed start s tt r) m
