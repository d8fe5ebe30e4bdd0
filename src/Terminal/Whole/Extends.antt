-- ===== src/Terminal/Whole/Extends.antt =====
-- A step of the controller adds to the log of effects, and changes nothing of it.
use code_roam.Prelude.{
  ℕ, ◌-◌, ◌∷◌, [], ◌++◌, List, length, length-append, take, Option, none, some, ◌≡◌, refl, sym, ap,
  ◌∙◌, arith,
}
use code_roam.Selection.Coordinates.{Coordinates}
use code_roam.Gesture.{Terminal, Session, Effect, clear_timeout, set_timeout, timeout_ran, on_copy}
use code_roam.Gesture.Selecting.Keeps.{Held}
use code_roam.Gesture.Handlers.Events.{Step}
use code_roam.Gesture.Handlers.Preserved.{IsClosed}
use code_roam.Gesture.Handlers.Preserved.Steps.{Step-Kept}
use code_roam.Terminal.Whole.{since}

abbrev Extends : List Effect → Held → Type 0
Extends old h = (new : List Effect) × (h.effects ≡ new ++ old)

logged :
    (old : List Effect) (e : Effect) (es : List Effect)
    → (new : List Effect) × (es ≡ new ++ old)
    → (new : List Effect) × (e ∷ es ≡ new ++ old)
logged old e es (new, same) = (e ∷ new, ap (λ t. e ∷ t) same)

cleared :
    (old : List Effect) (timer : Option ℕ) (es : List Effect)
    → (new : List Effect) × (es ≡ new ++ old)
    → (new : List Effect) × (elim timer [ none ↦ es | some n ↦ clear_timeout n ∷ es ] ≡ new ++ old)
cleared old none es x = x
cleared old (some n) es x = logged old (clear_timeout n) es x

Extends-IsClosed : (old : List Effect) → IsClosed (Extends old)
Extends-IsClosed old = record {
  without_timer = λ h x. cleared old h.gesture.timer h.effects x;
  reset = λ h x. cleared old h.gesture.timer h.effects x;
  logged = λ h e q x. logged old e h.effects x;
  copied = λ h text c x. logged old (on_copy text) h.effects x;
  pressed = λ h id cell x. x;
  armed = λ h timer x. logged old (set_timeout timer) h.effects x;
  grabbed = λ h id cell x. x;
  ran = λ h timer x. logged old (timeout_ran timer) h.effects x;
  chosen = λ h word fits x. x;
}

take-length : (new old : List Effect) → take (length new) (new ++ old) ≡ new
take-length [] old = refl
take-length (e ∷ new) old = ap (λ t. e ∷ t) (take-length new old)

since-append : (new old : List Effect) → since (length old) (new ++ old) ≡ new
unfolding since
since-append new old =
    let count : length (new ++ old) - length old ≡ length new =
      omega (arith, length-append new old) in
    ap (λ n. take n (new ++ old)) count ∙ take-length new old

module _ (k : Coordinates) (t : Terminal k) where
  -- The log after a step is what was logged since, before the log that there was.
  pub Step-since :
      (s s' : Session k t)
      → Step k t s s'
      → s'.effects ≡ since (length s.effects) s'.effects ++ s.effects
  Step-since s s' st =
      let (new, same) =
        Step-Kept k t (Extends s.effects) (Extends-IsClosed s.effects) s s' st ([], refl) in
      same
      ∙ ap (λ es. es ++ s.effects)
          (sym (ap (λ es. since (length s.effects) es) same ∙ since-append new s.effects))
