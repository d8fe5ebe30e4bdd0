-- ===== src/Gesture/Handlers/Resigned.antt =====
-- A finger that moves before the long press: near its start it changes nothing, and far from it it
-- gives up the press.
use code_roam.Prelude.{
  ℤ, pos, Bool, true, false, not, List, [], some, ◌≡◌, ap, ◌∙◌, ◌⊎◌, inl, inr, Bool-cases,
  if◌then◌else◌,
}
use code_roam.Selection.Coordinates.{Coordinates}
use code_roam.Gesture.{Terminal, Session, Touch}
use code_roam.Gesture.Timers.{pending, armed}
use code_roam.Gesture.Selecting.{cancel_long_press_timer}
use code_roam.Gesture.Selecting.Keeps.{held-cancel}
use code_roam.Gesture.Selecting.Selects.{cancel-terminal}
use code_roam.Gesture.Handlers.{
  touch_with_identifier, await_press, drag, moved, move_active, handle_touch_move,
}
use code_roam.Gesture.Handlers.Events.{Reachable, touch_move, handle_event}
use code_roam.Gesture.Handlers.Invariant.{event-Orderly, Reachable-Orderly}

module _ (k : Coordinates) (t : Terminal k) where
  -- Whether a touch is within 12 pixels of the start of the gesture.
  abbrev pub is_near : Touch k → Session k t → Bool
  is_near touch s =
      k.le
        (k.hypot (k.minus touch.client_x s.controller.start_client_x)
          (k.minus touch.client_y s.controller.start_client_y))
        (k.of_int (pos 12))

  move-awaits :
      (s : Session k t) (id : ℤ) (touches : List (Touch k)) (touch : Touch k)
      → s.controller.active_touch_identifier ≡ some id
      → s.controller.is_touch_selecting ≡ false
      → touch_with_identifier k touches id ≡ some touch
      → handle_touch_move k t touches s
        ≡ (if not (is_near touch s) then cancel_long_press_timer k t s else s)
  unfolding handle_touch_move move_active moved await_press
  move-awaits s id touches touch active still found =
      ap (λ a. move_active k t a touches s) active
      ∙ ap (λ o. moved k t o s) found
      ∙ ap (λ b. if b then drag k t touch s else await_press k t touch s) still

  -- In every session that the controller reaches, when the finger that it follows moves before a
  -- selection has begun: within 12 pixels of its start nothing changes, and further away the
  -- terminal is left as it is and no timer is pending, so that no long press follows.
  pub move_cases :
      (start : t.State) (s : Session k t) (id : ℤ) (touches : List (Touch k)) (touch : Touch k)
      → Reachable k t start s
      → s.controller.active_touch_identifier ≡ some id
      → s.controller.is_touch_selecting ≡ false
      → touch_with_identifier k touches id ≡ some touch
      → ((is_near touch s ≡ true) × (handle_touch_move k t touches s ≡ s))
        ⊎ ((is_near touch s ≡ false)
            × ((handle_touch_move k t touches s).terminal ≡ s.terminal)
            × (pending (handle_touch_move k t touches s).effects ≡ []))
  unfolding handle_event
  move_cases start s id touches touch r active still found =
      let awaits = move-awaits s id touches touch active still found in
      elim (Bool-cases (is_near touch s)) [
        | inl near ↦
            inl (near, awaits ∙ ap (λ b. if not b then cancel_long_press_timer k t s else s) near)
        | inr far ↦
            let gone = awaits ∙ ap (λ b. if not b then cancel_long_press_timer k t s else s) far in
            let orderly =
              event-Orderly k t (touch_move touches) s (Reachable-Orderly k t start s r) in
            inr (
              far,
              ap (λ s'. s'.terminal) gone ∙ cancel-terminal k t s,
              orderly.one_timer
                  ∙ ap (λ s'. armed s'.controller.long_press_timer) gone
                  ∙ ap (λ h. armed h.gesture.timer) (held-cancel k t s),
            )
      ]
