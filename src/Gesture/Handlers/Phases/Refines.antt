-- ===== src/Gesture/Handlers/Phases/Refines.antt =====
-- Every step of the controller is a step of the abstract machine.
use code_roam.Prelude.{
  ℕ, ℤ, Bool, true, false, not, ◌==◌, List, [], ◌∷◌, Option, none, some, ◌≡◌, refl, sym, ap, ◌∙◌,
  is_none, any, Option-cases, inl, inr, if◌then◌else◌,
}
use mathlib.Core.Path.{subst}
use code_roam.Selection.Coordinates.{Coordinates}
use code_roam.Selection.Cells.{TerminalCellPosition}
use code_roam.Gesture.{Terminal, Session, Touch, Effect, on_copy, prevent_default, timeout_ran}
use code_roam.Js.{string}
use code_roam.Js.Strings.{Text}
use code_roam.Selection.Clipboard.{bounded_terminal_clipboard_text}
use code_roam.Gesture.Timers.{pending, armed, armed-any}
use code_roam.Gesture.Selecting.{consume, reset_gesture, select_word_at, dismiss_selection, effect}
use code_roam.Gesture.Selecting.Keeps.{
  held, held-update_controls, held-dismiss_selection, held-select_word_at, held-reset_gesture,
}
use code_roam.Gesture.Handlers.{
  long_press_at, on_long_press, end_active, handle_touch_end, handle_context_menu, handle_copy,
  handle_paste, handle_close, dispose, end_found, copied, touch_with_identifier,
}
use code_roam.Gesture.Handlers.Events.{
  Event, touch_start, touch_move, touch_end, context_menu, copy, paste, close, detach,
  terminal_listener, terminal_output, handle_event, Step, happens, fires, Reachable,
}
use code_roam.Gesture.Handlers.Orderly.{Orderly}
use code_roam.Gesture.Handlers.Invariant.{event-Orderly, Reachable-Orderly}
use code_roam.Gesture.Handlers.Phases.{
  idle, pressing, phase_with, phase_of, fires_timer, rests, PhaseStep, word_found, no_word, rested,
  phase, kind_of, kind,
}
use code_roam.Gesture.Handlers.Phases.Touches.{
  HeldStep, keeps-rests, reset-disposes, Moves, touch_start-starts, touch_move-moves,
  touch_end-ends,
}

pressing_phase : (a s n : Bool) → a ≡ false → s ≡ false → n ≡ false → phase_with a s n ≡ pressing
pressing_phase a s n active still armed = rw (active, still, armed) refl

-- After a due timer, by whether a word was found.
after_due : (found : Bool) → PhaseStep fires_timer pressing (phase_with false found true)
after_due true = word_found
after_due false = no_word

module _ (k : Coordinates) (t : Terminal k) where
  dismissed-rests : (s : Session k t) → Moves k t rests s (dismiss_selection k t s)
  dismissed-rests s = rw (held-dismiss_selection k t s) (keeps-rests (held k t s))

  consumed-rests : (s : Session k t) → Moves k t rests s (dismiss_selection k t (consume k t s))
  unfolding HeldStep
  consumed-rests s = dismissed-rests (consume k t s)

  pasted-rests : (s : Session k t) → Moves k t rests s (handle_paste k t s)
  unfolding HeldStep handle_paste
  pasted-rests s = dismissed-rests (consume k t s)

  if-rests :
      (b : Bool) (s s' : Session k t)
      → Moves k t rests s s'
      → Moves k t rests s (if b then s' else s)
  if-rests true s s' m = m
  if-rests false s s' m = keeps-rests (held k t s)

  effect-rests : (e : Effect) (s : Session k t) → Moves k t rests s (effect k t e s)
  unfolding HeldStep
  effect-rests e s = rested

  consume-rests : (s : Session k t) → Moves k t rests s (consume k t s)
  unfolding HeldStep
  consume-rests s = rested

  copied-rests : (text : Option Text) (s : Session k t) → Moves k t rests s (copied k t text s)
  unfolding copied HeldStep
  copied-rests none s = consume-rests s
  copied-rests (some text) s = dismissed-rests (effect k t (on_copy text) (consume k t s))

  event-HeldStep :
      (e : Event k t) (s : Session k t) → Moves k t (kind_of k t e) s (handle_event k t e s)
  unfolding handle_event handle_context_menu handle_copy handle_close dispose
  event-HeldStep (touch_start touches target timer) s =
      touch_start-starts k t touches target timer s
  event-HeldStep (touch_move touches) s = touch_move-moves k t touches s
  event-HeldStep (touch_end changed) s = touch_end-ends k t changed s
  event-HeldStep context_menu s =
      if-rests (t.has_selection s.terminal) s (effect k t prevent_default s)
        (effect-rests prevent_default s)
  event-HeldStep copy s =
      copied-rests (bounded_terminal_clipboard_text (string (t.get_selection s.terminal))) s
  event-HeldStep paste s = pasted-rests s
  event-HeldStep close s = consumed-rests s
  event-HeldStep detach s = rw (held-reset_gesture k t s) (reset-disposes (held k t s))
  event-HeldStep (terminal_listener state) s =
      rw (held-update_controls k t (record s { terminal = state }))
        (keeps-rests (held k t (record s { terminal = state })))
  event-HeldStep (terminal_output state) s = keeps-rests (held k t s)

  long_press_at-fires :
      (active : Option ℤ) (anchor : Option TerminalCellPosition) (s : Session k t)
      → active ≡ s.controller.active_touch_identifier
      → is_none active ≡ false
      → s.controller.long_press_timer ≡ none
      → s.controller.is_touch_selecting ≡ false
      → PhaseStep fires_timer pressing (phase k t (long_press_at k t active anchor s))
  unfolding long_press_at
  long_press_at-fires none anchor s same touched unarmed still = cc
  long_press_at-fires (some id) none s same touched unarmed still =
      rw (← same, unarmed, still) no_word
  long_press_at-fires (some id) (some anchor) s same touched unarmed still =
      let kept = held-select_word_at k t anchor s in
      let active : (select_word_at k t anchor s).0.controller.active_touch_identifier ≡ some id =
        ap (λ h. h.gesture.active) kept ∙ sym same in
      let timer : (select_word_at k t anchor s).0.controller.long_press_timer ≡ none =
        ap (λ h. h.gesture.timer) kept ∙ unarmed in
      rw (active, timer) (after_due (not (is_none (select_word_at k t anchor s).1)))

  -- A due timer finds a touch that waits for it.
  long_press-PhaseStep :
      (timer : ℕ) (s : Session k t)
      → any (λ x. x == timer) (pending s.effects) ≡ true
      → Orderly k t s
      → PhaseStep fires_timer (phase k t s) (phase k t (on_long_press k t timer s))
  unfolding on_long_press
  long_press-PhaseStep timer s due o =
      let ran : s.controller.long_press_timer ≡ some timer =
        armed-any timer s.controller.long_press_timer
          (ap (any (λ x. x == timer)) (sym o.one_timer) ∙ due) in
      let still : s.controller.is_touch_selecting ≡ false = o.pressing (ap is_none ran) in
      let touched : is_none s.controller.active_touch_identifier ≡ false =
        elim (Option-cases s.controller.active_touch_identifier) [
          | inl untouched ↦ cc (o.idle_timer untouched)
          | inr (id, active) ↦ ap is_none active
        ] in
      let s' : Session k t = record s {
        controller = record s.controller { long_press_timer = none };
        effects = timeout_ran timer ∷ s.effects;
      } in
      subst (λ p. PhaseStep fires_timer p (phase k t (on_long_press k t timer s)))
        (sym (pressing_phase _ _ _ touched still (ap is_none ran)))
        (long_press_at-fires s.controller.active_touch_identifier s.controller.selection_anchor s'
          refl touched refl still)

  event-PhaseStep :
      (e : Event k t) (s : Session k t)
      → PhaseStep (kind_of k t e) (phase k t s) (phase k t (handle_event k t e s))
  unfolding HeldStep
  event-PhaseStep e s = event-HeldStep e s

  -- In every session that the controller reaches, a step is one that the abstract machine allows
  -- a step of its kind between the phases before and after it.
  pub Step-PhaseStep :
      (start : t.State) (s s' : Session k t)
      → Reachable k t start s
      → (st : Step k t s s') → PhaseStep (kind k t st) (phase k t s) (phase k t s')
  Step-PhaseStep start s s' r (happens e) = event-PhaseStep e s
  Step-PhaseStep start s s' r (fires timer due) =
      long_press-PhaseStep timer s due (Reachable-Orderly k t start s r)

  -- When the finger that the controller follows is lifted, the gesture is over: its phase is idle,
  -- and the browser holds no timer of it.
  pub lifted-idle :
      (start : t.State) (s : Session k t) (id : ℤ) (changed : List (Touch k)) (touch : Touch k)
      → Reachable k t start s
      → s.controller.active_touch_identifier ≡ some id
      → touch_with_identifier k changed id ≡ some touch
      → (phase k t (handle_touch_end k t changed s) ≡ idle)
        × (pending (handle_touch_end k t changed s).effects ≡ [])
  unfolding handle_touch_end end_active end_found handle_event
  lifted-idle start s id changed touch r active found =
      let before : Session k t = if s.controller.is_touch_selecting then consume k t s else s in
      let ended : handle_touch_end k t changed s ≡ reset_gesture k t before =
        rw (active, found) refl in
      let after = ap (held k t) ended ∙ held-reset_gesture k t before in
      let orderly = event-Orderly k t (touch_end changed) s (Reachable-Orderly k t start s r) in
      (
        ap (λ h. phase_of h.gesture) after,
        orderly.one_timer ∙ ap (λ h. armed h.gesture.timer) after,
      )
