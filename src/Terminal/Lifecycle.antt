-- ===== src/Terminal/Lifecycle.antt =====
-- The life of the page in webview/terminal/src/main.ts: it fits the terminal to its host once per
-- animation frame, and `pagehide` ends it.
pub mod Fits
pub mod Hidden
mod Tests
use code_roam.Gesture.Timers.{remove}
use code_roam.Prelude.{
  ℕ, Bool, true, false, ◌==◌, Option, none, some, List, [], ◌∷◌, ◌≡◌, any, if◌then◌else◌,
}

-- What the page does, and the frames that ran.
pub data Act : Type 0 where
  request_animation_frame frame_ran cancel_animation_frame : ℕ → Act
  fit observe disconnect : Act
  add_focus_listeners remove_focus_listeners : Act
  dispose_input dispose_resize dispose_touch_selection dispose_terminal : Act

-- The variable `resizeAnimationFrame`, and what was done so far, the latest first.
pub record PageLife : Type 0 where
  pub resize_animation_frame : Option ℕ
  pub acts : List Act

-- The page once its script has run: the calls from the focus listeners on.
abbrev pub start_page : PageLife
start_page = record {
  resize_animation_frame = none;
  acts = observe ∷ fit ∷ add_focus_listeners ∷ [];
}

-- A frame is asked for unless one is awaited; the browser gives its number.
request_frame : Option ℕ → ℕ → PageLife → PageLife
request_frame (some awaited) frame p = p
request_frame none frame p = record {
  resize_animation_frame = some frame;
  acts = request_animation_frame frame ∷ p.acts;
}

-- The callback of the resize observer.
unfoldable pub on_host_resize : ℕ → PageLife → PageLife
unfolding request_frame
on_host_resize frame p = request_frame p.resize_animation_frame frame p

-- The callback of the animation frame, which ran.
unfoldable pub on_animation_frame : ℕ → PageLife → PageLife
on_animation_frame frame p = record {
  resize_animation_frame = none;
  acts = fit ∷ frame_ran frame ∷ p.acts;
}

cancel_frame : Option ℕ → List Act → List Act
cancel_frame none acts = acts
cancel_frame (some frame) acts = cancel_animation_frame frame ∷ acts

-- The handler of `pagehide`; it leaves the variable as it is.
unfoldable pub on_page_hide : PageLife → PageLife
unfolding cancel_frame
on_page_hide p = record p {
  acts =
      dispose_terminal
      ∷ remove_focus_listeners
      ∷ dispose_touch_selection
      ∷ dispose_resize
      ∷ dispose_input
      ∷ cancel_frame p.resize_animation_frame (disconnect ∷ p.acts);
}

-- The frames that the browser still owes the page.
abbrev pub owed : List Act → List ℕ
owed [] = []
owed (request_animation_frame frame ∷ acts) = frame ∷ owed acts
owed (frame_ran frame ∷ acts) = remove frame (owed acts)
owed (cancel_animation_frame frame ∷ acts) = remove frame (owed acts)
owed (_ ∷ acts) = owed acts

-- Whether the observer is connected, and whether the terminal is disposed.
abbrev pub observing : List Act → Bool
observing [] = false
observing (observe ∷ acts) = true
observing (disconnect ∷ acts) = false
observing (_ ∷ acts) = observing acts

abbrev pub disposed : List Act → Bool
disposed [] = false
disposed (dispose_terminal ∷ acts) = true
disposed (_ ∷ acts) = disposed acts

-- A connected observer reports a size, a frame that is owed runs, or the page is hidden, for
-- which the listener is called once.
pub data LifeStep (p : PageLife) : PageLife → Type 0 where
  host_resizes : (frame : ℕ) → observing p.acts ≡ true → LifeStep p (on_host_resize frame p)
  frame_runs :
      (frame : ℕ)
      → any (λ x. x == frame) (owed p.acts) ≡ true
      → LifeStep p (on_animation_frame frame p)
  page_hides : disposed p.acts ≡ false → LifeStep p (on_page_hide p)

pub data Lived : PageLife → Type 0 where
  started : Lived start_page
  lives : {p p' : PageLife} → Lived p → LifeStep p p' → Lived p'
