-- ===== src/Terminal/Lifecycle/Fits.antt =====
-- The page fits the terminal at most once per frame, and never after it was disposed.
use code_roam.Prelude.{
  ℕ, true, false, ◌==◌, Option, none, some, List, [], ◌∷◌, ◌≡◌, refl, any, ap, sym, ◌∙◌, Bool-cases,
  inl, inr,
}
use code_roam.Gesture.Timers.{armed, remove, remove-armed, armed-any}
use code_roam.Terminal.Lifecycle.{
  Act, fit, disconnect, PageLife, start_page, request_frame, on_host_resize, on_animation_frame,
  cancel_frame, on_page_hide, owed, observing, disposed, LifeStep, host_resizes, frame_runs,
  page_hides, Lived, started, lives,
}

-- Every call of `fit` came before the terminal was disposed.
abbrev pub FitsInTime : List Act → Type 0
FitsInTime [] = Unit {0}
FitsInTime (fit ∷ acts) = (disposed acts ≡ false) × FitsInTime acts
FitsInTime (_ ∷ acts) = FitsInTime acts

-- While the page lives, its observer is connected and the frame that it awaits is the one that
-- the browser owes; after that the observer is disconnected and no frame is owed.
pub record IsSound (p : PageLife) : Type 0 where
  pub awaits : disposed p.acts ≡ false → owed p.acts ≡ armed p.resize_animation_frame
  pub watches : disposed p.acts ≡ false → observing p.acts ≡ true
  pub at_rest : disposed p.acts ≡ true → owed p.acts ≡ []
  pub deaf : disposed p.acts ≡ true → observing p.acts ≡ false
  pub in_time : FitsInTime p.acts

start_page-IsSound : IsSound start_page
start_page-IsSound = record {
  awaits = λ e. refl;
  watches = λ e. refl;
  at_rest = λ e. cc;
  deaf = λ e. cc;
  in_time = (refl, tt);
}

-- A page whose observer is connected, or that is owed a frame, is not disposed.
observing_lem : (p : PageLife) → observing p.acts ≡ true → IsSound p → disposed p.acts ≡ false
observing_lem p h s = elim (Bool-cases (disposed p.acts)) [
  | inl gone ↦ cc (s.deaf gone)
  | inr live ↦ live
]

owed_lem :
    (frame : ℕ) (p : PageLife)
    → any (λ x. x == frame) (owed p.acts) ≡ true
    → IsSound p
    → disposed p.acts ≡ false
owed_lem frame p h s = elim (Bool-cases (disposed p.acts)) [
  | inl gone ↦
      let never : any (λ x. x == frame) [] ≡ true =
        ap (any (λ x. x == frame)) (sym (s.at_rest gone)) ∙ h in
      cc
  | inr live ↦ live
]

request-IsSound :
    (o : Option ℕ) (frame : ℕ) (p : PageLife)
    → o ≡ p.resize_animation_frame
    → disposed p.acts ≡ false
    → IsSound p
    → IsSound (request_frame o frame p)
unfolding request_frame
request-IsSound (some awaited) frame p same live s = s
request-IsSound none frame p same live s = record {
  awaits = λ e. ap (λ l. frame ∷ l) (s.awaits live ∙ ap armed (sym same));
  watches = s.watches;
  at_rest = λ e. cc;
  deaf = s.deaf;
  in_time = s.in_time;
}

resize-IsSound :
    (frame : ℕ) (p : PageLife)
    → observing p.acts ≡ true
    → IsSound p
    → IsSound (on_host_resize frame p)
unfolding on_host_resize
resize-IsSound frame p h s =
    request-IsSound p.resize_animation_frame frame p refl (observing_lem p h s) s

frame-IsSound :
    (frame : ℕ) (p : PageLife)
    → any (λ x. x == frame) (owed p.acts) ≡ true
    → IsSound p
    → IsSound (on_animation_frame frame p)
unfolding on_animation_frame
frame-IsSound frame p h s =
    let live = owed_lem frame p h s in
    let mine =
      armed-any frame p.resize_animation_frame
        (ap (any (λ x. x == frame)) (sym (s.awaits live)) ∙ h) in
    record {
      awaits = λ e. ap (remove frame) (s.awaits live ∙ ap armed mine) ∙ remove-armed frame;
      watches = s.watches;
      at_rest = λ e. cc;
      deaf = s.deaf;
      in_time = (live, s.in_time);
    }

cancelled : (o : Option ℕ) (acts : List Act) → owed acts ≡ armed o → owed (cancel_frame o acts) ≡ []
unfolding cancel_frame
cancelled none acts h = h
cancelled (some frame) acts h = ap (remove frame) h ∙ remove-armed frame

cancel-FitsInTime :
    (o : Option ℕ) (acts : List Act) → FitsInTime acts → FitsInTime (cancel_frame o acts)
unfolding cancel_frame
cancel-FitsInTime none acts h = h
cancel-FitsInTime (some frame) acts h = h

observing-cancel_frame :
    (o : Option ℕ) (acts : List Act) → observing (cancel_frame o acts) ≡ observing acts
unfolding cancel_frame
observing-cancel_frame none acts = refl
observing-cancel_frame (some frame) acts = refl

hide-IsSound : (p : PageLife) → disposed p.acts ≡ false → IsSound p → IsSound (on_page_hide p)
unfolding on_page_hide
hide-IsSound p h s = record {
  awaits = λ e. cc;
  watches = λ e. cc;
  at_rest = λ e. cancelled p.resize_animation_frame (disconnect ∷ p.acts) (s.awaits h);
  deaf = λ e. observing-cancel_frame p.resize_animation_frame (disconnect ∷ p.acts);
  in_time = cancel-FitsInTime p.resize_animation_frame (disconnect ∷ p.acts) s.in_time;
}

step-IsSound : {p p' : PageLife} → LifeStep p p' → IsSound p → IsSound p'
step-IsSound {p} (host_resizes frame h) s = resize-IsSound frame p h s
step-IsSound {p} (frame_runs frame h) s = frame-IsSound frame p h s
step-IsSound {p} (page_hides h) s = hide-IsSound p h s

-- Through every order of sizes, frames and the end of the page: while the page lives, the
-- browser owes it the frame that it awaits and no other; once the terminal is disposed, the
-- observer is disconnected and no frame is owed; and the terminal was never fitted after that.
pub Lived-IsSound : (p : PageLife) → Lived p → IsSound p
Lived-IsSound p started = start_page-IsSound
Lived-IsSound p (lives {p = before} l st) = step-IsSound st (Lived-IsSound before l)

-- After `pagehide` disposed the terminal nothing more of this runs: no resize of the host, no
-- frame, and no second `pagehide`.
pub disposed-LifeStep : (p p' : PageLife) → Lived p → disposed p.acts ≡ true → ¬ LifeStep p p'
disposed-LifeStep p p' l gone (host_resizes frame h) = cc (observing_lem p h (Lived-IsSound p l))
disposed-LifeStep p p' l gone (frame_runs frame h) = cc (owed_lem frame p h (Lived-IsSound p l))
disposed-LifeStep p p' l gone (page_hides h) = cc
