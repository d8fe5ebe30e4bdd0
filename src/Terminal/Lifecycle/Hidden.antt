-- ===== src/Terminal/Lifecycle/Hidden.antt =====
-- The life of the page together with its controller, which the handler of `pagehide` disposes.
use code_roam.Prelude.{
  ℕ, ◌==◌, true, false, any, Bool, List, [], ◌∷◌, ◌++◌, length, ◌≡◌, refl, ap, sym, ◌∙◌, take, ◌-◌,
  length-append, arith, Bool-cases, Option-cases, inl, inr,
}
use mathlib.Core.Path.{subst}
use code_roam.Selection.Coordinates.{Coordinates}
use code_roam.Gesture.{Terminal, Session, attach}
use code_roam.Gesture.Timers.{pending, armed}
use code_roam.Gesture.Selecting.Keeps.{held-reset_gesture}
use code_roam.Gesture.Handlers.{dispose, on_long_press}
use code_roam.Gesture.Handlers.Events.{
  Event, detach, handle_event, happens, fires, Reachable, attached, step,
}
use code_roam.Gesture.Handlers.Invariant.{Reachable-Orderly}
use code_roam.Terminal.Lifecycle.{
  Act, request_animation_frame, frame_ran, cancel_animation_frame, fit, disconnect,
  remove_focus_listeners, dispose_input, dispose_resize, dispose_touch_selection, dispose_terminal,
  PageLife, start_page, on_host_resize, on_animation_frame, request_frame, cancel_frame,
  on_page_hide, owed, disposed, LifeStep, host_resizes, frame_runs, page_hides, Lived, started,
  lives,
}
use code_roam.Terminal.Lifecycle.Fits.{Lived-IsSound, disposed-LifeStep}

module _ (k : Coordinates) (t : Terminal k) where
  -- What an act of the page does to the controller: `touchSelectionController.dispose()`.
  unfoldable pub act_on : Act → Session k t → Session k t
  act_on dispose_touch_selection s = dispose k t s
  act_on _ s = s

  -- The acts that a log has gained since it had `n`, the latest first.
  unfoldable pub acts_since : ℕ → List Act → List Act
  acts_since n acts = take (length acts - n) acts

  unfoldable pub act_all : List Act → Session k t → Session k t
  unfolding act_on
  act_all [] s = s
  act_all (a ∷ acts) s = act_on a (act_all acts s)

  pub record Living : Type 0 where
    pub life : PageLife
    pub session : Session k t

  -- A step of the page, with what its acts do to the controller.
  unfoldable pub live_on : Living → PageLife → Living
  unfolding act_all acts_since
  live_on w p = record {
    life = p;
    session = act_all (acts_since (length w.life.acts) p.acts) w.session;
  }

  -- Whether the controller has its listeners, which `dispose` removes.
  abbrev pub listening : List Act → Bool
  listening [] = true
  listening (dispose_touch_selection ∷ acts) = false
  listening (_ ∷ acts) = listening acts

  -- A resize, a frame or `pagehide`; an event, while the controller listens; or a timer that the
  -- browser holds.
  pub data LivingStep (w : Living) : Living → Type 0 where
    page_steps : {p : PageLife} → LifeStep w.life p → LivingStep w (live_on w p)
    controls_step :
        (e : Event k t)
        → listening w.life.acts ≡ true
        → LivingStep w (record w { session = handle_event k t e w.session })
    timer_runs :
        (timer : ℕ)
        → any (λ x. x == timer) (pending w.session.effects) ≡ true
        → LivingStep w (record w { session = on_long_press k t timer w.session })

  pub data Lives (start : t.State) : Living → Type 0 where
    opens : Lives start (record { life = start_page; session = attach k t start })
    goes_on : {w w' : Living} → Lives start w → LivingStep w w' → Lives start w'

take-length : (new old : List Act) → take (length new) (new ++ old) ≡ new
take-length [] old = refl
take-length (a ∷ new) old = ap (λ t. a ∷ t) (take-length new old)

module _ (k : Coordinates) (t : Terminal k) where
  acts_since-append : (new old : List Act) → acts_since k t (length old) (new ++ old) ≡ new
  unfolding acts_since
  acts_since-append new old =
      let count : length (new ++ old) - length old ≡ length new =
        omega (arith, length-append new old) in
      ap (λ n. take n (new ++ old)) count ∙ take-length new old

  -- The acts that were added act on the session, and no others.
  live_on-session :
      (w : Living k t) (p : PageLife) (new : List Act)
      → p.acts ≡ new ++ w.life.acts
      → (live_on k t w p).session ≡ act_all k t new w.session
  unfolding live_on
  live_on-session w p new h =
      ap (λ acts. act_all k t acts w.session)
        (ap (acts_since k t (length w.life.acts)) h ∙ acts_since-append new w.life.acts)

  resize-session :
      (w : Living k t) (frame : ℕ)
      → (live_on k t w (on_host_resize frame w.life)).session ≡ w.session
  unfolding on_host_resize request_frame act_all act_on
  resize-session w frame = elim (Option-cases w.life.resize_animation_frame) [
    | inl e ↦
        live_on-session w (on_host_resize frame w.life) (request_animation_frame frame ∷ [])
          (rw e refl)
    | inr (awaited, e) ↦ live_on-session w (on_host_resize frame w.life) [] (rw e refl)
  ]

  frame-session :
      (w : Living k t) (frame : ℕ)
      → (live_on k t w (on_animation_frame frame w.life)).session ≡ w.session
  unfolding on_animation_frame act_all act_on
  frame-session w frame =
      live_on-session w (on_animation_frame frame w.life) (fit ∷ frame_ran frame ∷ []) refl

  hide-session :
      (w : Living k t) → (live_on k t w (on_page_hide w.life)).session ≡ dispose k t w.session
  unfolding on_page_hide cancel_frame act_all act_on
  hide-session w = elim (Option-cases w.life.resize_animation_frame) [
    | inl e ↦
        live_on-session w (on_page_hide w.life)
          (dispose_terminal ∷ remove_focus_listeners ∷ dispose_touch_selection ∷ dispose_resize
            ∷ dispose_input ∷ disconnect ∷ [])
          (rw e refl)
    | inr (frame, e) ↦
        live_on-session w (on_page_hide w.life)
          (dispose_terminal
            ∷ remove_focus_listeners
            ∷ dispose_touch_selection
            ∷ dispose_resize
            ∷ dispose_input
            ∷ cancel_animation_frame frame
            ∷ disconnect
            ∷ [])
          (rw e refl)
  ]

  -- What holds of the page and its controller after every step: each lives as it does alone, and
  -- once the page is disposed the controller has no listener and the browser no timer of it.
  record IsAtRest (start : t.State) (w : Living k t) : Type 0 where
    pub lived : Lived w.life
    pub reached : Reachable k t start w.session
    pub deaf : disposed w.life.acts ≡ true → listening k t w.life.acts ≡ false
    pub untimed : disposed w.life.acts ≡ true → pending w.session.effects ≡ []

  dispose-pending :
      (start : t.State) (s : Session k t)
      → Reachable k t start s
      → pending (dispose k t s).effects ≡ []
  unfolding handle_event dispose
  dispose-pending start s r =
      let orderly =
        Reachable-Orderly k t start (handle_event k t detach s) (step r (happens detach)) in
      orderly.one_timer ∙ ap (λ h. armed h.gesture.timer) (held-reset_gesture k t s)

  disposed-Reachable :
      (start : t.State) (s : Session k t)
      → Reachable k t start s
      → Reachable k t start (dispose k t s)
  unfolding handle_event
  disposed-Reachable start s r = step r (happens detach)

  -- A page that is not disposed by a step goes on with its session.
  going_on :
      (start : t.State) (w : Living k t) {p : PageLife}
      → LifeStep w.life p
      → disposed p.acts ≡ false
      → (live_on k t w p).session ≡ w.session
      → IsAtRest start w
      → IsAtRest start (live_on k t w p)
  unfolding live_on
  going_on start w st live same r = record {
    lived = lives r.lived st;
    reached = subst (Reachable k t start) (sym same) r.reached;
    deaf = λ e. cc;
    untimed = λ e. cc;
  }

  -- A page that takes a step is not disposed yet.
  live_lem : (p p' : PageLife) → Lived p → LifeStep p p' → disposed p.acts ≡ false
  live_lem p p' l st = elim (Bool-cases (disposed p.acts)) [
    | inl gone ↦ absurd (disposed-LifeStep p p' l gone st)
    | inr live ↦ live
  ]

  resized_lem :
      (frame : ℕ) (p : PageLife)
      → disposed p.acts ≡ false
      → disposed (on_host_resize frame p).acts ≡ false
  unfolding on_host_resize request_frame
  resized_lem frame p live = elim (Option-cases p.resize_animation_frame) [
    | inl e ↦ rw e live
    | inr (awaited, e) ↦ rw e live
  ]

  hidden_deaf : (p : PageLife) → listening k t (on_page_hide p).acts ≡ false
  unfolding on_page_hide
  hidden_deaf p = refl

  page-IsAtRest :
      (start : t.State) (w : Living k t) {p : PageLife}
      → LifeStep w.life p
      → IsAtRest start w
      → IsAtRest start (live_on k t w p)
  unfolding live_on on_animation_frame
  page-IsAtRest start w (host_resizes frame h) r =
      let st = host_resizes frame h in
      going_on start w st (resized_lem frame w.life (live_lem w.life _ r.lived st))
        (resize-session w frame) r
  page-IsAtRest start w (frame_runs frame h) r =
      let st = frame_runs frame h in
      going_on start w st (live_lem w.life _ r.lived st) (frame-session w frame) r
  page-IsAtRest start w (page_hides h) r = record {
    lived = lives r.lived (page_hides h);
    reached =
        subst (Reachable k t start) (sym (hide-session w))
          (disposed-Reachable start w.session r.reached);
    deaf = λ e. hidden_deaf w.life;
    untimed = λ e.
        ap (λ s. pending s.effects) (hide-session w) ∙ dispose-pending start w.session r.reached;
  }

  no_timer :
      (timer : ℕ) (w : Living k t)
      → pending w.session.effects ≡ []
      → ¬ (any (λ x. x == timer) (pending w.session.effects) ≡ true)
  no_timer timer w h due =
      let never : any (λ x. x == timer) [] ≡ true = ap (any (λ x. x == timer)) (sym h) ∙ due in cc

  Lives-IsAtRest : (start : t.State) (w : Living k t) → Lives k t start w → IsAtRest start w
  Lives-IsAtRest start _ opens = record {
    lived = started;
    reached = attached;
    deaf = λ e. cc;
    untimed = λ e. refl;
  }
  Lives-IsAtRest start _ (goes_on {w = w} l (page_steps st)) =
      page-IsAtRest start w st (Lives-IsAtRest start w l)
  Lives-IsAtRest start _ (goes_on {w = w} l (controls_step e h)) =
      let r = Lives-IsAtRest start w l in
      record {
        lived = r.lived;
        reached = step r.reached (happens e);
        deaf = r.deaf;
        untimed = λ gone. let silent = r.deaf gone in cc;
      }
  Lives-IsAtRest start _ (goes_on {w = w} l (timer_runs timer h)) =
      let r = Lives-IsAtRest start w l in
      record {
        lived = r.lived;
        reached = step r.reached (fires timer h);
        deaf = r.deaf;
        untimed = λ gone. absurd (no_timer timer w (r.untimed gone) h);
      }

  nothing_runs :
      (start : t.State) (w w' : Living k t)
      → IsAtRest start w
      → disposed w.life.acts ≡ true
      → ¬ LivingStep k t w w'
  nothing_runs start w _ r gone (page_steps {p} st) = disposed-LifeStep w.life p r.lived gone st
  nothing_runs start w _ r gone (controls_step e h) = let silent = r.deaf gone in cc
  nothing_runs start w _ r gone (timer_runs timer h) = no_timer timer w (r.untimed gone) h

  -- After `pagehide` everything rests: the browser owes no frame and holds no timer of the
  -- controller, and no resize, frame, second `pagehide`, event of the controller or timer runs.
  pub hidden-rests :
      (start : t.State) (w : Living k t)
      → Lives k t start w
      → disposed w.life.acts ≡ true
      → (owed w.life.acts ≡ [])
        × (pending w.session.effects ≡ [])
        × ((w' : Living k t) → ¬ LivingStep k t w w')
  hidden-rests start w l gone =
      let r = Lives-IsAtRest start w l in
      (
        (Lived-IsSound w.life r.lived).at_rest gone,
        r.untimed gone,
        λ w'. nothing_runs start w w' r gone,
      )
