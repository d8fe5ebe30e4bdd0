-- ===== src/Terminal/Lifecycle/Tests.antt =====
-- A page that is resized, fitted and hidden, and the theorems on its life at it.
use code_roam.Prelude.{pos, Bool, true, false, none, some, [], ◌∷◌, ◌≡◌, refl}
use code_roam.Js.Strings.{codes}
use code_roam.Selection.Pixels.{pixels}
use code_roam.Gesture.{Bounds, Terminal, Touch, elsewhere, attach}
use code_roam.Gesture.Timers.{pending}
use code_roam.Gesture.Handlers.Events.{touch_start, handle_event}
use code_roam.Terminal.Lifecycle.{
  PageLife, start_page, on_host_resize, on_animation_frame, on_page_hide, owed, disposed,
  host_resizes, frame_runs, page_hides, Lived, started, lives,
}
use code_roam.Terminal.Lifecycle.Hidden.{
  Living, live_on, LivingStep, page_steps, controls_step, Lives, opens, goes_on, hidden-rests,
}
use code_roam.Terminal.Lifecycle.Fits.{IsSound, Lived-IsSound}

abbrev resized : PageLife
resized = on_host_resize 3 start_page

abbrev resized_again : PageLife
resized_again = on_host_resize 4 (on_animation_frame 3 resized)

abbrev hidden : PageLife
hidden = on_page_hide resized_again

resized_again-Lived : Lived resized_again
unfolding on_host_resize on_animation_frame
resized_again-Lived =
    lives (lives (lives started (host_resizes 3 refl)) (frame_runs 3 refl)) (host_resizes 4 refl)

hidden-Lived : Lived hidden
unfolding on_host_resize on_animation_frame
hidden-Lived = lives resized_again-Lived (page_hides refl)

Lived-IsSound_example : IsSound hidden
Lived-IsSound_example = Lived-IsSound hidden hidden-Lived

-- A terminal on a screen of eight by two cells, and a finger on the first.
abbrev area : Bounds pixels
area = record { left = pos 0; top = pos 0; width = pos 80; height = pos 20 }

abbrev tablet : Terminal pixels
tablet = record {
  State = Bool;
  cols = λ s. pos 8;
  rows = λ s. pos 2;
  viewport_y = λ s. pos 0;
  has_selection = λ s. s;
  get_selection = λ s. codes "ls";
  select = λ column row length s. (true, true);
  clear_selection = λ s. (false, true);
  focus = λ s. s;
  line = λ s row. none;
  screen_bounds = λ s. some area;
  host_bounds = λ s. area;
  toolbar_bounds = λ hidden s. area;
}

abbrev finger : Touch pixels
finger = record { identifier = pos 1; client_x = pos 5; client_y = pos 5 }

abbrev L : Type 0
L = Living pixels tablet

abbrev touched : L
touched = record {
  life = start_page;
  session =
      handle_event pixels tablet (touch_start (finger ∷ []) elsewhere 7)
        (attach pixels tablet false);
}

abbrev touched_resized : L
touched_resized = live_on pixels tablet touched resized

abbrev touched_hidden : L
touched_hidden = live_on pixels tablet touched_resized (on_page_hide resized)

touched_hidden-Lives : Lives pixels tablet false touched_hidden
unfolding on_host_resize live_on
touched_hidden-Lives =
    goes_on
      (goes_on (goes_on opens (controls_step (touch_start (finger ∷ []) elsewhere 7) refl))
        (page_steps (host_resizes 3 refl)))
      (page_steps (page_hides refl))

is_disposed : disposed touched_hidden.life.acts ≡ true
unfolding live_on on_page_hide
is_disposed = refl

hidden-rests_example :
    (owed touched_hidden.life.acts ≡ [])
    × (pending touched_hidden.session.effects ≡ [])
    × ((w' : L) → ¬ LivingStep pixels tablet touched_hidden w')
hidden-rests_example =
    hidden-rests pixels tablet false touched_hidden touched_hidden-Lives is_disposed
