-- ===== src/Gesture/Handlers/Phases.antt =====
-- The phases of a gesture, and the moves between them that each kind of step may make: what the
-- handlers promise, without coordinates, elements and timers.
pub mod Touches
pub mod Refines
use code_roam.Prelude.{ℕ, ℤ, Bool, true, false, Option, none, some, is_none, if◌then◌else◌}
use code_roam.Selection.Coordinates.{Coordinates}
use code_roam.Gesture.{Terminal, Session, Gesture, gesture_of}
use code_roam.Gesture.Handlers.Events.{
  Event, touch_start, touch_move, touch_end, detach, Step, happens, fires,
}

-- No touch; a touch that waits for the long press; one that waits no more; one that selects.
pub data Phase : Type 0 where
  idle pressing resigned selecting : Phase

abbrev phase_with : Bool → Bool → Bool → Phase
phase_with true selects no_timer = idle
phase_with false true no_timer = selecting
phase_with false false true = resigned
phase_with false false false = pressing

abbrev pub phase_of : Gesture → Phase
phase_of g = phase_with (is_none g.active) g.selecting (is_none g.timer)

pub data Kind : Type 0 where
  starts moves ends fires_timer disposes rests : Kind

-- The abstract machine: a selection begins only where a touch starts or a long press is due; a
-- move leaves the phase or gives up a long press; the end of a touch leaves the phase or is idle.
pub data PhaseStep : Kind → Phase → Phase → Type 0 where
  refused : {p : Phase} → PhaseStep starts p idle
  pressed : {p : Phase} → PhaseStep starts p pressing
  grabbed : {p : Phase} → PhaseStep starts p selecting
  moved_on : {p : Phase} → PhaseStep moves p p
  gave_up : PhaseStep moves pressing resigned
  other_touch : {p : Phase} → PhaseStep ends p p
  lifted : {p : Phase} → PhaseStep ends p idle
  word_found : PhaseStep fires_timer pressing selecting
  no_word : PhaseStep fires_timer pressing resigned
  disposed : {p : Phase} → PhaseStep disposes p idle
  rested : {p : Phase} → PhaseStep rests p p

module _ (k : Coordinates) (t : Terminal k) where
  abbrev pub phase : Session k t → Phase
  phase s = phase_of (gesture_of k s.controller)

  abbrev pub kind_of : Event k t → Kind
  kind_of (touch_start touches target timer) = starts
  kind_of (touch_move touches) = moves
  kind_of (touch_end changed) = ends
  kind_of detach = disposes
  kind_of _ = rests

  abbrev pub kind : {s s' : Session k t} → Step k t s s' → Kind
  kind (happens e) = kind_of e
  kind (fires timer due) = fires_timer
