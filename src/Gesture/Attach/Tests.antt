-- ===== src/Gesture/Attach/Tests.antt =====
-- The attachment to a host, and its end.
use code_roam.Prelude.{[], ◌∷◌, ◌≡◌, true}
use code_roam.Js.Strings.{codes}
use code_roam.Gesture.Attach.{
  Surroundings, other_node, host, handle_touch_start, attach_controls, detach_controls,
}
use code_roam.Gesture.Attach.Undone.{detach-attach_controls}

-- A host with a child, and a listener that is not the controller's.
abbrev busy : Surroundings
busy = record {
  listeners =
      record { source = host; event = codes "wheel"; callback = handle_touch_start; capture = true }
      ∷ [];
  children = other_node 1 ∷ other_node 2 ∷ [];
}

detach-attach_controls_example : detach_controls (attach_controls busy) ≡ busy
detach-attach_controls_example = detach-attach_controls busy (tt, (tt, tt))
