-- ===== src/Gesture/Controls/Inside.antt =====
-- Where the handles of a selection are drawn.
use code_roam.Prelude.{pos, ◌≡◌, refl, true, false, Option, none, some, Bool-cases, inl, inr}
use code_roam.Selection.Coordinates.{Coordinates, IsLinear, clamp_bounds}
use code_roam.Selection.Cells.{TerminalCellPosition}
use code_roam.Selection.Geometry.{Edge, TerminalHandlePoint}
use code_roam.Selection.Geometry.Toolbar.{room_nonneg}
use code_roam.Gesture.{Bounds, Terminal, HandleStyle, HandleView}
use code_roam.Gesture.Controls.{
  handle_size, handle_style, place_handle, handle_on, handle_point_on, position_handle,
}

module _ (k : Coordinates) (t : Terminal k) (L : IsLinear k) where
  -- The 48 pixels of a handle in each direction are inside the host.
  pub record InHost (host : Bounds k) (style : HandleStyle k) : Type 0 where
    pub left : k.le (k.of_int (pos 0)) style.left ≡ true
    pub right : k.le (k.plus style.left (handle_size k t)) host.width ≡ true
    pub top : k.le (k.of_int (pos 0)) style.top ≡ true
    pub bottom : k.le (k.plus style.top (handle_size k t)) host.height ≡ true

  -- A handle that is shown has a style, and that is inside the host.
  abbrev IsPlaced : Bounds k → HandleView k → Type 0
  IsPlaced host h =
      h.hidden ≡ false → (style : HandleStyle k) × (h.style ≡ some style) × InHost host style

  style-InHost :
      (point : TerminalHandlePoint k) (host : Bounds k)
      → k.le (handle_size k t) host.width ≡ true
      → k.le (handle_size k t) host.height ≡ true
      → InHost host (handle_style k t point host)
  unfolding handle_style
  style-InHost point host wide high =
      let across =
        clamp_bounds k L.order _ _ _ (room_nonneg k L host.width (handle_size k t) wide) in
      let along =
        clamp_bounds k L.order _ _ _ (room_nonneg k L host.height (handle_size k t) high) in
      record {
        left = across.0;
        right = (L.le-minus_iff _ _ _).0 across.1;
        top = along.0;
        bottom = (L.le-minus_iff _ _ _).0 along.1;
      }

  place-IsPlaced :
      (o : Option (TerminalHandlePoint k)) (host : Bounds k) (h : HandleView k)
      → IsPlaced host (place_handle k t o host h).0
  unfolding place_handle
  place-IsPlaced none host h = λ shown. cc
  place-IsPlaced (some point) host h = elim (Bool-cases (k.le (handle_size k t) host.width)) [
    | inl wide ↦ elim (Bool-cases (k.le (handle_size k t) host.height)) [
      | inl high ↦
          rw (wide, high)
            (λ shown. (handle_style k t point host, refl, style-InHost point host wide high))
      | inr low ↦ rw (wide, low) (λ shown. cc)
    ]
    | inr narrow ↦ rw narrow (λ shown. cc)
  ]

  handle_on-IsPlaced :
      (o : Option (Bounds k)) (position : TerminalCellPosition) (edge : Edge) (s : t.State)
      (h : HandleView k)
      → IsPlaced (t.host_bounds s) (handle_on k t o position edge s h).0
  unfolding handle_on
  handle_on-IsPlaced none position edge s h = λ shown. cc
  handle_on-IsPlaced (some screen) position edge s h =
      place-IsPlaced (handle_point_on k t screen position edge s) (t.host_bounds s) h

  -- A handle that is shown after `positionHandle` lies inside the host, whatever cell it marks.
  pub position_handle-InHost :
      (position : TerminalCellPosition) (edge : Edge) (s : t.State) (h : HandleView k)
      → (position_handle k t position edge s h).0.hidden ≡ false
      → (style : HandleStyle k) × ((position_handle k t position edge s h).0.style ≡ some style)
        × InHost (t.host_bounds s) style
  unfolding position_handle
  position_handle-InHost position edge s h =
      handle_on-IsPlaced (t.screen_bounds s) position edge s h
