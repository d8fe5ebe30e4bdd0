-- ===== src/Selection/Geometry/Toolbar.antt =====
-- Where the toolbar of a selection stands.
use code_roam.Prelude.{pos, true, false, some, ◌≡◌, arith, >>=-eq-some}
use code_roam.Selection.Coordinates.{Coordinates, clamp, IsLinear, le_refl, clamp_bounds}
use code_roam.Selection.Geometry.{
  TerminalToolbarPosition, TerminalToolbarPositionMapping, terminal_selection_toolbar_position,
  toolbar_at, toolbar_left, no_toolbar, horizontal_margin, maximum_left, maximum_top, half,
}

module _ (k : Coordinates) where
  infix 50 ◌⊑◌
  abbrev ◌⊑◌ : k.Coordinate → k.Coordinate → Type 0
  a ⊑ b = k.le a b ≡ true

  toolbar_parts :
      (m : TerminalToolbarPositionMapping k) (p : TerminalToolbarPosition k)
      → terminal_selection_toolbar_position k m ≡ some p
      → (anchor top_y bottom_y host_left host_top : k.Coordinate) × (toolbar_at k anchor top_y
            bottom_y host_left host_top m
          ≡ p)
        × (no_toolbar k m ≡ false)
  unfolding terminal_selection_toolbar_position
  toolbar_parts m p h =
      let (a, _, h₁) = >>=-eq-some m.anchor_client_x _ h in
      let (t, _, h₂) = >>=-eq-some m.selection_top_client_y _ h₁ in
      let (b, _, h₃) = >>=-eq-some m.selection_bottom_client_y _ h₂ in
      let (l, _, h₄) = >>=-eq-some m.host_left _ h₃ in
      let (u, _, h₅) = >>=-eq-some m.host_top _ h₄ in (a, t, b, l, u, ground arith, ground arith)

module _ (k : Coordinates) (L : IsLinear k) where
  open L use {order}
  open order use {le_trans, le_total}

  -- What the toolbar needs to fit: it is no larger than the host.
  pub record Fits (m : TerminalToolbarPositionMapping k) : Type 0 where
    pub across : k.le m.toolbar_width m.host_width ≡ true
    pub along : k.le m.toolbar_height m.host_height ≡ true

  pub room_nonneg :
      (large small : k.Coordinate)
      → k.le small large ≡ true
      → k.le (k.of_int (pos 0)) (k.minus large small) ≡ true
  room_nonneg large small h = (L.le-minus_iff _ _ _).1 (le_trans _ _ _ (L.zero-plus small) h)

  margin-le-half :
      (large small : k.Coordinate)
      → k.le small large ≡ true
      → k.le (horizontal_margin k large small) (half k (k.minus large small)) ≡ true
  unfolding horizontal_margin
  margin-le-half large small h = ground (
    arith,
    L.half_nonneg (k.minus large small) (room_nonneg large small h),
    le_refl k order (half k (k.minus large small)),
  )

  margin_room :
      (large small : k.Coordinate)
      → k.le small large ≡ true
      → k.le
          (horizontal_margin k large small)
          (k.minus (k.minus large small) (horizontal_margin k large small))
        ≡ true
  margin_room large small h =
      let below = margin-le-half large small h in
      (L.le-minus_iff _ _ _).1
        (le_trans _ _ _ (L.plus_mono _ _ _ _ below below) (L.halves (k.minus large small)))

  maximum_left_lem :
      (large small : k.Coordinate)
      → k.le small large ≡ true
      → maximum_left k large small ≡ k.minus (k.minus large small) (horizontal_margin k large small)
  unfolding maximum_left
  maximum_left_lem large small h = rw (margin_room large small h)

  maximum_top_lem :
      (large small : k.Coordinate)
      → k.le small large ≡ true
      → maximum_top k large small ≡ k.minus large small
  unfolding maximum_top
  maximum_top_lem large small h = rw (room_nonneg large small h)

  top_bounds :
      (at large small : k.Coordinate)
      → k.le small large ≡ true
      → (k.le (k.of_int (pos 0)) (clamp k.le at (k.of_int (pos 0)) (maximum_top k large small))
          ≡ true)
        × (k.le (k.plus (clamp k.le at (k.of_int (pos 0)) (maximum_top k large small)) small) large
            ≡ true)
  top_bounds at large small h =
      let bounds =
        clamp_bounds k order at (k.of_int (pos 0)) (k.minus large small)
          (room_nonneg large small h) in
      rw (maximum_top_lem large small h) (bounds.0, (L.le-minus_iff _ _ _).0 bounds.1)

  -- Where the toolbar is placed, and what is left of the host around it.
  pub record IsInside (m : TerminalToolbarPositionMapping k) (p : TerminalToolbarPosition k)
      : Type 0 where
    pub left : k.le (horizontal_margin k m.host_width m.toolbar_width) p.left ≡ true
    pub right :
        k.le
          (k.plus
            (k.plus p.left (horizontal_margin k m.host_width m.toolbar_width))
            m.toolbar_width)
          m.host_width
        ≡ true
    pub top : k.le (k.of_int (pos 0)) p.top ≡ true
    pub bottom : k.le (k.plus p.top m.toolbar_height) m.host_height ≡ true

  module _ (a t b l u : k.Coordinate) (m : TerminalToolbarPositionMapping k) (fits : Fits m) where
    left_bounds :
        (k.le (horizontal_margin k m.host_width m.toolbar_width) (toolbar_left k a t b l u m)
          ≡ true)
        × (k.le (toolbar_left k a t b l u m) (maximum_left k m.host_width m.toolbar_width) ≡ true)
    unfolding toolbar_left
    left_bounds =
        clamp_bounds k order _ _ _
          (rw (maximum_left_lem _ _ fits.across) (margin_room _ _ fits.across))

    toolbar_at-IsInside : IsInside m (toolbar_at k a t b l u m)
    unfolding toolbar_at
    toolbar_at-IsInside = record {
      left = left_bounds.0;
      right =
          (L.le-minus_iff _ _ _).0
            ((L.le-minus_iff _ _ _).0 (rw (maximum_left_lem _ _ fits.across) at left_bounds.1));
      top = (top_bounds _ _ _ fits.along).0;
      bottom = (top_bounds _ _ _ fits.along).1;
    }

  -- A toolbar no larger than its host is placed inside it, at least the margin away from the
  -- left and the right side.
  pub toolbar_position-IsInside :
      (m : TerminalToolbarPositionMapping k) (p : TerminalToolbarPosition k)
      → Fits m
      → terminal_selection_toolbar_position k m ≡ some p
      → IsInside m p
  toolbar_position-IsInside m p fits found =
      let (a, t, b, l, u, same, _) = toolbar_parts k m p found in
      rw same at (toolbar_at-IsInside a t b l u m fits)
