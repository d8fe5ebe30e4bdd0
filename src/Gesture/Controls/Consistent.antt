-- ===== src/Gesture/Controls/Consistent.antt =====
-- What `updateSelectionControls` establishes, and that running it again changes nothing.
use code_roam.Prelude.{
  Bool, true, false, not, Option, none, some, is_none, ◌≡◌, ◌⊎◌, inl, inr, ◌∙◌, ap, refl, arith,
}
use code_roam.Selection.Coordinates.{Coordinates}
use code_roam.Selection.Cells.{TerminalCellPosition, TerminalSelectionEndpoints}
use code_roam.Selection.Geometry.{Edge, TerminalHandlePoint}
use code_roam.Gesture.{Bounds, Terminal, HandleView, ToolbarView, Controller, gesture_of}
use code_roam.Gesture.Controls.{
  place_handle, handle_on, toolbar_with, update_with, position_handle, toolbar_between,
  toolbar_in_corner, toolbar_on, position_toolbar, without_handles, with_handles, show_selection,
  update_selection_controls,
}

module _ (k : Coordinates) (t : Terminal k) where
  -- A handle is hidden exactly when it has no point.
  place_handle-hidden :
      (p : Option (TerminalHandlePoint k)) (host : Bounds k) (h : HandleView k)
      → (place_handle k t p host h).0.hidden ≡ is_none (place_handle k t p host h).1
  unfolding place_handle
  place_handle-hidden none host h = refl
  place_handle-hidden (some p) host h = ground arith

  handle_on-hidden :
      (b : Option (Bounds k)) (p : TerminalCellPosition) (e : Edge) (s : t.State) (h : HandleView k)
      → (handle_on k t b p e s h).0.hidden ≡ is_none (handle_on k t b p e s h).1
  unfolding handle_on
  handle_on-hidden none p e s h = refl
  handle_on-hidden (some b) p e s h = place_handle-hidden _ (t.host_bounds s) h

  position_handle-hidden :
      (p : TerminalCellPosition) (e : Edge) (s : t.State) (h : HandleView k)
      → (position_handle k t p e s h).0.hidden ≡ is_none (position_handle k t p e s h).1
  unfolding position_handle
  position_handle-hidden p e s h = handle_on-hidden (t.screen_bounds s) p e s h

  place_handle-again :
      (p : Option (TerminalHandlePoint k)) (host : Bounds k) (h : HandleView k)
      → place_handle k t p host (place_handle k t p host h).0 ≡ place_handle k t p host h
  unfolding place_handle
  place_handle-again none host h = refl
  place_handle-again (some p) host h = ground arith

  handle_on-again :
      (b : Option (Bounds k)) (p : TerminalCellPosition) (e : Edge) (s : t.State) (h : HandleView k)
      → handle_on k t b p e s (handle_on k t b p e s h).0 ≡ handle_on k t b p e s h
  unfolding handle_on
  handle_on-again none p e s h = refl
  handle_on-again (some b) p e s h = place_handle-again _ (t.host_bounds s) h

  position_handle-again :
      (p : TerminalCellPosition) (e : Edge) (s : t.State) (h : HandleView k)
      → position_handle k t p e s (position_handle k t p e s h).0 ≡ position_handle k t p e s h
  unfolding position_handle
  position_handle-again p e s h = handle_on-again (t.screen_bounds s) p e s h

  module _ (s : t.State) where
    toolbar_between-hidden :
        (a u d : k.Coordinate) (v : ToolbarView k)
        → (toolbar_between k t a u d s v).hidden ≡ v.hidden
    unfolding toolbar_between
    toolbar_between-hidden a u d v = ground arith

    toolbar_between-again :
        (a u d : k.Coordinate) (v : ToolbarView k)
        → toolbar_between k t a u d s (toolbar_between k t a u d s v)
          ≡ toolbar_between k t a u d s v
    unfolding toolbar_between
    toolbar_between-again a u d v = ground arith

    toolbar_on-hidden :
        (r : k.Coordinate) (a b : Option (TerminalHandlePoint k)) (v : ToolbarView k)
        → (toolbar_on k t r a b s v).hidden ≡ v.hidden
    unfolding toolbar_on toolbar_in_corner
    toolbar_on-hidden r none none v = refl
    toolbar_on-hidden r none (some b) v = toolbar_between-hidden _ _ _ v
    toolbar_on-hidden r (some a) none v = toolbar_between-hidden _ _ _ v
    toolbar_on-hidden r (some a) (some b) v = toolbar_between-hidden _ _ _ v

    toolbar_on-again :
        (r : k.Coordinate) (a b : Option (TerminalHandlePoint k)) (v : ToolbarView k)
        → toolbar_on k t r a b s (toolbar_on k t r a b s v) ≡ toolbar_on k t r a b s v
    unfolding toolbar_on toolbar_in_corner
    toolbar_on-again r none none v = refl
    toolbar_on-again r none (some b) v = toolbar_between-again _ _ _ v
    toolbar_on-again r (some a) none v = toolbar_between-again _ _ _ v
    toolbar_on-again r (some a) (some b) v = toolbar_between-again _ _ _ v

    toolbar_with-hidden :
        (o : Option (Bounds k)) (a b : Option (TerminalHandlePoint k)) (v : ToolbarView k)
        → (toolbar_with k t o a b s v).hidden ≡ v.hidden
    unfolding toolbar_with toolbar_in_corner
    toolbar_with-hidden none a b v = refl
    toolbar_with-hidden (some o) a b v = toolbar_on-hidden _ a b v

    toolbar_with-again :
        (o : Option (Bounds k)) (a b : Option (TerminalHandlePoint k)) (v : ToolbarView k)
        → toolbar_with k t o a b s (toolbar_with k t o a b s v) ≡ toolbar_with k t o a b s v
    unfolding toolbar_with toolbar_in_corner
    toolbar_with-again none a b v = refl
    toolbar_with-again (some o) a b v = toolbar_on-again _ a b v

    module _ (a b : Option (TerminalHandlePoint k)) (v : ToolbarView k) where
      position_toolbar-hidden : (position_toolbar k t a b s v).hidden ≡ v.hidden
      unfolding position_toolbar
      position_toolbar-hidden = toolbar_with-hidden (t.screen_bounds s) a b v

      position_toolbar-again :
          position_toolbar k t a b s (position_toolbar k t a b s v) ≡ position_toolbar k t a b s v
      unfolding position_toolbar
      position_toolbar-again = toolbar_with-again (t.screen_bounds s) a b v

  -- What holds of the controls whenever they have been updated: the toolbar is shown exactly
  -- while the terminal has a selection, a handle exactly while it has a point, and without a
  -- selection of its own the controller has no handle points.
  pub record IsConsistent (s : t.State) (c : Controller k) : Type 0 where
    pub toolbar_shown : c.toolbar.hidden ≡ not (t.has_selection s)
    pub start_shown : c.start_handle.hidden ≡ is_none c.start_handle_point
    pub end_shown : c.end_handle.hidden ≡ is_none c.end_handle_point
    pub deselected : t.has_selection s ≡ false → c.current_selection ≡ none
    pub no_start : c.current_selection ≡ none → c.start_handle_point ≡ none
    pub no_end : c.current_selection ≡ none → c.end_handle_point ≡ none

  show-IsConsistent :
      (o : Option TerminalSelectionEndpoints) (s : t.State) (c : Controller k)
      → o ≡ c.current_selection
      → t.has_selection s ≡ true
      → c.toolbar.hidden ≡ false
      → IsConsistent s (show_selection k t o s c)
  unfolding show_selection without_handles with_handles
  show-IsConsistent none s c same h shown = record {
    toolbar_shown = position_toolbar-hidden s none none c.toolbar ∙ shown ∙ rw h;
    start_shown = refl;
    end_shown = refl;
    deselected = λ e. cc;
    no_start = λ e. refl;
    no_end = λ e. refl;
  }
  show-IsConsistent (some e) s c same h shown = record {
    toolbar_shown = position_toolbar-hidden s _ _ c.toolbar ∙ shown ∙ rw h;
    start_shown = position_handle-hidden e.start Edge.start s c.start_handle;
    end_shown = position_handle-hidden e.end Edge.end s c.end_handle;
    deselected = λ e. cc;
    no_start = λ e. cc;
    no_end = λ e. cc;
  }

  update_with-IsConsistent :
      (b : Bool) (s : t.State) (c : Controller k)
      → t.has_selection s ≡ b
      → IsConsistent s (update_with k t b s c)
  unfolding update_with without_handles
  update_with-IsConsistent true s c h =
      let c' : Controller k = record c { toolbar = record c.toolbar { hidden = false } } in
      show-IsConsistent c.current_selection s c' refl h refl
  update_with-IsConsistent false s c h = record {
    toolbar_shown = rw h;
    start_shown = refl;
    end_shown = refl;
    deselected = λ e. refl;
    no_start = λ e. refl;
    no_end = λ e. refl;
  }

  -- `updateSelectionControls` makes the controls agree with the terminal, from any state.
  pub update-IsConsistent :
      (s : t.State) (c : Controller k) → IsConsistent s (update_selection_controls k t s c)
  unfolding update_selection_controls
  update-IsConsistent s c = update_with-IsConsistent (t.has_selection s) s c refl

  shown_again : (v : ToolbarView k) → v.hidden ≡ false → record v { hidden = false } ≡ v
  shown_again v h = ground arith

  abbrev reshown : Controller k → Controller k
  reshown c = record c { toolbar = record c.toolbar { hidden = false } }

  show-again :
      (o : Option TerminalSelectionEndpoints) (s : t.State) (c : Controller k)
      → c.toolbar.hidden ≡ false
      → show_selection k t o s (reshown (show_selection k t o s c)) ≡ show_selection k t o s c
  unfolding show_selection without_handles with_handles
  show-again none s c h =
      let v = position_toolbar k t none none s c.toolbar in
      let shown = shown_again v (position_toolbar-hidden s none none c.toolbar ∙ h) in
      ground (arith, shown, position_toolbar-again s none none c.toolbar)
  show-again (some e) s c h =
      let a = position_handle k t e.start Edge.start s c.start_handle in
      let b = position_handle k t e.end Edge.end s c.end_handle in
      let v = position_toolbar k t a.1 b.1 s c.toolbar in
      let shown = shown_again v (position_toolbar-hidden s a.1 b.1 c.toolbar ∙ h) in
      ground (
        arith,
        shown,
        position_handle-again e.start Edge.start s c.start_handle,
        position_handle-again e.end Edge.end s c.end_handle,
        position_toolbar-again s a.1 b.1 c.toolbar,
      )

  show-current :
      (o : Option TerminalSelectionEndpoints) (s : t.State) (c : Controller k)
      → (show_selection k t o s c).current_selection ≡ c.current_selection
  unfolding show_selection without_handles with_handles
  show-current none s c = refl
  show-current (some e) s c = refl

  update_with-again :
      (b : Bool) (s : t.State) (c : Controller k)
      → update_with k t b s (update_with k t b s c) ≡ update_with k t b s c
  unfolding update_with without_handles
  update_with-again true s c =
      let c' = show_selection k t c.current_selection s (reshown c) in
      ap (λ o. show_selection k t o s (reshown c')) (show-current c.current_selection s (reshown c))
      ∙ show-again c.current_selection s (reshown c) refl
  update_with-again false s c = refl

  -- Updating the controls again, with the terminal unchanged, changes nothing: a listener that
  -- runs inside `select` or `clearSelection` and the call that follows it do no harm together.
  update-again :
      (s : t.State) (c : Controller k)
      → update_selection_controls k t s (update_selection_controls k t s c)
        ≡ update_selection_controls k t s c
  unfolding update_selection_controls
  update-again s c = update_with-again (t.has_selection s) s c

  show-gesture :
      (o : Option TerminalSelectionEndpoints) (s : t.State) (c : Controller k)
      → gesture_of k (show_selection k t o s c) ≡ gesture_of k c
  unfolding show_selection without_handles with_handles
  show-gesture none s c = refl
  show-gesture (some e) s c = refl

  update_with-gesture :
      (b : Bool) (s : t.State) (c : Controller k)
      → gesture_of k (update_with k t b s c) ≡ gesture_of k c
  unfolding update_with without_handles
  update_with-gesture true s c = show-gesture c.current_selection s (reshown c)
  update_with-gesture false s c = refl

  -- The controls are no part of the gesture.
  pub gesture-update :
      (s : t.State) (c : Controller k)
      → gesture_of k (update_selection_controls k t s c) ≡ gesture_of k c
  unfolding update_selection_controls
  gesture-update s c = update_with-gesture (t.has_selection s) s c

  update_with-current :
      (b : Bool) (s : t.State) (c : Controller k)
      → ((update_with k t b s c).current_selection ≡ none)
        ⊎ ((update_with k t b s c).current_selection ≡ c.current_selection)
  unfolding update_with without_handles
  update_with-current true s c = inr (show-current c.current_selection s (reshown c))
  update_with-current false s c = inl refl

  -- The update keeps the selection, or drops it.
  pub current-update :
      (s : t.State) (c : Controller k)
      → ((update_selection_controls k t s c).current_selection ≡ none)
        ⊎ ((update_selection_controls k t s c).current_selection ≡ c.current_selection)
  unfolding update_selection_controls
  current-update s c = update_with-current (t.has_selection s) s c
