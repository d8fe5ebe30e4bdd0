-- ===== src/Gesture/Selecting/Shown.antt =====
-- The controls agree with the terminal after each use of it, when it tells its listeners.
use code_roam.Prelude.{
  ℕ, pos, pos_part, ◌+ℤ◌, ◌-ℤ◌, Bool, true, false, not, Option, none, some, is_none, ◌≡◌, refl, sym,
  ap, ◌∙◌, if◌then◌else◌,
}
use code_roam.Js.Strings.{Text}
use code_roam.Selection.Coordinates.{Coordinates}
use code_roam.Selection.Cells.{
  TerminalCellPosition, TerminalSelectionRange, TerminalSelectionEndpoints,
  ordered_terminal_selection_endpoints, terminal_selection_between,
}
use code_roam.Selection.Word.{WordSelection, terminal_word_selection}
use code_roam.Selection.Geometry.{TerminalHandlePoint}
use code_roam.Gesture.{Terminal, Session}
use code_roam.Gesture.Controls.Consistent.{IsConsistent, update-IsConsistent}
use code_roam.Gesture.Selecting.{
  cells_from, consume, update_controls, after_call, clear_selection, dismiss_selection,
  cancel_timer, cancel_long_press_timer, reset_gesture, select_range, select_between, select_found,
  select_word_in, select_word_at,
}

module _ (k : Coordinates) (t : Terminal k) where
  -- What xterm documents: `onSelectionChange` fires when the selection changes, and `focus` does
  -- not change it.
  pub record TellsSelection : Type 0 where
    pub cleared :
        (s : t.State)
        → (t.clear_selection s).1 ≡ false
        → t.has_selection (t.clear_selection s).0 ≡ t.has_selection s
    pub focused : (s : t.State) → t.has_selection (t.focus s) ≡ t.has_selection s

  -- What the controls show of a session.
  pub record Seen : Type 0 where
    has_selection : Bool
    toolbar_hidden : Bool
    start_hidden : Bool
    end_hidden : Bool
    start_point : Option (TerminalHandlePoint k)
    end_point : Option (TerminalHandlePoint k)
    selection : Option TerminalSelectionEndpoints

  abbrev pub seen : Session k t → Seen
  seen s = record {
    has_selection = t.has_selection s.terminal;
    toolbar_hidden = s.controller.toolbar.hidden;
    start_hidden = s.controller.start_handle.hidden;
    end_hidden = s.controller.end_handle.hidden;
    start_point = s.controller.start_handle_point;
    end_point = s.controller.end_handle_point;
    selection = s.controller.current_selection;
  }

  abbrev pub Shown : Session k t → Type 0
  Shown s = IsConsistent k t s.terminal s.controller

  pub calm-Shown : (s s' : Session k t) → seen s' ≡ seen s → Shown s → Shown s'
  calm-Shown s s' same a =
      let has = ap (λ v. v.has_selection) same in
      let chosen = ap (λ v. v.selection) same in
      let start = ap (λ v. v.start_point) same in
      let end = ap (λ v. v.end_point) same in
      record {
        toolbar_shown = ap (λ v. v.toolbar_hidden) same ∙ a.toolbar_shown ∙ ap not (sym has);
        start_shown = ap (λ v. v.start_hidden) same ∙ a.start_shown ∙ ap is_none (sym start);
        end_shown = ap (λ v. v.end_hidden) same ∙ a.end_shown ∙ ap is_none (sym end);
        deselected = λ e. chosen ∙ a.deselected (sym has ∙ e);
        no_start = λ e. start ∙ a.no_start (sym chosen ∙ e);
        no_end = λ e. end ∙ a.no_end (sym chosen ∙ e);
      }

  pub update-Shown : (s : Session k t) → Shown (update_controls k t s)
  unfolding update_controls
  update-Shown s = update-IsConsistent k t s.terminal s.controller

  pub dismiss-Shown : (s : Session k t) → Shown (dismiss_selection k t s)
  unfolding dismiss_selection
  dismiss-Shown s = update-Shown (
      clear_selection k t
        (record s { controller = record s.controller { current_selection = none } }))

  pub consume-Shown : (s : Session k t) → Shown s → Shown (consume k t s)
  consume-Shown s a = calm-Shown s (consume k t s) refl a

  cancel_timer-seen : (o : Option ℕ) (s : Session k t) → seen (cancel_timer k t o s) ≡ seen s
  unfolding cancel_timer
  cancel_timer-seen none s = refl
  cancel_timer-seen (some timer) s = refl

  pub cancel-seen : (s : Session k t) → seen (cancel_long_press_timer k t s) ≡ seen s
  unfolding cancel_long_press_timer
  cancel-seen s = cancel_timer-seen s.controller.long_press_timer s

  pub cancel-Shown : (s : Session k t) → Shown s → Shown (cancel_long_press_timer k t s)
  cancel-Shown s a = calm-Shown s (cancel_long_press_timer k t s) (cancel-seen s) a

  reset-seen : (s : Session k t) → seen (reset_gesture k t s) ≡ seen s
  unfolding reset_gesture
  reset-seen s = cancel-seen s

  pub reset-Shown : (s : Session k t) → Shown s → Shown (reset_gesture k t s)
  reset-Shown s a = calm-Shown s (reset_gesture k t s) (reset-seen s) a

  pub if-Shown : (b : Bool) (s s' : Session k t) → Shown s → Shown s' → Shown (if b then s else s')
  if-Shown true s s' a a' = a
  if-Shown false s s' a a' = a'

  select_range-Shown :
      (o : Option TerminalSelectionRange) (e : TerminalSelectionEndpoints) (s : Session k t)
      → Shown s
      → Shown (select_range k t o e s).0
  unfolding select_range
  select_range-Shown none e s a = a
  select_range-Shown (some r) e s a = update-Shown (
      after_call k t (t.select r.column r.row r.length s.terminal)
        (record s { controller = record s.controller { current_selection = some e } }))

  pub select_between-Shown :
      (first second : TerminalCellPosition) (s : Session k t)
      → Shown s
      → Shown (select_between k t first second s).0
  unfolding select_between
  select_between-Shown first second s a =
      select_range-Shown (terminal_selection_between first second (t.cols s.terminal))
        (ordered_terminal_selection_endpoints first second) s a

  select_found-Shown :
      (o : Option WordSelection) (p : TerminalCellPosition) (s : Session k t)
      → Shown s
      → Shown (select_found k t o p s).0
  unfolding select_found
  select_found-Shown none p s a = a
  select_found-Shown (some w) p s a =
      select_between-Shown (record { column = w.column; row = p.row })
        (record { column = w.column +ℤ w.length -ℤ pos 1; row = p.row }) s a

  select_word_in-Shown :
      (o : Option (ℕ → Option Text)) (p : TerminalCellPosition) (s : Session k t)
      → Shown s
      → Shown (select_word_in k t o p s).0
  unfolding select_word_in
  select_word_in-Shown none p s a = a
  select_word_in-Shown (some line) p s a =
      select_found-Shown
        (terminal_word_selection (cells_from (pos_part (t.cols s.terminal)) 0 line) p.column) p s a

  pub select_word_at-Shown :
      (p : TerminalCellPosition) (s : Session k t) → Shown s → Shown (select_word_at k t p s).0
  unfolding select_word_at
  select_word_at-Shown p s a = select_word_in-Shown (t.line s.terminal p.row) p s a

  pub replaced-Shown :
      (s : Session k t) (state : t.State)
      → t.has_selection state ≡ t.has_selection s.terminal
      → Shown s
      → Shown (record s { terminal = state })
  replaced-Shown s state same a =
      calm-Shown s (record s { terminal = state })
        (ap (λ b. record (seen s) { has_selection = b }) same) a

  module _ (law : TellsSelection) where
    after_clear :
        (state : t.State) (notified : Bool) (s : Session k t)
        → (notified ≡ false → t.has_selection state ≡ t.has_selection s.terminal)
        → Shown s
        → Shown (after_call k t (state, notified) s)
    unfolding after_call
    after_clear state true s same a = update-Shown (record s { terminal = state })
    after_clear state false s same a = replaced-Shown s state (same refl) a

    pub clear-Shown : (s : Session k t) → Shown s → Shown (clear_selection k t s)
    unfolding clear_selection
    clear-Shown s a =
        after_clear (t.clear_selection s.terminal).0 (t.clear_selection s.terminal).1 s
          (law.cleared s.terminal) a

    pub focus-Shown :
        (s : Session k t) → Shown s → Shown (record s { terminal = t.focus s.terminal })
    focus-Shown s a = replaced-Shown s (t.focus s.terminal) (law.focused s.terminal) a
