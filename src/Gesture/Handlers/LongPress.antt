-- ===== src/Gesture/Handlers/LongPress.antt =====
-- A long press from its first touch to the selection of a word.
use code_roam.Prelude.{ℕ, ℤ, pos_part, true, [], ◌∷◌, Option, none, some, ◌≡◌, sym, ap, ◌∙◌}
use mathlib.Core.Path.{subst}
use code_roam.Js.Strings.{Text}
use code_roam.Selection.Coordinates.{Coordinates}
use code_roam.Selection.Cells.{TerminalCellPosition}
use code_roam.Selection.Cells.Covers.{IsCell}
use code_roam.Selection.Word.{is_word_at}
use code_roam.Gesture.{Terminal, Session, Touch, elsewhere, timeout_ran}
use code_roam.Gesture.Selecting.{clear_selection, select_word_at, terminal_cell_for_touch}
use code_roam.Gesture.Selecting.Keeps.{held-cancel}
use code_roam.Gesture.Selecting.Selects.{
  row_of, touch-IsCell, cancel-terminal, Selected, select_word_at-Selected,
}
use code_roam.Gesture.Handlers.{
  hold_press, begin_press, arm_timer, press_at, press, start_touch, handle_touch_start,
  long_press_at, on_long_press,
}

module _ (k : Coordinates) (t : Terminal k) where
  touch_start-begun :
      (touch : Touch k) (timer : ℕ) (cell : TerminalCellPosition) (s : Session k t)
      → terminal_cell_for_touch k t touch (clear_selection k t s) ≡ some cell
      → handle_touch_start k t (touch ∷ []) elsewhere timer s
        ≡ begin_press k t touch timer cell (clear_selection k t s)
  unfolding handle_touch_start start_touch press
  touch_start-begun touch timer cell s found =
      ap (λ o. press_at k t o touch timer (clear_selection k t s)) found

  begin_press-terminal :
      (touch : Touch k) (timer : ℕ) (cell : TerminalCellPosition) (s : Session k t)
      → (begin_press k t touch timer cell s).terminal ≡ s.terminal
  unfolding begin_press arm_timer
  begin_press-terminal touch timer cell s = cancel-terminal k t (hold_press k t touch cell s)

  abbrev timed : ℕ → Session k t → Session k t
  timed timer s = record s {
    controller = record s.controller { long_press_timer = none };
    effects = timeout_ran timer ∷ s.effects;
  }

  -- The callback selects at the cell of the touch that it finds.
  on_long_press-found :
      (timer : ℕ) (id : ℤ) (cell : TerminalCellPosition) (s : Session k t)
      → s.controller.active_touch_identifier ≡ some id
      → s.controller.selection_anchor ≡ some cell
      → (on_long_press k t timer s).terminal ≡ (select_word_at k t cell (timed timer s)).0.terminal
  unfolding on_long_press long_press_at
  on_long_press-found timer id cell s active at =
      ap (λ o. (long_press_at k t o s.controller.selection_anchor (timed timer s)).terminal) active
      ∙ ap (λ o. (long_press_at k t (some id) o (timed timer s)).terminal) at

  begun-held :
      (touch : Touch k) (timer : ℕ) (cell : TerminalCellPosition) (s : Session k t)
      → ((begin_press k t touch timer cell s).controller.active_touch_identifier
          ≡ some touch.identifier)
        × ((begin_press k t touch timer cell s).controller.selection_anchor ≡ some cell)
  unfolding begin_press arm_timer
  begun-held touch timer cell s =
      let kept = held-cancel k t (hold_press k t touch cell s) in
      (ap (λ h. h.gesture.active) kept, ap (λ h. h.gesture.anchor) kept)

  begun-Selected :
      (touch : Touch k) (timer : ℕ) (cell : TerminalCellPosition) (line : ℕ → Option Text)
      (s : Session k t)
      → IsCell cell (t.cols s.terminal)
      → t.line (begin_press k t touch timer cell s).terminal cell.row ≡ some line
      → is_word_at
          (row_of k t (begin_press k t touch timer cell s).terminal line)
          (pos_part cell.column)
        ≡ true
      → Selected k t cell line
          (begin_press k t touch timer cell s)
          (on_long_press k t timer (begin_press k t touch timer cell s)).terminal
  unfolding Selected
  begun-Selected touch timer cell line s valid row word =
      let begun = begin_press k t touch timer cell s in
      let (active, at) = begun-held touch timer cell s in
      subst (Selected k t cell line begun)
        (sym (on_long_press-found timer touch.identifier cell begun active at))
        (select_word_at-Selected k t cell line (timed timer begun)
          (subst (λ state. IsCell cell (t.cols state))
            (sym (begin_press-terminal touch timer cell s)) valid)
          row word)

  -- When a finger comes down on a cell of a word, away from the controls, and its timer runs, the
  -- terminal is told to select the longest run of word cells around that cell.
  pub long_press-Selected :
      (touch : Touch k) (timer : ℕ) (cell : TerminalCellPosition) (line : ℕ → Option Text)
      (s : Session k t)
      → terminal_cell_for_touch k t touch (clear_selection k t s) ≡ some cell
      → t.line (handle_touch_start k t (touch ∷ []) elsewhere timer s).terminal cell.row ≡ some line
      → is_word_at
          (row_of k t (handle_touch_start k t (touch ∷ []) elsewhere timer s).terminal line)
          (pos_part cell.column)
        ≡ true
      → Selected k t cell line
          (handle_touch_start k t (touch ∷ []) elsewhere timer s)
          (on_long_press k t timer (handle_touch_start k t (touch ∷ []) elsewhere timer s)).terminal
  long_press-Selected touch timer cell line s found row word =
      let begun = touch_start-begun touch timer cell s found in
      subst (λ b. Selected k t cell line b (on_long_press k t timer b).terminal) (sym begun)
        (begun-Selected touch timer cell line (clear_selection k t s)
          (touch-IsCell k t touch (clear_selection k t s) cell found)
          (subst (λ b. t.line b.terminal cell.row ≡ some line) begun row)
          (subst (λ b. is_word_at (row_of k t b.terminal line) (pos_part cell.column) ≡ true) begun
            word))
