-- ===== src/Gesture/Selecting/Words.antt =====
-- The word that a long press selects holds the pressed cell.
use code_roam.Prelude.{
  ℕ, List, pos_part, Bool, true, false, Option, none, some, ◌≡◌, refl, sym, ◌⊎◌, inl, inr, arith,
}
use mathlib.Core.Path.{subst}
use code_roam.Js.Strings.{Text}
use code_roam.Selection.Coordinates.{Coordinates}
use code_roam.Selection.Cells.{
  TerminalCellPosition, TerminalSelectionRange, TerminalSelectionEndpoints,
  ordered_terminal_selection_endpoints, terminal_selection_between,
}
use code_roam.Selection.Cells.Order.{Precedes, Within, ordered_lem}
use code_roam.Selection.Word.{WordSelection, terminal_word_selection}
use code_roam.Selection.Word.Around.{word_selection-Around}
use code_roam.Gesture.{Terminal, Session}
use code_roam.Gesture.Controls.Consistent.{current-update}
use code_roam.Gesture.Selecting.{
  cells_from, select_found, update_controls, after_call, select_range, select_between,
  select_word_in, select_word_at,
}

-- The word of a long press holds the pressed cell; there is none when a handle is dragged.
abbrev pub Holds : Option TerminalSelectionEndpoints → TerminalCellPosition → Type 0
Holds none anchor = Unit {0}
Holds (some word) anchor = Within anchor word

-- One of two choices: nothing, or the same.
abbrev Kept : Option TerminalSelectionEndpoints → Option TerminalSelectionEndpoints → Type 0
Kept o o' = (o' ≡ none) ⊎ (o' ≡ o)

Kept-Holds :
    (o o' : Option TerminalSelectionEndpoints) (cell : TerminalCellPosition)
    → Kept o o'
    → Holds o cell
    → Holds o' cell
Kept-Holds o o' cell (inl gone) h = subst (λ w. Holds w cell) (sym gone) tt
Kept-Holds o o' cell (inr same) h = subst (λ w. Holds w cell) (sym same) h

module _ (k : Coordinates) (t : Terminal k) where
  abbrev current : Session k t → Option TerminalSelectionEndpoints
  current s = s.controller.current_selection

  update-Holds :
      (s : Session k t) (cell : TerminalCellPosition)
      → Holds (current s) cell
      → Holds (current (update_controls k t s)) cell
  unfolding update_controls
  update-Holds s cell h =
      Kept-Holds (current s) _ cell (current-update k t s.terminal s.controller) h

  after_call-Holds :
      (state : t.State) (notified : Bool) (s : Session k t) (cell : TerminalCellPosition)
      → Holds (current s) cell
      → Holds (current (after_call k t (state, notified) s)) cell
  unfolding after_call
  after_call-Holds state true s cell h = update-Holds (record s { terminal = state }) cell h
  after_call-Holds state false s cell h = h

  select_range-Holds :
      (o : Option TerminalSelectionRange) (e : TerminalSelectionEndpoints) (s : Session k t)
      (cell : TerminalCellPosition)
      → Within cell e
      → Holds (select_range k t o e s).1 cell
  unfolding select_range
  select_range-Holds none e s cell w = tt
  select_range-Holds (some r) e s cell w =
      let chosen : Session k t = record s {
        controller = record s.controller { current_selection = some e };
      } in
      update-Holds (after_call k t (t.select r.column r.row r.length s.terminal) chosen) cell (
        after_call-Holds (t.select r.column r.row r.length s.terminal).0
          (t.select r.column r.row r.length s.terminal).1 chosen cell w)

  select_between-Holds :
      (a b cell : TerminalCellPosition) (s : Session k t)
      → Precedes a cell
      → Precedes cell b
      → Precedes a b
      → Holds (select_between k t a b s).1 cell
  unfolding select_between
  select_between-Holds a b cell s low high ab =
      select_range-Holds (terminal_selection_between a b (t.cols s.terminal))
        (ordered_terminal_selection_endpoints a b) s cell
        (subst (Within cell) (sym (ordered_lem a b ab)) (low, high))

  select_found-Holds :
      (cells : List Text) (o : Option WordSelection) (cell : TerminalCellPosition) (s : Session k t)
      → terminal_word_selection cells cell.column ≡ o
      → Holds (select_found k t o cell s).1 cell
  unfolding select_found
  select_found-Holds cells none cell s found = tt
  select_found-Holds cells (some w) cell s found =
      let (low, high) = word_selection-Around cells cell.column w found in
      select_between-Holds _ _ cell s (inr (refl, low)) (inr (refl, high)) (inr (refl, omega arith))

  select_word_in-Holds :
      (o : Option (ℕ → Option Text)) (cell : TerminalCellPosition) (s : Session k t)
      → Holds (select_word_in k t o cell s).1 cell
  unfolding select_word_in
  select_word_in-Holds none cell s = tt
  select_word_in-Holds (some line) cell s =
      select_found-Holds (cells_from (pos_part (t.cols s.terminal)) 0 line) _ cell s refl

  -- The word found at a cell holds the cell.
  pub select_word_at-Holds :
      (cell : TerminalCellPosition) (s : Session k t) → Holds (select_word_at k t cell s).1 cell
  unfolding select_word_at
  select_word_at-Holds cell s = select_word_in-Holds (t.line s.terminal cell.row) cell s
