-- ===== src/Gesture/Selecting/Selects.antt =====
-- What the terminal is told to select.
use code_roam.Prelude.{
  ℕ, zero, suc, ℤ, pos, pos_part, ◌+◌, ◌-◌, ◌<◌, ◌≤◌, ◌+ℤ◌, ◌-ℤ◌, pos-add, pos-sub, Bool, true,
  false, List, length, Option, none, some, ◌≡◌, refl, sym, ap, ◌∙◌, arith, eq_pos_of_nonneg,
}
use mathlib.Core.Path.{subst}
use code_roam.Js.Strings.{Text}
use code_roam.Selection.Coordinates.{Coordinates}
use code_roam.Selection.Cells.{
  TerminalCellPosition, TerminalSelectionRange, TerminalSelectionEndpoints, is_terminal_cell,
  ordered_terminal_selection_endpoints,
}
use code_roam.Selection.Cells.Covers.{IsCell, between-row}
use code_roam.Selection.Word.{is_word_at}
use code_roam.Selection.Word.Run.{IsRun, IsRun-lt, selection_of_run, word_selection-IsRun}
use code_roam.Selection.Geometry.Points.{cell_from_point-IsShown}
use code_roam.Gesture.{Bounds, Terminal, Session, Touch}
use code_roam.Gesture.Selecting.{
  cells_from, cell_on, terminal_cell_for_touch, update_controls, clear_selection, dismiss_selection,
  after_call, cancel_timer, cancel_long_press_timer, select_range, select_between, select_found,
  select_word_in, select_word_at,
}

-- The row of the terminal, as the code reads it.
unfoldable pub row_of : (k : Coordinates) (t : Terminal k) → t.State → (ℕ → Option Text) → List Text
unfolding cells_from
row_of k t s line = cells_from (pos_part (t.cols s)) 0 line

length-cells_from : (n column : ℕ) (line : ℕ → Option Text) → length (cells_from n column line) ≡ n
unfolding cells_from
length-cells_from zero column line = refl
length-cells_from (suc n) column line = ap suc (length-cells_from n (column + 1) line)

module _ (k : Coordinates) (t : Terminal k) where
  cell_on-IsCell :
      (o : Option (Bounds k)) (touch : Touch k) (s : Session k t) (cell : TerminalCellPosition)
      → cell_on k t o touch s ≡ some cell
      → IsCell cell (t.cols s.terminal)
  unfolding cell_on
  cell_on-IsCell none touch s cell h = cc
  cell_on-IsCell (some bounds) touch s cell h = (cell_from_point-IsShown k _ cell h).in_grid

  -- A cell that a touch finds is one of the grid.
  pub touch-IsCell :
      (touch : Touch k) (s : Session k t) (cell : TerminalCellPosition)
      → terminal_cell_for_touch k t touch s ≡ some cell
      → IsCell cell (t.cols s.terminal)
  unfolding terminal_cell_for_touch
  touch-IsCell touch s cell h = cell_on-IsCell (t.screen_bounds s.terminal) touch s cell h

  cancel_timer-terminal :
      (o : Option ℕ) (s : Session k t) → (cancel_timer k t o s).terminal ≡ s.terminal
  unfolding cancel_timer
  cancel_timer-terminal none s = refl
  cancel_timer-terminal (some timer) s = refl

  pub cancel-terminal : (s : Session k t) → (cancel_long_press_timer k t s).terminal ≡ s.terminal
  unfolding cancel_long_press_timer
  cancel-terminal s = cancel_timer-terminal s.controller.long_press_timer s

  after_call-terminal :
      (state : t.State) (notified : Bool) (s : Session k t)
      → (after_call k t (state, notified) s).terminal ≡ state
  unfolding after_call update_controls
  after_call-terminal state true s = refl
  after_call-terminal state false s = refl

  pub clear-terminal :
      (s : Session k t) → (clear_selection k t s).terminal ≡ (t.clear_selection s.terminal).0
  unfolding clear_selection
  clear-terminal s =
      after_call-terminal (t.clear_selection s.terminal).0 (t.clear_selection s.terminal).1 s

  pub dismiss-terminal :
      (s : Session k t) → (dismiss_selection k t s).terminal ≡ (t.clear_selection s.terminal).0
  unfolding dismiss_selection update_controls
  dismiss-terminal s =
      clear-terminal (record s { controller = record s.controller { current_selection = none } })

  select_range-terminal :
      (o : Option TerminalSelectionRange) (r : TerminalSelectionRange)
      (e : TerminalSelectionEndpoints) (s : Session k t)
      → o ≡ some r
      → (select_range k t o e s).0.terminal ≡ (t.select r.column r.row r.length s.terminal).0
  unfolding select_range update_controls
  select_range-terminal none r e s h = cc
  select_range-terminal (some q) r e s h =
      after_call-terminal (t.select q.column q.row q.length s.terminal).0
        (t.select q.column q.row q.length s.terminal).1
        (record s { controller = record s.controller { current_selection = some e } })
      ∙ ap
          (λ o. elim o [
            | none ↦ s.terminal
            | some r ↦ (t.select r.column r.row r.length s.terminal).0
          ])
          h

  select_found-terminal :
      (row : ℤ) (column start end : ℕ) (s : Session k t)
      → start ≤ end
      → IsCell (record { column = pos start; row = row }) (t.cols s.terminal)
      → IsCell (record { column = pos end; row = row }) (t.cols s.terminal)
      → (select_found k t
          (some (selection_of_run start end))
          (record { column = pos column; row = row })
          s).0.terminal
        ≡ (t.select (pos start) row (pos (end - start + 1)) s.terminal).0
  unfolding select_found select_between
  select_found-terminal row column start end s le va vb =
      let last : pos start +ℤ pos (end - start + 1) -ℤ pos 1 ≡ pos end =
        ap (λ z. z -ℤ pos 1) (pos-add start (end - start + 1))
        ∙ pos-sub (start + (end - start + 1)) 1 (omega arith)
        ∙ ap pos (omega arith) in
      subst
        (λ z.
          (select_between k t (record { column = pos start; row = row })
            (record { column = z; row = row }) s).0.terminal
          ≡ (t.select (pos start) row (pos (end - start + 1)) s.terminal).0)
        (sym last)
        (select_range-terminal _
          (record { column = pos start; row = row; length = pos (end - start + 1) })
          (ordered_terminal_selection_endpoints (record { column = pos start; row = row })
            (record { column = pos end; row = row }))
          s (between-row (t.cols s.terminal) row start end le va vb))

  -- Where a word is found, its run is selected.
  unfoldable pub Selected :
      TerminalCellPosition → (ℕ → Option Text) → Session k t → t.State → Type 0
  Selected cell line s state =
      (start end : ℕ) × IsRun (row_of k t s.terminal line) (pos_part cell.column) start end
      × (state ≡ (t.select (pos start) cell.row (pos (end - start + 1)) s.terminal).0)

  in_row :
      (row column columns : ℤ) (c : ℕ)
      → IsCell (record { column = column; row = row }) columns
      → c < pos_part columns
      → IsCell (record { column = pos c; row = row }) columns
  unfolding is_terminal_cell
  in_row row column columns c h lt = ground arith

  select_word-Selected :
      (row : ℤ) (column : ℕ) (line : ℕ → Option Text) (s : Session k t)
      → IsCell (record { column = pos column; row = row }) (t.cols s.terminal)
      → is_word_at (row_of k t s.terminal line) column ≡ true
      → Selected
          (record { column = pos column; row = row })
          line
          s
          (select_word_in k t (some line) (record { column = pos column; row = row }) s).0.terminal
  unfolding select_word_in row_of Selected
  select_word-Selected row column line s valid word =
      let cells = row_of k t s.terminal line in
      let (start, end, found, r) = word_selection-IsRun cells column word in
      let inside : end < pos_part (t.cols s.terminal) =
        subst (λ n. end < n) (length-cells_from (pos_part (t.cols s.terminal)) 0 line)
          (IsRun-lt cells column start end r) in
      let le : start ≤ end = omega (arith, r.from, r.to) in
      let cell : TerminalCellPosition = record { column = pos column; row = row } in
      let columns = t.cols s.terminal in
      (
        start,
        end,
        r,
        ap (λ o. (select_found k t o cell s).0.terminal) found
            ∙ select_found-terminal row column start end s le
                (in_row row (pos column) columns start valid (omega arith))
                (in_row row (pos column) columns end valid inside),
      )

  pub select_word_at-Selected :
      (cell : TerminalCellPosition) (line : ℕ → Option Text) (s : Session k t)
      → IsCell cell (t.cols s.terminal)
      → t.line s.terminal cell.row ≡ some line
      → is_word_at (row_of k t s.terminal line) (pos_part cell.column) ≡ true
      → Selected cell line s (select_word_at k t cell s).0.terminal
  unfolding select_word_at is_terminal_cell
  select_word_at-Selected cell line s valid row word =
      let same : cell.column ≡ pos (pos_part cell.column) =
        ground (arith, eq_pos_of_nonneg cell.column) in
      let same_cell : cell ≡ record { column = pos (pos_part cell.column); row = cell.row } =
        ap (λ z. record { column = z; row = cell.row }) same in
      subst (λ o. Selected cell line s (select_word_in k t o cell s).0.terminal) (sym row)
        (subst (λ c. Selected c line s (select_word_in k t (some line) c s).0.terminal)
          (sym same_cell)
          (select_word-Selected cell.row (pos_part cell.column) line s
            (subst (λ c. IsCell c (t.cols s.terminal)) same_cell valid) word))
