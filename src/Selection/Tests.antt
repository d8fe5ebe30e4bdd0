-- ===== src/Selection/Tests.antt =====
-- Runs of the selection functions, and their theorems at concrete inputs.
mod Exact
use code_roam.Prelude.{
  ℕ, pos, ◌≡◌, refl, ◌↔◌, ◌≢◌, true, false, ◌&&◌, none, some, List, [], ◌∷◌, ◌-ℤ◌, ◌+ℤ◌, ◌*ℤ◌,
  arith,
}
use code_roam.Js.Strings.{Text, codes}
use code_roam.Selection.Coordinates.{clamp}
use code_roam.Selection.Pixels.{pixels, pixels-IsLinear, div_ℤ}
use code_roam.Selection.Cells.{
  TerminalCellPosition, terminal_selection_between, is_terminal_cell,
  ordered_terminal_selection_endpoints,
}
use code_roam.Selection.Cells.Covers.{IsCell, Selects, between-Selects, between-eq-none_iff}
use code_roam.Selection.Word.{is_word_at, terminal_word_selection}
use code_roam.Selection.Word.Run.{IsRun, selection_of_run, word_selection-IsRun}
use code_roam.Selection.Geometry.{
  Edge, TerminalPointMapping, TerminalHandlePointMapping, TerminalToolbarPosition,
  TerminalToolbarPositionMapping, Placement, terminal_cell_from_point, terminal_handle_point,
  terminal_selection_toolbar_position,
}
use code_roam.Selection.Geometry.Points.{IsScreen, IsShown, touch-IsShown, handle_point_iff}
use code_roam.Selection.Geometry.Toolbar.{IsInside, toolbar_position-IsInside}

abbrev cell : ℕ → ℕ → TerminalCellPosition
cell row column = record { column = pos column; row = pos row }

two_rows :
    terminal_selection_between (cell 2 1) (cell 1 78) (pos 80)
    ≡ some (record { column = pos 78; row = pos 1; length = pos 4 })
unfolding terminal_selection_between ◌-ℤ◌ ◌+ℤ◌ ◌*ℤ◌
two_rows = refl

first_in_grid : IsCell (cell 2 1) (pos 80)
unfolding is_terminal_cell
first_in_grid = refl

second_in_grid : IsCell (cell 1 78) (pos 80)
unfolding is_terminal_cell
second_in_grid = refl

between-Selects_example :
    Selects
      (cell 2 1)
      (cell 1 78)
      (pos 80)
      (ordered_terminal_selection_endpoints (cell 2 1) (cell 1 78))
between-Selects_example =
    between-Selects (cell 2 1) (cell 1 78) (pos 80) first_in_grid second_in_grid

between-eq-none_iff_example :
    (terminal_selection_between (cell 2 1) (cell 1 90) (pos 80) ≡ none)
    ↔ ((is_terminal_cell (cell 2 1) (pos 80) && is_terminal_cell (cell 1 90) (pos 80)) ≡ false)
between-eq-none_iff_example = between-eq-none_iff (cell 2 1) (cell 1 90) (pos 80)

-- The row `a (ls)`.
abbrev row : List Text
row = codes "a" ∷ codes " " ∷ codes "(" ∷ codes "l" ∷ codes "s" ∷ codes ")" ∷ []

word_ls : terminal_word_selection row (pos 4) ≡ some (record { column = pos 3; length = pos 2 })
unfolding terminal_word_selection
word_ls = refl

bracket : terminal_word_selection row (pos 2) ≡ some (record { column = pos 2; length = pos 1 })
unfolding terminal_word_selection
bracket = refl

s_is_word : is_word_at row 4 ≡ true
unfolding is_word_at
s_is_word = refl

word_selection-IsRun_example :
    (start end : ℕ) × (terminal_word_selection row (pos 4) ≡ some (selection_of_run start end))
    × IsRun row 4 start end
word_selection-IsRun_example = word_selection-IsRun row 4 s_is_word

-- A screen of 80 by 24 cells of 10 by 20 pixels, scrolled by 100 rows.
abbrev touch : TerminalPointMapping pixels
touch = record {
  client_x = some (pos 805);
  client_y = some (pos 45);
  screen_left = pos 5;
  screen_top = pos 5;
  screen_width = pos 800;
  screen_height = pos 480;
  columns = pos 80;
  rows = pos 24;
  viewport_y = pos 100;
}

screen : IsScreen pixels (pos 800) (pos 480) (pos 80) (pos 24)
screen = record { wide = refl; high = refl; has_columns = omega arith; has_rows = omega arith }

touch-IsShown_example :
    (c : TerminalCellPosition) × (terminal_cell_from_point pixels touch ≡ some c)
    × IsShown pixels (pos 80) (pos 24) (pos 100) c
touch-IsShown_example = touch-IsShown pixels (pos 805) (pos 45) touch refl refl screen (omega arith)

cell_of_touch : terminal_cell_from_point pixels touch ≡ some (cell 100 79)
unfolding terminal_cell_from_point clamp div_ℤ ◌-ℤ◌ ◌+ℤ◌ ◌*ℤ◌
cell_of_touch = refl

abbrev handle : TerminalHandlePointMapping pixels
handle = record {
  position = cell 100 79;
  edge = Edge.end;
  screen_left = pos 5;
  screen_top = pos 5;
  screen_width = pos 800;
  screen_height = pos 480;
  columns = pos 80;
  rows = pos 24;
  viewport_y = pos 100;
}

handle_point_iff_example : (terminal_handle_point pixels handle ≢ none) ↔ (
    IsScreen pixels (pos 800) (pos 480) (pos 80) (pos 24)
    × IsShown pixels (pos 80) (pos 24) (pos 100) (cell 100 79))
handle_point_iff_example = handle_point_iff pixels handle (omega arith)

abbrev toolbar : TerminalToolbarPositionMapping pixels
toolbar = record {
  anchor_client_x = some (pos 10);
  selection_top_client_y = some (pos 20);
  selection_bottom_client_y = some (pos 40);
  host_left = some (pos 0);
  host_top = some (pos 0);
  host_width = pos 800;
  host_height = pos 480;
  toolbar_width = pos 200;
  toolbar_height = pos 48;
}

abbrev toolbar_place : TerminalToolbarPosition pixels
toolbar_place = record {
  left = pos 8;
  top = pos 48;
  pointer_x = pos 12;
  placement = Placement.below;
}

toolbar_below : terminal_selection_toolbar_position pixels toolbar ≡ some toolbar_place
unfolding terminal_selection_toolbar_position clamp div_ℤ ◌-ℤ◌ ◌+ℤ◌
toolbar_below = refl

toolbar_position-IsInside_example : IsInside pixels pixels-IsLinear toolbar toolbar_place
toolbar_position-IsInside_example =
    toolbar_position-IsInside pixels pixels-IsLinear toolbar toolbar_place
      (record { across = refl; along = refl }) toolbar_below
