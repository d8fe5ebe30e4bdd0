-- ===== src/Selection/Tests/Exact.antt =====
-- A touch on a screen whose lengths are fractions.
use code_roam.Prelude.{pos, ◌+ℤ◌, ◌-ℤ◌, ◌≡◌, refl, some, arith}
use code_roam.Selection.Coordinates.{clamp}
use code_roam.Selection.Fractions.{
  whole, sum, product, quotient, le_fraction, floor_fraction, fractions,
}
use code_roam.Selection.Fractions.Laws.{fractions-IsExact}
use code_roam.Selection.Cells.{TerminalCellPosition}
use code_roam.Selection.Geometry.{TerminalPointMapping, terminal_cell_from_point}
use code_roam.Selection.Geometry.Points.{IsScreen}
use code_roam.Selection.Geometry.Under.{IsUnder, touch-IsUnder}

-- A screen of 3 by 2 cells, whose columns are 10/3 pixels wide, scrolled by 100 rows.
abbrev touch : TerminalPointMapping fractions
touch = record {
  client_x = some (whole (pos 9));
  client_y = some (whole (pos 30));
  screen_left = whole (pos 5);
  screen_top = whole (pos 5);
  screen_width = whole (pos 10);
  screen_height = whole (pos 40);
  columns = pos 3;
  rows = pos 2;
  viewport_y = pos 100;
}

screen : IsScreen fractions (whole (pos 10)) (whole (pos 40)) (pos 3) (pos 2)
unfolding le_fraction
screen = record { wide = refl; high = refl; has_columns = omega arith; has_rows = omega arith }

touch-IsUnder_example :
    (c : TerminalCellPosition) × (terminal_cell_from_point fractions touch ≡ some c)
    × IsUnder fractions (whole (pos 9)) (whole (pos 30)) touch c
touch-IsUnder_example =
    touch-IsUnder fractions fractions-IsExact (whole (pos 9)) (whole (pos 30)) touch refl refl
      screen (omega arith)

second_column :
    terminal_cell_from_point fractions touch ≡ some (record { column = pos 1; row = pos 101 })
unfolding terminal_cell_from_point clamp sum product quotient le_fraction floor_fraction ◌-ℤ◌ ◌+ℤ◌
second_column = refl
