-- ===== src/Selection/Geometry/Under.antt =====
-- The cell that a touch finds is the one under it.
pub mod Parts
pub mod Handles
use code_roam.Prelude.{
  ℤ, pos, ◌+ℤ◌, ◌-ℤ◌, ◌≤ℤ◌, ◌<ℤ◌, +ℤ_parts, -ℤ_parts, leb_ℤ, true, false, Option, none, some, ◌≡◌,
  ◌↔◌, arith, Bool-cases, inl, inr,
}
use mathlib.Core.Logic.Iff
use code_roam.Selection.Coordinates.{Coordinates, IsExact, clamp}
use code_roam.Selection.Cells.{TerminalCellPosition}
use code_roam.Selection.Geometry.{TerminalPointMapping, cell_along, terminal_cell_from_point}
use code_roam.Selection.Geometry.Points.{IsScreen, IsShown, touched, touched-found, touched-IsShown}

-- Clamping leaves the integers between the bounds where they are.
clamp_iff :
    (n i count : ℤ)
    → pos 1 ≤ℤ i
    → i <ℤ count
    → (i ≤ℤ clamp leb_ℤ n (pos 0) (count -ℤ pos 1)) ↔ (i ≤ℤ n)
unfolding clamp
clamp_iff n i count low high = ground (arith, -ℤ_parts count (pos 1))

module _ (k : Coordinates) where
  open k use {Coordinate, of_int, plus, times, over, le}

  -- Where the part `i` of `count` parts of a length begins.
  abbrev pub edge_at : Coordinate → Coordinate → ℤ → ℤ → Coordinate
  edge_at origin size count i = plus origin (times (over (of_int i) (of_int count)) size)

  -- The cell is one that the screen shows; a column or a row past the first begins at or before
  -- the touch exactly if it is not past the cell.
  pub record IsUnder (x y : Coordinate) (m : TerminalPointMapping k) (c : TerminalCellPosition)
      : Type 0 where
    pub shown : IsShown k m.columns m.rows m.viewport_y c
    pub column :
        (i : ℤ)
        → pos 1 ≤ℤ i
        → i <ℤ m.columns
        → (i ≤ℤ c.column) ↔ (le (edge_at m.screen_left m.screen_width m.columns i) x ≡ true)
    pub row :
        (i : ℤ)
        → pos 1 ≤ℤ i
        → i <ℤ m.rows
        → (m.viewport_y +ℤ i ≤ℤ c.row)
          ↔ (le (edge_at m.screen_top m.screen_height m.rows i) y ≡ true)

module _ (k : Coordinates) (exact : IsExact k) where
  open k use {Coordinate, of_int, plus, minus, times, over, le, floor}

  count-positive : (count : ℤ) → pos 1 ≤ℤ count → le (of_int count) (of_int (pos 0)) ≡ false
  count-positive count h = elim (Bool-cases (le (of_int count) (of_int (pos 0)))) [
    | inl low ↦ absurd (let zero_or_less = (exact.of_int_iff count (pos 0)).0 low in omega arith)
    | inr positive ↦ positive
  ]

  comm_iff : (a b c : Coordinate) → (le (plus a b) c ≡ true) ↔ (le (plus b a) c ≡ true)
  comm_iff a b c = (
    exact.order.le_trans (plus b a) (plus a b) c (exact.plus_comm b a),
    exact.order.le_trans (plus a b) (plus b a) c (exact.plus_comm a b),
  )

  floor_iff :
      (at origin size : Coordinate) (count i : ℤ)
      → le size (of_int (pos 0)) ≡ false
      → pos 1 ≤ℤ count
      → (i ≤ℤ floor (times (over (minus at origin) size) (of_int count)))
        ↔ (le (edge_at k origin size count i) at ≡ true)
  floor_iff at origin size count i long several =
      let part = over (of_int i) (of_int count) in
      let positive = count-positive count several in
      Iff.trans
        (Iff.symm (exact.le-floor_iff i (times (over (minus at origin) size) (of_int count))))
        (Iff.trans
          (Iff.symm
            (exact.over-le_iff (of_int i) (over (minus at origin) size) (of_int count) positive))
          (Iff.trans (exact.le-over_iff part (minus at origin) size long) (
            Iff.trans (exact.le-minus_iff (times part size) at origin)
              (comm_iff (times part size) origin at))))

  along_iff :
      (at origin size : Coordinate) (count i : ℤ)
      → le size (of_int (pos 0)) ≡ false
      → pos 1 ≤ℤ i
      → i <ℤ count
      → (i ≤ℤ cell_along k at origin size count) ↔ (le (edge_at k origin size count i) at ≡ true)
  unfolding cell_along
  along_iff at origin size count i long low high =
      Iff.trans
        (clamp_iff (floor (times (over (minus at origin) size) (of_int count))) i count low high)
        (floor_iff at origin size count i long (omega arith))

  below_iff : (v i r : ℤ) → (v +ℤ i ≤ℤ v +ℤ r) ↔ (i ≤ℤ r)
  below_iff v i r = ground (arith, +ℤ_parts v i, +ℤ_parts v r)

  -- With exact arithmetic, on a screen of positive size every touch at finite coordinates finds
  -- the cell under it: one that the screen shows, whose column and row are the last to begin at or
  -- before the touch, or the first.
  pub touch-IsUnder :
      (x y : Coordinate) (m : TerminalPointMapping k)
      → m.client_x ≡ some x
      → m.client_y ≡ some y
      → IsScreen k m.screen_width m.screen_height m.columns m.rows
      → pos 0 ≤ℤ m.viewport_y
      → (c : TerminalCellPosition) × (terminal_cell_from_point k m ≡ some c) × IsUnder k x y m c
  unfolding touched
  touch-IsUnder x y m ex ey screen h = (
    touched k x y m,
    touched-found k x y m ex ey screen h,
    record {
      shown = touched-IsShown k x y m screen h;
      column =
          λ i low high. along_iff x m.screen_left m.screen_width m.columns i screen.wide low high;
      row = λ i low high.
          Iff.trans (below_iff m.viewport_y i (cell_along k y m.screen_top m.screen_height m.rows))
            (along_iff y m.screen_top m.screen_height m.rows i screen.high low high);
    },
  )
