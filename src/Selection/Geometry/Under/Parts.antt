-- ===== src/Selection/Geometry/Under/Parts.antt =====
-- Touches at the edge of a cell, and half a cell before its end.
use code_roam.Prelude.{
  ℤ, pos, ◌+ℤ◌, ◌-ℤ◌, ◌≤ℤ◌, ◌<ℤ◌, +ℤ_parts, -ℤ_parts, eq_of_parts, leb_ℤ, true, false, ◌≡◌, ◌↔◌,
  arith,
}
use mathlib.Core.Logic.Iff
use code_roam.Selection.Coordinates.{Coordinates, IsExact, min}
use code_roam.Selection.Geometry.{cell_along}
use code_roam.Selection.Geometry.Points.{cell_along_bounds}
use code_roam.Selection.Geometry.Under.{edge_at, count-positive, comm_iff, along_iff}

-- A number among `count` that reaches the same numbers as `i` is `i`, or the last if `i` is past
-- them.
reach_lem :
    (n i count : ℤ)
    → pos 0 ≤ℤ n
    → n <ℤ count
    → pos 0 ≤ℤ i
    → ((j : ℤ) → pos 1 ≤ℤ j → j <ℤ count → (j ≤ℤ n) ↔ (j ≤ℤ i))
    → n ≡ min leb_ℤ i (count -ℤ pos 1)
reach_lem n i count low high low' same =
    let at_n = same n in
    let at_i = same i in
    let at_last = same (count -ℤ pos 1) in
    ground (
      arith,
      at_n,
      at_i,
      at_last,
      eq_of_parts n i,
      eq_of_parts n (count -ℤ pos 1),
      -ℤ_parts count (pos 1),
    )

module _ (k : Coordinates) where
  open k use {Coordinate, of_int, minus, times, over}

  -- `i` of `count` parts of `size`.
  abbrev pub part : Coordinate → ℤ → ℤ → Coordinate
  part size count i = times (over (of_int i) (of_int count)) size

  -- Half the size of a cell, upwards.
  abbrev pub half_up : Coordinate → ℤ → Coordinate
  half_up size count = over (minus (of_int (pos 0)) (over size (of_int count))) (of_int (pos 2))

module _ (k : Coordinates) (exact : IsExact k) where
  open k use {Coordinate, of_int, plus, minus, times, over, le}

  below-comm_iff : (c a b : Coordinate) → (le c (plus a b) ≡ true) ↔ (le c (plus b a) ≡ true)
  below-comm_iff c a b = (
    λ h. exact.order.le_trans c (plus a b) (plus b a) h (exact.plus_comm a b),
    λ h. exact.order.le_trans c (plus b a) (plus a b) h (exact.plus_comm b a),
  )

  part_iff :
      (size : Coordinate) (count i j : ℤ)
      → le size (of_int (pos 0)) ≡ false
      → pos 1 ≤ℤ count
      → (le (part k size count i) (part k size count j) ≡ true) ↔ (i ≤ℤ j)
  part_iff size count i j long several =
      Iff.trans
        (exact.times_iff (over (of_int i) (of_int count)) (over (of_int j) (of_int count)) size
          long)
        (Iff.trans
          (exact.over_iff (of_int i) (of_int j) (of_int count)
            (count-positive k exact count several))
          (exact.of_int_iff i j))

  -- At the edge of a cell, no further.
  edge_iff :
      (origin size : Coordinate) (count i j : ℤ)
      → le size (of_int (pos 0)) ≡ false
      → pos 1 ≤ℤ count
      → (le (edge_at k origin size count i) (plus origin (part k size count j)) ≡ true) ↔ (i ≤ℤ j)
  edge_iff origin size count i j long several =
      Iff.trans (comm_iff k exact origin (part k size count i) (plus origin (part k size count j)))
        (Iff.trans (below-comm_iff (plus (part k size count i) origin) origin (part k size count j))
          (Iff.trans (exact.plus_iff (part k size count i) (part k size count j) origin)
            (part_iff size count i j long several)))

  -- Twice `i` parts and one more, against twice `j + 1` parts.
  doubled_iff :
      (size : Coordinate) (count i j : ℤ)
      → le size (of_int (pos 0)) ≡ false
      → pos 1 ≤ℤ count
      → (le
            (plus (plus (part k size count i) (part k size count i)) (over size (of_int count)))
            (plus (part k size count (j +ℤ pos 1)) (part k size count (j +ℤ pos 1)))
          ≡ true)
        ↔ (i ≤ℤ j)
  doubled_iff size count i j long several =
      let several' = count-positive k exact count several in
      let n = of_int count in
      let p = part k size count in
      let next = j +ℤ pos 1 in
      let twice = p (i +ℤ i) in
      let more = p (i +ℤ i +ℤ pos 1) in
      let limit = p (next +ℤ next) in
      let left = plus (plus (p i) (p i)) (over size n) in
      let right = plus (p next) (p next) in
      let t = exact.order.le_trans in
      let from_left : le left more ≡ true =
        t left (plus twice (p (pos 1))) more
          (exact.plus_mono (plus (p i) (p i)) twice (over size n) (p (pos 1))
            (exact.parts-le i i n size several') (exact.part-le n size several'))
          (exact.parts-le (i +ℤ i) (pos 1) n size several') in
      let to_left : le more left ≡ true =
        t more (plus twice (p (pos 1))) left (exact.le-parts (i +ℤ i) (pos 1) n size several') (
          exact.plus_mono twice (plus (p i) (p i)) (p (pos 1)) (over size n)
            (exact.le-parts i i n size several') (exact.le-part n size several')) in
      let counts = part_iff size count (i +ℤ i +ℤ pos 1) (next +ℤ next) long several in
      let s0 = +ℤ_parts i i in
      let s1 = +ℤ_parts (i +ℤ i) (pos 1) in
      let s2 = +ℤ_parts j (pos 1) in
      let s3 = +ℤ_parts next next in
      (
        λ h.
            let reached = counts.0 (
              t more left limit to_left
                (t left right limit h (exact.parts-le next next n size several'))) in
            omega (arith, reached, s0, s1, s2, s3),
        λ h.
            let room : i +ℤ i +ℤ pos 1 ≤ℤ next +ℤ next = omega (arith, h, s0, s1, s2, s3) in
            t left more right from_left
              (t more limit right (counts.1 room) (exact.le-parts next next n size several')),
      )

  -- A touch at the edge before cell `i` finds it, or the last if `i` is past them.
  pub at_edge :
      (origin size : Coordinate) (count i : ℤ)
      → le size (of_int (pos 0)) ≡ false
      → pos 1 ≤ℤ count
      → pos 0 ≤ℤ i
      → cell_along k (plus origin (part k size count i)) origin size count
        ≡ min leb_ℤ i (count -ℤ pos 1)
  at_edge origin size count i long several low =
      let at = plus origin (part k size count i) in
      let (from, to) = cell_along_bounds k at origin size count several in
      reach_lem (cell_along k at origin size count) i count from to low λ j first last.
        Iff.trans (along_iff k exact at origin size count j long first last)
          (edge_iff origin size count j i long several)

  -- Half a cell before the end of cell `i`, no further.
  middle_iff :
      (origin size : Coordinate) (count i j : ℤ)
      → le size (of_int (pos 0)) ≡ false
      → pos 1 ≤ℤ count
      → (le
            (edge_at k origin size count j)
            (plus (plus origin (part k size count (i +ℤ pos 1))) (half_up k size count))
          ≡ true)
        ↔ (j ≤ℤ i)
  middle_iff origin size count i j long several =
      let before = part k size count j in
      let after = part k size count (i +ℤ pos 1) in
      let at = plus (plus origin after) (half_up k size count) in
      Iff.trans (comm_iff k exact origin before at) (
        Iff.trans (exact.plus_cancel before after (half_up k size count) origin) (
          Iff.trans (exact.half_below before after (over size (of_int count)))
            (doubled_iff size count j i long several)))

  -- A touch half a cell before the end of cell `i` finds it.
  pub at_middle :
      (origin size : Coordinate) (count i : ℤ)
      → le size (of_int (pos 0)) ≡ false
      → pos 0 ≤ℤ i
      → i <ℤ count
      → cell_along k
          (plus (plus origin (part k size count (i +ℤ pos 1))) (half_up k size count))
          origin
          size
          count
        ≡ i
  at_middle origin size count i long low high =
      let at = plus (plus origin (part k size count (i +ℤ pos 1))) (half_up k size count) in
      let several : pos 1 ≤ℤ count = omega arith in
      let (from, to) = cell_along_bounds k at origin size count several in
      let reached =
        reach_lem (cell_along k at origin size count) i count from to low λ j first last.
          Iff.trans (along_iff k exact at origin size count j long first last)
            (middle_iff origin size count i j long several) in
      ground (arith, reached, -ℤ_parts count (pos 1))
