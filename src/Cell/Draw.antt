-- ===== src/Cell/Draw.antt =====
-- The drawing routines of src/sudokucell.c. What a cell asks of the cairo library is a list of
-- calls. All the points of its lines are corners of the cell, so a point is a corner; line widths
-- are multiples of the default width, and the text is placed by its distance from the centre of the
-- cell, in halves of the default width.
pub mod Lines
pub mod Glyphs
pub mod Text
use gtksudoku.Prelude.{ℕ, zero, suc, ◌+◌, ◌-◌, ◌*◌, ◌/◌, ◌%◌, ◌^◌, Bool, Option, none, some}
use gtksudoku.Prelude.{List, [], ◌∷◌, ◌++◌, ◌==◌, ◌||◌, if◌then◌else◌, ℤ, pos, negsuc, ◌==ℤ◌}
use gtksudoku.Constants.{sides, digits, all}
use gtksudoku.Cell.{Cell}

-- (0, 0), (cell_w, 0), (0, cell_h) and (cell_w, cell_h).
pub data Corner : Type 0 where
  nw ne sw se : Corner

-- The calls of cairo; `scale_zero` and `draw_centered` stand for the two helpers that measure text.
-- `scale_quarter` is `cairo_scale(cr, cell_w / 4, cell_h / 4)`, `arc x y` a circle of radius 1/4.
pub data Call : Type 0 where
  set_line_width : ℕ → Call
  move_to line_to : Corner → Call
  rectangle stroke set_source_red scale_zero scale_quarter fill : Call
  translate : ℤ → ℤ → Call
  draw_centered : ℕ → Call
  arc : ℤ → ℤ → Call

-- `OUTSIDE`, `INSIDE` and, in halves, `OFFSET`.
abbrev pub outside : ℕ
outside = 4

abbrev pub inside : ℕ
inside = 2

abbrev offset : ℕ
offset = 2

-- A polygon through the corners, stroked.
abbrev polyline : List Corner → List Call
polyline [] = stroke ∷ []
polyline (p ∷ ps) = line_to p ∷ polyline ps

-- The cases of the switch in `draw_square`: the inner lines of a cell, by its place in its square.
unfoldable pub square_lines : ℕ → ℕ → List Call
square_lines zero zero = move_to sw ∷ polyline (nw ∷ ne ∷ [])
square_lines zero (suc zero) = move_to sw ∷ polyline (nw ∷ ne ∷ se ∷ [])
square_lines zero (suc (suc zero)) = move_to nw ∷ polyline (ne ∷ se ∷ [])
square_lines (suc zero) zero = move_to ne ∷ polyline (nw ∷ sw ∷ se ∷ [])
square_lines (suc zero) (suc zero) = rectangle ∷ stroke ∷ []
square_lines (suc zero) (suc (suc zero)) = move_to nw ∷ polyline (ne ∷ se ∷ sw ∷ [])
square_lines (suc (suc zero)) zero = move_to nw ∷ polyline (sw ∷ se ∷ [])
square_lines (suc (suc zero)) (suc zero) = move_to nw ∷ polyline (sw ∷ se ∷ ne ∷ [])
square_lines (suc (suc zero)) (suc (suc zero)) = move_to ne ∷ polyline (se ∷ sw ∷ [])
square_lines _ _ = []

unfoldable pub draw_square : ℕ → ℕ → List Call
unfolding square_lines
draw_square row col =
    set_line_width inside ∷ square_lines (row % sides) (col % sides) ++ set_line_width 1 ∷ []

-- A line of the border, from a corner to another.
abbrev border : Corner → Corner → List Call
border p q = set_line_width outside ∷ move_to p ∷ line_to q ∷ stroke ∷ set_line_width 1 ∷ []

-- The switch on the row, or on the column: the line of the border, and the offset of the contents.
-- The corners are those of the lines for the first and for the last.
unfoldable pub draw_border : Corner × Corner → Corner × Corner → ℕ → List Call × ℤ
draw_border first last place =
    if place == 0
    then (border first.0 first.1, pos offset)
    else if place == 3 || place == 6
    then ([], pos 1)
    else if place == 8
    then (border last.0 last.1, negsuc 1)
    else if place == 5 || place == 2
    then ([], negsuc 0)
    else ([], pos 0)

-- The loop that looks for a digit with `val == 1 << d`, and draws its numeral.
unfoldable pub numeral_from : ℕ → ℕ → ℕ → Option (List Call)
numeral_from zero d val = none
numeral_from (suc left) d val =
    let rest = numeral_from left (d + 1) val in
    if val == 2 ^ d then some (scale_zero ∷ draw_centered (b'1' + d) ∷ []) else rest

-- `n - 1` on `int`.
abbrev pub less_one : ℕ → ℤ
less_one zero = negsuc 0
less_one (suc n) = pos n

-- The loop that draws the dots.
unfoldable pub dots_from : ℕ → ℕ → ℕ → List Call
dots_from zero d val = []
dots_from (suc left) d val =
    let rest = dots_from left (d + 1) val in
    if val / 2 ^ d % 2 == 1
    then arc (less_one (d % sides)) (less_one (d / sides)) ∷ fill ∷ rest
    else rest

-- The end of `draw`: what stands in the cell. The argument says whether numerals are drawn.
unfoldable pub glyph : ℕ → Bool → List Call
unfolding numeral_from dots_from
glyph val numerals =
    if val == 0
    then set_source_red ∷ scale_zero ∷ draw_centered b'?' ∷ []
    else elim (if numerals then numeral_from digits 0 val else none) [
      | some numeral ↦ numeral
      | none ↦ (if val == all then [] else scale_quarter ∷ dots_from digits 0 val)
    ]

-- The lines of a cell, by its place.
unfoldable pub lines : ℕ → ℕ → List Call
unfolding draw_square draw_border
lines row col =
    (draw_border (nw, ne) (sw, se) row).0
    ++ (draw_border (nw, sw) (ne, se) col).0
    ++ draw_square row col

-- `draw`
unfoldable pub draw : Cell → List Call
draw cell =
    let x = (draw_border (nw, sw) (ne, se) cell.col).1 in
    let y = (draw_border (nw, ne) (sw, se) cell.row).1 in
    lines cell.row cell.col ++ translate x y ∷ glyph cell.val (cell.mode ==ℤ pos 0)
