-- ===== src/Cell/Draw/Lines.antt =====
-- The lines that the cells of a board draw: together they make the grid.
use gtksudoku.Prelude.{ℕ, zero, suc, ◌+◌, ◌*◌, ◌<◌, ◌%◌, ◌≡◌, refl, ap, Bool, true, false, ◌&&◌}
use gtksudoku.Prelude.{
  Option, none, some, List, [], ◌∷◌, ◌++◌, ◌==◌, if◌then◌else◌, ==→≡, arith, inl, inr,
}
use gtksudoku.Prelude.{Bool-cases, Option-cases, ◌^◌, ◌==ℤ◌, pos, ℤ}
use gtksudoku.Prelude.{every_below, every_below_lem}
use gtksudoku.Constants.{digits, sides}
use gtksudoku.Cell.{Cell}
use gtksudoku.Cell.Draw.{Corner, nw, ne, sw, se, Call, move_to, line_to, stroke, rectangle}
use gtksudoku.Cell.Draw.{set_line_width, translate}
use gtksudoku.Cell.Draw.{draw, draw_border, lines, glyph, dots_from, numeral_from, inside, outside}

pub data Side : Type 0 where
  top left bottom right : Side

-- Whether a line from one corner to another runs along a side.
unfoldable along : Side → Corner → Corner → Bool
along top nw ne = true
along top ne nw = true
along left nw sw = true
along left sw nw = true
along bottom sw se = true
along bottom se sw = true
along right ne se = true
along right se ne = true
along _ _ _ = false

-- The state of cairo that matters for lines: the width, the current point, and how often the path
-- runs along the side in question.
record Pen : Type 0 where
  width : ℕ
  point : Option Corner
  path : ℕ

unfoldable step : Side → Pen → Call → Pen
step side pen (set_line_width w) = record pen { width = w }
step side pen (move_to p) = record pen { point = some p }
step side pen (line_to p) = record pen {
  point = some p;
  path = pen.path + (elim pen.point [ none ↦ 0 | some q ↦ if along side q p then 1 else 0 ]);
}
step side pen rectangle = record pen { path = pen.path + 1 }
step side pen stroke = record pen { point = none; path = 0 }
step side pen _ = pen

-- The thickness that a call adds along a side.
unfoldable inked : Pen → Call → ℕ
inked pen stroke = pen.width * pen.path
inked pen _ = 0

unfoldable ink_from : Side → Pen → List Call → ℕ
ink_from side pen [] = 0
ink_from side pen (call ∷ calls) = inked pen call + ink_from side (step side pen call) calls

abbrev fresh : Pen
fresh = record { width = 1; point = none; path = 0 }

-- How thick the lines along a side are in sum.
unfoldable pub ink : Side → List Call → ℕ
unfolding ink_from inked step along
ink side calls = ink_from side fresh calls

-- Calls that draw no line.
abbrev IsSilent : List Call → Type 0
IsSilent calls = (side : Side) (pen : Pen) → ink_from side pen calls ≡ 0

dots-IsSilent : (n d val : ℕ) → IsSilent (dots_from n d val)
unfolding dots_from ink_from inked step
dots-IsSilent zero d val side pen = refl
dots-IsSilent (suc n) d val side pen = ground (arith, dots-IsSilent n (d + 1) val side pen)

numeral-IsSilent :
    (n d val : ℕ) {calls : List Call} → numeral_from n d val ≡ some calls → IsSilent calls
unfolding numeral_from ink_from inked step
numeral-IsSilent zero d val e side pen = ground arith
numeral-IsSilent (suc n) d val e side pen = elim (Bool-cases (val == 2 ^ d)) [
  | inl here ↦ ground arith
  | inr other ↦ numeral-IsSilent n (d + 1) val (rw other at e) side pen
]

glyph-IsSilent : (val : ℕ) (numerals : Bool) → IsSilent (glyph val numerals)
unfolding glyph ink_from inked step
glyph-IsSilent val true side pen = elim (Option-cases (numeral_from digits 0 val)) [
  | inl e ↦ ground (arith, dots-IsSilent digits 0 val side pen)
  | inr (calls, e) ↦ ground (arith, numeral-IsSilent digits 0 val e side pen)
]
glyph-IsSilent val false side pen = ground (arith, dots-IsSilent digits 0 val side pen)

ink_from-IsSilent :
    (side : Side) (pen : Pen) (calls rest : List Call)
    → IsSilent rest
    → ink_from side pen (calls ++ rest) ≡ ink_from side pen calls
unfolding ink_from
ink_from-IsSilent side pen [] rest h = h side pen
ink_from-IsSilent side pen (call ∷ calls) rest h =
    ap (λ n. inked pen call + n) (ink_from-IsSilent side (step side pen call) calls rest h)

contents-IsSilent :
    (x y : ℤ) (val : ℕ) (numerals : Bool) → IsSilent (translate x y ∷ glyph val numerals)
unfolding ink_from inked step
contents-IsSilent x y val numerals side pen = omega (arith, glyph-IsSilent val numerals side pen)

-- All that a cell draws besides its lines is silent.
ink-draw : (side : Side) (cell : Cell) → ink side (draw cell) ≡ ink side (lines cell.row cell.col)
unfolding ink draw
ink-draw side cell =
    let x = (draw_border (nw, sw) (ne, se) cell.col).1 in
    let y = (draw_border (nw, ne) (sw, se) cell.row).1 in
    ink_from-IsSilent side fresh (lines cell.row cell.col) _
      (contents-IsSilent x y cell.val (cell.mode ==ℤ pos 0))

-- The grid: a line is drawn once inside a square and twice between two squares.
abbrev pub grid_line : ℕ → ℕ
grid_line place = if place % sides == 0 then 2 * inside else inside

columns_table :
    every_below
      (λ r.
        every_below
          (λ c. ink right (lines r c) + ink left (lines r (c + 1)) == grid_line (c + 1))
          8)
      digits
    ≡ true
unfolding every_below ink lines
columns_table = refl

rows_table :
    every_below
      (λ c.
        every_below
          (λ r. ink bottom (lines r c) + ink top (lines (r + 1) c) == grid_line (r + 1))
          8)
      digits
    ≡ true
unfolding every_below ink lines
rows_table = refl

-- Two cells of the board side by side draw the line between them with the thickness of the grid in
-- sum, whatever they hold: once inside a square, twice between two squares.
pub draw_columns :
    (x y : Cell)
    → x.row < digits
    → y.col < digits
    → y.row ≡ x.row
    → y.col ≡ x.col + 1
    → ink right (draw x) + ink left (draw y) ≡ grid_line y.col
draw_columns x y p q same next =
    rw (ink-draw right x, ink-draw left y, same, next)
      (==→≡ _ _ (
        every_below_lem _ 8 (every_below_lem _ digits columns_table x.row p) x.col
          (omega (arith, next, q))))

-- Two cells of the board, one below the other, draw the line between them with the thickness of
-- the grid in sum, whatever they hold: once inside a square, twice between two squares.
pub draw_rows :
    (x y : Cell)
    → y.row < digits
    → x.col < digits
    → y.row ≡ x.row + 1
    → y.col ≡ x.col
    → ink bottom (draw x) + ink top (draw y) ≡ grid_line y.row
draw_rows x y p q next same =
    rw (ink-draw bottom x, ink-draw top y, same, next)
      (==→≡ _ _ (
        every_below_lem _ 8 (every_below_lem _ digits rows_table x.col q) x.row
          (omega (arith, next, p))))

-- The line of a cell at a side where the board ends.
abbrev pub border_line : ℕ
border_line = outside + inside

border_table :
    every_below
      (λ i.
        (ink top (lines 0 i) == border_line)
        && (ink left (lines i 0) == border_line)
        && (ink bottom (lines 8 i) == border_line)
        && (ink right (lines i 8) == border_line))
      digits
    ≡ true
unfolding every_below ink lines
border_table = refl

-- At the border of the board.
abbrev pub AtBorder : Side → Cell → Type 0
AtBorder top cell = (cell.row ≡ 0) × (cell.col < digits)
AtBorder left cell = (cell.col ≡ 0) × (cell.row < digits)
AtBorder bottom cell = (cell.row ≡ 8) × (cell.col < digits)
AtBorder right cell = (cell.col ≡ 8) × (cell.row < digits)

-- At every side where the board ends, a cell draws the border with the thickness of the outer line
-- and an inner line, whatever it holds.
pub draw_outer :
    (side : Side) (cell : Cell) → AtBorder side cell → ink side (draw cell) ≡ border_line
draw_outer top cell (p, q) =
    let row = every_below_lem _ digits border_table cell.col q in
    rw (ink-draw top cell, p) (ground arith)
draw_outer left cell (p, q) =
    let row = every_below_lem _ digits border_table cell.row q in
    rw (ink-draw left cell, p) (ground arith)
draw_outer bottom cell (p, q) =
    let row = every_below_lem _ digits border_table cell.col q in
    rw (ink-draw bottom cell, p) (ground arith)
draw_outer right cell (p, q) =
    let row = every_below_lem _ digits border_table cell.row q in
    rw (ink-draw right cell, p) (ground arith)
