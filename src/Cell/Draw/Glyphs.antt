-- ===== src/Cell/Draw/Glyphs.antt =====
-- What a cell shows determines the set of digits that it holds.
use gtksudoku.Prelude.{ℕ, ◌+◌, ◌-◌, ◌*◌, ◌^◌, ◌≤◌, ◌≡◌, refl, Bool, true, false, ◌&&◌}
use gtksudoku.Prelude.{List, [], ◌∷◌, ◌==◌, if◌then◌else◌, arith, ℤ, pos, negsuc}
use gtksudoku.Prelude.{every_below, every_below_lem}
use gtksudoku.Constants.{sides, all}
use gtksudoku.Cell.Draw.{Call, draw_centered, arc, scale_quarter, glyph}

-- One more than an `int` that is at least -1.
abbrev pub plus_one : ℤ → ℕ
plus_one (pos n) = n + 1
plus_one (negsuc n) = 0

-- How the user reads the dots: a dot stands for a digit by its place in the cell.
unfoldable pub read_dots : List Call → ℕ
read_dots [] = 0
read_dots (arc x y ∷ calls) = 2 ^ (sides * plus_one y + plus_one x) + read_dots calls
read_dots (_ ∷ calls) = read_dots calls

-- How the user reads a cell: a blank is every digit, a question mark none, a numeral that digit
-- alone, and dots the digits that they stand for.
unfoldable pub read_glyph : List Call → ℕ
unfolding read_dots
read_glyph [] = all
read_glyph (scale_quarter ∷ calls) = read_dots calls
read_glyph (draw_centered c ∷ calls) = if c == b'?' then 0 else 2 ^ (c - b'1')
read_glyph (_ ∷ calls) = read_glyph calls

glyph_table :
    every_below (λ v. (read_glyph (glyph v true) == v) && (read_glyph (glyph v false) == v)) 512
    ≡ true
unfolding every_below read_glyph glyph
glyph_table = refl

-- Whatever set of digits a cell holds, and with numerals or without: what it shows reads as that set.
pub read_glyph-glyph :
    (val : ℕ) (numerals : Bool) → val ≤ all → read_glyph (glyph val numerals) ≡ val
read_glyph-glyph val true h =
    let row = every_below_lem _ 512 glyph_table val (omega arith) in ground arith
read_glyph-glyph val false h =
    let row = every_below_lem _ 512 glyph_table val (omega arith) in ground arith
