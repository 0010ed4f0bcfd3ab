-- ===== src/Tests/Boards.antt =====
-- Runs of cells and boards.
use gtksudoku.Prelude.{List, ℕ, ◌+◌, ◌<◌, ◌≡◌, refl, Bool, true, false, [], ◌∷◌, ◌==◌}
use gtksudoku.Prelude.{some, inr, if◌then◌else◌, pos, negsuc, arith, done}
use gtksudoku.Prelude.{◌&&◌}
use gtksudoku.Constants.{digits, all}
use gtksudoku.Tools.Files.{codes}
use gtksudoku.BoardText.{isboardchar, boardlen, boardchar2val, val2boardchar}
use gtksudoku.BoardText.Laws.{val2boardchar-boardchar2val}
use gtksudoku.Cell
use gtksudoku.Cell.{Cell, KeyVal}
use gtksudoku.Cell.Laws.{signals}
use gtksudoku.Cell.Keys.{answer_to, Action, event, set_to, run, shown_by, on_key_press_lem, run_lem}
use gtksudoku.Cell.Draw.{draw, glyph}
use gtksudoku.Cell.Draw.Lines.{ink, top, left, bottom, right, draw_columns, draw_rows}
use gtksudoku.Cell.Draw.Lines.{grid_line}
use gtksudoku.Cell.Draw.Glyphs.{read_glyph, read_glyph-glyph}
use gtksudoku.Board
use gtksudoku.Board.{Board, warn, cell_at, put_cell, index, update}
use gtksudoku.Board.Writes.{Write, set_vals, written, set_vals-written}
use gtksudoku.Board.Laws.{IsBoard, value_at, new-IsBoard, set_val_inside, outside_lem}

abbrev seven : Cell
seven = record { row = 2; col = 5; val = 64; mode = pos 0; editable = true }

abbrev east : Cell
east = record { row = 2; col = 6; val = 511; mode = pos 1; editable = false }

abbrev south : Cell
south = record { row = 3; col = 5; val = 7; mode = pos 1; editable = false }

abbrev corner : Cell
corner = record { row = 8; col = 8; val = 0; mode = pos 0; editable = false }

abbrev pub no_bindings : KeyVal → Bool
no_bindings _ = false

abbrev pub shown : ℕ → ℕ → Bool
shown _ _ = true

three_of_text : boardlen (some (codes "5 .x\n9")) ≡ 3
unfolding boardlen isboardchar
three_of_text = refl

val2boardchar-boardchar2val_example : val2boardchar (pos (boardchar2val b'7')) ≡ b'7'
unfolding isboardchar
val2boardchar-boardchar2val_example = val2boardchar-boardchar2val b'7' refl

on_key_press_lem_example :
    let (cell', requests, stop) = Cell.on_key_press no_bindings true seven Cell.key_3 in
    (cell', signals requests, stop) ≡ answer_to no_bindings seven Cell.key_3
on_key_press_lem_example = on_key_press_lem no_bindings true seven Cell.key_3

abbrev actions : List Action
actions = set_to (pos 600) (pos 1) ∷ event Cell.focus_in ∷ event (Cell.key_press Cell.space) ∷ []

run_lem_example :
    let (val, mode) = shown_by true (64, pos 0) actions in
    run no_bindings true seven actions ≡ record seven { val = val; mode = mode }
run_lem_example = run_lem no_bindings true actions seven

draw_columns_example : ink right (draw seven) + ink left (draw east) ≡ grid_line 6
draw_columns_example = draw_columns seven east (omega arith) (omega arith) refl refl

draw_rows_example : ink bottom (draw seven) + ink top (draw south) ≡ grid_line 3
draw_rows_example = draw_rows seven south (omega arith) (omega arith) refl refl

read_glyph-glyph_example : read_glyph (glyph 7 true) ≡ 7
read_glyph-glyph_example = read_glyph-glyph 7 true (omega arith)

abbrev pub empty : Board
empty = Board.new true

set_val_inside_example :
    (b' : Board) × (Board.set_val shown empty (pos 4) (pos 7) (pos 1030) (pos 1) ≡ done b')
    × IsBoard true b'.rows
    × ((i j : ℕ)
        → value_at b'.rows i j
          ≡ (if i == 4 && j == 7 then some (Cell.and_all (pos 1030)) else value_at empty.rows i j))
set_val_inside_example =
    set_val_inside shown true empty 4 7 (pos 1030) (pos 1) (new-IsBoard true) (omega arith)
      (omega arith)

outside_lem_example :
    (Board.get_val empty (pos 3) (negsuc 0) ≡ done (negsuc 0, warn empty))
    × (Board.set_val shown empty (pos 3) (negsuc 0) (pos 1) (pos 0) ≡ done (warn empty))
outside_lem_example = outside_lem shown empty (pos 3) (negsuc 0) (pos 1) (pos 0) (inr (λ n h e. cc))

-- Two writes to one place, one to another, and one that misses the table.
abbrev writes : List Write
writes =
    (pos 4, pos 7, pos 3, pos 1)
    ∷ (pos 0, pos 0, negsuc 0, pos 0)
    ∷ (pos 9, pos 0, pos 1, pos 0)
    ∷ (pos 4, pos 7, pos 64, pos 0)
    ∷ []

set_vals-written_example :
    (b : Board) × (set_vals shown empty writes ≡ done b)
    × IsBoard true b.rows
    × ((i j : ℕ)
        → i < digits
        → j < digits
        → value_at b.rows i j ≡ some (written (λ _ _. all) writes i j))
set_vals-written_example = set_vals-written shown true writes
