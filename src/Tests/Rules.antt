-- ===== src/Tests/Rules.antt =====
-- Runs of the script's cells.
use gtksudoku.Prelude.{ℕ, ◌+◌, ◌≡◌, refl, true, false, [], ◌∷◌, ◌==◌}
use gtksudoku.Prelude.{if◌then◌else◌, pos, ◌==ℤ◌, arith}
use gtksudoku.Prelude.{Bool, ◌||◌, ◌≢◌, ◌⊎◌, ==→≡, Bool-cases, inl, inr, get_or}
use gtksudoku.Script.Cell.Laws.{holds, any_left}
use gtksudoku.Script.Board.{Board, ok}
use gtksudoku.Script.Solution.{Keeps, for_places, for_places_lem}
use gtksudoku.Script.Load.Places.{cells_of, char_of}
use gtksudoku.Script.Load.Hints.{Only, Hints, board-Hints}
use gtksudoku.Cell.{and_all}
use gtksudoku.Cell.Draw.{glyph}
use gtksudoku.Cell.Draw.Glyphs.{read_glyph}
use gtksudoku.Script.Cell.{Cell, print_item}
use gtksudoku.Script.Cell.Laws.{print_item-read_glyph}
use gtksudoku.Tools.Files.{codes}
use gtksudoku.Prelude.{◌*◌, ◌%◌, List}
use gtksudoku.Script.Board.{Place, mk_board, determine, square, row, column}
use gtksudoku.Script.Board.Count.{undetermined, undetermined-bound}
use gtksudoku.Script.Board.Determine.{Good, determine-Good}
use gtksudoku.Script.Solution.{InTable, InSides, is_solution, is_good, is_full}
use gtksudoku.Script.Load.{board}
use gtksudoku.Script.Load.Laws.{mk_board-Keeps}
use gtksudoku.Script.Crossing.{
  one_row_in_square, one_column_in_square, one_square_for_row, one_square_for_column,
}
use gtksudoku.Script.Crossing.Laws.{crossing_rules-Good}
use gtksudoku.Script.Pairs.{
  two_places_for_pair_in_square, two_places_for_pair_in_row, two_places_for_pair_in_column,
}
use gtksudoku.Script.Pairs.{same_pair_in_square, same_pair_in_row, same_pair_in_column}
use gtksudoku.Script.Pairs.Laws.{InDigits, pair_rules-Good}

-- 3 and 8 are left.
abbrev pair : Cell
pair = record {
  marks = false ∷ false ∷ true ∷ false ∷ false ∷ false ∷ false ∷ true ∷ false ∷ [];
  determined = false;
}

print_item-read_glyph_example :
    let (value, mode) = print_item true pair in
    let drawn = glyph (and_all value) ((if mode then pos 1 else pos 0) ==ℤ pos 0) in
    holds 7 (read_glyph drawn)
    ≡ (if true || false then get_or pair.marks 7 false else any_left pair.marks)
print_item-read_glyph_example = print_item-read_glyph true pair 7 refl (omega arith)

-- A solution of the empty puzzle: each row is the one before, shifted.
abbrev pub solution : Place → ℕ
solution (r1, c1, r2, c2) = (3 * r2 + r1 + 3 * c1 + c2 + 1) % 9 + 1

pub solution_ok : is_solution solution ≡ true
unfolding is_solution is_good is_full square row column
solution_ok = refl

abbrev pub corner : InTable (1, 1, 1, 1)
corner = let one : InSides 1 = (omega arith, omega arith) in (one, one, one, one)

abbrev pub hints : List ℕ
hints =
    codes
      "1...5...9\n..6...1..\n7.......6\n.3..6..9.\n....9....\n8.......7\n.4.....1.\n6..9.....\n9....5...\n"

determine-Good_example :
    Good solution
      (undetermined mk_board)
      (determine 82 (1, 1, 1, 1) (solution (1, 1, 1, 1)) mk_board)
determine-Good_example =
    determine-Good solution solution_ok 82 (1, 1, 1, 1) mk_board corner
      (mk_board-Keeps solution solution_ok) (omega (arith, undetermined-bound mk_board))

crossing_rules-Good_example :
    Good solution 81 (one_row_in_square 5 4 9 mk_board)
    × Good solution 81 (one_column_in_square 5 4 9 mk_board)
    × Good solution 81 (one_square_for_row 5 4 9 mk_board)
    × Good solution 81 (one_square_for_column 5 4 9 mk_board)
crossing_rules-Good_example =
    crossing_rules-Good solution solution_ok 5 (omega arith) (omega arith) 4 9 mk_board
      (omega arith) (omega arith) (omega arith) (omega arith) (mk_board-Keeps solution solution_ok)

four : InDigits 4
four = (omega arith, omega arith)

nine : InDigits 9
nine = (omega arith, omega arith)

pair_rules-Good_example :
    Good solution 81 (two_places_for_pair_in_square 4 9 9 4 mk_board)
    × Good solution 81 (two_places_for_pair_in_row 4 9 9 mk_board)
    × Good solution 81 (two_places_for_pair_in_column 4 9 4 mk_board)
    × Good solution 81 (same_pair_in_square 4 9 9 4 mk_board)
    × Good solution 81 (same_pair_in_row 4 9 9 mk_board)
    × Good solution 81 (same_pair_in_column 4 9 4 mk_board)
pair_rules-Good_example =
    pair_rules-Good solution solution_ok 4 9 four nine 9 4 mk_board nine four
      (mk_board-Keeps solution solution_ok)

-- Whether a text has a dot or the digit of the solution for a place.
abbrev is_hint : Place → Bool
is_hint p = char_of hints p == b'.' || char_of hints p == 48 + solution p

hints_test : for_places is_hint ≡ true
unfolding cells_of
hints_test = refl

or-cases : (c d e : ℕ) → (c == d || c == e) ≡ true → (c ≡ d) ⊎ (c ≡ e)
or-cases c d e h = elim (Bool-cases (c == d)) [
  | inl here ↦ inl (==→≡ c d here)
  | inr there ↦ inr (==→≡ c e (ground (arith, h, there)))
]

pub hints-Hints : Hints solution solution_ok hints
unfolding cells_of
hints-Hints = (
  refl,
  λ p inside.
      or-cases (char_of hints p) b'.' (48 + solution p)
        (for_places_lem is_hint p hints_test inside),
)

board-Hints_example :
    (b : Board) × (e : Bool) × (board hints ≡ ok b e)
    × Keeps solution b
    × ((p : Place) → InTable p → char_of hints p ≢ b'.' → Only p (solution p) b)
board-Hints_example = board-Hints solution solution_ok hints hints-Hints
