-- ===== src/Script/Pairs/Laws.antt =====
-- The rules for pairs keep the solution of a puzzle.
use gtksudoku.Prelude.{ℕ, ◌≤◌, ◌≡◌, true, arith, List}
use gtksudoku.Constants.{digits}
use gtksudoku.Script.Board.{Place, Board, square, row, column, Result}
use gtksudoku.Script.Board.Determine.{Good}
use gtksudoku.Script.Solution.{InSides, InTable, Keeps, is_solution}
use gtksudoku.Script.Load.{digits2}
use gtksudoku.Script.Rules.Laws.{Once, spread_lem, square-Once, row-Once, column-Once}
use gtksudoku.Script.Pairs.{in_square, in_row, in_column, two_places_for_pair, same_pair}
use gtksudoku.Script.Pairs.{
  two_places_for_pair_in_square, two_places_for_pair_in_row, two_places_for_pair_in_column,
}
use gtksudoku.Script.Pairs.{same_pair_in_square, same_pair_in_row, same_pair_in_column}
use gtksudoku.Script.Pairs.Places.{two_places_for_pair-Good}
use gtksudoku.Script.Pairs.Cells.{same_pair-Good}

abbrev pub InDigits : ℕ → Type 0
InDigits d = (1 ≤ d) × (d ≤ digits)

module _ (sol : Place → ℕ) (solved : is_solution sol ≡ true) (d1 d2 : ℕ) (in1 : InDigits d1)
    (in2 : InDigits d2) where
  -- A rule for a house in which both digits stand once.
  abbrev Sound : (List Place → Board → Result) → Type 0
  Sound rule =
      (qs : List Place) (b : Board)
      → Once sol solved d1 qs
      → Once sol solved d2 qs
      → Keeps sol b
      → Good sol digits2 (rule qs b)

  first : InSides 1
  first = (omega arith, omega arith)

  in_square-Good :
      (rule : List Place → Board → Result) (r c : ℕ) (b : Board)
      → Sound rule
      → InDigits r
      → InDigits c
      → Keeps sol b
      → Good sol digits2 (in_square rule r c b)
  unfolding in_square
  in_square-Good rule r c b sound in_r in_c keeps =
      let ((r1, r2), found_r, i, k) = spread_lem r in_r.0 in_r.1 in
      let ((c1, c2), found_c, j, l) = spread_lem c in_c.0 in_c.1 in
      let p : Place = (r1, c1, 1, 1) in
      let at : InTable p = (i, j, first, first) in
      rw (in_square, found_r, found_c)
        (sound (square p) b (square-Once sol solved d1 in1.0 in1.1 p at)
          (square-Once sol solved d2 in2.0 in2.1 p at) keeps)

  in_row-Good :
      (rule : List Place → Board → Result) (r : ℕ) (b : Board)
      → Sound rule
      → InDigits r
      → Keeps sol b
      → Good sol digits2 (in_row rule r b)
  unfolding in_row
  in_row-Good rule r b sound in_r keeps =
      let ((r1, r2), found, i, k) = spread_lem r in_r.0 in_r.1 in
      let p : Place = (r1, 1, r2, 1) in
      let at : InTable p = (i, first, k, first) in
      rw (in_row, found)
        (sound (row p) b (row-Once sol solved d1 in1.0 in1.1 p at)
          (row-Once sol solved d2 in2.0 in2.1 p at) keeps)

  in_column-Good :
      (rule : List Place → Board → Result) (c : ℕ) (b : Board)
      → Sound rule
      → InDigits c
      → Keeps sol b
      → Good sol digits2 (in_column rule c b)
  unfolding in_column
  in_column-Good rule c b sound in_c keeps =
      let ((c1, c2), found, j, l) = spread_lem c in_c.0 in_c.1 in
      let p : Place = (1, c1, 1, c2) in
      let at : InTable p = (first, j, first, l) in
      rw (in_column, found)
        (sound (column p) b (column-Once sol solved d1 in1.0 in1.1 p at)
          (column-Once sol solved d2 in2.0 in2.1 p at) keeps)

  -- For two digits, a row and a column from 1 to 9, on a board on which the digits of a solution of
  -- the puzzle are left, each of the six rules for a pair returns, without an error, and leaves a
  -- board on which they are still left.
  pub pair_rules-Good :
      (r c : ℕ) (b : Board)
      → InDigits r
      → InDigits c
      → Keeps sol b
      → Good sol digits2 (two_places_for_pair_in_square d1 d2 r c b)
        × Good sol digits2 (two_places_for_pair_in_row d1 d2 r b)
        × Good sol digits2 (two_places_for_pair_in_column d1 d2 c b)
        × Good sol digits2 (same_pair_in_square d1 d2 r c b)
        × Good sol digits2 (same_pair_in_row d1 d2 r b)
        × Good sol digits2 (same_pair_in_column d1 d2 c b)
  unfolding two_places_for_pair_in_square two_places_for_pair_in_row two_places_for_pair_in_column
      same_pair_in_square same_pair_in_row same_pair_in_column
  pair_rules-Good r c b in_r in_c keeps =
      let two = two_places_for_pair-Good sol solved d1 d2 in
      let same = same_pair-Good sol solved d1 d2 in1.0 in1.1 in2.0 in2.1 in
      (
        in_square-Good (two_places_for_pair d1 d2) r c b two in_r in_c keeps,
        in_row-Good (two_places_for_pair d1 d2) r b two in_r keeps,
        in_column-Good (two_places_for_pair d1 d2) c b two in_c keeps,
        in_square-Good (same_pair d1 d2) r c b same in_r in_c keeps,
        in_row-Good (same_pair d1 d2) r b same in_r keeps,
        in_column-Good (same_pair d1 d2) c b same in_c keeps,
      )
