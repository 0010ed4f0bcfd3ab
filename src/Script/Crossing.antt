-- ===== src/Script/Crossing.antt =====
-- The rules of src/sudoku.lua for a square that a row or a column crosses: a digit that is left
-- only where they cross is taken away from the rest.
pub mod Counts
pub mod Laws
use gtksudoku.Prelude.{ℕ, ◌+◌, Bool, true, false, not, ◌&&◌, ◌||◌, Option, none, some}
use gtksudoku.Prelude.{List, [], ◌∷◌, map, ◌==◌, if◌then◌else◌}
use gtksudoku.Script.Board.{Place, Board, mark, clear, put, pairs, Result, bad_index, ok, raised}
use gtksudoku.Script.Rules.{spread}

-- Two nested loops from 1 to `sides`, the outer of which leaves out an index.
unfoldable pub but : ℕ → List (ℕ × ℕ) → List (ℕ × ℕ)
but n [] = []
but n (k ∷ ks) = let rest = but n ks in if k.0 == n then rest else k ∷ rest

-- Whether the digit is left at one of the places.
unfoldable pub is_left : ℕ → List Place → Board → Bool
is_left d [] b = false
is_left d (q ∷ qs) b = mark (b q) d || is_left d qs b

-- The loop that takes a digit away, and one round of it.
abbrev pub taken : ℕ → Place → Board → Board
taken d q b = if mark (b q) d then put b q (clear d (b q)) else b

unfoldable pub erase : ℕ → List Place → Board → Bool → Board × Bool
erase d [] b e = (b, e)
erase d (q ∷ qs) b e = erase d qs (taken d q b) (e || mark (b q) d)

-- Both parts of a rule: the places that make it not applicable, and those that lose the digit.
unfoldable pub eliminate : ℕ → List Place → List Place → Board → Result
unfolding is_left erase
eliminate d tests targets b =
    if is_left d tests b then ok b false else (let r = erase d targets b false in ok r.0 r.1)

-- A rule gets a row and a column.
unfoldable pub at_cell : ℕ → ℕ → (Place → Board → Result) → Board → Result
unfolding spread
at_cell r c rule b = elim (spread r) [
  | none ↦ raised (bad_index r) b
  | some i ↦ elim (spread c) [
    | none ↦ raised (bad_index c) b
    | some j ↦ rule (i.0, j.0, i.1, j.1) b
  ]
]

-- The rows of a square but one, and so on; the outer loop comes first.
abbrev pub rows_in_square : Place → ℕ × ℕ → Place
rows_in_square (r1, c1, r2, c2) k = (r1, c1, k.0, k.1)

abbrev pub columns_in_square : Place → ℕ × ℕ → Place
columns_in_square (r1, c1, r2, c2) k = (r1, c1, k.1, k.0)

abbrev pub squares_in_row : Place → ℕ × ℕ → Place
squares_in_row (r1, c1, r2, c2) k = (r1, k.0, r2, k.1)

abbrev pub squares_in_column : Place → ℕ × ℕ → Place
squares_in_column (r1, c1, r2, c2) k = (k.0, c1, k.1, c2)

unfoldable pub row_in_square_at : ℕ → Place → Board → Result
unfolding but eliminate
row_in_square_at d (r1, c1, r2, c2) b =
    let p : Place = (r1, c1, r2, c2) in
    eliminate d (map (rows_in_square p) (but r2 pairs)) (map (squares_in_row p) (but c1 pairs)) b

unfoldable pub column_in_square_at : ℕ → Place → Board → Result
unfolding but eliminate
column_in_square_at d (r1, c1, r2, c2) b =
    let p : Place = (r1, c1, r2, c2) in
    eliminate d (map (columns_in_square p) (but c2 pairs))
      (map (squares_in_column p) (but r1 pairs)) b

unfoldable pub square_for_row_at : ℕ → Place → Board → Result
unfolding but eliminate
square_for_row_at d (r1, c1, r2, c2) b =
    let p : Place = (r1, c1, r2, c2) in
    eliminate d (map (squares_in_row p) (but c1 pairs)) (map (rows_in_square p) (but r2 pairs)) b

unfoldable pub square_for_column_at : ℕ → Place → Board → Result
unfolding but eliminate
square_for_column_at d (r1, c1, r2, c2) b =
    let p : Place = (r1, c1, r2, c2) in
    eliminate d (map (squares_in_column p) (but r1 pairs))
      (map (columns_in_square p) (but c2 pairs)) b

unfoldable pub one_row_in_square : ℕ → ℕ → ℕ → Board → Result
unfolding at_cell row_in_square_at
one_row_in_square d r c b = at_cell r c (row_in_square_at d) b

unfoldable pub one_column_in_square : ℕ → ℕ → ℕ → Board → Result
unfolding at_cell column_in_square_at
one_column_in_square d r c b = at_cell r c (column_in_square_at d) b

unfoldable pub one_square_for_row : ℕ → ℕ → ℕ → Board → Result
unfolding at_cell square_for_row_at
one_square_for_row d r c b = at_cell r c (square_for_row_at d) b

unfoldable pub one_square_for_column : ℕ → ℕ → ℕ → Board → Result
unfolding at_cell square_for_column_at
one_square_for_column d r c b = at_cell r c (square_for_column_at d) b
