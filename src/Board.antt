-- ===== src/Board.antt =====
-- src/sudokuboard.c: the 9 by 9 table of cells. The array of pointers is a list of rows; each of
-- its cells is made by `new` and stands in one place, so a write through a pointer is a write to
-- that place. A missing entry would be a pointer that was never set, and reading it is a fault.
pub mod Grid
pub mod Laws
pub mod Writes
pub mod Class
use gtksudoku.Prelude.{
  ℕ, zero, suc, ◌+◌, Bool, true, false, ◌&&◌, Option, none, some, List, [], ◌∷◌,
}
use gtksudoku.Prelude.{◌++◌, map, ltb, if◌then◌else◌, ℤ, pos, negsuc, get_elem?, set}
use gtksudoku.Prelude.{Outcome, done, ◌>>=◌, or_fault}
use gtksudoku.Constants.{digits}
use gtksudoku.Cell
use gtksudoku.Cell.{Cell, Request, critical_warning}

-- `SudokuCell *board[DIGITS][DIGITS]`, with the requests made so far, the oldest first.
pub record Board : Type 0 where
  pub rows : List (List Cell)
  pub requests : List Request

unfoldable pub cell_at : List (List Cell) → ℕ → ℕ → Option Cell
cell_at rows row col = elim (get_elem? rows row) [ none ↦ none | some cells ↦ get_elem? cells col ]

unfoldable pub put_cell : List (List Cell) → ℕ → ℕ → Cell → List (List Cell)
put_cell rows row col cell = elim (get_elem? rows row) [
  | none ↦ rows
  | some cells ↦ set rows row (set cells col cell)
]

-- `i >= 0 && i < DIGITS`: the index as an array index.
unfoldable pub index : ℤ → Option ℕ
index (pos i) = if ltb i digits then some i else none
index (negsuc i) = none

-- A handler's work on the cell at a place: its new contents and its requests.
unfoldable pub update : Board → ℕ → ℕ → (Cell → Cell × List Request) → Outcome Board
unfolding cell_at put_cell
update board row col change = do
  cell ← or_fault (cell_at board.rows row col)
  let (cell', requests) = change cell
  done (record { rows = put_cell board.rows row col cell'; requests = board.requests ++ requests })

-- The guards of both functions below: `g_return_if_fail` warns, and leaves the function.
unfoldable pub warn : Board → Board
warn board = record board { requests = board.requests ++ critical_warning ∷ [] }

-- `sudoku_board_set_val`; `window` says which cells have a window.
unfoldable pub set_val : (ℕ → ℕ → Bool) → Board → ℤ → ℤ → ℤ → ℤ → Outcome Board
set_val window board row col val mode = elim (index row) [
  | none ↦ done (warn board)
  | some r ↦ elim (index col) [
    | none ↦ done (warn board)
    | some c ↦ update board r c (λ cell. Cell.set_val (window r c) cell val mode)
  ]
]

-- `sudoku_board_get_val`, with the board since the guards may warn.
unfoldable pub get_val : Board → ℤ → ℤ → Outcome (ℤ × Board)
get_val board row col = elim (index row) [
  | none ↦ done (negsuc 0, warn board)
  | some r ↦ elim (index col) [
    | none ↦ done (negsuc 0, warn board)
    | some c ↦ do cell ← or_fault (cell_at board.rows r c); done (Cell.get_val cell, board)
  ]
]

-- The loops of `sudoku_board_new`: the columns of a row, and the rows.
unfoldable pub new_row : Bool → ℕ → ℕ → ℕ → List Cell × List Request
new_row editable row zero col = ([], [])
new_row editable row (suc left) col =
    let (cell, made) = Cell.new row col editable in
    let (cells, rest) = new_row editable row left (col + 1) in (cell ∷ cells, made ++ rest)

unfoldable pub new_rows : Bool → ℕ → ℕ → List (List Cell) × List Request
unfolding new_row
new_rows editable zero row = ([], [])
new_rows editable (suc left) row =
    let (cells, made) = new_row editable row digits 0 in
    let (rows, rest) = new_rows editable left (row + 1) in (cells ∷ rows, made ++ rest)

-- `sudoku_board_new`; packing the cells into the table is left to the library.
unfoldable pub new : Bool → Board
unfolding new_rows
new editable =
    let (rows, requests) = new_rows editable digits 0 in record { rows = rows; requests = requests }
