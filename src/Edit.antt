-- ===== src/Edit.antt =====
-- src/sudokuedit.c: the edit dialog. The user's work while the dialog is open is a list of events,
-- each at the place of the cell that has it, and the response that closes the dialog. Which cells
-- have a window, the library's key bindings and the success of `malloc` are arguments.
pub mod Spec
pub mod Loading
pub mod Session
pub mod Reading
pub mod Dialog
pub mod Layout
pub mod Contract
use gtksudoku.Prelude.{
  ℕ, zero, suc, ◌+◌, ◌*◌, Bool, true, not, ◌==◌, if◌then◌else◌, Option, none, some,
}
use gtksudoku.Prelude.{List, [], ◌∷◌, ◌++◌, pos, Outcome, done, fault, exited, ◌>>=◌}
use gtksudoku.Constants.{digits}
use gtksudoku.BoardText.{isboardchar, boardlen, boardchar2val, val2boardchar}
use gtksudoku.Cell.{Cell, Request, Event, KeyVal, handle}
use gtksudoku.Board
use gtksudoku.Board.{Board, update}

-- A `const char *`: the bytes from here up to the terminator. `none` is the null pointer, or one
-- behind the terminator; to read through it is a fault.
abbrev pub Pointer : Type 0
Pointer = Option (List ℕ)

abbrev pub deref : Pointer → Outcome ℕ
deref none = fault
deref (some []) = done 0
deref (some (c ∷ s)) = done c

abbrev pub advance : Pointer → Pointer
advance none = none
advance (some []) = none
advance (some (c ∷ s)) = some s

-- A place on the board, and what happens to the cell there.
abbrev pub CellEvent : Type 0
CellEvent = ℕ × ℕ × Event

pub data Response : Type 0 where
  apply cancel closed : Response

-- An event at a cell: its new contents, and its requests.
abbrev pub on_event : (KeyVal → Bool) → Bool → Event → Cell → Cell × List Request
on_event bindings window event cell =
    let handled = handle bindings window cell event in (handled.0, handled.1)

module _ (window : ℕ → ℕ → Bool) where
  -- The inner loop of `sudoku_dialog_set`, at a column with `left` columns to go.
  unfoldable pub set_cols : ℕ → ℕ → ℕ → Board → Pointer → Outcome (Board × Pointer)
  set_cols row zero col grid board = done (grid, board)
  set_cols row (suc left) col grid board = do
    c ← deref board
    grid' ←
        (if isboardchar c
          then Board.set_val window grid (pos row) (pos col) (pos (boardchar2val c)) (pos 0)
          else done grid)
    set_cols row left (col + 1) grid' (advance board)

  unfoldable pub set_rows : ℕ → ℕ → Board → Pointer → Outcome (Board × Pointer)
  set_rows zero row grid board = done (grid, board)
  set_rows (suc left) row grid board = do
    r ← set_cols row digits 0 grid board
    set_rows left (row + 1) r.0 r.1

  unfoldable pub sudoku_dialog_set : Board → Pointer → Outcome Board
  sudoku_dialog_set grid board =
      if not (boardlen board == digits * digits)
      then done grid
      else (do r ← set_rows digits 0 grid board; done r.0)

  -- `gtk_dialog_run`: the events reach the handlers of the cells, in their order.
  unfoldable pub run_events : (KeyVal → Bool) → Board → List CellEvent → Outcome Board
  run_events bindings grid [] = done grid
  run_events bindings grid ((row, col, event) ∷ events) = do
    grid' ← update grid row col (on_event bindings (window row col) event)
    run_events bindings grid' events

-- The loops that write the result, and the board, since reading it may warn.
unfoldable pub read_cols : ℕ → ℕ → ℕ → Board → Outcome (List ℕ × Board)
read_cols row zero col grid = done ([], grid)
read_cols row (suc left) col grid = do
  v ← Board.get_val grid (pos row) (pos col)
  rest ← read_cols row left (col + 1) v.1
  done (val2boardchar v.0 ∷ rest.0, rest.1)

unfoldable pub read_rows : ℕ → ℕ → Board → Outcome (List ℕ × Board)
read_rows zero row grid = done ([], grid)
read_rows (suc left) row grid = do
  cols ← read_cols row digits 0 grid
  rest ← read_rows left (row + 1) cols.1
  done (cols.0 ++ rest.0, rest.1)

-- `sudoku_edit_dialog`: `before` and `during` say which cells have a window before the dialog is
-- shown and while it runs. The result is the new string, or `none` for the null pointer.
unfoldable pub sudoku_edit_dialog :
    (ℕ → ℕ → Bool)
    → (ℕ → ℕ → Bool)
    → (KeyVal → Bool)
    → Bool
    → List CellEvent
    → Response
    → Pointer
    → Outcome (Option (List ℕ))
sudoku_edit_dialog before during bindings malloc_ok events response board = do
  grid ← sudoku_dialog_set before (Board.new true) board
  grid' ← run_events during bindings grid events
  elim response [
    | apply ↦
        (if not malloc_ok
          then exited 1
          else (do result ← read_rows digits 0 grid'; done (some result.0)))
    | cancel ↦ done none
    | closed ↦ done none
  ]
