-- ===== src/Interp/Callbacks.antt =====
-- The functions of src/interp.c that the script calls, and their ends in src/gtksudoku.c and
-- src/showtext.c: setting a cell of the board, editing a board, showing a text.
use gtksudoku.Prelude.{ℕ, ◌+◌, ◌<◌, ◌≡◌, Bool, ◌&&◌, Option, none, some, List, ◌==◌}
use gtksudoku.Prelude.{length, if◌then◌else◌, ℤ, pos, Outcome, done, exited, ◌>>=◌}
use gtksudoku.Constants.{digits}
use gtksudoku.Cell
use gtksudoku.Cell.{KeyVal}
use gtksudoku.Board
use gtksudoku.Board.{Board}
use gtksudoku.Board.Laws.{IsBoard, value_at, set_val_inside}
use gtksudoku.Edit.{CellEvent, Response, sudoku_edit_dialog}

-- The arguments of a call, as the library answers for them: `luaL_checkint` (`none` is an error
-- that it raises, which ends the call), `lua_toboolean` and `lua_tostring`.
pub record Frame : Type 0 where
  pub checkint : ℕ → Option ℤ
  pub toboolean : ℕ → Bool
  pub tostring : ℕ → Option (List ℕ)

-- `interp_set_val` of src/gtksudoku.c, on the board of the main window.
unfoldable pub interp_set_val : (ℕ → ℕ → Bool) → Board → ℤ → ℤ → ℤ → ℤ → Outcome Board
interp_set_val window board row col val mode = Board.set_val window board row col val mode

-- `set_val`: the board, or `none` if the call ends with an error of the library.
unfoldable pub set_val : (ℕ → ℕ → Bool) → Frame → Board → Outcome (Option Board)
set_val window frame board = elim (frame.checkint 1) [
  | none ↦ done none
  | some row ↦ elim (frame.checkint 2) [
    | none ↦ done none
    | some col ↦ elim (frame.checkint 3) [
      | none ↦ done none
      | some val ↦ do
        let mode = if frame.toboolean 4 then pos 1 else pos 0
        board' ← interp_set_val window board row col val mode
        done (some board')
    ]
  ]
]

-- `interp_edit` of src/gtksudoku.c, and `edit`: the string that it pushes, or `none` for nil. The
-- user's work in the dialog and the rest of its surroundings are arguments.
unfoldable pub interp_edit :
    (ℕ → ℕ → Bool)
    → (ℕ → ℕ → Bool)
    → (KeyVal → Bool)
    → Bool
    → List CellEvent
    → Response
    → Option (List ℕ)
    → Outcome (Option (List ℕ))
interp_edit before during bindings malloc_ok events response board =
    sudoku_edit_dialog before during bindings malloc_ok events response board

unfoldable pub edit :
    (ℕ → ℕ → Bool)
    → (ℕ → ℕ → Bool)
    → (KeyVal → Bool)
    → Bool
    → List CellEvent
    → Response
    → Frame
    → Outcome (Option (List ℕ))
unfolding interp_edit
edit before during bindings malloc_ok events response frame =
    interp_edit before during bindings malloc_ok events response (frame.tostring 1)

-- `show` and `interp_show`: the text of the dialog, if one is shown; the text is cloned first.
unfoldable pub show : (ℕ → Bool) → Frame → Outcome (Option (List ℕ))
show malloc_ok frame = elim (frame.tostring 1) [
  | none ↦ done none
  | some text ↦ (if malloc_ok (length text + 1) then done (some text) else exited 1)
]

-- A call `set_val(row, col, val, mode)` of the script, with three integers of which the first two
-- are a place of a well-formed board: the board stays well formed, the cell there holds the lowest
-- nine bits of the value, and no other cell changes what it holds.
pub set_val_callback :
    (window : ℕ → ℕ → Bool) (e : Bool) (board : Board) (frame : Frame) (r c : ℕ) (v : ℤ)
    → IsBoard e board.rows
    → r < digits
    → c < digits
    → frame.checkint 1 ≡ some (pos r)
    → frame.checkint 2 ≡ some (pos c)
    → frame.checkint 3 ≡ some v
    → (board' : Board) × (set_val window frame board ≡ done (some board'))
      × IsBoard e board'.rows
      × ((i j : ℕ)
          → value_at board'.rows i j
            ≡ (if i == r && j == c then some (Cell.and_all v) else value_at board.rows i j))
unfolding set_val interp_set_val
set_val_callback window e board frame r c v ok p q a1 a2 a3 =
    let m = if frame.toboolean 4 then pos 1 else pos 0 in
    let (board', returns, formed, values) = set_val_inside window e board r c v m ok p q in
    (board', rw (set_val, a1, a2, a3, returns), formed, values)
