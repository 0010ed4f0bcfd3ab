-- ===== src/Board/Class.antt =====
-- `SudokuBoardClass` of src/sudokuboard.h: what a board can do, and what the header promises of it.
use gtksudoku.Prelude.{
  ℕ, ◌<◌, ◌≡◌, Bool, ◌&&◌, ◌==◌, if◌then◌else◌, List, [], ◌∷◌, ℤ, pos, Outcome, done, arith,
}
use gtksudoku.Constants.{digits}
use gtksudoku.Tools.Files.{codes}
use gtksudoku.Cell.{and_all}
use gtksudoku.Board
use gtksudoku.Board.{Board}
use gtksudoku.Board.Laws.{IsBoard, set_val_inside, get_val_inside}

pub record BoardClass : Type 0 where
  pub set_val : (ℕ → ℕ → Bool) → Board → ℤ → ℤ → ℤ → ℤ → Outcome Board
  pub get_val : Board → ℤ → ℤ → Outcome (ℤ × Board)

pub data ParamType : Type 0 where
  g_type_int : ParamType

-- A signal as `g_signal_new` registers it: its name, and the types of its parameters.
pub record Signal : Type 0 where
  pub name : List ℕ
  pub params : List ParamType

-- `SUDOKU_BOARD_CHANGED_SIGNAL_NAME`
abbrev pub changed_signal_name : List ℕ
changed_signal_name = codes "sudoku-board-changed"

-- The type of a callback for the signal is that of `set_val`, for a state of the callback's own.
abbrev pub SignalCallback : Type 0 → Type 0
SignalCallback State = Board → ℤ → ℤ → ℤ → ℤ → State → State

-- `sudoku_board_init`: a board is made empty, its cells come with `sudoku_board_new`.
unfoldable pub sudoku_board_init : Board → Board
sudoku_board_init board = board

-- `sudoku_board_class_init`: the class and its signal.
unfoldable pub class_init : BoardClass × Signal
class_init = (
  record { set_val = Board.set_val; get_val = Board.get_val },
  record {
    name = changed_signal_name;
    params = g_type_int ∷ g_type_int ∷ g_type_int ∷ g_type_int ∷ [];
  },
)

-- `SUDOKU_BOARD_GET_CLASS`: every board is of the one class.
unfoldable pub get_class : Board → BoardClass
unfolding class_init
get_class board = class_init.0

-- What a client of a board relies on, for the boards that satisfy an invariant: a value that is set
-- is the value that is got, as a set of nine digits, and the other cells keep theirs.
pub record BoardContract (class : BoardClass) (Inv : Board → Type 0) : Type 0 where
  pub set_get :
      (window : ℕ → ℕ → Bool) (b : Board) (r c : ℕ) (v m : ℤ)
      → Inv b
      → r < digits
      → c < digits
      → (b' : Board) × (class.set_val window b (pos r) (pos c) v m ≡ done b')
        × Inv b'
        × ((i j : ℕ)
            → i < digits
            → j < digits
            → (g : ℤ) × (class.get_val b (pos i) (pos j) ≡ done (g, b))
              × (class.get_val b' (pos i) (pos j)
                  ≡ done (if i == r && j == c then pos (and_all v) else g, b')))

-- The class of the program keeps the contract, for editable boards and for others.
pub class_init-BoardContract : (e : Bool) → BoardContract class_init.0 (λ b. IsBoard e b.rows)
unfolding class_init
class_init-BoardContract e = record {
  set_get = λ window b r c v m ok p q.
      let (b', returns, formed, values) = set_val_inside window e b r c v m ok p q in
      (
        b',
        returns,
        formed,
        λ i j s t.
            let (g, le, here, got) = get_val_inside e b i j ok s t in
            let (g', le', here', got') = get_val_inside e b' i j formed s t in
            (pos g, got, ground (arith, here, here', got', values i j)),
      );
}
