-- ===== src/Cell/Class.antt =====
-- `SudokuCellClass` of src/sudokucell.h, with the members of its parent that src/sudokucell.c sets.
-- A widget's events reach the functions of its class.
use gtksudoku.Prelude.{ℕ, ◌≡◌, refl, Bool, false, List, ℤ}
use gtksudoku.Cell
use gtksudoku.Cell.{Cell, KeyVal, Request, Event, Handled, Preferred}
use gtksudoku.Cell.Draw.{Call, draw}

pub record CellClass : Type 0 where
  pub set_val : Bool → Cell → ℤ → ℤ → Cell × List Request
  pub get_val : Cell → ℤ
  pub draw : Cell → List Call × Bool
  pub get_preferred_width : ℕ → Preferred
  pub get_preferred_height : ℕ → Preferred
  pub focus_in_event : Bool → Cell → Handled
  pub focus_out_event : Bool → Cell → Handled
  pub button_press_event : Cell → Handled
  pub key_press_event : (KeyVal → Bool) → Bool → Cell → KeyVal → Handled

-- `sudoku_cell_draw`: the calls of `draw`, and `FALSE`, so that others may handle the event too.
unfoldable pub sudoku_cell_draw : Cell → List Call × Bool
sudoku_cell_draw cell = (draw cell, false)

-- `sudoku_cell_class_init`
unfoldable pub class_init : CellClass
class_init = record {
  set_val = Cell.set_val;
  get_val = Cell.get_val;
  draw = sudoku_cell_draw;
  get_preferred_width = Cell.get_preferred_width;
  get_preferred_height = Cell.get_preferred_height;
  focus_in_event = Cell.on_focus_in;
  focus_out_event = Cell.on_focus_out;
  button_press_event = Cell.on_button_press;
  key_press_event = Cell.on_key_press;
}

-- `SUDOKU_CELL_GET_CLASS`: every cell is of the one class.
unfoldable pub get_class : Cell → CellClass
unfolding class_init
get_class cell = class_init

-- An event of a widget calls the member of its class that belongs to it.
unfoldable pub dispatch : CellClass → (KeyVal → Bool) → Bool → Cell → Event → Handled
dispatch class bindings window cell Cell.focus_in = class.focus_in_event window cell
dispatch class bindings window cell Cell.focus_out = class.focus_out_event window cell
dispatch class bindings window cell Cell.button_press = class.button_press_event cell
dispatch class bindings window cell (Cell.key_press key) =
    class.key_press_event bindings window cell key

pub handle-dispatch :
    (bindings : KeyVal → Bool) (window : Bool) (cell : Cell) (event : Event)
    → Cell.handle bindings window cell event ≡ dispatch (get_class cell) bindings window cell event
unfolding Cell.handle dispatch get_class
handle-dispatch bindings window cell Cell.focus_in = refl
handle-dispatch bindings window cell Cell.focus_out = refl
handle-dispatch bindings window cell Cell.button_press = refl
handle-dispatch bindings window cell (Cell.key_press key) = refl
